-- ===== src/Prelude/Fractions.antt =====
-- A quotient of natural numbers, in place of a float: it is compared, never rounded.
use Prim.Native.Nat.{ℕ, ◌*◌}
use mathlib.Core.Bool.{Bool}
use agent_manager.Prelude.Tests.{leb}

pub record Fraction : Type 0 where
  pub numerator : ℕ
  pub denominator : ℕ

-- `x >= y`
unfoldable pub at_least : Fraction → Fraction → Bool
at_least x y = leb (y.numerator * x.denominator) (x.numerator * y.denominator)
