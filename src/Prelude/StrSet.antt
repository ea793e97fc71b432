-- ===== src/Prelude/StrSet.antt =====
-- Python's `set` of strings, of which the program asks membership only.
use Prim.Native.Nat.{◌+◌, ◌≤◌}
use Prim.Native.String.{String}
use mathlib.Core.Path.{◌≡◌, refl, subst}
use mathlib.Core.Logic.{inl, inr}
use mathlib.Core.Bool.{Bool, true, false}
use mathlib.Core.List.{List, [], ◌∷◌, ◌++◌}
use native.Mathlib.Omega.{arith}
use text.Mathlib.Text.{◌==◌}
use text.Mathlib.TextEquality.{eq_iff}
use agent_manager.Prelude.Tests.{if◌then◌else◌, Bool-cases}
use agent_manager.Prelude.Lists.{All, length}
use text.Mathlib.TextPositions.{eq_refl}

abbrev pub StrSet : Type 0
StrSet = List String

-- `k in s`
unfoldable pub member : StrSet → String → Bool
member [] k = false
member (j ∷ s) k = if j == k then true else member s k

-- `s.add(k)`
unfoldable pub add : StrSet → String → StrSet
add s k = if member s k then s else k ∷ s

-- `s.discard(k)`
unfoldable pub discard : StrSet → String → StrSet
discard [] k = []
discard (j ∷ s) k = let rest = discard s k in if j == k then rest else j ∷ rest

pub member-add :
    (s : StrSet) (k j : String) → member (add s k) j ≡ (if k == j then true else member s j)
unfolding member add
member-add s k j = ground (arith, eq_iff k j)

pub member-discard :
    (s : StrSet) (k j : String) → member (discard s k) j ≡ (if k == j then false else member s j)
unfolding member discard
member-discard [] k j = ground arith
member-discard (i ∷ s) k j =
    ground (arith, eq_iff k j, eq_iff i k, eq_iff i j, member-discard s k j)

pub length-add : (s : StrSet) (k : String) → length (add s k) ≤ length s + 1
unfolding add
length-add s k = ground arith

pub length-discard : (s : StrSet) (k : String) → length (discard s k) ≤ length s
unfolding discard
length-discard [] k = omega arith
length-discard (j ∷ s) k = ground (arith, length-discard s k)

pub member-cons :
    (j : String) (s : StrSet) (k : String) → member s k ≡ true → member (j ∷ s) k ≡ true
unfolding member
member-cons j s k h = ground arith

pub member-append :
    (s t : StrSet) (k : String) → member (s ++ t) k ≡ (if member s k then true else member t k)
unfolding member
member-append [] t k = refl
member-append (j ∷ s) t k = ground (arith, member-append s t k)

module _ {ℓ} (P : String → Type ℓ) where
  pub All-of_member : (s : StrSet) → ((v : String) → member s v ≡ true → P v) → All P s
  unfolding member
  All-of_member [] h = tt
  All-of_member (j ∷ s) h =
      (h j (rw (eq_refl j)), All-of_member s (λ v m. h v (member-cons j s v m)))

  pub All-member : (s : StrSet) (v : String) → All P s → member s v ≡ true → P v
  unfolding member
  All-member [] v a m = cc
  All-member (j ∷ s) v a m = elim (Bool-cases (j == v)) [
    | inl same ↦ subst P ((eq_iff j v).0 same) a.0
    | inr other ↦ All-member s v a.1 (rw (member, other) at m)
  ]
