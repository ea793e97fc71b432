-- ===== src/Prelude/Actions.antt =====
-- Actions in sequence: an exception ends the sequence and keeps what was done before it.
use mathlib.Core.Path.{◌≡◌, ap, refl, subst}
use native.Mathlib.Omega.{arith}
use agent_manager.Prelude.Outcome.{Result, ok, err, Exec}

module _ {ℓ} {S E A : Type ℓ} where
  abbrev pub pure : A → Exec S E A
  pure a s = (ok a, s)

  abbrev pub raise : E → Exec S E A
  raise e s = (err e, s)

module _ {ℓ} {S E A B : Type ℓ} where
  abbrev pub continue : Result E A → (A → Exec S E B) → Exec S E B
  continue (ok a) f s = f a s
  continue (err e) f s = (err e, s)

  infixl 10 ◌>>=◌ ◌>>◌
  abbrev pub ◌>>=◌ : Exec S E A → (A → Exec S E B) → Exec S E B
  ◌>>=◌ m f s = let (r, s') = m s in continue r f s'

  abbrev pub ◌>>◌ : Exec S E A → Exec S E B → Exec S E B
  m >> n = m >>= λ a. n

-- The first action of a sequence, once its outcome is known.
module _ {ℓ} {S E A B : Type ℓ} (m : Exec S E A) (f : A → Exec S E B) (s : S) {s' : S} where
  pub bind-ok : {a : A} → m s ≡ (ok a, s') → (m >>= f) s ≡ f a s'
  bind-ok e = ap (λ p. continue p.0 f p.1) e

  pub bind-err : {e : E} → m s ≡ (err e, s') → (m >>= f) s ≡ (err e, s')
  bind-err e = ap (λ p. continue p.0 f p.1) e

-- A sequence that returns: its first action returns, and so does the rest.
module _ {ℓ} {S E A B : Type ℓ} where
  pub continue-inv :
      (p : Result E A × S) (f : A → Exec S E B) {b : B} {t : S}
      → continue p.0 f p.1 ≡ (ok b, t)
      → (a : A) × (s : S) × (p ≡ (ok a, s)) × (f a s ≡ (ok b, t))
  continue-inv (ok a, s) f h = (a, s, refl, h)
  continue-inv (err e, s) f h = absurd (err-ok (ap (λ p. p.0) h))
    where
      err-ok : {b : B} → ◌≡◌ {A = Result E B} (err e) (ok b) → ⊥
      err-ok h = ground (arith, h)

-- Each way that an action returns ends with `P`.
module _ {ℓ} {S E A : Type ℓ} where
  abbrev pub Ends : (S → Type ℓ) → Exec S E A → Type ℓ
  Ends P m = (s : S) (a : A) (t : S) → m s ≡ (ok a, t) → P t

-- A sequence ends with `P` if the rest of it does.
pub Ends-bind {ℓ} :
    {S E A B : Type ℓ} (P : S → Type ℓ) (m : Exec S E A) (f : A → Exec S E B)
    → ((a : A) → Ends P (f a))
    → Ends P (m >>= f)
Ends-bind P m f ends s b t h =
    let (a, s', first, rest) = continue-inv (m s) f h in ends a s' b t rest

-- An action that keeps `P`.
module _ {ℓ} {S E A : Type ℓ} where
  abbrev pub Carries : (S → Type ℓ) → Exec S E A → Type ℓ
  Carries P m = (s : S) → P s → P (m s).1

pub Ends-carried {ℓ} :
    {S E A B : Type ℓ} (P : S → Type ℓ) (m : Exec S E A) (f : A → Exec S E B)
    → Ends P m
    → ((a : A) → Carries P (f a))
    → Ends P (m >>= f)
Ends-carried P m f ends carries s b t h =
    let (a, s', first, rest) = continue-inv (m s) f h in
    subst P (ap (λ p. p.1) rest) (carries a s' (ends s a s' first))

module _ {ℓ} {S E A B : Type ℓ} (P : S → Type ℓ) where
  Carries-continue :
      (f : A → Exec S E B) (p : Result E A × S)
      → ((a : A) → Carries P (f a))
      → P p.1
      → P (continue p.0 f p.1).1
  Carries-continue f (ok a, s) rest at = rest a s at
  Carries-continue f (err e, s) rest at = at

  pub Carries-bind :
      (m : Exec S E A) (f : A → Exec S E B)
      → Carries P m
      → ((a : A) → Carries P (f a))
      → Carries P (m >>= f)
  Carries-bind m f first rest s at = Carries-continue f (m s) rest (first s at)
