-- ===== src/Prelude/Dict.antt =====
-- Python's `dict` with string keys: the entries in the order of insertion. An assignment to a key
-- that is present keeps its place.
use Prim.Native.String.{String}
use mathlib.Core.Path.{◌≡◌, refl}
use mathlib.Core.Bool.{Bool, true, false}
use mathlib.Core.Option.{Option, none, some}
use mathlib.Core.List.{List, [], ◌∷◌}
use native.Mathlib.Omega.{arith}
use text.Mathlib.Text.{◌==◌}
use text.Mathlib.TextEquality.{eq_iff}
use agent_manager.Prelude.StrSet.{member}
use agent_manager.Prelude.Tests.{if◌then◌else◌}

abbrev pub Dict {ℓ} : Type ℓ → Type ℓ
Dict V = List (String × V)

module _ {ℓ} {V : Type ℓ} where
  -- `d.get(k)`
  unfoldable pub get : Dict V → String → Option V
  get [] k = none
  get ((j, v) ∷ d) k = if j == k then some v else get d k

  -- `k in d`
  unfoldable pub contains : Dict V → String → Bool
  contains [] k = false
  contains ((j, v) ∷ d) k = if j == k then true else contains d k

  -- `d[k] = v`
  unfoldable pub put : Dict V → String → V → Dict V
  put [] k v = (k, v) ∷ []
  put ((j, w) ∷ d) k v = if j == k then (j, v) ∷ d else (j, w) ∷ put d k v

  -- `d.pop(k, None)`
  unfoldable pub remove : Dict V → String → Dict V
  remove [] k = []
  remove ((j, w) ∷ d) k = let rest = remove d k in if j == k then rest else (j, w) ∷ rest

  -- `d.keys()` and `d.values()`
  unfoldable pub keys : Dict V → List String
  keys [] = []
  keys ((j, v) ∷ d) = j ∷ keys d

  unfoldable pub values : Dict V → List V
  values [] = []
  values ((j, v) ∷ d) = v ∷ values d

  pub get-put :
      (d : Dict V) (k j : String) (v : V) → get (put d k v) j ≡ (if k == j then some v else get d j)
  unfolding get put
  get-put [] k j v = refl
  get-put ((i, w) ∷ d) k j v = ground (arith, eq_iff k j, eq_iff i k, eq_iff i j, get-put d k j v)

  pub get-remove :
      (d : Dict V) (k j : String) → get (remove d k) j ≡ (if k == j then none else get d j)
  unfolding get remove
  get-remove [] k j = ground arith
  get-remove ((i, w) ∷ d) k j = ground (arith, eq_iff k j, eq_iff i k, eq_iff i j, get-remove d k j)

  abbrev pub is_some : Option V → Bool
  is_some none = false
  is_some (some v) = true

  pub contains-get : (d : Dict V) (k : String) → contains d k ≡ is_some (get d k)
  unfolding get contains
  contains-get [] k = refl
  contains-get ((i, w) ∷ d) k = ground (arith, contains-get d k)

  pub contains-put :
      (d : Dict V) (k j : String) (v : V)
      → contains (put d k v) j ≡ (if k == j then true else contains d j)
  contains-put d k j v =
      ground (arith, contains-get (put d k v) j, contains-get d j, get-put d k j v)

pub member-keys {ℓ} : {V : Type ℓ} (d : Dict V) (k : String) → member (keys d) k ≡ contains d k
unfolding keys contains member
member-keys [] k = refl
member-keys ((j, v) ∷ d) k = ground (arith, member-keys d k)

pub ruleset dict_laws = (get-put, get-remove, contains-get)
