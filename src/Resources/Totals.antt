-- ===== src/Resources/Totals.antt =====
-- Sums over the values of a dictionary whose keys are distinct.
use agent_manager.Prelude.Dict
use agent_manager.Prelude.Dict.{Dict}
use agent_manager.Prelude.{
  ℕ, suc, ◌+◌, ◌≤◌, String, ◌≡◌, refl, true, false, [], ◌∷◌, length, arith, str_eq, eq_iff, eq_refl,
  inl, inr, Bool-cases,
}

-- `sum(amount(x) for x in d.values())`
unfoldable pub total {ℓ} : {V : Type ℓ} → (V → ℕ) → Dict V → ℕ
total amount [] = 0
total amount ((k, v) ∷ d) = amount v + total amount d

unfoldable pub IsDistinct {ℓ} : {V : Type ℓ} → Dict V → Type 0
IsDistinct [] = Unit
IsDistinct ((k, v) ∷ d) = (Dict.contains d k ≡ false) × IsDistinct d

module _ {ℓ} {V : Type ℓ} where
  pub total-put :
      (amount : V → ℕ) (d : Dict V) (k : String) (v : V)
      → Dict.contains d k ≡ false
      → total amount (Dict.put d k v) ≡ total amount d + amount v
  unfolding total Dict.put Dict.contains
  total-put amount [] k v fresh = omega arith
  total-put amount ((j, w) ∷ d) k v fresh = ground (arith, total-put amount d k v)

  pub total-remove :
      (amount : V → ℕ) (d : Dict V) (k : String) → total amount (Dict.remove d k) ≤ total amount d
  unfolding total Dict.remove
  total-remove amount [] k = omega arith
  total-remove amount ((j, w) ∷ d) k = ground (arith, total-remove amount d k)

  pub remove-absent : (d : Dict V) (k : String) → Dict.contains d k ≡ false → Dict.remove d k ≡ d
  unfolding Dict.remove Dict.contains
  remove-absent [] k absent = refl
  remove-absent ((j, w) ∷ d) k absent = ground (arith, remove-absent d k)

  pub remove-put :
      (d : Dict V) (k : String) (v : V)
      → Dict.contains d k ≡ false
      → Dict.remove (Dict.put d k v) k ≡ d
  unfolding Dict.remove Dict.put Dict.contains
  remove-put [] k v fresh = ground (arith, eq_refl k)
  remove-put ((j, w) ∷ d) k v fresh = ground (arith, remove-put d k v)

  pub length-put :
      (d : Dict V) (k : String) (v : V)
      → Dict.contains d k ≡ false
      → length (Dict.put d k v) ≡ suc (length d)
  unfolding Dict.put Dict.contains
  length-put [] k v fresh = omega arith
  length-put ((j, w) ∷ d) k v fresh = ground (arith, length-put d k v)

  pub contains-remove :
      (d : Dict V) (k j : String)
      → Dict.contains d j ≡ false
      → Dict.contains (Dict.remove d k) j ≡ false
  unfolding Dict.remove Dict.contains
  contains-remove [] k j absent = refl
  contains-remove ((i, w) ∷ d) k j absent = ground (arith, contains-remove d k j)

  pub IsDistinct-put :
      (d : Dict V) (k : String) (v : V) → IsDistinct d → IsDistinct (Dict.put d k v)
  unfolding IsDistinct Dict.put Dict.contains
  IsDistinct-put [] k v distinct = (refl, tt)
  IsDistinct-put ((j, w) ∷ d) k v distinct = elim (Bool-cases (str_eq j k)) [
    | inl same ↦ rw same distinct
    | inr other ↦ rw other (
      ground (arith, Dict.contains-put d k j v, eq_iff k j, eq_iff j k, distinct.0),
      IsDistinct-put d k v distinct.1,
    )
  ]

  pub IsDistinct-remove : (d : Dict V) (k : String) → IsDistinct d → IsDistinct (Dict.remove d k)
  unfolding IsDistinct Dict.remove
  IsDistinct-remove [] k distinct = tt
  IsDistinct-remove ((j, w) ∷ d) k distinct = elim (Bool-cases (str_eq j k)) [
    | inl same ↦ rw same (IsDistinct-remove d k distinct.1)
    | inr other ↦ rw other (contains-remove d k j distinct.0, IsDistinct-remove d k distinct.1)
  ]

  pub length-remove :
      (d : Dict V) (k : String)
      → IsDistinct d
      → Dict.contains d k ≡ true
      → suc (length (Dict.remove d k)) ≡ length d
  unfolding IsDistinct Dict.remove Dict.contains
  length-remove [] k distinct present = cc
  length-remove ((j, w) ∷ d) k distinct present =
      ground (arith, length-remove d k distinct.1, remove-absent d j distinct.0, eq_iff j k)
