-- ===== src/TaskPlan.antt =====
-- domain/task_plan.py, `TaskPlan.validate_dependencies` and `validate_verification`, on the fields of an
-- item that they read.
use agent_manager.Prelude.StrSet.{StrSet, member, add, member-add, length-add}
use agent_manager.Prelude.{
  ℕ, suc, ◌+◌, ◌≤◌, String, ◌≡◌, ◌↔◌, refl, Bool, true, false, not, ◌&&◌, Result, ok, err, List, [],
  ◌∷◌, ◌++◌, length, All, arith, ◌==◌, if◌then◌else◌, str_eq, eq_iff, inl, inr, Bool-cases,
}
mod Tests

pub record TaskPlanItem : Type 0 where
  pub id : String
  pub dependencies : List String
  pub verification : String

-- What the message of the ValueError is made of.
pub data PlanError : Type 0 where
  duplicate_ids : List String → PlanError
  invalid_dependencies : List (String × String) → PlanError
  missing_verification : List String → PlanError

-- `{item.id for item in self.items}`
unfoldable pub valid_ids : List TaskPlanItem → StrSet
valid_ids [] = []
valid_ids (item ∷ items) = add (valid_ids items) item.id

-- The loop for the duplicates.
unfoldable pub duplicates :
    (seen : StrSet) → (found : List String) → List TaskPlanItem → List String
duplicates seen found [] = found
duplicates seen found (item ∷ items) =
    duplicates (add seen item.id)
      (if member seen item.id && not (member found item.id) then found ++ item.id ∷ [] else found)
      items

-- The inner loop for the errors, and the outer one.
unfoldable pub dangling : StrSet → String → List String → List (String × String)
dangling ids id [] = []
dangling ids id (dep ∷ deps) =
    let rest = dangling ids id deps in if member ids dep then rest else (id, dep) ∷ rest

unfoldable pub all_dangling : StrSet → List TaskPlanItem → List (String × String)
unfolding dangling
all_dangling ids [] = []
all_dangling ids (item ∷ items) = dangling ids item.id item.dependencies ++ all_dangling ids items

unfoldable pub validate_dependencies : List TaskPlanItem → Result PlanError (Unit {0})
unfolding valid_ids duplicates all_dangling
validate_dependencies items =
    if not (length (valid_ids items) == length items)
    then err (duplicate_ids (duplicates [] [] items))
    else elim (all_dangling (valid_ids items) items) [
      | [] ↦ ok tt
      | e ∷ es ↦ err (invalid_dependencies (e ∷ es))
    ]

unfoldable pub unverified : List TaskPlanItem → List String
unverified [] = []
unverified (item ∷ items) =
    let rest = unverified items in if str_eq item.verification "" then item.id ∷ rest else rest

unfoldable pub validate_verification : List TaskPlanItem → Result PlanError (Unit {0})
unfolding unverified
validate_verification items = elim (unverified items) [
  | [] ↦ ok tt
  | i ∷ is ↦ err (missing_verification (i ∷ is))
]

-- Some item has the id.
abbrev pub has_id : List TaskPlanItem → String → Bool
has_id [] k = false
has_id (item ∷ items) k = if str_eq item.id k then true else has_id items k

abbrev pub HasDistinctIds : List TaskPlanItem → Type 0
HasDistinctIds [] = Unit
HasDistinctIds (item ∷ items) = (has_id items item.id ≡ false) × HasDistinctIds items

member-valid_ids :
    (items : List TaskPlanItem) (k : String) → member (valid_ids items) k ≡ has_id items k
unfolding valid_ids member
member-valid_ids [] k = refl
member-valid_ids (item ∷ items) k =
    ground (arith, member-add (valid_ids items) item.id k, member-valid_ids items k)

length-valid_ids : (items : List TaskPlanItem) → length (valid_ids items) ≤ length items
unfolding valid_ids
length-valid_ids [] = omega arith
length-valid_ids (item ∷ items) =
    omega (arith, length-add (valid_ids items) item.id, length-valid_ids items)

length-HasDistinctIds :
    (items : List TaskPlanItem) → (length (valid_ids items) ≡ length items) ↔ HasDistinctIds items
unfolding valid_ids add
length-HasDistinctIds [] = (λ e. tt, λ d. refl)
length-HasDistinctIds (item ∷ items) = elim (Bool-cases (has_id items item.id)) [
  | inl old ↦
      rw (add, member-valid_ids items item.id, old)
        (λ e. absurd (omega (arith, e, length-valid_ids items)), λ d. cc)
  | inr new ↦
      rw (add, member-valid_ids items item.id, new)
        (
          λ e. (refl, (length-HasDistinctIds items).0 (omega (arith, e))),
          λ d. omega (arith, (length-HasDistinctIds items).1 d.1),
        )
]

abbrev pub Refers : List TaskPlanItem → TaskPlanItem → Type 0
Refers items item = All (λ dep. has_id items dep ≡ true) item.dependencies

dangling-All :
    (all : List TaskPlanItem) (id : String) (deps : List String)
    → (dangling (valid_ids all) id deps ≡ []) ↔ All (λ dep. has_id all dep ≡ true) deps
unfolding dangling
dangling-All all id [] = (λ e. tt, λ a. refl)
dangling-All all id (dep ∷ deps) = elim (Bool-cases (has_id all dep)) [
  | inl there ↦
      rw (dangling, member-valid_ids all dep, there)
        (λ e. (refl, (dangling-All all id deps).0 e), λ a. (dangling-All all id deps).1 a.1)
  | inr absent ↦ rw (dangling, member-valid_ids all dep, absent) (λ e. cc, λ a. cc)
]

append-empty : {A : Type 0} (xs ys : List A) → (xs ++ ys ≡ []) ↔ ((xs ≡ []) × (ys ≡ []))
append-empty [] ys = (λ e. (refl, e), λ p. p.1)
append-empty (x ∷ xs) ys = (λ e. cc, λ p. cc)

all_dangling-All :
    (all items : List TaskPlanItem)
    → (all_dangling (valid_ids all) items ≡ []) ↔ All (Refers all) items
unfolding all_dangling
all_dangling-All all [] = (λ e. tt, λ a. refl)
all_dangling-All all (item ∷ items) =
    let both =
      append-empty (dangling (valid_ids all) item.id item.dependencies)
        (all_dangling (valid_ids all) items) in
    let own = dangling-All all item.id item.dependencies in
    let rest = all_dangling-All all items in
    (λ e. (own.0 (both.0 e).0, rest.0 (both.0 e).1), λ a. both.1 (own.1 a.0, rest.1 a.1))

accepts_empty :
    (es : List (String × String))
    → ((elim es as (λ l. Result PlanError (Unit {0})) [
      | [] ↦ ok tt
      | e ∷ rest ↦ err (invalid_dependencies (e ∷ rest))
    ])
        ≡ ok tt)
      ↔ (es ≡ [])
accepts_empty [] = (λ e. refl, λ e. refl)
accepts_empty (e ∷ es) = (λ h. cc, λ h. cc)

-- A plan's dependencies are accepted exactly if no two items have one id and every dependency of
-- every item is the id of an item.
pub validate_dependencies-Iff :
    (items : List TaskPlanItem)
    → (validate_dependencies items ≡ ok tt) ↔ (HasDistinctIds items × All (Refers items) items)
unfolding validate_dependencies
validate_dependencies-Iff items =
    let distinct = length-HasDistinctIds items in
    let known = all_dangling-All items items in
    let accepts = accepts_empty (all_dangling (valid_ids items) items) in
    elim (Bool-cases (length (valid_ids items) == length items)) [
      | inl same ↦
          rw same
            (λ h. (distinct.0 (ground arith), known.0 (accepts.0 h)), λ p. accepts.1 (known.1 p.1))
      | inr other ↦ rw other (λ h. cc, λ p. ground (arith, distinct.1 p.0))
    ]
