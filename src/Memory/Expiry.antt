-- ===== src/Memory/Expiry.antt =====
-- memory/memory_system.py, `cleanup_expired`: what it leaves in the table.
use mathlib.Core.Option.{none-ne-some}
use agent_manager.Prelude.StrSet.{member}
use agent_manager.Prelude.{
  ℕ, String, ◌≡◌, refl, ◌∙◌, ap, sym, ◌⊎◌, subst, Bool, true, false, Bool-cases, Option, none, some,
  inl, inr, List, [], ◌∷◌, str_eq, eq_iff, eq_refl, if◌then◌else◌, arith,
}
use agent_manager.Memory.Entries.{
  MemoryEntry, MemoryLayer, post_init, ttl_or_default, past, is_expired,
}
use agent_manager.Memory.Store.{
  VectorBackend, MemorySystem, delete_row, select_row, delete_entry, retrieve, is_due, expired_ids,
  delete_entries, cleanup_expired,
}
use agent_manager.Memory.Rows.{select_row-delete_row}
use agent_manager.Memory.Retrieved.{answered, retrieve-answered}
use agent_manager.Memory.Distinct.{Distinct, MemoryCall, run, run-Distinct}

abbrev due : (now : ℕ) → MemoryEntry → Bool
due now row = is_due now row.timestamp row.ttl_seconds

-- A row that is due has an id among `ids`.
unfoldable pub DueAmong : (now : ℕ) → (ids : List String) → List MemoryEntry → Type 0
unfolding member
DueAmong now ids [] = Unit
DueAmong now ids (row ∷ rows) =
    (due now row ≡ true → member ids row.entry_id ≡ true) × DueAmong now ids rows

DueAmong-weaken :
    (now : ℕ) (j : String) (ids : List String) (rows : List MemoryEntry)
    → DueAmong now ids rows
    → DueAmong now (j ∷ ids) rows
unfolding DueAmong member
DueAmong-weaken now j ids [] a = tt
DueAmong-weaken now j ids (row ∷ rows) (h, a) =
    (λ d. ground (arith, h d), DueAmong-weaken now j ids rows a)

expired_ids-due :
    (now : ℕ) (row : MemoryEntry) (rows : List MemoryEntry)
    → due now row ≡ true
    → expired_ids now (row ∷ rows) ≡ row.entry_id ∷ expired_ids now rows
unfolding expired_ids
expired_ids-due now row rows h = rw h refl

expired_ids-other :
    (now : ℕ) (row : MemoryEntry) (rows : List MemoryEntry)
    → due now row ≡ false
    → expired_ids now (row ∷ rows) ≡ expired_ids now rows
unfolding expired_ids
expired_ids-other now row rows h = rw h refl

DueAmong-expired_ids :
    (now : ℕ) (rows : List MemoryEntry) → DueAmong now (expired_ids now rows) rows
unfolding DueAmong member
DueAmong-expired_ids now [] = tt
DueAmong-expired_ids now (row ∷ rows) = elim (Bool-cases (due now row)) [
  | inl h ↦
      subst (λ ids. DueAmong now ids (row ∷ rows)) (sym (expired_ids-due now row rows h))
        (
          λ d. rw (eq_refl row.entry_id) refl,
          DueAmong-weaken now row.entry_id (expired_ids now rows) rows
              (DueAmong-expired_ids now rows),
        )
  | inr h ↦
      subst (λ ids. DueAmong now ids (row ∷ rows)) (sym (expired_ids-other now row rows h))
        (λ d. absurd (ground (arith, d, h)), DueAmong-expired_ids now rows)
]

DueAmong-delete_row :
    (now : ℕ) (j : String) (ids : List String) (rows : List MemoryEntry)
    → DueAmong now (j ∷ ids) rows
    → DueAmong now ids (delete_row j rows)
unfolding DueAmong delete_row member
DueAmong-delete_row now j ids [] a = tt
DueAmong-delete_row now j ids (row ∷ rows) (h, a) = elim (Bool-cases (str_eq row.entry_id j)) [
  | inl e ↦ rw e (DueAmong-delete_row now j ids rows a)
  | inr e ↦ rw e (
    λ d. ground (arith, h d, e, eq_iff j row.entry_id, eq_iff row.entry_id j),
    DueAmong-delete_row now j ids rows a,
  )
]

module _ {V : Type 0} where
  delete_entries-DueAmong :
      (now : ℕ) (ids : List String) (s : MemorySystem V)
      → DueAmong now ids s.rows
      → DueAmong now [] (delete_entries ids s).rows
  unfolding delete_entries delete_entry
  delete_entries-DueAmong now [] s a = a
  delete_entries-DueAmong now (j ∷ ids) s a =
      delete_entries-DueAmong now ids (delete_entry j s) (DueAmong-delete_row now j ids s.rows a)

  select_row-delete_entries :
      (ids : List String) (s : MemorySystem V) (k : String)
      → select_row (delete_entries ids s).rows k
        ≡ (if member ids k then none else select_row s.rows k)
  unfolding delete_entries delete_entry member
  select_row-delete_entries [] s k = refl
  select_row-delete_entries (j ∷ ids) s k =
      ground (
        arith,
        select_row-delete_entries ids (delete_entry j s) k,
        select_row-delete_row j k s.rows,
      )

member-expired_ids :
    (now : ℕ) (row : MemoryEntry) (rows : List MemoryEntry) (k : String)
    → member (expired_ids now (row ∷ rows)) k ≡ true
    → ((str_eq row.entry_id k ≡ true) × (due now row ≡ true))
      ⊎ (member (expired_ids now rows) k ≡ true)
unfolding member
member-expired_ids now row rows k h = elim (Bool-cases (due now row)) [
  | inr e ↦ inr (rw (expired_ids-other now row rows e) at h)
  | inl e ↦ elim (Bool-cases (str_eq row.entry_id k)) [
    | inl same ↦ inl (same, e)
    | inr other ↦ inr (rw other at (rw (expired_ids-due now row rows e) at h))
  ]
]

-- The id of a due row is answered by such a row.
expired_ids-select_row :
    (now : ℕ) (rows : List MemoryEntry) (k : String)
    → Distinct rows
    → member (expired_ids now rows) k ≡ true
    → (row : MemoryEntry) × (select_row rows k ≡ some row) × (due now row ≡ true)
unfolding Distinct member select_row expired_ids
expired_ids-select_row now [] k d h = absurd (ground (arith, h))
expired_ids-select_row now (row ∷ rows) k (at, d) h = elim (member-expired_ids now row rows k h) [
  | inl (same, e) ↦ (row, rw same refl, e)
  | inr later ↦
      let (found, is_found, e) = expired_ids-select_row now rows k d later in
      elim (Bool-cases (str_eq row.entry_id k)) [
        | inr other ↦ (found, rw other is_found, e)
        | inl same ↦ absurd (
            none-ne-some found
              (sym at ∙ ap (select_row rows) ((eq_iff row.entry_id k).0 same) ∙ is_found))
      ]
]

is_due-past :
    (now timestamp : ℕ) (n : Option ℕ) (layer : MemoryLayer)
    → is_due now timestamp n ≡ true
    → past now timestamp (ttl_or_default n layer) ≡ true
unfolding is_due past ttl_or_default
is_due-past now timestamp none layer h = absurd (ground (arith, h))
is_due-past now timestamp (some n) layer h = ground (arith, h)

due-answered : (now : ℕ) (row : MemoryEntry) → due now row ≡ true → answered now (some row) ≡ none
unfolding answered is_expired post_init
due-answered now row h = rw (is_due-past now row.timestamp row.ttl_seconds row.layer h) refl

module _ {V : Type 0} (backend : VectorBackend V) where
  cleanup_expired-answered :
      (now : ℕ) (s : MemorySystem V) (k : String)
      → Distinct s.rows
      → answered now (if member (expired_ids now s.rows) k then none else select_row s.rows k)
        ≡ answered now (select_row s.rows k)
  unfolding answered
  cleanup_expired-answered now s k d = elim (Bool-cases (member (expired_ids now s.rows) k)) [
    | inr h ↦ rw h refl
    | inl h ↦
        let (row, is_row, e) = expired_ids-select_row now s.rows k d h in
        rw (h, is_row) (sym (due-answered now row e))
  ]

  -- After any calls on a new memory system, a cleanup leaves no row that its own test takes for
  -- expired, and it changes the answer of `retrieve` for no id at that time.
  pub cleanup_expired-retrieve :
      (calls : List MemoryCall) (now : ℕ) (k : String) (v : Option V)
      → let s = run backend calls (record { rows = []; vector_backend = v; scheduled = [] }) in
        let after = (cleanup_expired now s).1 in
        (DueAmong now [] after.rows) × ((retrieve now k after).0 ≡ (retrieve now k s).0)
  unfolding cleanup_expired Distinct
  cleanup_expired-retrieve calls now k v =
      let s = run backend calls (record { rows = []; vector_backend = v; scheduled = [] }) in
      let ids = expired_ids now s.rows in
      (
        delete_entries-DueAmong now ids s (DueAmong-expired_ids now s.rows),
        retrieve-answered now k (delete_entries ids s)
            ∙ ap (answered now) (select_row-delete_entries ids s k)
            ∙ cleanup_expired-answered now s k (run-Distinct backend calls _ tt)
            ∙ sym (retrieve-answered now k s),
      )
