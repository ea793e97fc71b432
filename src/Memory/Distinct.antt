-- ===== src/Memory/Distinct.antt =====
-- memory/memory_system.py: every operation keeps the primary key of the table.
use agent_manager.Prelude.{
  ℕ, String, ◌≡◌, refl, ◌∙◌, ap, sym, subst, Bool, true, false, Bool-cases, Result, ok, err, Option,
  none, some, Option-cases, inl, inr, List, [], ◌∷◌, ◌++◌, str_eq, eq_iff, eq_refl, if◌then◌else◌,
  arith,
}
use agent_manager.Runtime.Errors.{PyError}
use agent_manager.Memory.Entries.{MemoryEntry, MemoryLayer, post_init, is_expired}
use agent_manager.Memory.Store.{
  VectorBackend, MemorySystem, delete_row, insert_row, select_row, delete_entry, found_row,
  retrieve, expired_ids, delete_entries, cleanup_expired, store, astore, index_awaited, index_all,
  index_scheduled,
}
use agent_manager.Memory.Rows.{select_row-delete_row, select_row-append, or_next}
use agent_manager.Memory.Retrieved.{index_awaited-rows, store-rows}
use agent_manager.Memory.Search.{retrieve_all, queried, namespace_of, asearch, search}

-- No two rows have one id.
unfoldable pub Distinct : List MemoryEntry → Type 0
Distinct [] = Unit
Distinct (row ∷ rows) = (select_row rows row.entry_id ≡ none) × Distinct rows

Distinct-delete_row :
    (j : String) (rows : List MemoryEntry) → Distinct rows → Distinct (delete_row j rows)
unfolding Distinct delete_row
Distinct-delete_row j [] d = tt
Distinct-delete_row j (row ∷ rows) (at, d) = elim (Bool-cases (str_eq row.entry_id j)) [
  | inl h ↦ rw h (Distinct-delete_row j rows d)
  | inr h ↦ rw h (
    select_row-delete_row j row.entry_id rows
        ∙ ap (λ (o : Option MemoryEntry). if str_eq j row.entry_id then none else o) at
        ∙ same_both (str_eq j row.entry_id) none,
    Distinct-delete_row j rows d,
  )
]
  where
    same_both : (b : Bool) (o : Option MemoryEntry) → (if b then o else o) ≡ o
    same_both true o = refl
    same_both false o = refl

Distinct-append :
    (rows : List MemoryEntry) (e : MemoryEntry)
    → select_row rows e.entry_id ≡ none
    → Distinct rows
    → Distinct (rows ++ e ∷ [])
unfolding Distinct select_row
Distinct-append [] e h d = (refl, tt)
Distinct-append (row ∷ rows) e h (at, d) = elim (Bool-cases (str_eq row.entry_id e.entry_id)) [
  | inl same ↦ absurd (ground (arith, h, same))
  | inr other ↦ (
    select_row-append rows e row.entry_id
        ∙ ap (λ o. or_next o (if str_eq e.entry_id row.entry_id then some e else none)) at
        ∙ ground (arith, other, eq_iff e.entry_id row.entry_id, eq_iff row.entry_id e.entry_id),
    Distinct-append rows e (rw (select_row, other) at h) d,
  )
]

Distinct-insert_row :
    (e : MemoryEntry) (rows : List MemoryEntry) → Distinct rows → Distinct (insert_row e rows)
unfolding insert_row
Distinct-insert_row e rows d =
    Distinct-append (delete_row e.entry_id rows) e
      (select_row-delete_row e.entry_id e.entry_id rows ∙ rw (eq_refl e.entry_id) refl)
      (Distinct-delete_row e.entry_id rows d)

module _ {V : Type 0} where
  found_row-Distinct :
      (now : ℕ) (k : String) (row : Option MemoryEntry) (s : MemorySystem V)
      → Distinct s.rows
      → Distinct (found_row now k row s).1.rows
  unfolding found_row delete_entry
  found_row-Distinct now k none s d = d
  found_row-Distinct now k (some row) s d = elim (Bool-cases (is_expired now (post_init row))) [
    | inl h ↦ rw (found_row, h) (Distinct-delete_row k s.rows d)
    | inr h ↦ rw (found_row, h) d
  ]

  retrieve-Distinct :
      (now : ℕ) (k : String) (s : MemorySystem V)
      → Distinct s.rows
      → Distinct (retrieve now k s).1.rows
  unfolding retrieve
  retrieve-Distinct now k s d = found_row-Distinct now k (select_row s.rows k) s d

  delete_entries-Distinct :
      (ids : List String) (s : MemorySystem V)
      → Distinct s.rows
      → Distinct (delete_entries ids s).rows
  unfolding delete_entries delete_entry
  delete_entries-Distinct [] s d = d
  delete_entries-Distinct (j ∷ ids) s d =
      delete_entries-Distinct ids (delete_entry j s) (Distinct-delete_row j s.rows d)

  retrieve_all-Distinct :
      (now : ℕ) (layer : Option MemoryLayer) (keys : List String) (s : MemorySystem V)
      → Distinct s.rows
      → Distinct (retrieve_all now layer keys s).1.rows
  unfolding retrieve_all
  retrieve_all-Distinct now layer [] s d = d
  retrieve_all-Distinct now layer (key ∷ keys) s d =
      retrieve_all-Distinct now layer keys (retrieve now key s).1 (retrieve-Distinct now key s d)

  queried-Distinct :
      (now : ℕ) (query : String) (layer : Option MemoryLayer)
      (answer : Result PyError (List String)) (s : MemorySystem V)
      → Distinct s.rows
      → Distinct (queried now query layer answer s).1.rows
  unfolding queried
  queried-Distinct now query layer (err e) s d = d
  queried-Distinct now query layer (ok keys) s d = retrieve_all-Distinct now layer keys s d

-- The calls of a memory system, and the turn of a running loop.
pub data MemoryCall : Type 0 where
  store_call : (loop_running : Bool) → MemoryEntry → MemoryCall
  astore_call : MemoryEntry → MemoryCall
  retrieve_call : (now : ℕ) → (entry_id : String) → MemoryCall
  search_call :
      (loop_running : Bool) → (now : ℕ) → (query : String) → Option MemoryLayer → MemoryCall
  asearch_call : (now : ℕ) → (query : String) → Option MemoryLayer → MemoryCall
  cleanup_call : (now : ℕ) → MemoryCall
  index_call : MemoryCall

module _ {V : Type 0} (backend : VectorBackend V) where
  unfoldable pub call : MemoryCall → MemorySystem V → MemorySystem V
  call (store_call loop_running e) s = (store backend loop_running e s).1
  call (astore_call e) s = (astore backend e s).1
  call (retrieve_call now entry_id) s = (retrieve now entry_id s).1
  call (search_call loop_running now query layer) s =
      (search backend loop_running now query layer s).1
  call (asearch_call now query layer) s = (asearch backend now query layer s).1
  call (cleanup_call now) s = (cleanup_expired now s).1
  call index_call s = index_scheduled backend s

  unfoldable pub run : List MemoryCall → MemorySystem V → MemorySystem V
  unfolding call
  run [] s = s
  run (c ∷ calls) s = run calls (call c s)

  asearch-Distinct :
      (now : ℕ) (query : String) (layer : Option MemoryLayer) (s : MemorySystem V)
      → Distinct s.rows
      → Distinct (asearch backend now query layer s).1.rows
  unfolding asearch
  asearch-Distinct now query layer s d = elim (Option-cases s.vector_backend) [
    | inl h ↦ rw (asearch, h) d
    | inr (v, h) ↦
        let (answer, w) = backend.query (namespace_of layer) query v in
        rw (asearch, h)
          (queried-Distinct now query layer answer (record s { vector_backend = some w }) d)
  ]

  index_all-Distinct :
      (entries : List MemoryEntry) (s : MemorySystem V)
      → Distinct s.rows
      → Distinct (index_all backend entries s).rows
  unfolding index_all
  index_all-Distinct [] s d = d
  index_all-Distinct (e ∷ entries) s d =
      index_all-Distinct entries (index_awaited backend e s)
        (subst Distinct (sym (index_awaited-rows backend e s)) d)

  call-Distinct : (c : MemoryCall) (s : MemorySystem V) → Distinct s.rows → Distinct (call c s).rows
  unfolding call astore search cleanup_expired index_scheduled
  call-Distinct (store_call loop_running e) s d =
      subst Distinct (sym (store-rows backend loop_running e s)) (Distinct-insert_row e s.rows d)
  call-Distinct (astore_call e) s d =
      subst Distinct (sym (index_awaited-rows backend e _)) (Distinct-insert_row e s.rows d)
  call-Distinct (retrieve_call now entry_id) s d = retrieve-Distinct now entry_id s d
  call-Distinct (search_call true now query layer) s d = d
  call-Distinct (search_call false now query layer) s d = asearch-Distinct now query layer s d
  call-Distinct (asearch_call now query layer) s d = asearch-Distinct now query layer s d
  call-Distinct (cleanup_call now) s d = delete_entries-Distinct (expired_ids now s.rows) s d
  call-Distinct index_call s d = index_all-Distinct s.scheduled _ d

  pub run-Distinct :
      (calls : List MemoryCall) (s : MemorySystem V) → Distinct s.rows → Distinct (run calls s).rows
  unfolding run
  run-Distinct [] s d = d
  run-Distinct (c ∷ calls) s d = run-Distinct calls (call c s) (call-Distinct c s d)
