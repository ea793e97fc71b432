-- ===== src/Memory/Unindexed.antt =====
-- memory/memory_system.py with memory/vector_backend.py: the namespaces that are ever indexed.
use Prim.Native.Char.{Char}
use agent_manager.Prelude.Dict
use agent_manager.Prelude.Dict.{get-put}
use agent_manager.Prelude.{
  ℕ, String, ◌≡◌, refl, ◌∙◌, sym, subst, Bool, true, false, Bool-cases, Result, ok, err, Option,
  none, some, Option-cases, inl, inr, List, [], ◌∷◌, str_eq,
}
use agent_manager.Runtime.Errors.{PyError}
use agent_manager.Memory.Entries.{
  MemoryEntry, MemoryLayer, short_term, medium_term, long_term, layer_name, post_init, is_expired,
}
use agent_manager.Memory.Store.{
  MemorySystem, delete_entry, found_row, retrieve, select_row, delete_entries, cleanup_expired,
  expired_ids, store, astore, schedule_upsert, upsert_entry, index_awaited, index_to_vector_backend,
  index_all, index_scheduled,
}
use agent_manager.Memory.Search.{retrieve_all, queried, namespace_of, asearch, search}
use agent_manager.Memory.VectorIndex.{
  VectorIndex, namespace_index, upsert, query, ranked_results, first_keys, in_memory_backend,
}
use agent_manager.Memory.Distinct.{
  MemoryCall, store_call, astore_call, retrieve_call, search_call, asearch_call, cleanup_call,
  index_call, call, run,
}

-- The index is there and has no namespace "all".
unfoldable NoAll : Option VectorIndex → Type 0
NoAll none = ⊥
NoAll (some index) = Dict.get index "all" ≡ none

layer_name-all : (layer : MemoryLayer) → str_eq (layer_name layer) "all" ≡ false
unfolding layer_name
layer_name-all short_term = refl
layer_name-all medium_term = refl
layer_name-all long_term = refl

found_row-vectors :
    (now : ℕ) (k : String) (row : Option MemoryEntry) (s : MemorySystem VectorIndex)
    → (found_row now k row s).1.vector_backend ≡ s.vector_backend
unfolding found_row delete_entry
found_row-vectors now k none s = refl
found_row-vectors now k (some row) s = elim (Bool-cases (is_expired now (post_init row))) [
  | inl h ↦ rw (found_row, h) refl
  | inr h ↦ rw (found_row, h) refl
]

retrieve_all-vectors :
    (now : ℕ) (layer : Option MemoryLayer) (keys : List String) (s : MemorySystem VectorIndex)
    → (retrieve_all now layer keys s).1.vector_backend ≡ s.vector_backend
unfolding retrieve_all retrieve
retrieve_all-vectors now layer [] s = refl
retrieve_all-vectors now layer (key ∷ keys) s =
    retrieve_all-vectors now layer keys (retrieve now key s).1
    ∙ found_row-vectors now key (select_row s.rows key) s

delete_entries-vectors :
    (ids : List String) (s : MemorySystem VectorIndex)
    → (delete_entries ids s).vector_backend ≡ s.vector_backend
unfolding delete_entries delete_entry
delete_entries-vectors [] s = refl
delete_entries-vectors (j ∷ ids) s = delete_entries-vectors ids (delete_entry j s)

queried-vectors :
    (now : ℕ) (text : String) (layer : Option MemoryLayer) (answer : Result PyError (List String))
    (s : MemorySystem VectorIndex)
    → (queried now text layer answer s).1.vector_backend ≡ s.vector_backend
unfolding queried
queried-vectors now text layer (err e) s = refl
queried-vectors now text layer (ok keys) s = retrieve_all-vectors now layer keys s

module _ (word : Char → Bool) where
  index_awaited-NoAll :
      (e : MemoryEntry) (s : MemorySystem VectorIndex)
      → NoAll s.vector_backend
      → NoAll (index_awaited (in_memory_backend word) e s).vector_backend
  unfolding index_awaited NoAll upsert_entry in_memory_backend upsert
  index_awaited-NoAll e s h = elim (Option-cases s.vector_backend) [
    | inl n ↦ rw (index_awaited, n) h
    | inr (index, n) ↦
        rw (index_awaited, n)
          (get-put index (layer_name e.layer) "all" _ ∙ rw (layer_name-all e.layer) (rw n at h))
  ]

  asearch-NoAll :
      (now : ℕ) (text : String) (layer : Option MemoryLayer) (s : MemorySystem VectorIndex)
      → NoAll s.vector_backend
      → NoAll (asearch (in_memory_backend word) now text layer s).1.vector_backend
  unfolding asearch in_memory_backend
  asearch-NoAll now text layer s h = elim (Option-cases s.vector_backend) [
    | inl n ↦ rw (asearch, n) h
    | inr (index, n) ↦
        rw (asearch, n)
          (subst NoAll
            (sym (
              queried-vectors now text layer (ok (query word 10 (namespace_of layer) text index))
                (record s { vector_backend = some index })))
            (rw n at h))
  ]

  index_all-NoAll :
      (entries : List MemoryEntry) (s : MemorySystem VectorIndex)
      → NoAll s.vector_backend
      → NoAll (index_all (in_memory_backend word) entries s).vector_backend
  unfolding index_all
  index_all-NoAll [] s h = h
  index_all-NoAll (e ∷ entries) s h =
      index_all-NoAll entries (index_awaited (in_memory_backend word) e s)
        (index_awaited-NoAll e s h)

  schedule_upsert-vectors :
      (e : MemoryEntry) (s : MemorySystem VectorIndex)
      → (schedule_upsert (in_memory_backend word) e s).vector_backend ≡ s.vector_backend
  unfolding schedule_upsert
  schedule_upsert-vectors e s = elim (Option-cases s.vector_backend) [
    | inl n ↦ rw (schedule_upsert, n) n
    | inr (index, n) ↦ rw (schedule_upsert, n) n
  ]

  call-NoAll :
      (c : MemoryCall) (s : MemorySystem VectorIndex)
      → NoAll s.vector_backend
      → NoAll (call (in_memory_backend word) c s).vector_backend
  unfolding call store astore index_to_vector_backend retrieve search cleanup_expired
      index_scheduled
  call-NoAll (store_call false e) s h = index_awaited-NoAll e _ h
  call-NoAll (store_call true e) s h = subst NoAll (sym (schedule_upsert-vectors e _)) h
  call-NoAll (astore_call e) s h = index_awaited-NoAll e _ h
  call-NoAll (retrieve_call now k) s h =
      subst NoAll (sym (found_row-vectors now k (select_row s.rows k) s)) h
  call-NoAll (search_call true now text layer) s h = h
  call-NoAll (search_call false now text layer) s h = asearch-NoAll now text layer s h
  call-NoAll (asearch_call now text layer) s h = asearch-NoAll now text layer s h
  call-NoAll (cleanup_call now) s h =
      subst NoAll (sym (delete_entries-vectors (expired_ids now s.rows) s)) h
  call-NoAll index_call s h = index_all-NoAll s.scheduled _ h

  run-NoAll :
      (calls : List MemoryCall) (s : MemorySystem VectorIndex)
      → NoAll s.vector_backend
      → NoAll (run (in_memory_backend word) calls s).vector_backend
  unfolding run
  run-NoAll [] s h = h
  run-NoAll (c ∷ calls) s h = run-NoAll calls (call (in_memory_backend word) c s) (call-NoAll c s h)

  search-NoAll :
      (now : ℕ) (text : String) (s : MemorySystem VectorIndex)
      → NoAll s.vector_backend
      → (search (in_memory_backend word) false now text none s).0 ≡ []
  unfolding search asearch in_memory_backend query namespace_index NoAll namespace_of queried
      ranked_results first_keys retrieve_all
  search-NoAll now text s h = elim (Option-cases s.vector_backend) [
    | inl n ↦ absurd (rw n at h)
    | inr (index, n) ↦ rw (asearch, n) (rw (namespace_index, (rw n at h)) refl)
  ]

  -- After any calls on a new memory system with the in-memory vector backend, a search over all layers
  -- with no loop running answers nothing, whatever is stored.
  pub search-unindexed :
      (calls : List MemoryCall) (now : ℕ) (text : String)
      → (search (in_memory_backend word) false now text none (
          run
            (in_memory_backend word)
            calls
            (record { rows = []; vector_backend = some []; scheduled = [] }))).0
        ≡ []
  unfolding NoAll Dict.get
  search-unindexed calls now text =
      search-NoAll now text _
        (run-NoAll calls (record { rows = []; vector_backend = some []; scheduled = [] }) refl)
