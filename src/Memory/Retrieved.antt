-- ===== src/Memory/Retrieved.antt =====
-- memory/memory_system.py: what `retrieve` answers after `store`, and what a search answers.
use agent_manager.Prelude.{
  ℕ, ◌+◌, leb, String, ◌≡◌, refl, ◌∙◌, ap, sym, subst, Bool, true, false, not, ◌&&◌, Bool-cases,
  Result, ok, err, Option, none, some, Option-cases, inl, inr, List, [], ◌∷◌, str_eq, if◌then◌else◌,
  arith,
}
use agent_manager.Runtime.Errors.{PyError}
use agent_manager.Memory.Entries.{
  MemoryEntry, MemoryLayer, short_term, medium_term, long_term, layer_ttl, ttl_or_default, past,
  post_init, is_expired,
}
use agent_manager.Memory.Store.{
  VectorBackend, MemorySystem, select_row, insert_row, found_row, retrieve, store, schedule_upsert,
  index_awaited, index_to_vector_backend,
}
use agent_manager.Memory.Rows.{select_row-insert_row}
use agent_manager.Memory.Search.{
  in_layer, is_selected, fresh_rows, search_via_substring, add_found, retrieve_all, namespace_of,
  queried, asearch,
}

-- A row as `retrieve` answers it: as an entry, where it has not expired.
unfoldable pub answered : (now : ℕ) → Option MemoryEntry → Option MemoryEntry
answered now none = none
answered now (some row) = if is_expired now (post_init row) then none else some (post_init row)

-- How long an entry lives, in seconds; `none` is for ever.
unfoldable pub lifetime : MemoryLayer → Option ℕ → Option ℕ
lifetime layer (some n) = some n
lifetime short_term none = some 3600
lifetime medium_term none = some 604800
lifetime long_term none = none

unfoldable pub lives : (now timestamp : ℕ) → Option ℕ → Bool
lives now timestamp none = true
lives now timestamp (some n) = leb now (timestamp + n)

ttl_or_default-lifetime :
    (layer : MemoryLayer) (n : Option ℕ) → ttl_or_default n layer ≡ lifetime layer n
unfolding ttl_or_default lifetime layer_ttl
ttl_or_default-lifetime layer (some n) = refl
ttl_or_default-lifetime short_term none = refl
ttl_or_default-lifetime medium_term none = refl
ttl_or_default-lifetime long_term none = refl

past-lives :
    (now timestamp : ℕ) (n : Option ℕ) (e : MemoryEntry)
    → (if past now timestamp n then none else some e)
      ≡ (if lives now timestamp n then some e else none)
unfolding past lives
past-lives now timestamp none e = refl
past-lives now timestamp (some n) e = ground arith

answered-lives :
    (now : ℕ) (e : MemoryEntry)
    → answered now (some e) ≡ (
        if lives now e.timestamp (lifetime e.layer e.ttl_seconds)
        then some (record e { ttl_seconds = lifetime e.layer e.ttl_seconds })
        else none)
unfolding answered is_expired post_init
answered-lives now e =
    ap (λ n. if past now e.timestamp n then none else some (record e { ttl_seconds = n }))
      (ttl_or_default-lifetime e.layer e.ttl_seconds)
    ∙ past-lives now e.timestamp (lifetime e.layer e.ttl_seconds) _

module _ {V : Type 0} where
  found_row-answered :
      (now : ℕ) (k : String) (row : Option MemoryEntry) (s : MemorySystem V)
      → (found_row now k row s).0 ≡ answered now row
  unfolding found_row answered
  found_row-answered now k none s = refl
  found_row-answered now k (some row) s = elim (Bool-cases (is_expired now (post_init row))) [
    | inl h ↦ rw (found_row, h) refl
    | inr h ↦ rw (found_row, h) refl
  ]

  pub retrieve-answered :
      (now : ℕ) (k : String) (s : MemorySystem V)
      → (retrieve now k s).0 ≡ answered now (select_row s.rows k)
  unfolding retrieve
  retrieve-answered now k s = found_row-answered now k (select_row s.rows k) s

module _ {V : Type 0} (backend : VectorBackend V) where
  pub index_awaited-rows :
      (e : MemoryEntry) (s : MemorySystem V) → (index_awaited backend e s).rows ≡ s.rows
  unfolding index_awaited
  index_awaited-rows e s = elim (Option-cases s.vector_backend) [
    | inl h ↦ rw (index_awaited, h) refl
    | inr (v, h) ↦ rw (index_awaited, h) refl
  ]

  index_to_vector_backend-rows :
      (loop_running : Bool) (e : MemoryEntry) (s : MemorySystem V)
      → (index_to_vector_backend backend loop_running e s).rows ≡ s.rows
  unfolding index_to_vector_backend schedule_upsert
  index_to_vector_backend-rows false e s = index_awaited-rows e s
  index_to_vector_backend-rows true e s = elim (Option-cases s.vector_backend) [
    | inl h ↦ rw (schedule_upsert, h) refl
    | inr (v, h) ↦ rw (schedule_upsert, h) refl
  ]

  pub store-rows :
      (loop_running : Bool) (e : MemoryEntry) (s : MemorySystem V)
      → (store backend loop_running e s).1.rows ≡ insert_row e s.rows
  unfolding store
  store-rows loop_running e s = index_to_vector_backend-rows loop_running e _

  -- After an entry is stored, its id is answered by the entry as long as it lives, and by nothing then;
  -- every other id is answered as before. An entry lives for its own time to live. If it has none, it
  -- lives, and is answered with, 3600 seconds in the short term and 604800 in the medium term, and it
  -- lives for ever in the long term. A vector backend, whatever it does, and a running loop make no
  -- difference. Times are whole seconds, and metadata is of values that JSON keeps as they are.
  pub retrieve-store :
      (loop_running : Bool) (now : ℕ) (e : MemoryEntry) (k : String) (s : MemorySystem V)
      → (retrieve now k (store backend loop_running e s).1).0 ≡ (
          if str_eq e.entry_id k
          then (if lives now e.timestamp (lifetime e.layer e.ttl_seconds)
              then some (record e { ttl_seconds = lifetime e.layer e.ttl_seconds })
              else none)
          else (retrieve now k s).0)
  retrieve-store loop_running now e k s =
      retrieve-answered now k _
      ∙ ap (λ rows. answered now (select_row rows k)) (store-rows loop_running e s)
      ∙ ap (answered now) (select_row-insert_row e s.rows k)
      ∙ elim (Bool-cases (str_eq e.entry_id k)) [
        | inl h ↦ rw h (answered-lives now e)
        | inr h ↦ rw h (sym (retrieve-answered now k s))
      ]

-- No entry of the answer has expired, and each is in the layer.
unfoldable pub AllFresh : (now : ℕ) → Option MemoryLayer → List MemoryEntry → Type 0
AllFresh now layer [] = Unit
AllFresh now layer (e ∷ entries) =
    (is_expired now e ≡ false) × (in_layer layer e ≡ true) × AllFresh now layer entries

in_layer-post_init :
    (layer : Option MemoryLayer) (e : MemoryEntry) → in_layer layer (post_init e) ≡ in_layer layer e
unfolding in_layer post_init
in_layer-post_init none e = refl
in_layer-post_init (some layer) e = refl

fresh_rows-AllFresh :
    (now : ℕ) (query : String) (layer : Option MemoryLayer) (rows : List MemoryEntry)
    → AllFresh now layer (fresh_rows now query layer rows)
unfolding AllFresh fresh_rows is_selected
fresh_rows-AllFresh now query layer [] = tt
fresh_rows-AllFresh now query layer (row ∷ rows) =
    elim (Bool-cases (is_selected query layer row && not (is_expired now (post_init row)))) [
      | inr h ↦ rw h (fresh_rows-AllFresh now query layer rows)
      | inl h ↦ rw h (
        ground (arith, h),
        in_layer-post_init layer row ∙ ground (arith, h),
        fresh_rows-AllFresh now query layer rows,
      )
    ]

add_found-AllFresh :
    (now : ℕ) (layer : Option MemoryLayer) (row : Option MemoryEntry) (entries : List MemoryEntry)
    → AllFresh now layer entries
    → AllFresh now layer (add_found layer (answered now row) entries)
unfolding AllFresh add_found answered
add_found-AllFresh now layer none entries a = a
add_found-AllFresh now layer (some row) entries a =
    elim (Bool-cases (is_expired now (post_init row))) [
      | inl x ↦ rw x a
      | inr x ↦ elim (Bool-cases (in_layer layer (post_init row))) [
        | inl l ↦ rw (x, l) (x, l, a)
        | inr l ↦ rw (x, l) a
      ]
    ]

module _ {V : Type 0} where
  retrieve_all-AllFresh :
      (now : ℕ) (layer : Option MemoryLayer) (keys : List String) (s : MemorySystem V)
      → AllFresh now layer (retrieve_all now layer keys s).0
  unfolding retrieve_all AllFresh
  retrieve_all-AllFresh now layer [] s = tt
  retrieve_all-AllFresh now layer (key ∷ keys) s =
      let rest = retrieve_all now layer keys (retrieve now key s).1 in
      subst (λ o. AllFresh now layer (add_found layer o rest.0)) (sym (retrieve-answered now key s))
        (add_found-AllFresh now layer (select_row s.rows key) rest.0
          (retrieve_all-AllFresh now layer keys (retrieve now key s).1))

  queried-AllFresh :
      (now : ℕ) (query : String) (layer : Option MemoryLayer)
      (answer : Result PyError (List String)) (s : MemorySystem V)
      → AllFresh now layer (queried now query layer answer s).0
  unfolding queried search_via_substring
  queried-AllFresh now query layer (err e) s = fresh_rows-AllFresh now query layer s.rows
  queried-AllFresh now query layer (ok keys) s = retrieve_all-AllFresh now layer keys s

module _ {V : Type 0} (backend : VectorBackend V) where
  pub asearch-AllFresh :
      (now : ℕ) (query : String) (layer : Option MemoryLayer) (s : MemorySystem V)
      → AllFresh now layer (asearch backend now query layer s).0
  unfolding asearch search_via_substring
  asearch-AllFresh now query layer s = elim (Option-cases s.vector_backend) [
    | inl h ↦ rw (asearch, h) (fresh_rows-AllFresh now query layer s.rows)
    | inr (v, h) ↦
        let (answer, w) = backend.query (namespace_of layer) query v in
        rw (asearch, h)
          (queried-AllFresh now query layer answer (record s { vector_backend = some w }))
  ]
