-- ===== src/Memory/Search.antt =====
-- memory/memory_system.py, `search` and `asearch`.
use Prim.Native.String
use agent_manager.Prelude.{
  ℕ, String, Bool, true, false, not, ◌&&◌, Result, ok, err, Option, none, some, List, [], ◌∷◌,
  if◌then◌else◌,
}
use agent_manager.Runtime.Errors.{PyError}
use agent_manager.Memory.Entries.{
  MemoryEntry, MemoryLayer, layer_name, same_layer, post_init, is_expired, like,
}
use agent_manager.Memory.Store.{MemorySystem, VectorBackend, retrieve}

-- `layer is None or entry.layer == layer`
unfoldable pub in_layer : Option MemoryLayer → MemoryEntry → Bool
unfolding same_layer
in_layer none e = true
in_layer (some layer) e = same_layer e.layer layer

-- The WHERE clause of the two statements.
unfoldable pub is_selected : (query : String) → Option MemoryLayer → MemoryEntry → Bool
unfolding in_layer
is_selected query layer row =
    in_layer layer row && like (String.◌++◌ "%" (String.◌++◌ query "%")) row.content

-- The rows that are selected, as entries, less the expired ones.
unfoldable pub fresh_rows :
    (now : ℕ) → (query : String) → Option MemoryLayer → List MemoryEntry → List MemoryEntry
unfolding is_selected post_init is_expired
fresh_rows now query layer [] = []
fresh_rows now query layer (row ∷ rows) =
    let rest = fresh_rows now query layer rows in
    if is_selected query layer row && not (is_expired now (post_init row))
    then post_init row ∷ rest
    else rest

unfoldable pub search_via_substring :
    {V : Type 0} → (now : ℕ) → String → Option MemoryLayer → MemorySystem V → List MemoryEntry
unfolding fresh_rows
search_via_substring now query layer s = fresh_rows now query layer s.rows

-- An entry that was retrieved, before the others.
unfoldable pub add_found :
    Option MemoryLayer → Option MemoryEntry → List MemoryEntry → List MemoryEntry
unfolding in_layer
add_found layer none entries = entries
add_found layer (some e) entries = if in_layer layer e then e ∷ entries else entries

-- The loop over the results: every key is retrieved, which deletes an expired entry.
unfoldable pub retrieve_all :
    {V : Type 0}
    → (now : ℕ) → Option MemoryLayer
    → (keys : List String) → MemorySystem V
    → List MemoryEntry × MemorySystem V
unfolding retrieve add_found
retrieve_all now layer [] s = ([], s)
retrieve_all now layer (key ∷ keys) s =
    let (found, s₁) = retrieve now key s in
    let (entries, s₂) = retrieve_all now layer keys s₁ in (add_found layer found entries, s₂)

unfoldable pub namespace_of : Option MemoryLayer → String
unfolding layer_name
namespace_of none = "all"
namespace_of (some layer) = layer_name layer

unfoldable pub queried :
    {V : Type 0}
    → (now : ℕ) → (query : String) → Option MemoryLayer
    → Result PyError (List String)
    → MemorySystem V
    → List MemoryEntry × MemorySystem V
unfolding search_via_substring retrieve_all
queried now query layer (err e) s = (search_via_substring now query layer s, s)
queried now query layer (ok keys) s = retrieve_all now layer keys s

module _ {V : Type 0} (backend : VectorBackend V) where
  -- `asearch`, and `_search_via_vector_backend_sync` for a backend that is there
  unfoldable pub asearch :
      (now : ℕ)
      → (query : String) → Option MemoryLayer
      → MemorySystem V
      → List MemoryEntry × MemorySystem V
  unfolding queried namespace_of search_via_substring
  asearch now query layer s = elim s.vector_backend [
    | none ↦ (search_via_substring now query layer s, s)
    | some v ↦
        let (answer, w) = backend.query (namespace_of layer) query v in
        queried now query layer answer (record s { vector_backend = some w })
  ]

  unfoldable pub search :
      (loop_running : Bool)
      → (now : ℕ) → (query : String) → Option MemoryLayer
      → MemorySystem V
      → List MemoryEntry × MemorySystem V
  unfolding asearch search_via_substring
  search true now query layer s = (search_via_substring now query layer s, s)
  search false now query layer s = asearch now query layer s
