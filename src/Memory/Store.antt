-- ===== src/Memory/Store.antt =====
-- memory/memory_system.py, the class `MemorySystem`: what is stored, found under an id and removed. The
-- table has its rows in the order in which they were inserted. A vector backend is given by its
-- operations, and what it raises is dropped.
use Prim.Native.String.{count}
use agent_manager.Prelude.{
  ℕ, suc, ◌+◌, ◌-◌, String, Bool, true, false, Exec, Option, none, some, List, [], ◌∷◌, ◌++◌, ltb,
  ◌==◌, str_eq, if◌then◌else◌,
}
use agent_manager.Runtime.Errors.{PyError}
use agent_manager.Memory.Entries.{
  MemoryEntry, MemoryLayer, layer_name, layer_ttl, layer_description, same_layer, post_init,
  is_expired,
}

-- `VectorSearchBackend`: `query` answers the keys of its results.
pub record VectorBackend (V : Type 0) : Type 0 where
  pub upsert : (namespace key content : String) → Exec V PyError (Unit {0})
  pub query : (namespace text : String) → Exec V PyError (List String)

-- `scheduled` has the entries whose indexing the running loop is to carry out.
pub record MemorySystem (V : Type 0) : Type 0 where
  pub rows : List MemoryEntry
  pub vector_backend : Option V
  pub scheduled : List MemoryEntry

-- `DELETE FROM memory_entries WHERE entry_id = ?`
unfoldable pub delete_row : (entry_id : String) → List MemoryEntry → List MemoryEntry
delete_row entry_id [] = []
delete_row entry_id (row ∷ rows) =
    let rest = delete_row entry_id rows in if str_eq row.entry_id entry_id then rest else row ∷ rest

-- `INSERT OR REPLACE INTO memory_entries`
unfoldable pub insert_row : MemoryEntry → List MemoryEntry → List MemoryEntry
unfolding delete_row
insert_row e rows = delete_row e.entry_id rows ++ e ∷ []

-- `SELECT ... WHERE entry_id = ?`, its first row
unfoldable pub select_row : List MemoryEntry → (entry_id : String) → Option MemoryEntry
select_row [] entry_id = none
select_row (row ∷ rows) entry_id =
    if str_eq row.entry_id entry_id then some row else select_row rows entry_id

-- `_delete_entry`
unfoldable pub delete_entry : {V : Type 0} → String → MemorySystem V → MemorySystem V
unfolding delete_row
delete_entry entry_id s = record s { rows = delete_row entry_id s.rows }

unfoldable pub found_row :
    {V : Type 0}
    → (now : ℕ) → String
    → Option MemoryEntry
    → MemorySystem V
    → Option MemoryEntry × MemorySystem V
unfolding post_init is_expired delete_entry
found_row now entry_id none s = (none, s)
found_row now entry_id (some row) s =
    if is_expired now (post_init row)
    then (none, delete_entry entry_id s)
    else (some (post_init row), s)

unfoldable pub retrieve :
    {V : Type 0} → (now : ℕ) → String → MemorySystem V → Option MemoryEntry × MemorySystem V
unfolding found_row select_row
retrieve now entry_id s = found_row now entry_id (select_row s.rows entry_id) s

-- The test of `cleanup_expired`: `ttl_seconds and (current_time - timestamp) > ttl_seconds`
unfoldable pub is_due : (now timestamp : ℕ) → Option ℕ → Bool
is_due now timestamp none = false
is_due now timestamp (some n) = if n == 0 then false else ltb n (now - timestamp)

unfoldable pub expired_ids : (now : ℕ) → List MemoryEntry → List String
unfolding is_due
expired_ids now [] = []
expired_ids now (row ∷ rows) =
    let rest = expired_ids now rows in
    if is_due now row.timestamp row.ttl_seconds then row.entry_id ∷ rest else rest

unfoldable pub delete_entries : {V : Type 0} → List String → MemorySystem V → MemorySystem V
unfolding delete_entry
delete_entries [] s = s
delete_entries (entry_id ∷ ids) s = delete_entries ids (delete_entry entry_id s)

unfoldable pub count_ids : List String → ℕ
count_ids [] = 0
count_ids (entry_id ∷ ids) = suc (count_ids ids)

unfoldable pub cleanup_expired : {V : Type 0} → (now : ℕ) → MemorySystem V → ℕ × MemorySystem V
unfolding expired_ids delete_entries count_ids
cleanup_expired now s = let ids = expired_ids now s.rows in (count_ids ids, delete_entries ids s)

pub record LayerStats : Type 0 where
  pub layer : String
  pub description : String
  pub entry_count : ℕ
  pub total_size_bytes : ℕ
  pub ttl_seconds : Option ℕ

-- `COUNT(*)` and `SUM(LENGTH(content))`: the length of a text in characters
unfoldable pub layer_totals : MemoryLayer → List MemoryEntry → ℕ × ℕ
unfolding same_layer
layer_totals layer [] = (0, 0)
layer_totals layer (row ∷ rows) =
    let (n, size) = layer_totals layer rows in
    if same_layer row.layer layer then (suc n, count row.content + size) else (n, size)

unfoldable pub get_layer_stats : {V : Type 0} → MemoryLayer → MemorySystem V → LayerStats
unfolding layer_totals layer_name layer_description layer_ttl
get_layer_stats layer s =
    let (n, size) = layer_totals layer s.rows in
    record {
      layer = layer_name layer;
      description = layer_description layer;
      entry_count = n;
      total_size_bytes = size;
      ttl_seconds = layer_ttl layer;
    }

module _ {V : Type 0} (backend : VectorBackend V) where
  -- `vector_backend.upsert(...)` where it is awaited or run; an exception is dropped.
  unfoldable pub upsert_entry : MemoryEntry → V → V
  unfolding layer_name
  upsert_entry e v = (backend.upsert (layer_name e.layer) e.entry_id e.content v).1

  unfoldable pub index_awaited : MemoryEntry → MemorySystem V → MemorySystem V
  unfolding upsert_entry
  index_awaited e s = elim s.vector_backend [
    | none ↦ s
    | some v ↦ record s { vector_backend = some (upsert_entry e v) }
  ]

  unfoldable pub schedule_upsert : MemoryEntry → MemorySystem V → MemorySystem V
  schedule_upsert e s = elim s.vector_backend [
    | none ↦ s
    | some v ↦ record s { scheduled = s.scheduled ++ e ∷ [] }
  ]

  -- `_index_to_vector_backend`
  unfoldable pub index_to_vector_backend :
      (loop_running : Bool) → MemoryEntry → MemorySystem V → MemorySystem V
  unfolding index_awaited schedule_upsert
  index_to_vector_backend true e s = schedule_upsert e s
  index_to_vector_backend false e s = index_awaited e s

  unfoldable pub store :
      (loop_running : Bool) → MemoryEntry → MemorySystem V → String × MemorySystem V
  unfolding index_to_vector_backend insert_row
  store loop_running e s =
      (e.entry_id, index_to_vector_backend loop_running e (record s { rows = insert_row e s.rows }))

  unfoldable pub astore : MemoryEntry → MemorySystem V → String × MemorySystem V
  unfolding index_awaited insert_row
  astore e s = (e.entry_id, index_awaited e (record s { rows = insert_row e s.rows }))

  -- The running loop carries out what was scheduled.
  unfoldable pub index_all : List MemoryEntry → MemorySystem V → MemorySystem V
  unfolding index_awaited
  index_all [] s = s
  index_all (e ∷ entries) s = index_all entries (index_awaited e s)

  unfoldable pub index_scheduled : MemorySystem V → MemorySystem V
  unfolding index_all
  index_scheduled s = index_all s.scheduled (record s { scheduled = [] })
