-- ===== src/Memory/Tests.antt =====
-- memory/memory_system.py on small inputs, with the in-memory vector backend.
use Prim.Native.Char.{Char, code}
use agent_manager.Prelude.Dict
use agent_manager.Prelude.{
  ◌≡◌, refl, Bool, true, false, ◌&&◌, ◌||◌, leb, none, some, [], ◌∷◌, str_eq, if◌then◌else◌,
}
use agent_manager.Prelude.StrSet.{member, add}
use agent_manager.Recovery.Failures.{lower}
use agent_manager.WorkerGuard.Similarity.{to_set, ended}
use agent_manager.Memory.Entries.{
  MemoryEntry, short_term, layer_name, post_init, is_expired, past, like, same_layer,
  ttl_or_default, layer_ttl,
}
use agent_manager.Memory.Store.{
  VectorBackend, MemorySystem, store, retrieve, cleanup_expired, index_to_vector_backend,
  index_awaited, upsert_entry, insert_row, delete_row, select_row, found_row, expired_ids, is_due,
  delete_entries, count_ids,
}
use agent_manager.Memory.VectorIndex.{
  VectorIndex, in_memory_backend, upsert, query, namespace_index, ranked_results, first_keys,
  tokenize,
}
use agent_manager.Memory.Search.{
  search, asearch, queried, retrieve_all, add_found, namespace_of, in_layer, search_via_substring,
  fresh_rows, is_selected,
}
use agent_manager.Memory.Retrieved.{retrieve-store, lives, lifetime}
use agent_manager.Memory.Distinct.{store_call, cleanup_call, run}
use agent_manager.Memory.Expiry.{DueAmong, cleanup_expired-retrieve}
use agent_manager.Memory.Unindexed.{search-unindexed}

-- The letters and digits of ASCII.
abbrev word : Char → Bool
word c =
    (leb 48 (code c) && leb (code c) 57)
    || (leb 65 (code c) && leb (code c) 90)
    || (leb 97 (code c) && leb (code c) 122)

abbrev backend : VectorBackend VectorIndex
backend = in_memory_backend word

abbrev note : MemoryEntry
note = record {
  content = "Use pytest";
  layer = short_term;
  tags = "test" ∷ [];
  metadata = [];
  entry_id = "n1";
  timestamp = 100;
  ttl_seconds = none;
}

abbrev empty_memory : MemorySystem VectorIndex
empty_memory = record { rows = []; vector_backend = some []; scheduled = [] }

retrieve-store_example : (retrieve 3700 "n1" (store backend false note empty_memory).1).0 ≡ (
    if str_eq "n1" "n1"
    then (if lives 3700 100 (lifetime short_term none)
        then some (record note { ttl_seconds = lifetime short_term none })
        else none)
    else (retrieve 3700 "n1" empty_memory).0)
retrieve-store_example = retrieve-store backend false 3700 note "n1" empty_memory

cleanup_expired-retrieve_example :
    let s = run backend (store_call false note ∷ cleanup_call 200 ∷ []) empty_memory in
    let after = (cleanup_expired 5000 s).1 in
    (DueAmong 5000 [] after.rows) × ((retrieve 5000 "n1" after).0 ≡ (retrieve 5000 "n1" s).0)
cleanup_expired-retrieve_example =
    cleanup_expired-retrieve backend (store_call false note ∷ cleanup_call 200 ∷ []) 5000 "n1"
      (some [])

-- A search for a text finds the entry, also with another case and with a wildcard of LIKE.
found_by_text :
    (search backend true 200 "PY_EST" none (store backend false note empty_memory).1).0
    ≡ post_init note ∷ []
unfolding search search_via_substring fresh_rows is_selected in_layer like store insert_row
    delete_row index_to_vector_backend index_awaited upsert_entry layer_name is_expired past
    post_init ttl_or_default layer_ttl
found_by_text = refl

search-unindexed_example :
    (search backend false 200 "pytest" none (
      run backend
        (store_call false note ∷ [])
        (record { rows = []; vector_backend = some []; scheduled = [] }))).0
    ≡ []
search-unindexed_example = search-unindexed word (store_call false note ∷ []) 200 "pytest"

-- With a layer, the vector search finds the entry by a word of its content.
found_by_vectors :
    (search backend false 200 "a pytest"
      (some short_term)
      (store backend false note empty_memory).1).0
    ≡ post_init note ∷ []
unfolding search asearch queried retrieve_all retrieve select_row found_row add_found in_layer
    same_layer is_expired past post_init ttl_or_default layer_ttl namespace_of store insert_row
    delete_row index_to_vector_backend index_awaited upsert_entry layer_name in_memory_backend
    upsert query namespace_index ranked_results first_keys tokenize Dict.get Dict.put to_set lower
    ended add member
found_by_vectors = refl

abbrev at_once : MemoryEntry
at_once = record note { ttl_seconds = some 0 }

-- An entry with a time to live of 0 has expired, and a cleanup leaves it.
kept_at_zero :
    (is_expired 200 (post_init at_once) ≡ true)
    × ((cleanup_expired 200 (store backend false at_once empty_memory).1).0 ≡ 0)
unfolding is_expired past post_init ttl_or_default cleanup_expired expired_ids is_due delete_entries
    count_ids store insert_row delete_row index_to_vector_backend index_awaited upsert_entry
    layer_name
kept_at_zero = (refl, refl)
