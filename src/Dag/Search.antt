-- ===== src/Dag/Search.antt =====
-- engine/dag.py, `_detect_cycle_path`, over the successor function that
-- `_successors_with_extra_edge` gives. `fuel` bounds the depth of the recursion of `dfs`.
use agent_manager.Prelude.Dict
use agent_manager.Prelude.Dict.{Dict}
use agent_manager.Prelude.StrSet.{StrSet, member, add, discard}
use agent_manager.Prelude.{
  ℕ, zero, suc, String, true, false, Option, none, some, List, [], ◌∷◌, ◌++◌, length, drop,
}

-- The variables of `_detect_cycle_path` that `dfs` shares.
pub record Search : Type 0 where
  pub visiting : StrSet
  pub visited : StrSet
  pub stack : List String
  pub stack_index : Dict ℕ

-- `clear` is Python's `return None`, `key_error` the failure of `stack_index[successor]`. A cycle
-- path is never empty, so the test `if cycle_path:` asks whether there is one.
pub data Found : Type 0 where
  cycle : List String → Found
  clear : Search → Found
  key_error out_of_fuel : Found

-- `stack.pop()`
unfoldable pub drop_last {ℓ} : {A : Type ℓ} → List A → List A
drop_last [] = []
drop_last (x ∷ []) = []
drop_last (x ∷ y ∷ r) = x ∷ drop_last (y ∷ r)

-- The statements before the loop of `dfs`, and those behind it.
unfoldable pub enter : String → Search → Search
enter node_id s = record s {
  visiting = add s.visiting node_id;
  stack_index = Dict.put s.stack_index node_id (length s.stack);
  stack = s.stack ++ node_id ∷ [];
}

unfoldable pub leave : String → Search → Search
unfolding drop_last
leave node_id s = record {
  stack = drop_last s.stack;
  stack_index = Dict.remove s.stack_index node_id;
  visiting = discard s.visiting node_id;
  visited = add s.visited node_id;
}

unfoldable pub close_cycle : String → Option ℕ → List String → Found
close_cycle successor none stack = key_error
close_cycle successor (some cycle_start) stack = cycle (drop cycle_start stack ++ successor ∷ [])

unfoldable pub and_then : Found → (Search → Found) → Found
and_then (cycle p) f = cycle p
and_then (clear s) f = f s
and_then key_error f = key_error
and_then out_of_fuel f = out_of_fuel

-- The loop over the successors; `rec` is the recursive call.
unfoldable pub explore : (String → Search → Found) → List String → Search → Found
unfolding close_cycle and_then
explore rec [] s = clear s
explore rec (successor ∷ rest) s = elim (member s.visiting successor) [
  | true ↦ close_cycle successor (Dict.get s.stack_index successor) s.stack
  | false ↦ elim (member s.visited successor) [
    | true ↦ explore rec rest s
    | false ↦ and_then (rec successor s) (explore rec rest)
  ]
]

abbrev pub start : Search
start = record { visiting = []; visited = []; stack = []; stack_index = [] }

module _ (successors : String → List String) where
  unfoldable pub dfs : ℕ → String → Search → Found
  unfolding enter leave explore
  dfs zero node_id s = out_of_fuel
  dfs (suc fuel) node_id s =
      and_then (explore (dfs fuel) (successors node_id) (enter node_id s))
        (λ s'. clear (leave node_id s'))

  -- The loop over the nodes.
  unfoldable pub search_from : ℕ → List String → Search → Found
  unfolding dfs
  search_from fuel [] s = clear s
  search_from fuel (node_id ∷ rest) s = elim (member s.visited node_id) [
    | true ↦ search_from fuel rest s
    | false ↦ and_then (dfs fuel node_id s) (search_from fuel rest)
  ]

  unfoldable pub detect_cycle : List String → Found
  unfolding search_from
  detect_cycle nodes = search_from (length nodes) nodes start
