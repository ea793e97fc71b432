-- ===== src/Dag/Engine.antt =====
-- engine/dag.py, `TaskStatus`, `DAGNode` and the class `DAGEngine`. The field `metadata` of a node,
-- which no operation reads, and log lines are left out.
use agent_manager.Prelude.Dict
use agent_manager.Prelude.Dict.{Dict}
use agent_manager.Prelude.StrSet.{member}
use agent_manager.Prelude.{
  ℕ, String, Bool, true, false, not, ◌&&◌, Option, none, some, List, [], ◌∷◌, ◌++◌, ok, err, Result,
  str_eq, ◌==◌, if◌then◌else◌,
}
use agent_manager.Dag.Digraph.{Digraph}
use agent_manager.Dag.Search.{Found, cycle, clear, key_error, out_of_fuel, detect_cycle}

pub data TaskStatus : Type 0 where
  pending ready running verifying completed failed blocked_repair blocked_hitl : TaskStatus

-- The place of a status in the enumeration, by which statuses are compared.
unfoldable pub ordinal : TaskStatus → ℕ
ordinal pending = 0
ordinal ready = 1
ordinal running = 2
ordinal verifying = 3
ordinal completed = 4
ordinal failed = 5
ordinal blocked_repair = 6
ordinal blocked_hitl = 7

unfoldable pub same_status : TaskStatus → TaskStatus → Bool
unfolding ordinal
same_status s t = ordinal s == ordinal t

pub record DagNode : Type 0 where
  pub node_id : String
  pub task_type : String
  pub dependencies : List String
  pub status : TaskStatus

pub record DagEngine (G : Type 0) : Type 0 where
  pub nodes : Dict DagNode
  pub graph : G

-- The `ValueError`s of the engine; `missing_key` is a `KeyError`, and `no_fuel` is the model's own.
pub data DagError : Type 0 where
  node_exists node_not_found : String → DagError
  nodes_not_found : DagError
  creates_cycle : (from_node to_node : String) → List String → DagError
  contains_cycle : DagError
  missing_key no_fuel : DagError

-- `all(self.nodes[dep].status == COMPLETED for dep in dependencies)`, which stops at the first
-- dependency that fails; `none` is the `KeyError`.
unfoldable pub all_deps_completed : Dict DagNode → List String → Option Bool
unfolding same_status
all_deps_completed nodes [] = some true
all_deps_completed nodes (dep ∷ deps) = elim (Dict.get nodes dep) [
  | none ↦ none
  | some n ↦ elim (same_status n.status completed) [
    | true ↦ all_deps_completed nodes deps
    | false ↦ some false
  ]
]

abbrev pub keep_ready : String → Bool → Option (List String) → Option (List String)
keep_ready node_id done none = none
keep_ready node_id true (some rest) = some (node_id ∷ rest)
keep_ready node_id false (some rest) = some rest

-- The loop of `get_ready_nodes` over the items of `nodes`.
unfoldable pub ready_among : Dict DagNode → Dict DagNode → Option (List String)
unfolding all_deps_completed
ready_among nodes [] = some []
ready_among nodes ((node_id, node) ∷ items) =
    let rest = ready_among nodes items in
    elim (same_status node.status pending) [
      | false ↦ rest
      | true ↦ elim (all_deps_completed nodes node.dependencies) [
        | none ↦ none
        | some done ↦ keep_ready node_id done rest
      ]
    ]

-- The append to the dependencies of a node, in `add_edge`.
unfoldable pub depend_on : String → DagNode → DagNode
depend_on from_node n =
    if member n.dependencies from_node
    then n
    else record n { dependencies = n.dependencies ++ from_node ∷ [] }

module _ {G : Type 0} (ops : Digraph G) where
  open ops use {
    empty, add_node as graph_add_node, add_edge as graph_add_edge, successors,
    topological_sort as graph_topological_sort,
  }

  abbrev pub new_engine : DagEngine G
  new_engine = record { nodes = []; graph = empty }

  unfoldable pub add_node : DagNode → DagEngine G → Result DagError (DagEngine G)
  add_node node e =
      if Dict.contains e.nodes node.node_id
      then err (node_exists node.node_id)
      else ok (record {
        nodes = Dict.put e.nodes node.node_id node;
        graph = graph_add_node node.node_id e.graph;
      })

  -- `_successors_with_extra_edge`
  unfoldable pub successors_with_extra_edge :
      DagEngine G → Option (String × String) → String → List String
  successors_with_extra_edge e none node_id = successors e.graph node_id
  successors_with_extra_edge e (some (a, b)) node_id =
      let vs = successors e.graph node_id in
      if str_eq a node_id && not (member vs b) then vs ++ b ∷ [] else vs

  -- `_detect_cycle_path`
  unfoldable pub detect_cycle_path : DagEngine G → Option (String × String) → Found
  detect_cycle_path e extra_edge =
      detect_cycle (successors_with_extra_edge e extra_edge) (Dict.keys e.nodes)

  -- The statements of `add_edge` behind the test for a cycle.
  unfoldable pub link : String → String → DagEngine G → DagEngine G
  unfolding depend_on
  link from_node to_node e = record {
    graph = graph_add_edge from_node to_node e.graph;
    nodes = elim (Dict.get e.nodes to_node) [
      | none ↦ e.nodes
      | some n ↦ Dict.put e.nodes to_node (depend_on from_node n)
    ];
  }

  unfoldable pub after_search :
      String → String → DagEngine G → Found → Result DagError (DagEngine G)
  unfolding link
  after_search from_node to_node e (cycle path) = err (creates_cycle from_node to_node path)
  after_search from_node to_node e (clear s) = ok (link from_node to_node e)
  after_search from_node to_node e key_error = err missing_key
  after_search from_node to_node e out_of_fuel = err no_fuel

  unfoldable pub add_edge : String → String → DagEngine G → Result DagError (DagEngine G)
  unfolding after_search
  add_edge from_node to_node e =
      if Dict.contains e.nodes from_node && Dict.contains e.nodes to_node
      then after_search from_node to_node e (detect_cycle_path e (some (from_node, to_node)))
      else err nodes_not_found

  deadlock : Found → Result DagError Bool
  deadlock (cycle path) = ok true
  deadlock (clear s) = ok false
  deadlock key_error = err missing_key
  deadlock out_of_fuel = err no_fuel

  unfoldable pub detect_deadlock : DagEngine G → Result DagError Bool
  unfolding deadlock
  detect_deadlock e = deadlock (detect_cycle_path e none)

  sorted_unless : Result DagError Bool → List String → Result DagError (List String)
  sorted_unless (ok true) order = err contains_cycle
  sorted_unless (ok false) order = ok order
  sorted_unless (err x) order = err x

  unfoldable pub topological_sort : DagEngine G → Result DagError (List String)
  unfolding sorted_unless detect_deadlock
  topological_sort e = sorted_unless (detect_deadlock e) (graph_topological_sort e.graph)

  unfoldable pub get_ready_nodes : DagEngine G → Option (List String)
  unfolding ready_among
  get_ready_nodes e = ready_among e.nodes e.nodes

  unfoldable pub get_node : String → DagEngine G → Option DagNode
  get_node node_id e = Dict.get e.nodes node_id

  unfoldable pub update_node_status :
      String → TaskStatus → DagEngine G → Result DagError (DagEngine G)
  update_node_status node_id status e = elim (Dict.get e.nodes node_id) [
    | none ↦ err (node_not_found node_id)
    | some n ↦ ok (record e { nodes = Dict.put e.nodes node_id (record n { status = status }) })
  ]

  unfoldable pub get_dependencies : String → DagEngine G → List String
  get_dependencies node_id e = elim (Dict.get e.nodes node_id) [
    | none ↦ []
    | some n ↦ n.dependencies
  ]

  unfoldable pub get_dependents : String → DagEngine G → List String
  get_dependents node_id e =
      if Dict.contains e.nodes node_id then successors e.graph node_id else []
