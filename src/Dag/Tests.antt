-- ===== src/Dag/Tests.antt =====
-- engine/dag.py on small inputs: an adjacency function stands for the graph of networkx.
use agent_manager.Prelude.Dict
use agent_manager.Prelude.StrSet.{member, add, discard}
use agent_manager.Prelude.{
  String, ◌≡◌, ◌↔◌, refl, inl, inr, true, false, some, List, [], ◌∷◌, ok, err, subst, All,
  if◌then◌else◌, str_eq, eq_iff, arith,
}
use agent_manager.Dag.Digraph.{Digraph, IsDigraph, with_edge}
use agent_manager.Dag.Search.{cycle, detect_cycle}
use agent_manager.Dag.Walks.{Edge}
use agent_manager.Dag.Correct.{Decides, detect_cycle-Decides}
use agent_manager.Dag.Engine.{
  DagEngine, DagNode, pending, completed, creates_cycle, new_engine, add_node, add_edge, link,
  detect_cycle_path, detect_deadlock, topological_sort, get_ready_nodes, update_node_status,
  successors_with_extra_edge,
}
use agent_manager.Dag.Links.{IsSound}
use agent_manager.Dag.Decisions.{
  Answers, Build, node, edge, mark, build, add_edge-Answers, build_new-IsSound,
  topological_sort-IsSound,
}
use agent_manager.Dag.Ready.{Holds, IsReady, IsKnown, get_ready_nodes_lem}

abbrev adjacency : Digraph (String → List String)
adjacency = record {
  empty = λ u. [];
  add_node = λ n g. g;
  add_edge = λ a b g u. with_edge a b (g u) u;
  successors = λ g u. g u;
  topological_sort = λ g. [];
}

adjacency-IsDigraph : IsDigraph adjacency
adjacency-IsDigraph = record {
  successors-empty = λ u. refl;
  successors-add_node = λ n g u. refl;
  successors-add_edge = λ a b g u. refl;
}

abbrev task : String → List String → DagNode
task id deps = record { node_id = id; task_type = "code"; dependencies = deps; status = pending }

abbrev chain : List Build
chain =
    node (task "A" [])
    ∷ node (task "B" [])
    ∷ node (task "C" [])
    ∷ edge "A" "B"
    ∷ edge "B" "C"
    ∷ mark "A" completed
    ∷ []

abbrev chained : DagEngine (String → List String)
chained = build adjacency chain (new_engine adjacency)

program : Unit {0}
unfolding build add_node add_edge link detect_cycle_path detect_cycle get_ready_nodes
    update_node_status detect_deadlock topological_sort successors_with_extra_edge Dict.get Dict.put
    Dict.contains Dict.keys Dict.remove member add discard
program = tt

get_ready_nodes-chained : get_ready_nodes adjacency chained ≡ some ("B" ∷ [])
unfolding program
get_ready_nodes-chained = refl

add_edge-chained :
    add_edge adjacency "C" "A" chained ≡ err (creates_cycle "C" "A" ("A" ∷ "B" ∷ "C" ∷ "A" ∷ []))
unfolding program
add_edge-chained = refl

build_new-IsSound_example : IsSound adjacency chained
build_new-IsSound_example = build_new-IsSound adjacency adjacency-IsDigraph chain

add_edge-Answers_example : Answers adjacency "C" "A" chained (add_edge adjacency "C" "A" chained)
add_edge-Answers_example =
    add_edge-Answers adjacency adjacency-IsDigraph "C" "A" chained build_new-IsSound_example

topological_sort-IsSound_example :
    (detect_deadlock adjacency chained ≡ ok false) × (topological_sort adjacency chained ≡ ok [])
topological_sort-IsSound_example =
    topological_sort-IsSound adjacency adjacency-IsDigraph chained build_new-IsSound_example

abbrev waiting : DagEngine (String → List String)
waiting = record {
  nodes = ("A", record (task "A" []) { status = completed }) ∷ ("B", task "B" ("A" ∷ [])) ∷ [];
  graph = λ u. [];
}

waiting-IsKnown : IsKnown waiting.nodes
unfolding Dict.contains
waiting-IsKnown k n (inl (_, e)) =
    subst (λ (m : DagNode). All (λ d. Dict.contains waiting.nodes d ≡ true) m.dependencies) e tt
waiting-IsKnown k n (inr (inl (_, e))) =
    subst (λ (m : DagNode). All (λ d. Dict.contains waiting.nodes d ≡ true) m.dependencies) e
      (refl, tt)
waiting-IsKnown k n (inr (inr none_left)) = absurd none_left

get_ready_nodes_lem_example :
    (r : List String) × (get_ready_nodes adjacency waiting ≡ some r)
    × ((k : String)
        → (member r k ≡ true) ↔ ((n : DagNode) × Holds waiting.nodes k n × IsReady waiting.nodes n))
get_ready_nodes_lem_example = get_ready_nodes_lem adjacency waiting waiting-IsKnown

abbrev dangling : DagEngine (String → List String)
dangling = record { nodes = ("A", task "A" ("Z" ∷ [])) ∷ []; graph = λ u. [] }

abbrev loop : String → List String
loop u = if str_eq u "A" then "B" ∷ [] else if str_eq u "B" then "A" ∷ [] else []

loop-ends :
    (u v : String)
    → Edge loop u v
    → (member ("A" ∷ "B" ∷ []) v ≡ true) × (member ("A" ∷ "B" ∷ []) u ≡ true)
unfolding member
loop-ends u v h =
    ground
      (arith, eq_iff u "A", eq_iff u "B", eq_iff "A" v, eq_iff "B" v, eq_iff "A" u, eq_iff "B" u)

detect_cycle-Decides_example : Decides loop (detect_cycle loop ("A" ∷ "B" ∷ []))
detect_cycle-Decides_example =
    detect_cycle-Decides loop ("A" ∷ "B" ∷ []) (λ u v h. (loop-ends u v h).0)
      (λ u v h. (loop-ends u v h).1)

detect_cycle-loop : detect_cycle loop ("A" ∷ "B" ∷ []) ≡ cycle ("A" ∷ "B" ∷ "A" ∷ [])
unfolding program
detect_cycle-loop = refl
