-- ===== src/Dag/Decisions.antt =====
-- engine/dag.py: what `add_edge`, `detect_deadlock` and `topological_sort` answer, and every engine
-- that calls of the methods can build.
use agent_manager.Prelude.Dict
use agent_manager.Prelude.Dict.{member-keys}
use agent_manager.Prelude.{
  String, ◌≡◌, refl, inl, inr, true, false, ◌&&◌, some, none, List, [], ◌∷◌, ok, err, Result,
  Bool-cases,
}
use agent_manager.Dag.Digraph.{Digraph, IsDigraph}
use agent_manager.Dag.Search.{Search, Found, detect_cycle, cycle, clear, key_error, out_of_fuel}
use agent_manager.Dag.Walks.{IsCycle, IsAcyclic}
use agent_manager.Dag.Correct.{Decides, detect_cycle-Decides}
use agent_manager.Dag.Engine.{
  DagEngine, DagNode, DagError, TaskStatus, nodes_not_found, creates_cycle, new_engine, add_node,
  add_edge, link, update_node_status, detect_cycle_path, detect_deadlock, topological_sort,
  after_search, successors_with_extra_edge,
}
use agent_manager.Dag.Links.{GraphEdge, IsSound}
use agent_manager.Dag.Invariant.{
  new_engine-IsSound, add_node-IsSound, link-IsSound, link-has_edge, search-Decides,
  update_node_status-IsSound,
}

-- A call of a method that changes the engine. What it raises, the caller drops.
pub data Build : Type 0 where
  node : DagNode → Build
  edge : (from_node to_node : String) → Build
  mark : String → TaskStatus → Build

module _ {G : Type 0} (ops : Digraph G) where
  -- What `add_edge` has to answer: it adds the edge if the graph with the edge has no cycle, and
  -- otherwise raises the error with a cycle of that graph.
  abbrev pub Answers : String → String → DagEngine G → Result DagError (DagEngine G) → Type 0
  Answers a b e (ok e') = (e' ≡ link ops a b e) × GraphEdge ops e' a b × IsSound ops e'
  Answers a b e (err (creates_cycle x y path)) =
      (x ≡ a) × (y ≡ b) × IsCycle (ops.successors (link ops a b e).graph) path
  Answers a b e (err nodes_not_found) = (Dict.contains e.nodes a && Dict.contains e.nodes b) ≡ false
  Answers a b e (err _) = ⊥

  or_unchanged : DagEngine G → Result DagError (DagEngine G) → DagEngine G
  or_unchanged e (ok e') = e'
  or_unchanged e (err x) = e

  unfoldable pub build : List Build → DagEngine G → DagEngine G
  unfolding or_unchanged
  build [] e = e
  build (node n ∷ bs) e = build bs (or_unchanged e (add_node ops n e))
  build (edge a b ∷ bs) e = build bs (or_unchanged e (add_edge ops a b e))
  build (mark k s ∷ bs) e = build bs (or_unchanged e (update_node_status ops k s e))

clear_of_acyclic :
    {successors : String → List String} (r : Found)
    → IsAcyclic successors
    → Decides successors r
    → (t : Search) × (r ≡ clear t)
clear_of_acyclic (cycle path) free d = absurd (free path d)
clear_of_acyclic (clear t) free d = (t, refl)
clear_of_acyclic key_error free d = absurd d
clear_of_acyclic out_of_fuel free d = absurd d

module _ {G : Type 0} (ops : Digraph G) (law : IsDigraph ops) where
  after_search-Answers :
      (a b : String) (e : DagEngine G) (r : Found)
      → IsSound ops e
      → Dict.contains e.nodes a ≡ true
      → Dict.contains e.nodes b ≡ true
      → Decides (ops.successors (link ops a b e).graph) r
      → Answers ops a b e (after_search ops a b e r)
  unfolding after_search
  after_search-Answers a b e (cycle path) s ha hb d = (refl, refl, d)
  after_search-Answers a b e (clear t) s ha hb d =
      (refl, link-has_edge ops law a b e s ha hb, link-IsSound ops law a b e s ha hb d)
  after_search-Answers a b e key_error s ha hb d = d
  after_search-Answers a b e out_of_fuel s ha hb d = d

  -- On a sound engine `add_edge` raises "not found" only if one of the nodes is missing, raises the
  -- error for a cycle only with a cycle of the graph that the edge would give, and otherwise adds
  -- the edge and leaves a sound engine; it raises nothing else.
  pub add_edge-Answers :
      (a b : String) (e : DagEngine G) → IsSound ops e → Answers ops a b e (add_edge ops a b e)
  unfolding add_edge
  add_edge-Answers a b e s = elim (Bool-cases (Dict.contains e.nodes a)) [
    | inl ha ↦ elim (Bool-cases (Dict.contains e.nodes b)) [
      | inl hb ↦
          rw (ha, hb)
            (after_search-Answers a b e (detect_cycle_path ops e (some (a, b))) s ha hb
              (search-Decides ops law a b e s ha hb))
      | inr hb ↦ rw (ha, hb) (rw (ha, hb))
    ]
    | inr ha ↦ rw ha (rw ha)
  ]

  add_edge-IsSound :
      (a b : String) (e : DagEngine G) (r : Result DagError (DagEngine G))
      → IsSound ops e
      → Answers ops a b e r
      → IsSound ops (or_unchanged ops e r)
  unfolding or_unchanged
  add_edge-IsSound a b e (ok e') s h = h.2
  add_edge-IsSound a b e (err x) s h = s

  kept-IsSound :
      (e : DagEngine G) (r : Result DagError (DagEngine G))
      → IsSound ops e
      → ((e' : DagEngine G) → r ≡ ok e' → IsSound ops e')
      → IsSound ops (or_unchanged ops e r)
  unfolding or_unchanged
  kept-IsSound e (ok e') s h = h e' refl
  kept-IsSound e (err x) s h = s

  build-IsSound : (bs : List Build) (e : DagEngine G) → IsSound ops e → IsSound ops (build ops bs e)
  unfolding build
  build-IsSound [] e s = s
  build-IsSound (node n ∷ bs) e s =
      build-IsSound bs (or_unchanged ops e (add_node ops n e))
        (kept-IsSound e (add_node ops n e) s (λ e' h. add_node-IsSound ops law n e e' s h))
  build-IsSound (edge a b ∷ bs) e s =
      build-IsSound bs (or_unchanged ops e (add_edge ops a b e))
        (add_edge-IsSound a b e (add_edge ops a b e) s (add_edge-Answers a b e s))
  build-IsSound (mark k t ∷ bs) e s =
      build-IsSound bs (or_unchanged ops e (update_node_status ops k t e)) (
        kept-IsSound e (update_node_status ops k t e) s
          (λ e' h. update_node_status-IsSound ops law k t e e' s h))

  -- Whatever nodes, edges and statuses are put in, in whatever order, with the failing calls
  -- dropped: edges join nodes of the engine, the graph has no cycle, and the dependencies of a node
  -- name the source of each edge into it.
  pub build_new-IsSound : (bs : List Build) → IsSound ops (build ops bs (new_engine ops))
  build_new-IsSound bs = build-IsSound bs (new_engine ops) (new_engine-IsSound ops law)

  clear_of_sound :
      (e : DagEngine G) → IsSound ops e → (t : Search) × (detect_cycle_path ops e none ≡ clear t)
  unfolding detect_cycle_path successors_with_extra_edge
  clear_of_sound e s =
      clear_of_acyclic (detect_cycle (ops.successors e.graph) (Dict.keys e.nodes)) s.acyclic (
        detect_cycle-Decides (ops.successors e.graph) (Dict.keys e.nodes)
          (λ u v h. rw member-keys (s.target u v h)) (λ u v h. rw member-keys (s.source u v h)))

  -- On a sound engine no deadlock is detected, and the topological sort is that of networkx: the
  -- error "DAG contains cycle" is not raised.
  pub topological_sort-IsSound :
      (e : DagEngine G)
      → IsSound ops e
      → (detect_deadlock ops e ≡ ok false)
        × (topological_sort ops e ≡ ok (ops.topological_sort e.graph))
  unfolding topological_sort detect_deadlock
  topological_sort-IsSound e s = let (t, found) = clear_of_sound e s in (rw found, rw found)
