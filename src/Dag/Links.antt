-- ===== src/Dag/Links.antt =====
-- engine/dag.py: when a `DAGEngine` is sound, and what the addition of an edge changes.
use agent_manager.Prelude.Dict
use agent_manager.Prelude.Dict.{Dict, get-put, contains-get, contains-put, is_some, member-keys}
use agent_manager.Prelude.StrSet.{member, member-append}
use agent_manager.Prelude.{
  String, ◌≡◌, ◌⊎◌, inl, inr, true, some, [], ◌∷◌, arith, str_eq, eq_iff, Option-cases,
  if◌then◌else◌,
}
use agent_manager.Dag.Digraph.{Digraph, IsDigraph}
use agent_manager.Dag.Walks.{IsAcyclic}
use agent_manager.Dag.Engine.{DagEngine, DagNode, link, depend_on, successors_with_extra_edge}

module _ {G : Type 0} (ops : Digraph G) where
  abbrev pub GraphEdge : DagEngine G → String → String → Type 0
  GraphEdge e u v = member (ops.successors e.graph u) v ≡ true

  -- Edges join nodes, the graph has no cycle, and a node's dependencies name the node at the other
  -- end of each edge into it.
  pub record IsSound (e : DagEngine G) : Type 0 where
    pub source : (u v : String) → GraphEdge e u v → Dict.contains e.nodes u ≡ true
    pub target : (u v : String) → GraphEdge e u v → Dict.contains e.nodes v ≡ true
    pub acyclic : IsAcyclic (ops.successors e.graph)
    pub recorded :
        (u v : String) (n : DagNode)
        → GraphEdge e u v
        → Dict.get e.nodes v ≡ some n
        → member n.dependencies u ≡ true

module _ {G : Type 0} (ops : Digraph G) (law : IsDigraph ops) where
  open law use {successors-add_edge}

  pub extra-edge :
      (a b : String) (e : DagEngine G) (u : String)
      → successors_with_extra_edge ops e (some (a, b)) u ≡ ops.successors (link ops a b e).graph u
  unfolding successors_with_extra_edge link
  extra-edge a b e u = simp successors-add_edge

  pub link-edge :
      (a b : String) (e : DagEngine G) (u v : String)
      → GraphEdge ops (link ops a b e) u v
      → GraphEdge ops e u v ⊎ (a ≡ u) × (b ≡ v)
  unfolding link member
  link-edge a b e u v h = ground (
    arith,
    successors-add_edge a b e.graph u,
    member-append (ops.successors e.graph u) (b ∷ []) v,
    eq_iff a u,
    eq_iff b v,
  )

  pub link-node :
      (a b : String) (e : DagEngine G) (v : String) {n : DagNode}
      → Dict.get e.nodes b ≡ some n
      → Dict.get (link ops a b e).nodes v
        ≡ (if str_eq b v then some (depend_on a n) else Dict.get e.nodes v)
  unfolding link
  link-node a b e v {n} at = ground (arith, get-put e.nodes b v (depend_on a n))

  pub member-depend_on :
      (a u : String) (n : DagNode)
      → member (depend_on a n).dependencies u
        ≡ (if str_eq a u then true else member n.dependencies u)
  unfolding depend_on member
  member-depend_on a u n = ground (arith, member-append n.dependencies (a ∷ []) u, eq_iff a u)

  pub contains-link :
      (a b : String) (e : DagEngine G) (u : String)
      → Dict.contains (link ops a b e).nodes u ≡ Dict.contains e.nodes u
  unfolding link
  contains-link a b e u = elim (Option-cases (Dict.get e.nodes b)) [
    | inl missing ↦ ground arith
    | inr (n, at) ↦ ground (
      arith,
      contains-put e.nodes b u (depend_on a n),
      contains-get e.nodes u,
      contains-get e.nodes b,
      eq_iff b u,
    )
  ]
