-- ===== src/Dag/Invariant.antt =====
-- engine/dag.py: the invariant of `DAGEngine`, and what `add_edge` decides.
use mathlib.Core.Path.{fun_ext}
use agent_manager.Prelude.Dict
use agent_manager.Prelude.Dict.{Dict, get-put, contains-get, contains-put, is_some, member-keys}
use agent_manager.Prelude.StrSet.{member, member-append}
use agent_manager.Prelude.{
  String, ◌≡◌, sym, inl, inr, true, false, some, List, [], ◌∷◌, ◌++◌, ok, arith, str_eq, eq_iff,
  eq_refl, Bool-cases, Option-cases, if◌then◌else◌, subst,
}
use agent_manager.Dag.Digraph.{Digraph, IsDigraph}
use agent_manager.Dag.Search.{detect_cycle}
use agent_manager.Dag.Walks.{Linked, IsCycle, IsAcyclic}
use agent_manager.Dag.Correct.{Decides, detect_cycle-Decides}
use agent_manager.Dag.Engine.{
  DagEngine, DagNode, TaskStatus, new_engine, add_node, link, update_node_status, detect_cycle_path,
}
use agent_manager.Dag.Links.{
  GraphEdge, IsSound, extra-edge, link-edge, link-node, member-depend_on, contains-link,
}

module _ {G : Type 0} (ops : Digraph G) (law : IsDigraph ops) where
  open law use {successors-empty, successors-add_node, successors-add_edge}

  pub new_engine-IsSound : IsSound ops (new_engine ops)
  unfolding member Dict.get
  new_engine-IsSound = record {
    source = λ u v h. absurd (none_from_empty u v h);
    target = λ u v h. absurd (none_from_empty u v h);
    acyclic = λ path c. no_walk c;
    recorded = λ u v n h at. cc;
  }
    where
      none_from_empty : (u v : String) → ¬ GraphEdge ops (new_engine ops) u v
      none_from_empty u v h = cc (subst (λ vs. member vs v ≡ true) (successors-empty u) h)

      first :
          (x : String) (r : List String) → Linked (ops.successors ops.empty) (x ∷ r ++ x ∷ []) → ⊥
      first x [] l = none_from_empty x x l.0
      first x (y ∷ r) l = none_from_empty x y l.0

      no_walk : {path : List String} → ¬ IsCycle (ops.successors ops.empty) path
      no_walk c = first c.node c.between c.linked

  add_node-Sound :
      (node : DagNode) (e : DagEngine G)
      → IsSound ops e
      → Dict.contains e.nodes node.node_id ≡ false
      → IsSound ops (record {
        nodes = Dict.put e.nodes node.node_id node;
        graph = ops.add_node node.node_id e.graph;
      })
  add_node-Sound node e s new = record {
    source = λ u v h. rw contains-put (more u (s.source u v (old u v h)));
    target = λ u v h. rw contains-put (more v (s.target u v (old u v h)));
    acyclic = subst IsAcyclic (sym (fun_ext (successors-add_node node.node_id e.graph))) s.acyclic;
    recorded = λ u v n h at. ground (
      arith,
      get-put e.nodes node.node_id v node,
      s.target u v (old u v h),
      s.recorded u v n (old u v h),
      eq_iff node.node_id v,
    );
  }
    where
      old :
          (u v : String)
          → member (ops.successors (ops.add_node node.node_id e.graph) u) v ≡ true
          → GraphEdge ops e u v
      old u v h = rw (successors-add_node node.node_id e.graph u) at h

      more :
          (u : String)
          → Dict.contains e.nodes u ≡ true
          → (if str_eq node.node_id u then true else Dict.contains e.nodes u) ≡ true
      more u h = ground arith

  pub add_node-IsSound :
      (node : DagNode) (e e' : DagEngine G)
      → IsSound ops e
      → add_node ops node e ≡ ok e'
      → IsSound ops e'
  unfolding add_node
  add_node-IsSound node e e' s h = elim (Bool-cases (Dict.contains e.nodes node.node_id)) [
    | inl old ↦ ground arith
    | inr new ↦ subst (IsSound ops) (ground arith) (add_node-Sound node e s new)
  ]

  module _ (a b : String) (e : DagEngine G) (s : IsSound ops e)
      (has_a : Dict.contains e.nodes a ≡ true) (has_b : Dict.contains e.nodes b ≡ true) where
    link-source :
        (u v : String) → GraphEdge ops (link ops a b e) u v → Dict.contains e.nodes u ≡ true
    link-source u v h = elim (link-edge ops law a b e u v h) [
      | inl old ↦ s.source u v old
      | inr (e_a, e_b) ↦ subst (λ x. Dict.contains e.nodes x ≡ true) e_a has_a
    ]

    link-target :
        (u v : String) → GraphEdge ops (link ops a b e) u v → Dict.contains e.nodes v ≡ true
    link-target u v h = elim (link-edge ops law a b e u v h) [
      | inl old ↦ s.target u v old
      | inr (e_a, e_b) ↦ subst (λ x. Dict.contains e.nodes x ≡ true) e_b has_b
    ]

    link-recorded :
        (u v : String) (n : DagNode)
        → GraphEdge ops (link ops a b e) u v
        → Dict.get (link ops a b e).nodes v ≡ some n
        → member n.dependencies u ≡ true
    link-recorded u v n h at = elim (Option-cases (Dict.get e.nodes b)) [
      | inl missing ↦ ground (arith, contains-get e.nodes b)
      | inr (m, at_b) ↦ elim (link-edge ops law a b e u v h) [
        | inl old ↦ ground (
          arith,
          link-node ops law a b e v at_b,
          member-depend_on ops law a u m,
          eq_iff b v,
          s.recorded u v m old,
          s.recorded u v n old,
        )
        | inr (e_a, e_b) ↦ ground (
          arith,
          link-node ops law a b e v at_b,
          member-depend_on ops law a u m,
          eq_iff b v,
          eq_iff a u,
        )
      ]
    ]

    pub link-IsSound :
        IsAcyclic (ops.successors (link ops a b e).graph) → IsSound ops (link ops a b e)
    link-IsSound free = record {
      source = λ u v h. rw (contains-link ops law a b e u) (link-source u v h);
      target = λ u v h. rw (contains-link ops law a b e v) (link-target u v h);
      acyclic = free;
      recorded = link-recorded;
    }

    pub link-has_edge : GraphEdge ops (link ops a b e) a b
    unfolding link member
    link-has_edge = ground (
      arith,
      successors-add_edge a b e.graph a,
      member-append (ops.successors e.graph a) (b ∷ []) b,
      eq_refl a,
      eq_refl b,
    )

    -- The detector, asked about the proposed edge, answers for the graph with that edge.
    pub search-Decides :
        Decides (ops.successors (link ops a b e).graph) (detect_cycle_path ops e (some (a, b)))
    unfolding detect_cycle_path
    search-Decides =
        subst
          (λ f.
            Decides (ops.successors (link ops a b e).graph) (detect_cycle f (Dict.keys e.nodes)))
          (sym (fun_ext (extra-edge ops law a b e)))
          (detect_cycle-Decides (ops.successors (link ops a b e).graph) (Dict.keys e.nodes)
            (λ u v h. rw member-keys (link-target u v h))
            (λ u v h. rw member-keys (link-source u v h)))

  pub update_node_status-IsSound :
      (k : String) (status : TaskStatus) (e e' : DagEngine G)
      → IsSound ops e
      → update_node_status ops k status e ≡ ok e'
      → IsSound ops e'
  unfolding update_node_status
  update_node_status-IsSound k status e e' s h = elim (Option-cases (Dict.get e.nodes k)) [
    | inl missing ↦ ground arith
    | inr (n, at) ↦
        let same : record e { nodes = Dict.put e.nodes k (record n { status = status }) } ≡ e' =
          ground arith in
        subst (IsSound ops) same (record {
          source = λ u v g. more u n at (s.source u v g);
          target = λ u v g. more v n at (s.target u v g);
          acyclic = s.acyclic;
          recorded = λ u v m g at_v. ground (
            arith,
            get-put e.nodes k v (record n { status = status }),
            s.recorded u v m g,
            s.recorded u v n g,
            eq_iff k v,
          );
        })
  ]
    where
      more :
          (u : String) (n : DagNode)
          → Dict.get e.nodes k ≡ some n
          → Dict.contains e.nodes u ≡ true
          → Dict.contains (Dict.put e.nodes k (record n { status = status })) u ≡ true
      more u n at g = ground (arith, contains-put e.nodes k u (record n { status = status }))
