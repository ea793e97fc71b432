-- ===== src/Dag/Ready.antt =====
-- engine/dag.py, `get_ready_nodes`: which nodes it lists, and when it fails.
use agent_manager.Prelude.Dict
use agent_manager.Prelude.Dict.{Dict, contains-get}
use agent_manager.Prelude.StrSet.{member, member-cons}
use agent_manager.Prelude.{
  String, ◌≡◌, ◌↔◌, ◌⊎◌, refl, sym, subst, Bool, inl, inr, true, false, some, none, List, [], ◌∷◌,
  All, arith, str_eq, eq_iff, eq_refl, Bool-cases, Option-cases,
}
use agent_manager.Dag.Digraph.{Digraph}
use agent_manager.Dag.Engine.{
  DagEngine, DagNode, TaskStatus, pending, completed, all_deps_completed, ready_among,
  get_ready_nodes, same_status,
}

-- The dictionary has the entry.
abbrev pub Holds : {V : Type 0} → Dict V → String → V → Type 0
Holds [] k n = ⊥
Holds ((j, m) ∷ d) k n = (j ≡ k) × (m ≡ n) ⊎ Holds d k n

abbrev pub IsDone : Dict DagNode → String → Type 0
IsDone nodes dep = (m : DagNode) × (Dict.get nodes dep ≡ some m) × (m.status ≡ completed)

-- A node that waits, with all of its dependencies completed.
abbrev pub IsReady : Dict DagNode → DagNode → Type 0
IsReady nodes n = (n.status ≡ pending) × All (IsDone nodes) n.dependencies

same_status-completed : (s : TaskStatus) → same_status s completed ≡ true → s ≡ completed
unfolding same_status
same_status-completed s h = ground arith

same_status-pending : (s : TaskStatus) → same_status s pending ≡ true → s ≡ pending
unfolding same_status
same_status-pending s h = ground arith

all_deps_completed-Done :
    (nodes : Dict DagNode) (deps : List String)
    → all_deps_completed nodes deps ≡ some true
    → All (IsDone nodes) deps
unfolding all_deps_completed
all_deps_completed-Done nodes [] h = tt
all_deps_completed-Done nodes (dep ∷ deps) h = elim (Option-cases (Dict.get nodes dep)) [
  | inl missing ↦ ground arith
  | inr (m, at) ↦ elim (Bool-cases (same_status m.status completed)) [
    | inl e ↦ (
      (m, at, same_status-completed m.status e),
      all_deps_completed-Done nodes deps (ground arith),
    )
    | inr e ↦ ground arith
  ]
]

Done-all_deps_completed :
    (nodes : Dict DagNode) (deps : List String)
    → All (IsDone nodes) deps
    → all_deps_completed nodes deps ≡ some true
unfolding all_deps_completed same_status
Done-all_deps_completed nodes [] h = refl
Done-all_deps_completed nodes (dep ∷ deps) h =
    let (m, at, done) = h.0 in ground (arith, Done-all_deps_completed nodes deps h.1)

all_deps_completed-total :
    (nodes : Dict DagNode) (deps : List String)
    → All (λ d. Dict.contains nodes d ≡ true) deps
    → (b : Bool) × (all_deps_completed nodes deps ≡ some b)
unfolding all_deps_completed
all_deps_completed-total nodes [] h = (true, refl)
all_deps_completed-total nodes (dep ∷ deps) h = elim (Option-cases (Dict.get nodes dep)) [
  | inl missing ↦ absurd (ground (arith, contains-get nodes dep, h.0))
  | inr (m, at) ↦
      let (b, e) = all_deps_completed-total nodes deps h.1 in
      elim (Bool-cases (same_status m.status completed)) [
        | inl done ↦ (b, ground arith)
        | inr not_done ↦ (false, ground arith)
      ]
]

module _ (nodes : Dict DagNode) where
  -- The list for the entries from `(j, n)` on, from the list for those behind it.
  ready_among-cons :
      (j : String) (n : DagNode) (items : Dict DagNode) (r : List String)
      → ready_among nodes ((j, n) ∷ items) ≡ some r
      → (rest : List String) × (ready_among nodes items ≡ some rest)
        × ((r ≡ j ∷ rest) × IsReady nodes n ⊎ (r ≡ rest) × ¬ IsReady nodes n)
  unfolding ready_among
  ready_among-cons j n items r h = elim (Option-cases (ready_among nodes items)) [
    | inl missing ↦ absurd (ground arith)
    | inr (rest, e) ↦ (
      rest,
      e,
      elim (Bool-cases (same_status n.status pending)) [
        | inl waits ↦ elim (Option-cases (all_deps_completed nodes n.dependencies)) [
          | inl missing ↦ ground arith
          | inr (true, done) ↦ inl (
            ground arith,
            (same_status-pending n.status waits, all_deps_completed-Done nodes n.dependencies done),
          )
          | inr (false, done) ↦ inr (
            ground arith,
            λ ready. ground (arith, Done-all_deps_completed nodes n.dependencies ready.1),
          )
        ]
        | inr other ↦ inr (ground arith, λ ready. unfold same_status in ground arith)
      ],
    )
  ]

  ready_among_sound :
      (items : Dict DagNode) (r : List String) (k : String)
      → ready_among nodes items ≡ some r
      → member r k ≡ true
      → (n : DagNode) × Holds items k n × IsReady nodes n
  unfolding ready_among member
  ready_among_sound [] r k h m = ground arith
  ready_among_sound ((j, n) ∷ items) r k h m =
      let (rest, e, split) = ready_among-cons j n items r h in
      elim split [
        | inl (longer, ready) ↦ elim (Bool-cases (str_eq j k)) [
          | inl same ↦ (n, inl ((eq_iff j k).0 same, refl), ready)
          | inr other ↦
              let (x, held, ready_x) = ready_among_sound items rest k e (ground arith) in
              (x, inr held, ready_x)
        ]
        | inr (same, unready) ↦
            let (x, held, ready_x) = ready_among_sound items rest k e (ground arith) in
            (x, inr held, ready_x)
      ]

  ready_among_complete :
      (items : Dict DagNode) (r : List String) (k : String) (n : DagNode)
      → ready_among nodes items ≡ some r
      → Holds items k n
      → IsReady nodes n
      → member r k ≡ true
  unfolding member
  ready_among_complete [] r k n h held ready = absurd held
  ready_among_complete ((j, x) ∷ items) r k n h held ready =
      let (rest, e, split) = ready_among-cons j x items r h in
      elim held [
        | inl (e_j, e_x) ↦ elim split [
          | inl (longer, _) ↦ rw (longer, e_j) (rw (member, eq_refl k))
          | inr (_, unready) ↦ absurd (unready (subst (IsReady nodes) (sym e_x) ready))
        ]
        | inr later ↦
            let at_rest = ready_among_complete items rest k n e later ready in
            elim split [
              | inl (longer, _) ↦ rw longer (member-cons j rest k at_rest)
              | inr (same, _) ↦ rw same at_rest
            ]
      ]

  -- If each dependency of each entry is a node, the loop meets no missing key.
  ready_among-total :
      (items : Dict DagNode)
      → ((k : String) (n : DagNode)
          → Holds items k n
          → All (λ d. Dict.contains nodes d ≡ true) n.dependencies)
      → (r : List String) × (ready_among nodes items ≡ some r)
  unfolding ready_among
  ready_among-total [] known = ([], refl)
  ready_among-total ((j, n) ∷ items) known =
      let (rest, e) = ready_among-total items (λ k m held. known k m (inr held)) in
      let (b, done) =
        all_deps_completed-total nodes n.dependencies (known j n (inl (refl, refl))) in
      elim (Bool-cases (same_status n.status pending)) [
        | inr other ↦ (rest, rw (other, ready_among) e)
        | inl waits ↦ elim (Bool-cases b) [
          | inl yes_b ↦ (j ∷ rest, ground arith)
          | inr no_b ↦ (rest, ground arith)
        ]
      ]

all_deps_completed-missing :
    (nodes : Dict DagNode) (dep : String) (deps : List String)
    → Dict.contains nodes dep ≡ false
    → all_deps_completed nodes (dep ∷ deps) ≡ none
unfolding all_deps_completed
all_deps_completed-missing nodes dep deps h = ground (arith, contains-get nodes dep)

ready_among-missing :
    (nodes items : Dict DagNode) (n : DagNode) (k : String)
    → Holds items k n
    → n.status ≡ pending
    → all_deps_completed nodes n.dependencies ≡ none
    → ready_among nodes items ≡ none
unfolding ready_among same_status
ready_among-missing nodes [] n k held waits missing = absurd held
ready_among-missing nodes ((j, x) ∷ items) n k held waits missing = elim held [
  | inl (e_j, e_x) ↦
      let waits_x = rw (← e_x) at waits in let missing_x = rw (← e_x) at missing in ground arith
  | inr later ↦ ground (arith, ready_among-missing nodes items n k later waits missing)
]

-- Every dependency of every node is itself a node.
abbrev pub IsKnown : Dict DagNode → Type 0
IsKnown nodes =
    (k : String) (n : DagNode)
    → Holds nodes k n
    → All (λ d. Dict.contains nodes d ≡ true) n.dependencies

module _ {G : Type 0} (ops : Digraph G) where
  -- If every dependency of every node is a node, `get_ready_nodes` returns: it lists exactly the
  -- nodes that are pending and whose dependencies are all completed.
  pub get_ready_nodes_lem :
      (e : DagEngine G)
      → IsKnown e.nodes
      → (r : List String) × (get_ready_nodes ops e ≡ some r)
        × ((k : String)
            → (member r k ≡ true) ↔ ((n : DagNode) × Holds e.nodes k n × IsReady e.nodes n))
  unfolding get_ready_nodes
  get_ready_nodes_lem e known =
      let (r, listed) = ready_among-total e.nodes e.nodes known in
      (
        r,
        listed,
        λ k. (
          ready_among_sound e.nodes e.nodes r k listed,
          λ (n, held, ready). ready_among_complete e.nodes e.nodes r k n listed held ready,
        ),
      )

  -- A pending node whose first dependency is not a node makes `get_ready_nodes` fail with a
  -- `KeyError`, whatever else the engine holds.
  pub get_ready_nodes-missing :
      (e : DagEngine G) (k dep : String) (n : DagNode) (deps : List String)
      → Holds e.nodes k n
      → n.status ≡ pending
      → n.dependencies ≡ dep ∷ deps
      → Dict.contains e.nodes dep ≡ false
      → get_ready_nodes ops e ≡ none
  unfolding get_ready_nodes
  get_ready_nodes-missing e k dep n deps held waits first missing =
      ready_among-missing e.nodes e.nodes n k held waits
        (rw first (all_deps_completed-missing e.nodes dep deps missing))
