-- ===== src/Dag/Walks.antt =====
-- Walks and cycles of a successor function, and the order in which a depth-first search finishes
-- its nodes.
use agent_manager.Prelude.StrSet.{StrSet, member, member-cons}
use agent_manager.Prelude.{
  String, ◌≡◌, inl, inr, true, List, [], ◌∷◌, ◌++◌, str_eq, eq_iff, Bool-cases, subst, sym,
}

module _ (successors : String → List String) where
  abbrev pub Edge : String → String → Type 0
  Edge u v = member (successors u) v ≡ true

  -- Each name of the list has an edge to the next.
  abbrev pub Linked : List String → Type 0
  Linked [] = Unit
  Linked (x ∷ []) = Unit
  Linked (x ∷ y ∷ r) = Edge x y × Linked (y ∷ r)

  -- A cycle path, as the detector reports it: along edges from a node back to the same node.
  pub record IsCycle (path : List String) : Type 0 where
    pub node : String
    pub between : List String
    pub closed : path ≡ node ∷ between ++ node ∷ []
    pub linked : Linked (node ∷ between ++ node ∷ [])

  abbrev pub IsAcyclic : Type 0
  IsAcyclic = (path : List String) → ¬ IsCycle path

  pub Linked-snoc :
      (pre : List String) (x y : String)
      → Linked (pre ++ x ∷ [])
      → Edge x y
      → Linked ((pre ++ x ∷ []) ++ y ∷ [])
  Linked-snoc [] x y l e = (e, tt)
  Linked-snoc (a ∷ []) x y l e = (l.0, (e, tt))
  Linked-snoc (a ∷ b ∷ r) x y l e = (l.0, Linked-snoc (b ∷ r) x y l.1 e)

  pub Linked-suffix : (pre post : List String) → Linked (pre ++ post) → Linked post
  Linked-suffix [] post l = l
  Linked-suffix (a ∷ []) [] l = tt
  Linked-suffix (a ∷ []) (x ∷ post) l = l.1
  Linked-suffix (a ∷ b ∷ r) post l = Linked-suffix (b ∷ r) post l.1

  pub data Walk : String → String → Type 0 where
    here : (u : String) → Walk u u
    step : {u v w : String} → Edge u v → Walk v w → Walk u w

  -- A list that leads from `x` to `z` begins with an edge, and goes on as a walk.
  Linked-Walk :
      (x : String) (r : List String) (z : String)
      → Linked (x ∷ r ++ z ∷ [])
      → (v : String) × Edge x v × Walk v z
  Linked-Walk x [] z l = (z, l.0, here z)
  Linked-Walk x (y ∷ r) z l = let (v, e, w) = Linked-Walk y r z l.1 in (y, l.0, step e w)

  -- The nodes in the order in which they were finished, the last one first: the successors of
  -- each were finished before it.
  abbrev pub IsFinished : StrSet → Type 0
  IsFinished [] = Unit
  IsFinished (u ∷ s) = ((v : String) → Edge u v → member s v ≡ true) × IsFinished s

  IsFinished-Edge :
      (s : StrSet)
      → IsFinished s
      → (u v : String) → member s u ≡ true
      → Edge u v
      → member s v ≡ true
  unfolding member
  IsFinished-Edge [] f u v h e = cc
  IsFinished-Edge (x ∷ s) f u v h e = elim (Bool-cases (str_eq x u)) [
    | inl same ↦ member-cons x s v (f.0 v (subst (λ y. Edge y v) (sym ((eq_iff x u).0 same)) e))
    | inr other ↦ member-cons x s v (IsFinished-Edge s f.1 u v (rw (member, other) at h) e)
  ]

  IsFinished-Walk :
      (s : StrSet)
      → IsFinished s
      → {u v : String} → Walk u v
      → member s u ≡ true
      → member s v ≡ true
  IsFinished-Walk s f (here u) h = h
  IsFinished-Walk s f (step {u} {v} e w) h = IsFinished-Walk s f w (IsFinished-Edge s f u v h e)

  -- No walk from a finished node comes back to it.
  no_return :
      (s : StrSet) → IsFinished s → (u v : String) → member s u ≡ true → Edge u v → ¬ Walk v u
  unfolding member
  no_return [] f u v h e w = cc
  no_return (x ∷ s) f u v h e w = elim (Bool-cases (str_eq x u)) [
    | inl same ↦
        let at_v = f.0 v (subst (λ y. Edge y v) (sym ((eq_iff x u).0 same)) e) in
        no_return s f.1 u v (IsFinished-Walk s f.1 w at_v) e w
    | inr other ↦ no_return s f.1 u v (rw (member, other) at h) e w
  ]

  -- If every node with a successor is finished, there is no cycle.
  pub IsFinished-IsAcyclic :
      (s : StrSet) → IsFinished s → ((u v : String) → Edge u v → member s u ≡ true) → IsAcyclic
  IsFinished-IsAcyclic s f all path c =
      let (v, e, w) = Linked-Walk c.node c.between c.node c.linked in
      no_return s f c.node v (all c.node v e) e w
