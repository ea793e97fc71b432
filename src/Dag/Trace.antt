-- ===== src/Dag/Trace.antt =====
-- engine/dag.py, `_detect_cycle_path`: what holds of the variables of the search between calls of
-- `dfs`, and a count of the nodes that a deeper call can still enter.
use agent_manager.Prelude.Dict
use agent_manager.Prelude.Dict.{get-put, get-remove}
use agent_manager.Prelude.StrSet.{StrSet, member, member-add, member-discard, add}
use mathlib.Core.List.{append_assoc}
use agent_manager.Prelude.{
  ℕ, suc, ◌+◌, ◌≤◌, String, ◌≡◌, refl, sym, ap, ◌∙◌, inl, inr, true, false, some, List, [], ◌∷◌,
  ◌++◌, length, drop, arith, str_eq, eq_iff, eq_refl, Bool-cases, if◌then◌else◌,
}
use agent_manager.Dag.Search.{Search, drop_last, enter, leave}
use agent_manager.Dag.Walks.{Edge, IsFinished}

-- How many of the nodes are not on the stack of the search.
abbrev pub free : List String → StrSet → ℕ
free [] s = 0
free (k ∷ ks) s = if member s k then free ks s else suc (free ks s)

free-add-le : (ks : List String) (s : StrSet) (n : String) → free ks (add s n) ≤ free ks s
free-add-le [] s n = omega arith
free-add-le (k ∷ ks) s n = ground (arith, free-add-le ks s n, member-add s n k)

pub free-add :
    (ks : List String) (s : StrSet) (n : String)
    → member s n ≡ false
    → member ks n ≡ true
    → free ks (add s n) + 1 ≤ free ks s
unfolding member
free-add [] s n h m = cc
free-add (k ∷ ks) s n h m =
    ground (arith, free-add ks s n h, free-add-le ks s n, member-add s n k, eq_iff k n, eq_refl k)

pub free-pos :
    (ks : List String) (s : StrSet) (n : String)
    → member s n ≡ false
    → member ks n ≡ true
    → 1 ≤ free ks s
free-pos ks s n h m = omega (arith, free-add ks s n h m)

pub free-same :
    (ks : List String) (s t : StrSet)
    → ((k : String) → member t k ≡ member s k)
    → free ks t ≡ free ks s
free-same [] s t h = refl
free-same (k ∷ ks) s t h = ground (arith, h k, free-same ks s t h)

pub drop-append : (xs ys : List String) → drop (length xs) (xs ++ ys) ≡ ys
drop-append [] ys = refl
drop-append (x ∷ xs) ys = drop-append xs ys

drop_last-snoc : (xs : List String) (y : String) → drop_last (xs ++ y ∷ []) ≡ xs
unfolding drop_last
drop_last-snoc [] y = refl
drop_last-snoc (x ∷ []) y = refl
drop_last-snoc (x ∷ z ∷ r) y = cc (drop_last-snoc (z ∷ r) y)

module _ (successors : String → List String) where
  -- Between two calls: the finished nodes, and the place of each visiting node on the stack.
  pub record IsTraced (s : Search) : Type 0 where
    pub finished : IsFinished successors s.visited
    pub placed :
        (k : String)
        → member s.visiting k ≡ true
        → (pre : List String) × (post : List String) × (s.stack ≡ pre ++ k ∷ post)
          × (Dict.get s.stack_index k ≡ some (length pre))

  -- A call that finds no cycle leaves the stack as it was and only adds finished nodes.
  pub record After (s t : Search) : Type 0 where
    pub finished : IsFinished successors t.visited
    pub grows : (k : String) → member s.visited k ≡ true → member t.visited k ≡ true
    pub stack : t.stack ≡ s.stack
    pub visiting : (k : String) → member t.visiting k ≡ member s.visiting k
    pub index :
        (k : String)
        → member s.visiting k ≡ true
        → Dict.get t.stack_index k ≡ Dict.get s.stack_index k

  add-IsFinished :
      (s : StrSet) (n : String)
      → IsFinished successors s
      → ((v : String) → Edge successors n v → member s v ≡ true)
      → IsFinished successors (add s n)
  unfolding add
  add-IsFinished s n f all = elim (Bool-cases (member s n)) [
    | inl e ↦ rw e f
    | inr e ↦ rw e (all, f)
  ]

  pub After-refl : {s : Search} → IsTraced s → After s s
  After-refl i = record {
    finished = i.finished;
    grows = λ k h. h;
    stack = refl;
    visiting = λ k. refl;
    index = λ k h. refl;
  }

  pub After-trans : {s t u : Search} → After s t → After t u → After s u
  After-trans a b = record {
    finished = b.finished;
    grows = λ k h. b.grows k (a.grows k h);
    stack = b.stack ∙ a.stack;
    visiting = λ k. b.visiting k ∙ a.visiting k;
    index = λ k h. b.index k (a.visiting k ∙ h) ∙ a.index k h;
  }

  pub After-IsTraced : {s t : Search} → IsTraced s → After s t → IsTraced t
  After-IsTraced i a = record {
    finished = a.finished;
    placed = λ k h.
        let was = sym (a.visiting k) ∙ h in
        let (pre, post, e, at) = i.placed k was in (pre, post, a.stack ∙ e, a.index k was ∙ at);
  }

  pub enter-IsTraced : (n : String) (s : Search) → IsTraced s → IsTraced (enter n s)
  unfolding enter
  enter-IsTraced n s i = record {
    finished = i.finished;
    placed = λ k h. elim (Bool-cases (str_eq n k)) [
      | inl same ↦ (
        s.stack,
        [],
        ap (λ (x : String). s.stack ++ x ∷ []) ((eq_iff n k).0 same),
        rw (get-put, same),
      )
      | inr other ↦
          let (pre, post, e, at) = i.placed k (rw (member-add, other) at h) in
          (
            pre,
            post ++ n ∷ [],
            rw e (append_assoc pre (k ∷ post) (n ∷ [])),
            rw (get-put, other, at),
          )
    ];
  }

  -- What `leave` leaves, if the loop over the successors found all of them finished.
  pub leave-After :
      (n : String) (s t : Search)
      → member s.visiting n ≡ false
      → After (enter n s) t
      → ((v : String) → Edge successors n v → member t.visited v ≡ true)
      → After s (leave n t) × (member (leave n t).visited n ≡ true)
  unfolding enter leave
  leave-After n s t out a all = (
    record {
      finished = add-IsFinished t.visited n a.finished all;
      grows = λ k h. ground (arith, member-add t.visited n k, a.grows k h);
      stack = rw a.stack (drop_last-snoc s.stack n);
      visiting = λ k. ground (
        arith,
        member-discard t.visiting n k,
        a.visiting k,
        member-add s.visiting n k,
        eq_iff n k,
      );
      index = λ k h.
          let other : str_eq n k ≡ false = ground (arith, eq_iff n k) in
          rw (get-remove, other) (a.index k (rw (member-add, other) h) ∙ rw (get-put, other) refl);
    },
    ground (arith, member-add t.visited n n, eq_refl n),
  )
