-- ===== src/Dag/Correct.antt =====
-- engine/dag.py, `_detect_cycle_path`: what one call of `dfs` and the loops around it ensure, the
-- bound on the depth of the recursion included.
use mathlib.Core.List.{append_assoc}
use agent_manager.Prelude.Dict
use agent_manager.Prelude.StrSet.{member, All-member, All-of_member}
use agent_manager.Prelude.{
  ℕ, zero, suc, ◌≤◌, String, ◌≡◌, refl, ◌∙◌, inl, inr, true, false, List, [], ◌∷◌, ◌++◌, length,
  All, arith, Bool-cases, subst,
}
use agent_manager.Dag.Search.{
  Search, Found, cycle, clear, key_error, out_of_fuel, enter, leave, close_cycle, and_then, explore,
  dfs, start, search_from, detect_cycle,
}
use agent_manager.Dag.Walks.{
  Edge, Linked, IsCycle, IsAcyclic, Linked-snoc, Linked-suffix, IsFinished-IsAcyclic,
}
use agent_manager.Dag.Trace.{
  free, free-add, free-pos, free-same, drop-append, IsTraced, After, After-refl, After-trans,
  After-IsTraced, enter-IsTraced, leave-After,
}
use agent_manager.Dag.Rounds.{
  explore-visiting, explore-visited, explore-new, search_from-visited, search_from-new, free-start,
}

-- What the detector has to answer: a cycle path where there is a cycle.
abbrev pub Decides : (String → List String) → Found → Type 0
Decides successors (cycle path) = IsCycle successors path
Decides successors (clear t) = IsAcyclic successors
Decides successors key_error = ⊥
Decides successors out_of_fuel = ⊥

module _ (successors : String → List String) (nodes : List String)
    (closed : (u v : String) → Edge successors u v → member nodes v ≡ true) where
  -- A call of `dfs` returns: a cycle path, or the search with `n` finished.
  abbrev Ensures : Search → String → Found → Type 0
  Ensures s n (cycle path) = IsCycle successors path
  Ensures s n (clear t) = After successors s t × (member t.visited n ≡ true)
  Ensures s n key_error = ⊥
  Ensures s n out_of_fuel = ⊥

  -- So does the loop over the successors.
  abbrev EnsuresAll : Search → List String → Found → Type 0
  EnsuresAll s ns (cycle path) = IsCycle successors path
  EnsuresAll s ns (clear t) = After successors s t × All (λ n. member t.visited n ≡ true) ns
  EnsuresAll s ns key_error = ⊥
  EnsuresAll s ns out_of_fuel = ⊥

  -- What a call of `dfs` on `n` may rely on.
  record IsReady (fuel : ℕ) (n : String) (s : Search) : Type 0 where
    traced : IsTraced successors s
    linked : Linked successors (s.stack ++ n ∷ [])
    fresh : member s.visiting n ≡ false
    known : member nodes n ≡ true
    room : free nodes s.visiting ≤ fuel

  close_cycle-IsCycle :
      (n : String) (s : Search)
      → IsTraced successors s
      → Linked successors (s.stack ++ n ∷ [])
      → member s.visiting n ≡ true
      → (path : List String) × (close_cycle n (Dict.get s.stack_index n) s.stack ≡ cycle path)
        × IsCycle successors path
  unfolding close_cycle
  close_cycle-IsCycle n s i l on_stack =
      let (pre, post, e, at) = i.placed n on_stack in
      (
        n ∷ post ++ n ∷ [],
        rw (at, e, drop-append pre (n ∷ post)),
        record {
          node = n;
          between = post;
          closed = refl;
          linked = Linked-suffix successors pre (n ∷ post ++ n ∷ []) (
              subst (Linked successors) (append_assoc pre (n ∷ post) (n ∷ []))
                (subst (λ st. Linked successors (st ++ n ∷ [])) e l));
        },
      )

  EnsuresAll-cons :
      (s t : Search) (n : String) (ns : List String) (r : Found)
      → After successors s t
      → member t.visited n ≡ true
      → EnsuresAll t ns r
      → EnsuresAll s (n ∷ ns) r
  EnsuresAll-cons s t n ns (cycle path) a m h = h
  EnsuresAll-cons s t n ns (clear u) a m h = (After-trans successors a h.0, (h.0.grows n m, h.1))
  EnsuresAll-cons s t n ns key_error a m h = h
  EnsuresAll-cons s t n ns out_of_fuel a m h = h

  and_then-EnsuresAll :
      (s : Search) (n : String) (ns : List String) (r : Found) (f : Search → Found)
      → Ensures s n r
      → ((t : Search) → After successors s t → EnsuresAll t ns (f t))
      → EnsuresAll s (n ∷ ns) (and_then r f)
  unfolding and_then
  and_then-EnsuresAll s n ns (cycle path) f h k = h
  and_then-EnsuresAll s n ns (clear t) f h k = EnsuresAll-cons s t n ns (f t) h.0 h.1 (k t h.0)
  and_then-EnsuresAll s n ns key_error f h k = h
  and_then-EnsuresAll s n ns out_of_fuel f h k = h

  -- The loop in the call on `u`, whose name is on top of the stack.
  module _ (fuel : ℕ) (rec : String → Search → Found)
      (call : (n : String) (s : Search) → IsReady fuel n s → Ensures s n (rec n s))
      (below : List String) (u : String) where
    explore-EnsuresAll :
        (ns : List String) (s : Search)
        → IsTraced successors s
        → s.stack ≡ below ++ u ∷ []
        → Linked successors (below ++ u ∷ [])
        → free nodes s.visiting ≤ fuel
        → All (Edge successors u) ns
        → EnsuresAll s ns (explore rec ns s)
    unfolding explore
    explore-EnsuresAll [] s i top l room edges = (After-refl successors i, tt)
    explore-EnsuresAll (n ∷ ns) s i top l room edges = elim (Bool-cases (member s.visiting n)) [
      | inl on_stack ↦
          let (path, e, c) = close_cycle-IsCycle n s i linked on_stack in
          rw (explore-visiting rec n ns s on_stack, e) c
      | inr off_stack ↦ elim (Bool-cases (member s.visited n)) [
        | inl done ↦ rw (explore-visited rec n ns s off_stack done) (
            EnsuresAll-cons s s n ns (explore rec ns s) (After-refl successors i) done
              (explore-EnsuresAll ns s i top l room edges.1))
        | inr new ↦ rw (explore-new rec n ns s off_stack new) (
            and_then-EnsuresAll s n ns (rec n s) (explore rec ns) (call n s (ready off_stack))
              (λ t a.
                explore-EnsuresAll ns t (After-IsTraced successors i a) (a.stack ∙ top) l
                  (rw (free-same nodes s.visiting t.visiting a.visiting) room) edges.1))
      ]
    ]
      where
        linked : Linked successors (s.stack ++ n ∷ [])
        linked = rw top (Linked-snoc successors below u n l edges.0)

        ready : member s.visiting n ≡ false → IsReady fuel n s
        ready off_stack = record {
          traced = i;
          linked = linked;
          fresh = off_stack;
          known = closed u n edges.0;
          room = room;
        }

  leave-Ensures :
      (s : Search) (n : String) (r : Found)
      → member s.visiting n ≡ false
      → EnsuresAll (enter n s) (successors n) r
      → Ensures s n (and_then r (λ t. clear (leave n t)))
  unfolding and_then
  leave-Ensures s n (cycle path) out h = h
  leave-Ensures s n (clear t) out h =
      leave-After successors n s t out h.0
        (λ v e. All-member (λ x. member t.visited x ≡ true) (successors n) v h.1 e)
  leave-Ensures s n key_error out h = h
  leave-Ensures s n out_of_fuel out h = h

  dfs-Ensures :
      (fuel : ℕ) (n : String) (s : Search)
      → IsReady fuel n s
      → Ensures s n (dfs successors fuel n s)
  unfolding dfs
  dfs-Ensures zero n s r =
      absurd (omega (arith, free-pos nodes s.visiting n r.fresh r.known, r.room))
  dfs-Ensures (suc fuel) n s r =
      leave-Ensures s n (explore (dfs successors fuel) (successors n) (enter n s)) r.fresh (
        explore-EnsuresAll fuel (dfs successors fuel) (dfs-Ensures fuel) s.stack n (successors n)
          (enter n s) (enter-IsTraced successors n s r.traced) (unfold enter in refl) r.linked
          (unfold enter in omega (arith, r.room, free-add nodes s.visiting n r.fresh r.known))
          (All-of_member (Edge successors n) (successors n) (λ v e. e)))

  search_from-EnsuresAll :
      (fuel : ℕ) (ns : List String) (s : Search)
      → IsTraced successors s
      → s.stack ≡ []
      → ((k : String) → member s.visiting k ≡ false)
      → free nodes s.visiting ≤ fuel
      → All (λ n. member nodes n ≡ true) ns
      → EnsuresAll s ns (search_from successors fuel ns s)
  unfolding search_from
  search_from-EnsuresAll fuel [] s i top idle room known = (After-refl successors i, tt)
  search_from-EnsuresAll fuel (n ∷ ns) s i top idle room known =
      elim (Bool-cases (member s.visited n)) [
        | inl done ↦ rw (search_from-visited successors fuel n ns s done) (
            EnsuresAll-cons s s n ns (search_from successors fuel ns s) (After-refl successors i)
              done (search_from-EnsuresAll fuel ns s i top idle room known.1))
        | inr new ↦ rw (search_from-new successors fuel n ns s new) (
            and_then-EnsuresAll s n ns (dfs successors fuel n s) (search_from successors fuel ns)
              (dfs-Ensures fuel n s (record {
                traced = i;
                linked = rw top tt;
                fresh = idle n;
                known = known.0;
                room = room;
              }))
              (λ t a.
                search_from-EnsuresAll fuel ns t (After-IsTraced successors i a) (a.stack ∙ top)
                  (λ k. a.visiting k ∙ idle k)
                  (rw (free-same nodes s.visiting t.visiting a.visiting) room) known.1))
      ]

  decided :
      ((u v : String) → Edge successors u v → member nodes u ≡ true)
      → (r : Found) → EnsuresAll start nodes r
      → Decides successors r
  decided from (cycle path) h = h
  decided from (clear t) h =
      IsFinished-IsAcyclic successors t.visited h.0.finished
        (λ u v e. All-member (λ x. member t.visited x ≡ true) nodes u h.1 (from u v e))
  decided from key_error h = h
  decided from out_of_fuel h = h

  -- Where every edge is between nodes, the detector returns: a path if there is a cycle, and the
  -- path is one, or the answer that there is no cycle. It meets no missing key, and the depth of
  -- its recursion is at most the number of the nodes.
  pub detect_cycle-Decides :
      ((u v : String) → Edge successors u v → member nodes u ≡ true)
      → Decides successors (detect_cycle successors nodes)
  unfolding detect_cycle member
  detect_cycle-Decides from = decided from (detect_cycle successors nodes) (
      search_from-EnsuresAll (length nodes) nodes start
        (record { finished = tt; placed = λ k h. cc }) refl (λ k. refl) (free-start nodes)
        (All-of_member (λ x. member nodes x ≡ true) nodes (λ v e. e)))
