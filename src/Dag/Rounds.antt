-- ===== src/Dag/Rounds.antt =====
-- engine/dag.py, `_detect_cycle_path`: one round of each of its loops, by where a node stands.
use agent_manager.Prelude.Dict
use agent_manager.Prelude.StrSet.{member}
use agent_manager.Prelude.{ℕ, ◌≤◌, String, ◌≡◌, true, false, List, [], ◌∷◌, length, arith}
use agent_manager.Dag.Search.{
  Search, Found, close_cycle, and_then, explore, dfs, start, search_from,
}
use agent_manager.Dag.Trace.{free}

-- One round of `explore`, by where the successor stands.
module _ (rec : String → Search → Found) (n : String) (ns : List String) (s : Search) where
  pub explore-visiting :
      member s.visiting n ≡ true
      → explore rec (n ∷ ns) s ≡ close_cycle n (Dict.get s.stack_index n) s.stack
  unfolding explore
  explore-visiting h = ground arith

  pub explore-visited :
      member s.visiting n ≡ false
      → member s.visited n ≡ true
      → explore rec (n ∷ ns) s ≡ explore rec ns s
  unfolding explore
  explore-visited h k = ground arith

  pub explore-new :
      member s.visiting n ≡ false
      → member s.visited n ≡ false
      → explore rec (n ∷ ns) s ≡ and_then (rec n s) (explore rec ns)
  unfolding explore
  explore-new h k = ground arith

module _ (successors : String → List String) (fuel : ℕ) (n : String) (ns : List String)
    (s : Search) where
  pub search_from-visited :
      member s.visited n ≡ true
      → search_from successors fuel (n ∷ ns) s ≡ search_from successors fuel ns s
  unfolding search_from
  search_from-visited h = ground arith

  pub search_from-new :
      member s.visited n ≡ false
      → search_from successors fuel (n ∷ ns) s
        ≡ and_then (dfs successors fuel n s) (search_from successors fuel ns)
  unfolding search_from
  search_from-new h = ground arith

pub free-start : (ns : List String) → free ns start.visiting ≤ length ns
unfolding member
free-start [] = omega arith
free-start (n ∷ ns) = omega (arith, free-start ns)
