-- ===== src/Dag/Digraph.antt =====
-- The part of networkx's `DiGraph` that engine/dag.py calls, as an interface, and what networkx
-- documents of it: successors come in the order in which the edges were added, an edge that is
-- there is not added again, and a new node has no edges.
use agent_manager.Prelude.StrSet.{member}
use agent_manager.Prelude.{String, ◌≡◌, not, ◌&&◌, List, [], ◌∷◌, ◌++◌, str_eq, if◌then◌else◌}

pub record Digraph (G : Type 0) : Type 0 where
  pub empty : G
  pub add_node : String → G → G
  pub add_edge : String → String → G → G
  pub successors : G → String → List String
  pub topological_sort : G → List String

-- An adjacency list with one edge more.
abbrev pub with_edge : String → String → List String → String → List String
with_edge a b vs u = if str_eq a u && not (member vs b) then vs ++ b ∷ [] else vs

pub record IsDigraph {G : Type 0} (ops : Digraph G) : Type 0 where
  pub successors-empty : (u : String) → ops.successors ops.empty u ≡ []
  pub successors-add_node :
      (n : String) (g : G) (u : String) → ops.successors (ops.add_node n g) u ≡ ops.successors g u
  pub successors-add_edge :
      (a b : String) (g : G) (u : String)
      → ops.successors (ops.add_edge a b g) u ≡ with_edge a b (ops.successors g u) u
