-- ===== src/Dag.antt =====
-- engine/dag.py: the dependency graph of the tasks, its cycle detector and the engine that keeps it
-- acyclic. The graph itself is an `nx.DiGraph` of the package networkx: a parameter.
pub mod Search
pub mod Walks
pub mod Trace
pub mod Rounds
pub mod Correct
pub mod Digraph
pub mod Engine
pub mod Links
pub mod Invariant
pub mod Decisions
pub mod Ready
mod Tests
