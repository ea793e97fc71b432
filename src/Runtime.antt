-- ===== src/Runtime.antt =====
-- agentManager/runtime: the execution of a task, from its start to its result.
pub mod Errors
pub mod Context
pub mod Executor
pub mod Moves
pub mod Lifecycle
pub mod Runs
pub mod Attempts
pub mod Refusals
pub mod Returns
pub mod Repaired
mod Tests
