-- ===== src/StateManager.antt =====
-- engine/state_manager.py: the life cycle of a task, as a table of transitions, and the machine that
-- keeps each task's state and history, in memory and in an optional repository. The repository is
-- whatever object the caller passes in: a parameter. The clock is an argument, `now`.
pub mod Transitions
pub mod Machine
pub mod Calls
pub mod Progress
pub mod History
pub mod Durable
mod Tests
