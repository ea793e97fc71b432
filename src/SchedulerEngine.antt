-- ===== src/SchedulerEngine.antt =====
-- engine/scheduler.py: the scheduler of the engine, with its queue, conflicts and retries.
pub mod Queue
pub mod Engine
pub mod Verdicts
pub mod Invariant
pub mod Runs
pub mod Starts
pub mod Passes
mod Tests
