-- ===== src/WorkerGuard.antt =====
-- sandbox/worker_guard.py: the guard that watches what a worker does.
pub mod Windows
pub mod Similarity
pub mod Guard
pub mod Repetition
pub mod Timestamps
pub mod Outputs
pub mod Runs
mod Tests
