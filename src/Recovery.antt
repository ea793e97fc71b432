-- ===== src/Recovery.antt =====
-- agentManager/recovery: what is done about a task that failed.
pub mod Failures
pub mod Steps
pub mod Moves
pub mod Repairs
pub mod Engine
pub mod Choice
pub mod Keeps
pub mod Blocked
pub mod Settled
mod Tests
