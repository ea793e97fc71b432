-- ===== src/Coordinator.antt =====
-- runtime/workflow_coordinator.py: a workflow over the DAG engine, the scheduler, the executor, the
-- state machine and the recovery.
pub mod State
pub mod Memory
pub mod Tasks
pub mod Stages
pub mod Workflow
pub mod Outcomes
pub mod Endings
pub mod Agreement
pub mod Results
mod Tests
