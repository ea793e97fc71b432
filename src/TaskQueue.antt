-- ===== src/TaskQueue.antt =====
-- agentManager/scheduler/priority_queue.py and task_scheduler.py.
pub mod Queue
pub mod Scheduler
pub mod Listing
pub mod Executions
mod Tests
