-- ===== src/Resources.antt =====
-- scheduler/resource_manager.py and agentManager/scheduler/resource_allocator.py: who holds how much
-- of each resource. Amounts are exact and not negative, in place of floating point numbers.
pub mod Totals
pub mod Manager
pub mod ManagerRuns
pub mod Metrics
pub mod Allocator
pub mod AllocatorRuns
mod Tests
