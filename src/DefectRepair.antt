-- ===== src/DefectRepair.antt =====
-- agentManager/defect_repair: the pipeline that repairs the code of a task.
pub mod Texts
pub mod Pipeline
pub mod Results
pub mod Templates
pub mod Consensus
pub mod Strategies
pub mod MostCommon
pub mod Classifier
pub mod Classified
pub mod Priorities
pub mod Statistics
pub mod Verified
pub mod Retries
mod Tests
mod StrategyTests
