-- ===== src/DefectRepair/Results.antt =====
-- defect_repair/repair_strategies.py, `BaseRepairStrategy._create_result`.
use agent_manager.Prelude.{ℕ, String, Option, none, some, []}
use agent_manager.Runtime.Context.{Fields}
use agent_manager.Recovery.Repairs.{RepairStatus, success, failed, RepairResult}

-- `_create_result`, less the time of the result
unfoldable pub create_result :
    RepairStatus
    → (repaired_code error_message : Option String) → (attempts : ℕ) → (metadata : Fields)
    → RepairResult
create_result status repaired_code error_message attempts metadata = record {
  status = status;
  repaired_code = repaired_code;
  error_message = error_message;
  attempts = attempts;
  metadata = metadata;
}

-- The two ways in which the strategies call it.
unfoldable pub success_result : String → ℕ → Fields → RepairResult
unfolding create_result
success_result code attempts metadata = create_result success (some code) none attempts metadata

unfoldable pub failed_result : String → ℕ → RepairResult
unfolding create_result
failed_result message attempts = create_result failed none (some message) attempts []
