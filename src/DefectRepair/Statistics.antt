-- ===== src/DefectRepair/Statistics.antt =====
-- defect_repair/repair_pipeline.py, `get_experience_stats`.
use agent_manager.Prelude.Dict
use agent_manager.Prelude.Dict.{Dict}
use agent_manager.Prelude.{
  ℕ, ◌+◌, String, Bool, true, false, none, some, List, [], ◌∷◌, length, if◌then◌else◌,
}
use agent_manager.Recovery.Repairs.{RepairStatus, failed, escalated, is_success}
use agent_manager.DefectRepair.Pipeline.{RepairExperience}

-- `sum(1 for e in self._experiences if ...)`
unfoldable pub count_status : (RepairStatus → Bool) → List RepairExperience → ℕ
count_status test [] = 0
count_status test (e ∷ es) =
    let rest = count_status test es in if test e.repair_status then rest + 1 else rest

unfoldable pub is_failed : RepairStatus → Bool
is_failed failed = true
is_failed _ = false

unfoldable pub is_escalated : RepairStatus → Bool
is_escalated escalated = true
is_escalated _ = false

-- `stats[key] = stats.get(key, 0) + 1`, for the experiences in order
unfoldable pub count_by : (RepairExperience → String) → Dict ℕ → List RepairExperience → Dict ℕ
count_by key stats [] = stats
count_by key stats (e ∷ es) =
    count_by key
      (Dict.put stats (key e) (elim (Dict.get stats (key e)) [ none ↦ 1 | some n ↦ n + 1 ])) es

-- `get_experience_stats`; `success_rate` is the quotient of `successful` and `total_repairs`. Without
-- an experience the code leaves out the last two, which are empty here.
pub record ExperienceStats : Type 0 where
  pub total_repairs : ℕ
  pub successful : ℕ
  pub failed_repairs : ℕ
  pub escalated_repairs : ℕ
  pub by_level : Dict ℕ
  pub by_error_type : Dict ℕ

unfoldable pub get_experience_stats : List RepairExperience → ExperienceStats
get_experience_stats es = record {
  total_repairs = length es;
  successful = count_status is_success es;
  failed_repairs = count_status is_failed es;
  escalated_repairs = count_status is_escalated es;
  by_level = count_by (λ e. e.repair_level) [] es;
  by_error_type = count_by (λ e. e.error_type) [] es;
}
