-- ===== src/TaskPlan/Tests.antt =====
-- domain/task_plan.py on a plan of two items.
use agent_manager.Prelude.{◌≡◌, ◌↔◌, refl, ok, err, List, [], ◌∷◌, All}
use agent_manager.Prelude.StrSet.{member, add}
use agent_manager.TaskPlan.{
  TaskPlanItem, duplicate_ids, validate_dependencies, HasDistinctIds, Refers,
  validate_dependencies-Iff,
}

abbrev plan : List TaskPlanItem
plan =
    record { id = "build"; dependencies = []; verification = "" }
    ∷ record { id = "test"; dependencies = "build" ∷ []; verification = "run" }
    ∷ []

abbrev doubled : List TaskPlanItem
doubled = record { id = "test"; dependencies = []; verification = "" } ∷ plan

doubled-refused : validate_dependencies doubled ≡ err (duplicate_ids ("test" ∷ []))
unfolding validate_dependencies member add
doubled-refused = refl

validate_dependencies-Iff_example :
    (validate_dependencies plan ≡ ok tt) ↔ (HasDistinctIds plan × All (Refers plan) plan)
validate_dependencies-Iff_example = validate_dependencies-Iff plan
