-- ===== src/Recovery/Repairs.antt =====
-- recovery/recovery_engine.py, `_execute_defect_repair`. The repair pipeline
-- (defect_repair/repair_pipeline.py) is a parameter.
use agent_manager.Prelude.Dict
use agent_manager.Prelude.Dict.{Dict}
use agent_manager.Prelude.{
  ℕ, String, Bool, true, false, not, Result, ok, err, Exec, Option, none, some, [], ◌∷◌,
  if◌then◌else◌, str_eq,
}
use agent_manager.StateManager.Transitions.{completed, blocked_hitl}
use agent_manager.StateManager.Machine.{Repository}
use agent_manager.Runtime.Errors.{PyError}
use agent_manager.Runtime.Context.{
  ExecutionContext, Fields, Value, null, text, number, flag, object, to_object, to_fields,
  mark_completed,
}
use agent_manager.Runtime.Executor.{Executor, Task}
use agent_manager.Recovery.Failures.{defect_repair}
use agent_manager.Recovery.Steps.{
  Recovery, strategy_value, blank, on_stored, set_metadata, ensure_context,
}
use agent_manager.Recovery.Moves.{safe_transition, record_manual_intervention}

pub data RepairStatus : Type 0 where
  pending in_progress success failed escalated : RepairStatus

pub record RepairResult : Type 0 where
  pub status : RepairStatus
  pub repaired_code : Option String
  pub error_message : Option String
  pub attempts : ℕ
  pub metadata : Fields

-- What `repair` answers, and the last result in the history of the task then.
pub record Repair : Type 0 where
  pub status : RepairStatus
  pub repaired_code : Option String
  pub last : Option RepairResult

pub record TaskRun : Type 0 where
  pub task_id : String
  pub code : String
  pub error_msg : String
  pub execution_trace : String
  pub code_context : String
  pub metadata : Fields

abbrev pub Pipeline : (R M : Type 0) → Type 0
Pipeline R M = TaskRun → Exec (Executor R M) PyError Repair

unfoldable pub repair_value : RepairStatus → String
repair_value pending = "pending"
repair_value in_progress = "in_progress"
repair_value success = "success"
repair_value failed = "failed"
repair_value escalated = "escalated"

unfoldable pub is_success : RepairStatus → Bool
is_success success = true
is_success _ = false

-- A text of the metadata that is there and not empty.
unfoldable pub text_at : String → Fields → Option String
text_at key fields = elim (Dict.get fields key) [
  | some (text t) ↦ if str_eq t "" then none else some t
  | _ ↦ none
]

-- `a or b`
unfoldable pub or_else : Option String → Option String → Option String
or_else none b = b
or_else (some a) b = some a

abbrev or_text : Option String → String → String
or_text none b = b
or_text (some a) b = a

-- `getattr(last_result, "attempts", 0)`
abbrev attempts_of : Option RepairResult → ℕ
attempts_of none = 0
attempts_of (some result) = result.attempts

abbrev text_value : Option String → Value
text_value none = null
text_value (some t) = text t

-- The branch for a last result.
abbrev result_fields : Option RepairResult → Fields
result_fields none = []
result_fields (some result) =
    ("error_message", text_value result.error_message)
    ∷ ("metadata", object (to_object result.metadata))
    ∷ []

-- `metadata.setdefault("defect_repair", {})`, and `repair_meta.update(...)` on it
unfoldable pub update_repair : Fields → ExecutionContext → ExecutionContext
unfolding set_metadata
update_repair fields c =
    let old : Fields = elim (Dict.get c.metadata "defect_repair") [
      | some (object o) ↦ to_fields o
      | _ ↦ []
    ] in
    set_metadata "defect_repair" (object (to_object (merged old fields))) c
  where
    merged : Fields → Fields → Fields
    merged old [] = old
    merged old ((k, v) ∷ new) = merged (Dict.put old k v) new

abbrev repair_failed : String → String → Fields
repair_failed status reason =
    ("status", text status) ∷ ("success", flag false) ∷ ("failure_reason", text reason) ∷ []

module _ {R M : Type 0} (ops : Repository R) (pipeline : Option (Pipeline R M)) where
  -- The end of `_execute_defect_repair`, from the pipeline's answer on.
  unfoldable pub after_repair :
      (now : ℕ) → Result PyError Repair × Recovery R M → Bool × Recovery R M
  after_repair now (err e, r) =
      (false, on_stored (update_repair (repair_failed "failed" e.message)) r)
  after_repair now (ok answer, r) =
      let noted =
        on_stored
          (update_repair (
            ("status", text (repair_value answer.status))
            ∷ ("success", flag (is_success answer.status))
            ∷ ("repaired_code_present", flag (not (blank answer.repaired_code)))
            ∷ ("attempts", number (attempts_of answer.last))
            ∷ result_fields answer.last))
          r in
      elim answer.status [
        | success ↦ (
          true,
          safe_transition ops completed "Defect repair verified repaired task code" now (
              on_stored
                (mark_completed now (
                  ("repair_status", text "success")
                  ∷ ("repaired_code_present", flag (not (blank answer.repaired_code)))
                  ∷ []))
                noted),
        )
        | escalated ↦ (
          false,
          safe_transition ops blocked_hitl "Defect repair escalated to human review" now
              (record_manual_intervention ops (strategy_value defect_repair) now noted),
        )
        | _ ↦ (false, noted)
      ]

  abbrev metadata_of : Option Task → Fields
  metadata_of none = []
  metadata_of (some task) = task.metadata

  abbrev stored_error : Option ExecutionContext → Option String
  stored_error none = none
  stored_error (some c) = if blank c.error then none else c.error

  unfoldable pub call_pipeline :
      Pipeline R M → TaskRun → Recovery R M → Result PyError Repair × Recovery R M
  call_pipeline repair run r = let (a, x) = repair run r.executor in (a, record r { executor = x })

  unfoldable pub execute_defect_repair : (now : ℕ) → Recovery R M → Bool × Recovery R M
  execute_defect_repair now r' =
      let r = ensure_context r' in
      let metadata = metadata_of (Dict.get r.executor.task_registry r.ctx.task_id) in
      elim pipeline [
        | none ↦ (
          false,
          on_stored
              (update_repair
                (repair_failed "unavailable" "Defect repair pipeline is not configured"))
              r,
        )
        | some repair ↦ elim (or_else (text_at "code" metadata) (text_at "source_code" metadata)) [
          | none ↦ (
            false,
            on_stored
                (update_repair
                  (repair_failed "skipped" "No repairable code found in task metadata"))
                r,
          )
          | some code ↦
              let error =
                or_text
                  (or_else (stored_error (Dict.get r.executor.execution_contexts r.ctx.task_id))
                    (some r.ctx.error_msg))
                  "" in
              after_repair now (
                call_pipeline repair
                  (record {
                    task_id = r.ctx.task_id;
                    code = code;
                    error_msg = error;
                    execution_trace =
                        or_text
                          (or_else (text_at "execution_trace" metadata) (text_at "trace" metadata))
                          error;
                    code_context = or_text (text_at "code_context" metadata) "";
                    metadata = metadata;
                  })
                  r)
        ]
      ]
