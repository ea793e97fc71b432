-- ===== src/DefectRepair/Strategies.antt =====
-- defect_repair/repair_strategies.py: the strategies L1 and L4, and the factory of the four. The
-- waiting between two attempts is left out.
use Prim.Native.Char.{Char}
use Prim.Native.String
use agent_manager.Prelude.Dict
use agent_manager.Prelude.{
  ℕ, zero, suc, String, Bool, true, false, Result, ok, err, none, some, List, [], ◌∷◌, ◌++◌, str_eq,
  if◌then◌else◌,
}
use agent_manager.Runtime.Errors.{PyError}
use agent_manager.Runtime.Context.{Fields, Value, text, number, flag, object, to_object}
use agent_manager.Runtime.Executor.{Executor, WorkerSandbox}
use agent_manager.Runtime.Repaired.{execute}
use agent_manager.Recovery.Repairs.{escalated, RepairResult}
use agent_manager.DefectRepair.Pipeline.{StrategyLevel, l1, l2, l3, l4, Strategies, reports_success}
use agent_manager.DefectRepair.Results.{create_result, success_result, failed_result}
use agent_manager.DefectRepair.Templates.{repair_l2}
use agent_manager.DefectRepair.Consensus.{repair_l3}

-- `result.get("error", "Unknown error")`, as the message has it; `show` is Python's `str` on a value
-- that is no text.
unfoldable pub error_text : (show : Value → String) → Fields → String
error_text show fields = elim (Dict.get fields "error") [
  | none ↦ "Unknown error"
  | some (text t) ↦ t
  | some v ↦ show v
]

module _ {R M : Type 0} (show : Value → String) (sandboxes : (attempt : ℕ) → WorkerSandbox) where
  -- What follows an attempt; `again` is the rest of the loop, from the last error on.
  unfoldable pub after_attempt :
      (code : String)
      → (attempt : ℕ) → Result PyError Fields × Executor R M
      → (again : String → Executor R M → RepairResult × Executor R M) → RepairResult × Executor R M
  after_attempt code attempt (err e, x) again = again e.message x
  after_attempt code attempt (ok fields, x) again = elim (reports_success (ok fields)) [
    | true ↦ (
      success_result code attempt
          (("retry_attempt", number attempt) ∷ ("result", object (to_object fields)) ∷ []),
      x,
    )
    | false ↦ again (error_text show fields) x
  ]

  -- The loop, with `left` attempts to come; the sandbox may answer differently on each.
  unfoldable pub retry :
      (left attempt : ℕ)
      → (task_id code last_error : String) → Executor R M
      → RepairResult × Executor R M
  retry zero attempt task_id code last_error x =
      (failed_result (String.◌++◌ "Failed after 3 retries: " last_error) 3, x)
  retry (suc left) attempt task_id code last_error x =
      after_attempt code attempt (execute (sandboxes attempt) task_id code x)
        (λ error y. retry left (suc attempt) task_id code error y)

  unfoldable pub repair_l1 :
      (error_msg code task_id : String) → Executor R M → RepairResult × Executor R M
  repair_l1 error_msg code task_id x =
      if str_eq task_id ""
      then (failed_result "Missing task_executor or task_id in context" 0, x)
      else retry 3 1 task_id code error_msg x

-- The escalation, less its time and the context that it is part of.
unfoldable pub escalation_data : (task_id error_msg code : String) → Fields
escalation_data task_id error_msg code =
    ("task_id", text task_id)
    ∷ ("error_msg", text error_msg)
    ∷ ("code", text code)
    ∷ ("status", text "pending_review")
    ∷ []

-- `repair` of L4, with `context["escalations"]`
unfoldable pub repair_l4 :
    (error_msg code task_id : String) → (escalations : List Fields) → RepairResult × List Fields
unfolding escalation_data
repair_l4 error_msg code task_id escalations = (
  create_result escalated none (some "Escalated to human review") 1 (
      ("escalation_id", text task_id)
      ∷ ("requires_human_review", flag true)
      ∷ ("escalation_data", object (to_object (escalation_data task_id error_msg code)))
      ∷ []),
  escalations ++ escalation_data task_id error_msg code ∷ [],
)

-- `RepairStrategyFactory.create`, and its error
unfoldable pub create : String → Result PyError StrategyLevel
create level =
    if str_eq level "L1"
    then ok l1
    else if str_eq level "L2"
    then ok l2
    else if str_eq level "L3"
    then ok l3
    else if str_eq level "L4"
    then ok l4
    else err (record {
      type_name = "ValueError";
      message = String.◌++◌ "Unsupported repair level: " level;
    })

-- `get_all_strategies`: what the pipeline calls. It makes the context of a repair, which no strategy
-- has seen before.
unfoldable pub all_strategies :
    {R M : Type 0}
    → (show : Value → String) → (word : Char → Bool) → (sandboxes : (attempt : ℕ) → WorkerSandbox)
    → Strategies R M
unfolding repair_l1 repair_l2 repair_l3 repair_l4
all_strategies show word sandboxes l1 error_msg code input x =
    let (result, y) = repair_l1 show sandboxes error_msg code input.task_id x in (ok result, y)
all_strategies show word sandboxes l2 error_msg code input x =
    (ok (repair_l2 word error_msg code), x)
all_strategies show word sandboxes l3 error_msg code input x = (ok (repair_l3 code), x)
all_strategies show word sandboxes l4 error_msg code input x =
    (ok (repair_l4 error_msg code input.task_id []).0, x)
