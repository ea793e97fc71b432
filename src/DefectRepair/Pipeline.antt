-- ===== src/DefectRepair/Pipeline.antt =====
-- defect_repair/repair_pipeline.py, the class `DefectRepairPipeline`. The classifier and the strategies
-- are interfaces; a strategy can use and change the executor, as it is given it. The memory system is
-- the list of the entries that it was given, and what it raises is caught.
use Prim.Native.String
use agent_manager.Prelude.Dict
use agent_manager.Prelude.Dict.{Dict}
use agent_manager.Prelude.{
  ℕ, String, Bool, true, false, Result, ok, err, Exec, Option, none, some, List, [], ◌∷◌, ◌++◌,
  str_eq, if◌then◌else◌,
}
use agent_manager.Runtime.Errors.{PyError}
use agent_manager.Runtime.Context.{Fields, flag}
use agent_manager.Runtime.Executor.{Executor, WorkerSandbox}
use agent_manager.Runtime.Repaired.{execute}
use agent_manager.Recovery.Repairs
use agent_manager.Recovery.Repairs.{
  RepairStatus, pending, in_progress, success, failed, escalated, RepairResult, Repair, TaskRun,
  repair_value, is_success,
}

-- `RepairLevel` of repair_engine.py, and its values
pub data RepairLevel : Type 0 where
  l1_syntax l2_logic l3_performance l4_architecture : RepairLevel

unfoldable pub level_value : RepairLevel → String
level_value l1_syntax = "syntax_type_error"
level_value l2_logic = "logic_error"
level_value l3_performance = "performance_issue"
level_value l4_architecture = "architecture_problem"

-- The keys of `RepairStrategyFactory.get_all_strategies()`.
pub data StrategyLevel : Type 0 where
  l1 l2 l3 l4 : StrategyLevel

unfoldable pub select_strategy : RepairLevel → StrategyLevel
select_strategy l1_syntax = l1
select_strategy l2_logic = l2
select_strategy l3_performance = l3
select_strategy l4_architecture = l4

-- `DefectClassifier`; a severity is its number.
pub record Classifier : Type 0 where
  pub classify_error : (error_msg code : String) → RepairLevel × ℕ
  pub extract_error_type : String → String

-- The `context` of a strategy, less the objects that it is given.
pub record RepairInput : Type 0 where
  pub task_id : String
  pub error_type : String
  pub severity : ℕ
  pub execution_trace : String

abbrev pub Strategies : (R M : Type 0) → Type 0
Strategies R M =
    StrategyLevel
    → (error_msg code : String) → RepairInput
    → Exec (Executor R M) PyError RepairResult

pub record RepairExperience : Type 0 where
  pub task_id : String
  pub error_type : String
  pub repair_level : String
  pub repair_status : RepairStatus
  pub original_code : String
  pub repaired_code : Option String
  pub error_msg : String
  pub attempts : ℕ
  pub execution_trace : String

-- An entry of the memory system's middle layer.
pub record RepairMemory : Type 0 where
  pub content : String
  pub tags : List String
  pub task_id : String
  pub status : String
  pub attempts : ℕ

pub record RepairPipeline (R M : Type 0) : Type 0 where
  pub executor : Executor R M
  pub repair_history : Dict (List RepairResult)
  pub experiences : List RepairExperience
  pub memory : Option (List RepairMemory)

-- `result.get("success")`
unfoldable pub reports_success : Result PyError Fields → Bool
reports_success (err e) = false
reports_success (ok fields) = elim (Dict.get fields "success") [ some (flag b) ↦ b | _ ↦ false ]

-- `task_run.code_context or task_run.code`
abbrev pub context_or_code : TaskRun → String
context_or_code run = if str_eq run.code_context "" then run.code else run.code_context

abbrev appended : {A : Type 0} → Option (List A) → A → List A
appended none a = a ∷ []
appended (some known) a = known ++ a ∷ []

unfoldable pub last_of : List RepairResult → Option RepairResult
last_of [] = none
last_of (x ∷ []) = some x
last_of (x ∷ y ∷ xs) = last_of (y ∷ xs)

module _ {R M : Type 0} (sandbox : WorkerSandbox) (classifier : Classifier)
    (strategies : Strategies R M) where
  unfoldable pub verify_repair :
      String → Option String → RepairPipeline R M → Bool × RepairPipeline R M
  verify_repair task_id none p = (false, p)
  verify_repair task_id (some code) p =
      if str_eq code ""
      then (false, p)
      else let (answer, x) = execute sandbox task_id code p.executor in
        (reports_success answer, record p { executor = x })

  -- `_save_to_memory`
  unfoldable pub save_to_memory : RepairExperience → RepairPipeline R M → RepairPipeline R M
  save_to_memory e p = elim p.memory [
    | none ↦ p
    | some entries ↦
        let entry : RepairMemory = record {
          content =
              String.◌++◌ "Repair: "
                (String.◌++◌ e.error_type (String.◌++◌ " -> " (repair_value e.repair_status)));
          tags = "repair" ∷ e.error_type ∷ e.repair_level ∷ [];
          task_id = e.task_id;
          status = repair_value e.repair_status;
          attempts = e.attempts;
        } in
        record p { memory = some (entries ++ entry ∷ []) }
  ]

  -- `_store_experience`
  unfoldable pub store_experience :
      TaskRun → RepairLevel → RepairResult → RepairPipeline R M → RepairPipeline R M
  store_experience run level result p =
      let e : RepairExperience = record {
        task_id = run.task_id;
        error_type = classifier.extract_error_type run.error_msg;
        repair_level = level_value level;
        repair_status = result.status;
        original_code = run.code;
        repaired_code = result.repaired_code;
        error_msg = run.error_msg;
        attempts = result.attempts;
        execution_trace = run.execution_trace;
      } in
      save_to_memory e (record p { experiences = p.experiences ++ e ∷ [] })

  -- The statements from "Store experience" on.
  unfoldable pub kept_result :
      TaskRun
      → RepairLevel
      → RepairResult
      → RepairPipeline R M
      → (RepairStatus × Option String) × RepairPipeline R M
  kept_result run level result p =
      let p' = store_experience run level result p in
      (
        (result.status, result.repaired_code),
        record p' {
          repair_history =
              Dict.put p'.repair_history run.task_id
                (appended (Dict.get p'.repair_history run.task_id) result);
        },
      )

  -- The result of a strategy that claims success, after its verification.
  unfoldable pub verified_result : RepairResult → Bool → RepairResult
  verified_result result true = result
  verified_result result false = record result { status = failed }

  unfoldable pub after_verification :
      TaskRun
      → RepairLevel
      → RepairResult
      → Bool × RepairPipeline R M
      → (RepairStatus × Option String) × RepairPipeline R M
  after_verification run level result (verified, p) =
      kept_result run level (verified_result result verified) p

  -- "Verify repair result": only a result that claims success is verified.
  unfoldable pub by_claim :
      TaskRun
      → RepairLevel
      → RepairResult
      → RepairPipeline R M
      → (claims_success : Bool) → (RepairStatus × Option String) × RepairPipeline R M
  by_claim run level result p true =
      after_verification run level result (verify_repair run.task_id result.repaired_code p)
  by_claim run level result p false = kept_result run level result p

  -- What follows the strategy, or its exception.
  unfoldable pub after_strategy :
      TaskRun
      → RepairLevel
      → Result PyError RepairResult × Executor R M
      → RepairPipeline R M
      → (RepairStatus × Option String) × RepairPipeline R M
  after_strategy run level (err e, x) p = ((failed, none), record p { executor = x })
  after_strategy run level (ok result, x) p =
      by_claim run level result (record p { executor = x }) (is_success result.status)

  -- `_repair_impl`
  unfoldable pub repair :
      TaskRun → RepairPipeline R M → (RepairStatus × Option String) × RepairPipeline R M
  repair run p =
      let (level, severity) = classifier.classify_error run.error_msg (context_or_code run) in
      after_strategy run level
        (strategies (select_strategy level) run.error_msg run.code
          (record {
            task_id = run.task_id;
            error_type = classifier.extract_error_type run.error_msg;
            severity = severity;
            execution_trace = run.execution_trace;
          })
          p.executor)
        p

  unfoldable pub get_repair_history : String → RepairPipeline R M → List RepairResult
  get_repair_history task_id p = elim (Dict.get p.repair_history task_id) [
    | none ↦ []
    | some results ↦ results
  ]

  -- The pipeline as the recovery engine uses it, from a state of the pipeline's own data.
  unfoldable pub for_recovery : RepairPipeline R M → Repairs.Pipeline R M
  for_recovery p run x =
      let (answer, p') = repair run (record p { executor = x }) in
      (
        ok (record {
          status = answer.0;
          repaired_code = answer.1;
          last = last_of (get_repair_history run.task_id p');
        }),
        p'.executor,
      )
