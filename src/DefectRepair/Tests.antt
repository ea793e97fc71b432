-- ===== src/DefectRepair/Tests.antt =====
-- defect_repair/repair_pipeline.py on small inputs: a strategy that replaces the code.
use agent_manager.Prelude.Dict
use agent_manager.Prelude.Dict.{Dict}
use agent_manager.Prelude.{true, ok, none, some, []}
use agent_manager.StateManager.Machine.{new_machine}
use agent_manager.Runtime.Executor.{WorkerSandbox}
use agent_manager.Runtime.Repaired.{execute}
use agent_manager.Recovery.Repairs.{success, TaskRun}
use agent_manager.DefectRepair.Pipeline.{Classifier, Strategies, RepairPipeline, l2_logic}

abbrev pub lenient : WorkerSandbox
lenient = record { execute = λ n k m. ok m; verify = λ n k result. ok true }

abbrev logic_errors : Classifier
logic_errors = record {
  classify_error = λ e c. (l2_logic, 2);
  extract_error_type = λ e. "ValueError";
}

abbrev replaced : Strategies (Unit {0}) (Unit {0})
replaced level error_msg code input x = (
  ok (record {
    status = success;
    repaired_code = some "pass";
    error_message = none;
    attempts = 1;
    metadata = [];
  }),
  x,
)

abbrev pub run : TaskRun
run = record {
  task_id = "t";
  code = "fail()";
  error_msg = "ValueError";
  execution_trace = "";
  code_context = "";
  metadata = [];
}

abbrev pub new_pipeline : RepairPipeline (Unit {0}) (Unit {0})
new_pipeline = record {
  executor = record {
    state_machine = new_machine none;
    checkpoints = tt;
    published = [];
    execution_contexts = [];
    task_registry = [];
    max_retries = 3;
  };
  repair_history = [];
  experiences = [];
  memory = some [];
}
