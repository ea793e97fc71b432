-- ===== src/Coordinator/Tests.antt =====
-- runtime/workflow_coordinator.py on small inputs: one node, with an adjacency list for the graph.
use agent_manager.Prelude.Dict
use agent_manager.Prelude.Dict.{Dict}
use agent_manager.Prelude.Int.{pos}
use agent_manager.Prelude.{String, refl, true, ok, err, none, some, [], ◌∷◌}
use agent_manager.StateManager.Transitions.{ready}
use agent_manager.StateManager.Machine.{Repository, new_machine}
use agent_manager.Dag.Digraph.{Digraph}
use agent_manager.Dag.Engine
use agent_manager.Dag.Engine.{DagNode, DagEngine}
use agent_manager.SchedulerEngine.Engine.{ScheduledTask, running as running_status}
use agent_manager.Runtime.Errors.{value_error}
use agent_manager.Runtime.Context.{ExecutionContext, Fields, text}
use agent_manager.Runtime.Executor.{CheckpointManager, WorkerSandbox}
use agent_manager.Coordinator.State.{Coordinator, World}
use agent_manager.Coordinator.Tasks.{execute_scheduled_task}
use agent_manager.Coordinator.Agreement.{Outcome, execute_scheduled_task-Outcome}

abbrev forgetful : Repository (Unit {0})
forgetful = record {
  save_task_state = λ k s r. r;
  append_audit_record = λ a r. r;
  save_transition = λ t r. r;
  load_task_state = λ k r. none;
  load_transitions = λ k r. [];
}

abbrev edgeless : Digraph (Unit {0})
edgeless = record {
  empty = tt;
  add_node = λ n g. g;
  add_edge = λ a b g. g;
  successors = λ g n. [];
  topological_sort = λ g. [];
}

abbrev in_dict : CheckpointManager (Dict ExecutionContext)
in_dict = record {
  save_checkpoint = λ k c m. (ok tt, Dict.put m k c);
  load_checkpoint = λ k m. ok (Dict.get m k);
  delete_checkpoint = λ k m. (ok tt, Dict.remove m k);
}

abbrev broken : WorkerSandbox
broken = record {
  execute = λ n k m. err (value_error "connection refused");
  verify = λ n k result. ok true;
}

abbrev world : World
world = record {
  sandbox = broken;
  clock = λ n. n;
  recovery_sandbox = broken;
  recovery_clock = λ n. n;
  events = ok [];
  now = 9;
}

abbrev metadata : String → Fields
metadata k = ("workflow_id", text "w") ∷ []

abbrev node : DagNode
node = record { node_id = "t"; task_type = "code"; dependencies = []; status = Engine.pending }

abbrev started_task : ScheduledTask
started_task = record {
  task_id = "t";
  priority = pos 0;
  status = running_status;
  dependencies = [];
  next_retry_at = none;
  retry_attempts = 0;
  max_retry_attempts = 3;
  conflict_history = [];
}

abbrev coordinator : Coordinator (Unit {0}) (Dict ExecutionContext) (Unit {0})
coordinator = record {
  dag = record { nodes = ("t", node) ∷ []; graph = tt };
  scheduler = record {
    max_concurrent_tasks = 1;
    tasks = ("t", started_task) ∷ [];
    execution_queue = [];
    running_tasks = "t" ∷ [];
    completed_tasks = [];
  };
  executor = record {
    state_machine = record (new_machine none) {
      states = ("t", ready) ∷ [];
      history = ("t", []) ∷ [];
    };
    checkpoints = [];
    published = [];
    execution_contexts = [];
    task_registry = [];
    max_retries = 3;
  };
  recovery = some [];
  memory = none;
  allow_defect_repair = true;
  executed = 0;
}

execute_scheduled_task-Outcome_example :
    Outcome forgetful edgeless in_dict none metadata "t" world
      (execute_scheduled_task forgetful edgeless in_dict none metadata world "t" coordinator)
unfolding Dict.get
execute_scheduled_task-Outcome_example =
    execute_scheduled_task-Outcome forgetful edgeless in_dict none metadata "t" world coordinator
      started_task node refl refl refl
