-- ===== src/Runtime/Tests.antt =====
-- runtime/task_executor.py on small inputs: a checkpoint manager that keeps the contexts in a
-- dictionary, and a sandbox whose first call raises.
use agent_manager.Prelude.Dict
use agent_manager.Prelude.Dict.{Dict}
use agent_manager.Prelude.{ℕ, zero, suc, ◌+◌, ◌≡◌, refl, true, Result, ok, err, none, some, [], ◌∷◌}
use agent_manager.StateManager.Transitions.{TaskState, permitted, pending, failed}
use agent_manager.StateManager.Machine.{Repository, new_machine}
use agent_manager.Runtime.Errors.{PyError, value_error}
use agent_manager.Runtime.Context.{ExecutionContext, Fields, text, flag}
use agent_manager.Runtime.Executor.{
  Task, CheckpointManager, WorkerSandbox, Executor, attempts, one_attempt, run_task,
}
use agent_manager.Runtime.Attempts.{IsFirst, attempts-IsFirst}
use agent_manager.Runtime.Lifecycle.{IsFresh}
use agent_manager.Runtime.Runs.{IsEnd, run_task-IsEnd}
use agent_manager.Runtime.Refusals.{run_task-refused}

abbrev forgetful : Repository (Unit {0})
forgetful = record {
  save_task_state = λ k s r. r;
  append_audit_record = λ a r. r;
  save_transition = λ t r. r;
  load_task_state = λ k r. none;
  load_transitions = λ k r. [];
}

abbrev in_dict : CheckpointManager (Dict ExecutionContext)
in_dict = record {
  save_checkpoint = λ k c m. (ok tt, Dict.put m k c);
  load_checkpoint = λ k m. ok (Dict.get m k);
  delete_checkpoint = λ k m. (ok tt, Dict.remove m k);
}

abbrev second_time : ℕ → Result PyError Fields
second_time zero = err (value_error "timeout")
second_time (suc n) = ok (("success", flag true) ∷ [])

abbrev flaky : WorkerSandbox
flaky = record { execute = λ n k m. second_time n; verify = λ n k result. ok true }

abbrev task : Task
task = record { node_id = "t"; metadata = ("workflow_id", text "w") ∷ [] }

abbrev clock : ℕ → ℕ
clock n = 10 + n

abbrev executor : TaskState → Executor (Unit {0}) (Dict ExecutionContext)
executor s = record {
  state_machine = record (new_machine none) { states = ("t", s) ∷ []; history = ("t", []) ∷ [] };
  checkpoints = [];
  published = [];
  execution_contexts = [];
  task_registry = [];
  max_retries = 3;
}

executor-IsFresh : IsFresh forgetful in_dict flaky clock task (executor pending)
unfolding Dict.get
executor-IsFresh = record { none_saved = refl; saves = λ k c m. refl }

second_attempt :
    attempts forgetful in_dict flaky clock 4 0 (value_error "None") task
    ≡ (ok (("success", flag true) ∷ []), 1)
unfolding attempts one_attempt
second_attempt = refl

attempts-IsFirst_example :
    IsFirst forgetful in_dict flaky clock task 4 0
      (attempts forgetful in_dict flaky clock 4 0 (value_error "None") task).0
      (attempts forgetful in_dict flaky clock 4 0 (value_error "None") task).1
attempts-IsFirst_example =
    attempts-IsFirst forgetful in_dict flaky clock task 4 0 (value_error "None")

run_task-IsEnd_example :
    IsEnd forgetful in_dict flaky clock task
      (executor pending)
      (attempts forgetful in_dict flaky clock 4 0 (value_error "None") task).0
      (attempts forgetful in_dict flaky clock 4 0 (value_error "None") task).1
      (run_task forgetful in_dict flaky clock task (executor pending))
unfolding permitted Dict.get
run_task-IsEnd_example =
    run_task-IsEnd forgetful in_dict flaky clock task (executor pending) pending refl
      executor-IsFresh refl

run_task-refused_example :
    (e : PyError) × (x' : Executor (Unit {0}) (Dict ExecutionContext)) × (run_task forgetful in_dict
        flaky clock task
        (executor failed)
      ≡ (err e, x'))
    × (Dict.get x'.state_machine.states "t" ≡ some failed)
unfolding permitted Dict.get
run_task-refused_example =
    run_task-refused forgetful in_dict flaky clock task failed (executor failed) refl refl refl
