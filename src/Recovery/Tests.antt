-- ===== src/Recovery/Tests.antt =====
-- recovery/recovery_engine.py on small inputs.
use agent_manager.Prelude.Dict
use agent_manager.Prelude.Dict.{Dict}
use agent_manager.Prelude.{ℕ, ◌+◌, String, ◌≡◌, refl, false, true, ok, Option, none, some, [], ◌∷◌}
use agent_manager.StateManager.Transitions.{TaskState, permitted, failed, blocked_hitl}
use agent_manager.StateManager.Machine.{Repository, new_machine, get_state, transition, get_history}
use agent_manager.Runtime.Errors.{from_machine}
use agent_manager.Runtime.Context.{ExecutionContext, new_context}
use agent_manager.Runtime.Executor.{Task, CheckpointManager, WorkerSandbox}
use agent_manager.Recovery.Failures.{FailureType, timeout, runtime}
use agent_manager.Recovery.Steps.{
  Recovery, select_recovery_strategy, set_metadata, track_recovery_attempt, publish_recovery_event,
}
use agent_manager.Recovery.Moves.{mark_recovery_ready, mark_ready_from, state_of, move}
use agent_manager.Recovery.Repairs.{text_at}
use agent_manager.Recovery.Engine.{
  execute_recovery, published, answer, conclude, execute_strategy, chosen, execute_snapshot_restore,
  restored, other_checkpoint,
}
use agent_manager.Recovery.Choice.{asks}
use agent_manager.Recovery.Blocked.{Answers, execute_recovery-Blocked}
use agent_manager.Recovery.Settled.{IsSettled, execute_recovery-IsSettled}

abbrev forgetful : Repository (Unit {0})
forgetful = record {
  save_task_state = λ k s r. r;
  append_audit_record = λ a r. r;
  save_transition = λ t r. r;
  load_task_state = λ k r. none;
  load_transitions = λ k r. [];
}

abbrev in_dict : CheckpointManager (Dict ExecutionContext)
in_dict = record {
  save_checkpoint = λ k c m. (ok tt, Dict.put m k c);
  load_checkpoint = λ k m. ok (Dict.get m k);
  delete_checkpoint = λ k m. (ok tt, Dict.remove m k);
}

abbrev steady : WorkerSandbox
steady = record { execute = λ n k m. ok []; verify = λ n k result. ok true }

abbrev clock : ℕ → ℕ
clock n = 10 + n

abbrev task : Task
task = record { node_id = "t"; metadata = [] }

-- A recovery of the task in a state, after a failure, with the checkpoint's id.
abbrev recovery :
    TaskState → FailureType → Option String → Recovery (Unit {0}) (Dict ExecutionContext)
recovery s failure checkpoint_id = record {
  executor = record {
    state_machine = record (new_machine none) { states = ("t", s) ∷ []; history = ("t", []) ∷ [] };
    checkpoints = ("t", new_context "t" "w" []) ∷ [];
    published = [];
    execution_contexts = [];
    task_registry = ("t", task) ∷ [];
    max_retries = 3;
  };
  recovery_history = [];
  ctx = record {
    task_id = "t";
    workflow_id = "w";
    failure_type = failure;
    error_msg = "failed";
    checkpoint_id = checkpoint_id;
    event_id = none;
    retry_count = 0;
    recovery_strategy = none;
  };
}

execute_recovery-Blocked_example :
    Answers false blocked_hitl (
      execute_recovery forgetful in_dict steady clock none (ok []) 5 (recovery failed timeout none))
unfolding Dict.get asks chosen select_recovery_strategy
execute_recovery-Blocked_example =
    execute_recovery-Blocked forgetful in_dict steady clock none 5 (ok []) task
      (recovery failed timeout none) (λ h. refl) refl refl refl refl refl

-- A restored snapshot of a failed task.
restored_true :
    (execute_recovery forgetful in_dict steady clock none
      (ok [])
      5
      (recovery failed runtime (some "c"))).0
    ≡ true
unfolding Dict.get Dict.put Dict.contains execute_recovery published answer conclude
    execute_strategy chosen select_recovery_strategy execute_snapshot_restore restored
    other_checkpoint text_at set_metadata track_recovery_attempt mark_recovery_ready mark_ready_from
    state_of move from_machine publish_recovery_event get_state transition get_history permitted
restored_true = refl

execute_recovery-IsSettled_example :
    IsSettled
      (execute_recovery forgetful in_dict steady clock none
        (ok [])
        5
        (recovery failed runtime (some "c"))).1
execute_recovery-IsSettled_example =
    execute_recovery-IsSettled forgetful in_dict steady clock none 5 (ok [])
      (recovery failed runtime (some "c")) restored_true
