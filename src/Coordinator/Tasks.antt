-- ===== src/Coordinator/Tasks.antt =====
-- runtime/workflow_coordinator.py, the execution of one task. The metadata of the nodes, which the
-- model of the DAG engine leaves out, is a parameter.
use Prim.Native.String
use agent_manager.Prelude.Actions.{◌>>◌}
use agent_manager.Prelude.Dict
use agent_manager.Prelude.Int.{neg}
use agent_manager.Prelude.StrSet.{discard}
use agent_manager.Prelude.{
  ℕ, String, Bool, true, false, Result, ok, err, Exec, Option, none, some, List, if◌then◌else◌,
}
use agent_manager.StateManager.Transitions.{TaskState, completed, failed, blocked_hitl, ready}
use agent_manager.StateManager.Machine.{Repository}
use agent_manager.Dag.Digraph.{Digraph}
use agent_manager.Dag.Engine
use agent_manager.Dag.Engine.{DagEngine, DagNode, TaskStatus, update_node_status, get_node}
use agent_manager.SchedulerEngine.Queue.{heappush, queued}
use agent_manager.SchedulerEngine.Engine.{
  Scheduler, pending as queued_status, mark_completed, mark_failed,
}
use agent_manager.Runtime.Errors.{PyError, value_error}
use agent_manager.Runtime.Context.{ExecutionContext, Fields}
use agent_manager.Runtime.Executor.{CheckpointManager, Executor, Task, run_task, workflow_of}
use agent_manager.Recovery.Failures.{
  FailureType, runtime, RecoveryStrategy, defect_repair, RecoveryContext, ContextError, required,
  checked, classify,
}
use agent_manager.Recovery.Steps.{Recovery, Attempt}
use agent_manager.Recovery.Repairs.{Pipeline}
use agent_manager.Recovery.Engine.{execute_recovery}
use agent_manager.Coordinator.State.{
  Coordinator, World, in_scheduler, in_dag, current_state, begin_state, shift_state,
}
use agent_manager.Coordinator.Memory.{write_task_result_to_memory, write_recovery_result_to_memory}

-- `ValueError(f"{field} is required")` of `RecoveryContext`
unfoldable pub context_raised : ContextError → PyError
context_raised (required field) = value_error (String.◌++◌ field " is required")

-- DEFECT_REPAIR for a failure at run time, where a pipeline is there and allowed.
unfoldable pub strategy_for :
    (available allowed : Bool) → FailureType × RecoveryStrategy → RecoveryStrategy
strategy_for true true (runtime, strategy) = defect_repair
strategy_for available allowed (failure, strategy) = strategy

abbrev available : {A : Type 0} → Option A → Bool
available none = false
available (some a) = true

-- `_mark_scheduler_pending`
unfoldable pub mark_scheduler_pending : String → Scheduler → Scheduler
mark_scheduler_pending task_id s = elim (Dict.get s.tasks task_id) [
  | none ↦ s
  | some t ↦ record s {
    tasks =
        Dict.put s.tasks task_id
          (record t { status = queued_status; next_retry_at = none; retry_attempts = 0 });
    running_tasks = discard s.running_tasks task_id;
    execution_queue =
        if queued s.execution_queue task_id
        then s.execution_queue
        else heappush (record { neg_priority = neg t.priority; task_id = task_id })
            s.execution_queue;
  }
]

module _ {R M G : Type 0} (ops : Repository R) (graph : Digraph G) (manager : CheckpointManager M)
    (pipeline : Option (Pipeline R M)) (metadata : String → Fields) where
  -- `_set_failed_state`, for the state that `get_state` gives
  unfoldable pub fail_from :
      String
      → (reason : String) → (now : ℕ) → Option TaskState × Coordinator R M G
      → Result PyError (Unit {0}) × Coordinator R M G
  fail_from task_id reason now (some completed, c) = (ok tt, c)
  fail_from task_id reason now (some blocked_hitl, c) = (ok tt, c)
  fail_from task_id reason now (some failed, c) = (ok tt, c)
  fail_from task_id reason now (some s, c) = shift_state ops task_id failed reason now c
  fail_from task_id reason now (none, c) =
      (begin_state ops task_id >> shift_state ops task_id failed reason now) c

  unfoldable pub set_failed_state :
      String → (reason : String) → (now : ℕ) → Exec (Coordinator R M G) PyError (Unit {0})
  set_failed_state task_id reason now c = fail_from task_id reason now (current_state ops task_id c)

  unfoldable pub set_node : String → TaskStatus → Exec (Coordinator R M G) PyError (Unit {0})
  set_node task_id status = in_dag (update_node_status graph task_id status)

  -- A step that raises nothing.
  unfoldable pub then_do :
      (Coordinator R M G → Coordinator R M G) → Exec (Coordinator R M G) PyError (Unit {0})
  then_do f c = (ok tt, f c)

  unfoldable pub task_of : DagNode → Task
  task_of node = record { node_id = node.node_id; metadata = metadata node.node_id }

  unfoldable pub answered :
      Coordinator R M G
      → Result PyError ExecutionContext × Executor R M
      → Result PyError (Unit {0}) × Coordinator R M G
  answered c (ok context, x) = (ok tt, record c { executor = x })
  answered c (err e, x) = (err e, record c { executor = x })

  -- `await self.task_executor.run_task(node)`
  unfoldable pub call_executor : World → DagNode → Exec (Coordinator R M G) PyError (Unit {0})
  call_executor w node c =
      answered c (run_task ops manager w.sandbox w.clock (task_of node) c.executor)

  -- The `try` block of `_execute_scheduled_task_impl`.
  unfoldable pub attempt_task :
      World → String → DagNode → Exec (Coordinator R M G) PyError (Unit {0})
  attempt_task w task_id node = do
    call_executor w node
    in_scheduler (mark_completed task_id)
    set_node task_id Engine.completed
    then_do (write_task_result_to_memory w.now task_id (metadata node.node_id) "completed")

  -- The statements behind the `if recovered`.
  unfoldable pub give_up : World → String → Exec (Coordinator R M G) PyError (Unit {0})
  give_up w task_id = do
    in_scheduler (mark_failed task_id)
    set_node task_id Engine.failed
    set_failed_state task_id "Task execution failed" w.now

  -- The branches for a recovery that answered true, by the state of the task.
  unfoldable pub resume_by_state :
      World
      → String
      → DagNode
      → Option TaskState × Coordinator R M G
      → Result PyError (Unit {0}) × Coordinator R M G
  resume_by_state w task_id node (some completed, c) =
      (do
        in_scheduler (mark_completed task_id)
        set_node task_id Engine.completed
        then_do
            (write_recovery_result_to_memory task_id (metadata node.node_id) "recovered_completed"))
        c
  resume_by_state w task_id node (some ready, c) =
      (do
        then_do (λ c. record c { scheduler = mark_scheduler_pending task_id c.scheduler })
        set_node task_id Engine.pending
        then_do (write_recovery_result_to_memory task_id (metadata node.node_id) "recovered_retry"))
        c
  resume_by_state w task_id node (s, c) = give_up w task_id c

  unfoldable pub after_recovery :
      World
      → String
      → DagNode
      → Result PyError Bool × Coordinator R M G
      → Result PyError (Unit {0}) × Coordinator R M G
  after_recovery w task_id node (err e, c) = (err e, c)
  after_recovery w task_id node (ok true, c) =
      resume_by_state w task_id node (current_state ops task_id c)
  after_recovery w task_id node (ok false, c) = give_up w task_id c

  unfoldable pub recovered :
      Coordinator R M G → Bool × Recovery R M → Result PyError Bool × Coordinator R M G
  recovered c (answer, r) =
      (ok answer, record c { executor = r.executor; recovery = some r.recovery_history })

  unfoldable pub call_recovery :
      World
      → Dict.Dict (List Attempt)
      → Coordinator R M G
      → Result ContextError RecoveryContext
      → Result PyError Bool × Coordinator R M G
  call_recovery w history c (err e) = (err (context_raised e), c)
  call_recovery w history c (ok ctx) = recovered c (
      execute_recovery ops manager w.recovery_sandbox w.recovery_clock pipeline w.events w.now
        (record { executor = c.executor; recovery_history = history; ctx = ctx }))

  -- `_recover_failed_task`. The context is made, and checked, outside of its `try`.
  unfoldable pub recover_failed_task :
      World
      → String
      → DagNode
      → PyError
      → Coordinator R M G
      → Result PyError Bool × Coordinator R M G
  recover_failed_task w task_id node error c = elim c.recovery [
    | none ↦ (ok false, c)
    | some history ↦
        let kind = classify error in
        call_recovery w history c (
          checked (record {
            task_id = task_id;
            workflow_id = workflow_of (metadata node.node_id);
            failure_type = kind.0;
            error_msg = error.message;
            checkpoint_id = none;
            event_id = none;
            retry_count = 0;
            recovery_strategy = some (strategy_for (available pipeline) c.allow_defect_repair kind);
          }))
  ]

  unfoldable pub settled_by :
      World
      → String
      → DagNode
      → Result PyError (Unit {0}) × Coordinator R M G
      → Result PyError (Unit {0}) × Coordinator R M G
  settled_by w task_id node (ok done, c) = (ok tt, c)
  settled_by w task_id node (err e, c) =
      after_recovery w task_id node (recover_failed_task w task_id node e c)

  unfoldable pub run_node : World → String → DagNode → Exec (Coordinator R M G) PyError (Unit {0})
  run_node w task_id node = do
    set_node task_id Engine.running
    (λ c. settled_by w task_id node (attempt_task w task_id node c))

  -- `_execute_scheduled_task_impl`
  unfoldable pub execute_scheduled_task :
      World → String → Exec (Coordinator R M G) PyError (Unit {0})
  execute_scheduled_task w task_id c = elim (Dict.get c.dag.nodes task_id) [
    | none ↦ in_scheduler (mark_failed task_id) c
    | some node ↦ run_node w task_id node c
  ]
