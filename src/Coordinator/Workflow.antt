-- ===== src/Coordinator/Workflow.antt =====
-- runtime/workflow_coordinator.py, the loop of a workflow, and its resumption. `worlds n` is what the
-- n-th execution of a task meets and `times n` gives the times in the n-th round. A hook either raises or not.
use agent_manager.Prelude.Actions.{◌>>=◌, ◌>>◌, pure}
use agent_manager.Prelude.Dict
use agent_manager.Prelude.Dict.{Dict}
use agent_manager.Prelude.Int.{ℤ}
use agent_manager.Prelude.{
  ℕ, zero, suc, ◌+◌, String, Bool, true, false, not, ◌&&◌, ◌||◌, Result, ok, Exec, Option, none,
  some, List, [], ◌∷◌, ◌++◌, length, ltb, ◌==◌, if◌then◌else◌,
}
use agent_manager.StateManager.Transitions.{TaskState, completed}
use agent_manager.StateManager.Machine.{Repository}
use agent_manager.Dag.Digraph.{Digraph}
use agent_manager.Dag.Engine
use agent_manager.Dag.Engine.{
  DagEngine, DagNode, TaskStatus, missing_key, get_ready_nodes, get_node, same_status,
}
use agent_manager.SchedulerEngine.Engine.{
  is_completed, is_failed, is_empty, execute_scheduled_tasks, mark_completed,
}
use agent_manager.Runtime.Errors.{PyError, decimal}
use agent_manager.Runtime.Context
use agent_manager.Runtime.Context.{
  ExecutionContext, ExecutionStatus, Fields, texts, text, number, EventType, workflow_started,
  workflow_completed, workflow_failed,
}
use agent_manager.Runtime.Executor.{CheckpointManager}
use agent_manager.Recovery.Repairs.{Pipeline}
use agent_manager.Coordinator.State.{Coordinator, World, in_scheduler, current_state, shift_state}
use agent_manager.Coordinator.Memory.{write_task_result_to_memory}
use agent_manager.Coordinator.Tasks.{set_node, then_do, execute_scheduled_task}
use agent_manager.Coordinator.Stages.{
  with_status, all_terminal, clear_backoff, for_each, register_missing_tasks, mark_ready,
  sync_scheduler_failures, find_ready,
}

pub record WorkflowRunResult : Type 0 where
  pub workflow_id : String
  pub success : Bool
  pub completed_tasks : List String
  pub failed_tasks : List String
  pub execution_contexts : Dict ExecutionContext

-- `checkpoint.status == COMPLETED`
unfoldable pub is_done : ExecutionStatus → Bool
is_done Context.completed = true
is_done _ = false

abbrev bool_text : Bool → String
bool_text true = "True"
bool_text false = "False"

module _ {R M G : Type 0} where
  unfoldable pub publish_workflow :
      EventType → String → Fields → Exec (Coordinator R M G) PyError (Unit {0})
  publish_workflow event_type workflow_id payload c = (
    ok tt,
    record c {
      executor = record c.executor {
        published =
            c.executor.published
            ++ record { event_type = event_type; workflow_id = workflow_id; payload = payload }
              ∷ [];
      };
    },
  )

  unfoldable pub run_hooks :
      Option (String → Fields → Result PyError (Unit {0}))
      → String
      → Fields
      → Exec (Coordinator R M G) PyError (Unit {0})
  run_hooks none event context c = (ok tt, c)
  run_hooks (some hook) event context c = (hook event context, c)

module _ {R M G : Type 0} (ops : Repository R) (graph : Digraph G) (manager : CheckpointManager M)
    (pipeline : Option (Pipeline R M)) (metadata : String → Fields) (priority_of : Fields → ℤ)
    (hooks : Option (String → Fields → Result PyError (Unit {0}))) (worlds : ℕ → World)
    (times : ℕ → ℕ → ℕ) where
  unfoldable pub execute_next : String → Exec (Coordinator R M G) PyError (Unit {0})
  execute_next task_id c =
      execute_scheduled_task ops graph manager pipeline metadata (worlds c.executed) task_id
        (record c { executed = c.executed + 1 })

  -- A round of the loop up to `running_tasks`.
  unfoldable pub dispatch : (round : ℕ) → Exec (Coordinator R M G) PyError (Unit {0})
  dispatch round = do
    ids ← find_ready ops graph manager pipeline metadata priority_of
    mark_ready ops graph manager pipeline metadata priority_of (times round 0) ids
    then_do ops graph manager pipeline metadata (λ c. record c {
      scheduler =
          execute_scheduled_tasks (times round)
            (record c.scheduler { tasks = clear_backoff ids c.scheduler.tasks });
    })
    sync_scheduler_failures ops graph manager pipeline metadata priority_of (times round 0)

  -- The `for` loop, with the number of rounds that are left.
  unfoldable pub rounds : (left round idle : ℕ) → Exec (Coordinator R M G) PyError (Unit {0})
  rounds zero round idle = pure tt
  rounds (suc left) round idle = do
    dispatch round
    (λ c. elim (is_empty c.scheduler.running_tasks) [
      | true ↦ elim (all_terminal c.scheduler.tasks || ltb 2 (idle + 1)) [
        | true ↦ (ok tt, c)
        | false ↦ rounds left (suc round) (idle + 1) c
      ]
      | false ↦
          (do
            for_each c.scheduler.running_tasks execute_next
            (λ c'. elim (all_terminal c'.scheduler.tasks) [
              | true ↦ (ok tt, c')
              | false ↦ rounds left (suc round) 0 c'
            ]))
            c
    ])

  unfoldable pub summary : String → Coordinator R M G → WorkflowRunResult
  summary workflow_id c =
      let done = with_status is_completed c.scheduler.tasks in
      let lost = with_status is_failed c.scheduler.tasks in
      record {
        workflow_id = workflow_id;
        success = is_empty lost && length done == length c.scheduler.tasks;
        completed_tasks = done;
        failed_tasks = lost;
        execution_contexts = c.executor.execution_contexts;
      }

  unfoldable pub conclude_workflow : String → Exec (Coordinator R M G) PyError WorkflowRunResult
  conclude_workflow workflow_id c =
      let result = summary workflow_id c in
      (do
        publish_workflow (if result.success then workflow_completed else workflow_failed)
            workflow_id
            (("completed_tasks", texts result.completed_tasks)
              ∷ ("failed_tasks", texts result.failed_tasks)
              ∷ ("task_count", number (length c.scheduler.tasks))
              ∷ [])
        run_hooks hooks "after_workflow_run" (
            ("workflow_id", text workflow_id)
            ∷ ("success", text (bool_text result.success))
            ∷ ("completed_count", text (decimal (length result.completed_tasks)))
            ∷ ("failed_count", text (decimal (length result.failed_tasks)))
            ∷ [])
        pure result)
        c

  unfoldable pub run_workflow :
      (max_iterations : ℕ) → String → Exec (Coordinator R M G) PyError WorkflowRunResult
  run_workflow max_iterations workflow_id = do
    register_missing_tasks ops graph manager pipeline metadata priority_of
    run_hooks hooks "before_workflow_run" (("workflow_id", text workflow_id) ∷ [])
    (λ c.
        publish_workflow workflow_started workflow_id
          (("task_count", number (length c.dag.nodes)) ∷ []) c)
    rounds max_iterations 0 0
    conclude_workflow workflow_id

  -- `_restore_completed_tasks_from_checkpoints` for a task that its checkpoint has as completed
  unfoldable pub complete_unless :
      String
      → (now : ℕ) → Option TaskState × Coordinator R M G
      → Result PyError (Unit {0}) × Coordinator R M G
  complete_unless task_id now (some completed, c) = (ok tt, c)
  complete_unless task_id now (s, c) =
      shift_state ops task_id completed "Restored from checkpoint" now c

  unfoldable pub if_node :
      String
      → Exec (Coordinator R M G) PyError (Unit {0})
      → Exec (Coordinator R M G) PyError (Unit {0})
  if_node task_id f c = elim (Dict.get c.dag.nodes task_id) [ none ↦ (ok tt, c) | some node ↦ f c ]

  unfoldable pub restore_completed :
      (now : ℕ) → String → Exec (Coordinator R M G) PyError (Unit {0})
  restore_completed now task_id = do
    if_node task_id (set_node ops graph manager pipeline metadata task_id Engine.completed)
    in_scheduler (mark_completed task_id)
    (λ c. complete_unless task_id now (current_state ops task_id c))
    if_node task_id (
        then_do ops graph manager pipeline metadata
          (write_task_result_to_memory now task_id (metadata task_id) "restored"))

  unfoldable pub restore_from :
      (now : ℕ)
      → String
      → Result PyError (Option ExecutionContext)
      → Exec (Coordinator R M G) PyError (Unit {0})
  restore_from now task_id (ok (some checkpoint)) =
      if is_done checkpoint.status then restore_completed now task_id else pure tt
  restore_from now task_id found = pure tt

  unfoldable pub restore_completed_tasks : (now : ℕ) → Exec (Coordinator R M G) PyError (Unit {0})
  restore_completed_tasks now c =
      for_each (with_status (λ s. not (is_completed s || is_failed s)) c.scheduler.tasks)
        (λ task_id c'.
          restore_from now task_id (manager.load_checkpoint task_id c'.executor.checkpoints) c')
        c

  unfoldable pub resume_workflow :
      (max_iterations now : ℕ) → String → Exec (Coordinator R M G) PyError WorkflowRunResult
  resume_workflow max_iterations now workflow_id = do
    register_missing_tasks ops graph manager pipeline metadata priority_of
    restore_completed_tasks now
    run_workflow max_iterations workflow_id
