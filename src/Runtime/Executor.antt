-- ===== src/Runtime/Executor.antt =====
-- runtime/task_executor.py, the class `TaskExecutor`. Its state machine, checkpoint manager and contexts
-- are in one record; the bus is the list of the events that it was asked to publish, since
-- `_publish_event` catches what the bus raises. The sandbox is a parameter: its n-th call in a run
-- answers as `execute n` and `verify n`. `clock n` is the n-th of the times that a run can read.
use Prim.Native.String
use agent_manager.Prelude.Actions.{pure, raise, ◌>>=◌, ◌>>◌}
use agent_manager.Prelude.Dict
use agent_manager.Prelude.Dict.{Dict}
use agent_manager.Prelude.{
  ℕ, zero, suc, ◌+◌, String, Bool, true, false, Result, ok, err, Exec, Option, none, some, List, [],
  ◌∷◌, ◌++◌,
}
use agent_manager.StateManager.Transitions.{TaskState, implementing, verifying, completed, failed}
use agent_manager.StateManager.Transitions
use agent_manager.StateManager.Machine.{Repository, StateMachine, get_state, initialize, transition}
use agent_manager.Runtime.Errors.{PyError, value_error, from_machine, decimal}
use agent_manager.Runtime.Context.{
  ExecutionContext, Fields, Value, null, text, number, object, to_object, EventType, task_started,
  task_completed, task_failed, Published, new_context, mark_started, mark_completed, mark_failed,
  get_duration,
}

-- `TaskLike`
pub record Task : Type 0 where
  pub node_id : String
  pub metadata : Fields

-- The abstract `CheckpointManager` and `WorkerSandbox`.
pub record CheckpointManager (M : Type 0) : Type 0 where
  pub save_checkpoint : String → ExecutionContext → Exec M PyError (Unit {0})
  pub load_checkpoint : String → M → Result PyError (Option ExecutionContext)
  pub delete_checkpoint : String → Exec M PyError (Unit {0})

pub record WorkerSandbox : Type 0 where
  pub execute : ℕ → String → Fields → Result PyError Fields
  pub verify : ℕ → String → Fields → Result PyError Bool

pub record Executor (R M : Type 0) : Type 0 where
  pub state_machine : StateMachine R
  pub checkpoints : M
  pub published : List Published
  pub execution_contexts : Dict ExecutionContext
  pub task_registry : Dict Task
  pub max_retries : ℕ

-- The executor, and the variable `context` of a run.
pub record Work (R M : Type 0) : Type 0 where
  pub executor : Executor R M
  pub context : ExecutionContext

-- `metadata.get("workflow_id", "unknown")`, where a workflow id is a text
unfoldable pub workflow_of : Fields → String
workflow_of metadata = elim (Dict.get metadata "workflow_id") [ some (text w) ↦ w | _ ↦ "unknown" ]

abbrev pub duration_value : Option ℕ → Value
duration_value none = null
duration_value (some n) = number n

module _ {R M : Type 0} where
  unfoldable pub publish_event : EventType → String → Fields → Exec (Work R M) PyError (Unit {0})
  publish_event event_type workflow_id payload w = (
    ok tt,
    record w {
      executor = record w.executor {
        published =
            w.executor.published
            ++ record { event_type = event_type; workflow_id = workflow_id; payload = payload }
              ∷ [];
      };
    },
  )

  -- `context.mark_...`
  unfoldable pub on_context :
      (ExecutionContext → ExecutionContext) → Exec (Work R M) PyError (Unit {0})
  on_context f w = (ok tt, record w { context = f w.context })

  unfoldable pub context_of : Exec (Work R M) PyError ExecutionContext
  context_of w = (ok w.context, w)

module _ {R M : Type 0} (ops : Repository R) (manager : CheckpointManager M)
    (sandbox : WorkerSandbox) (clock : ℕ → ℕ) where
  unfoldable pub move_to :
      String → TaskState → String → (now : ℕ) → Exec (Work R M) PyError (Unit {0})
  unfolding from_machine
  move_to task_id new_state reason now w =
      let (r, m) = transition ops task_id new_state reason now w.executor.state_machine in
      (from_machine r, record w { executor = record w.executor { state_machine = m } })

  unfoldable pub save : String → Exec (Work R M) PyError (Unit {0})
  save task_id w =
      let (r, m) = manager.save_checkpoint task_id w.context w.executor.checkpoints in
      (r, record w { executor = record w.executor { checkpoints = m } })

  -- The body of the loop in `_execute_with_retry`.
  unfoldable pub one_attempt : (attempt : ℕ) → Task → Result PyError Fields
  one_attempt attempt task = elim (sandbox.execute attempt task.node_id task.metadata) [
    | err e ↦ err e
    | ok result ↦ elim (sandbox.verify attempt task.node_id result) [
      | err e ↦ err e
      | ok true ↦ ok result
      | ok false ↦ err (value_error "Verification failed")
    ]
  ]

  -- The loop: the result of the first attempt that does not raise, or what the last one raised,
  -- and the number of those that raised.
  unfoldable pub attempts :
      (left : ℕ) → (attempt : ℕ) → (last_error : PyError) → Task → Result PyError Fields × ℕ
  attempts zero attempt last_error task = (err last_error, attempt)
  attempts (suc left) attempt last_error task = elim (one_attempt attempt task) [
    | ok result ↦ (ok result, attempt)
    | err e ↦ attempts left (suc attempt) e task
  ]

  -- `context.increment_retry()`, so often
  unfoldable pub add_retries : ℕ → ExecutionContext → ExecutionContext
  add_retries n c = record c { retry_count = c.retry_count + n }

  abbrev pub str : String → String → String
  str = String.◌++◌

  unfoldable pub exhausted : Task → (count : ℕ) → PyError → PyError
  exhausted task count last_error = record {
    type_name = "Exception";
    message = str "Task " (
        str task.node_id
          (str " failed after " (str (decimal count) (str " attempts: " last_error.message))));
  }

  unfoldable pub execute_with_retry : Task → Exec (Work R M) PyError Fields
  execute_with_retry task = do
    move_to task.node_id implementing "Starting task execution" (clock 1)
    (λ w.
        let (answer, count) = attempts (suc w.executor.max_retries) 0 (value_error "None") task in
        (do
          on_context (add_retries count)
          elim answer [
            | ok result ↦ pure result
            | err last_error ↦ do
              move_to task.node_id verifying "Verification after retries" (clock 2)
              raise (exhausted task (suc w.executor.max_retries) last_error)
          ])
          w)

  unfoldable pub try_checkpoint : String → Exec (Work R M) PyError (Unit {0})
  try_checkpoint task_id w = elim (manager.load_checkpoint task_id w.executor.checkpoints) [
    | err e ↦ (err e, w)
    | ok none ↦ (ok tt, w)
    | ok (some checkpoint) ↦ (ok tt, record w { context = checkpoint })
  ]

  -- The `try` block of `_run_task_impl`.
  unfoldable pub lifecycle : Task → Exec (Work R M) PyError (Unit {0})
  lifecycle task = do
    let workflow_id = workflow_of task.metadata
    try_checkpoint task.node_id
    publish_event task_started workflow_id
        (("task_id", text task.node_id) ∷ ("status", text "started") ∷ [])
    result ← execute_with_retry task
    move_to task.node_id verifying "Verifying execution result" (clock 3)
    on_context (mark_completed (clock 4) result)
    move_to task.node_id completed "Task completed successfully" (clock 5)
    save task.node_id
    context ← context_of
    publish_event task_completed workflow_id (
        ("task_id", text task.node_id)
        ∷ ("status", text "completed")
        ∷ ("result", object (to_object result))
        ∷ ("duration", duration_value (get_duration (clock 6) context))
        ∷ [])

  -- The `except` block.
  unfoldable pub handle : PyError → Task → Exec (Work R M) PyError (Unit {0})
  handle e task = do
    on_context (mark_failed (clock 7) e.message)
    move_to task.node_id failed (str "Task failed: " e.message) (clock 8)
    save task.node_id
    context ← context_of
    publish_event task_failed (workflow_of task.metadata) (
        ("task_id", text task.node_id)
        ∷ ("status", text "failed")
        ∷ ("error", text e.message)
        ∷ ("retry_count", number context.retry_count)
        ∷ [])
    raise e

  -- `self.execution_contexts[task_id]` is the run's context.
  unfoldable pub kept : String → Work R M → Executor R M
  kept task_id w = record w.executor {
    execution_contexts = Dict.put w.executor.execution_contexts task_id w.context;
  }

  -- What the `except` block raises: the error again, or an error of its own.
  unfoldable pub reraised :
      Task
      → PyError
      → Result PyError (Unit {0}) × Work R M
      → Result PyError ExecutionContext × Executor R M
  reraised task e (ok done, w) = (err e, kept task.node_id w)
  reraised task e (err e', w) = (err e', kept task.node_id w)

  unfoldable pub ended :
      Task → Result PyError (Unit {0}) × Work R M → Result PyError ExecutionContext × Executor R M
  ended task (ok done, w) = (ok w.context, kept task.node_id w)
  ended task (err e, w) = reraised task e (handle e task w)

  unfoldable pub started : Task → Work R M → Result PyError ExecutionContext × Executor R M
  started task w = ended task (lifecycle task w)

  -- `if self.state_machine.get_state(task_id) is None: self.state_machine.initialize(...)`
  unfoldable pub initialized :
      String → Option TaskState × StateMachine R → Result PyError (Unit {0}) × StateMachine R
  unfolding from_machine
  initialized task_id (some s, m) = (ok tt, m)
  initialized task_id (none, m) =
      let (r, m') = initialize ops task_id Transitions.pending m in (from_machine r, m')

  unfoldable pub ensure_state : String → Exec (StateMachine R) PyError (Unit {0})
  ensure_state task_id m = initialized task_id (get_state ops task_id m)

  -- `_run_task_impl`, from the context's creation on, and before it.
  unfoldable pub opened :
      Task
      → Executor R M
      → Result PyError (Unit {0}) × StateMachine R
      → Result PyError ExecutionContext × Executor R M
  opened task x (err e, m) = (
    err e,
    record x { task_registry = Dict.put x.task_registry task.node_id task; state_machine = m },
  )
  opened task x (ok known, m) =
      let context =
        mark_started (clock 0)
          (new_context task.node_id (workflow_of task.metadata) task.metadata) in
      started task (record {
        executor = record x {
          task_registry = Dict.put x.task_registry task.node_id task;
          state_machine = m;
          execution_contexts = Dict.put x.execution_contexts task.node_id context;
        };
        context = context;
      })

  unfoldable pub run_task : Task → Executor R M → Result PyError ExecutionContext × Executor R M
  run_task task x = opened task x (ensure_state task.node_id x.state_machine)

  unfoldable pub get_execution_context : String → Executor R M → Option ExecutionContext
  get_execution_context task_id x = Dict.get x.execution_contexts task_id

  unfoldable pub get_task : String → Executor R M → Option Task
  get_task task_id x = Dict.get x.task_registry task_id

  unfoldable pub cleanup : String → Executor R M → Executor R M
  cleanup task_id x = record x {
    execution_contexts = Dict.remove x.execution_contexts task_id;
    task_registry = Dict.remove x.task_registry task_id;
  }
