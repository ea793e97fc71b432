-- ===== src/Runtime/Lifecycle.antt =====
-- runtime/task_executor.py, `run_task`: how a run ends.
use Prim.Native.String
use agent_manager.Prelude.Actions.{bind-ok, bind-err}
use agent_manager.Prelude.Dict
use agent_manager.Prelude.Dict.{get-put}
use agent_manager.Prelude.{
  ℕ, suc, String, ◌≡◌, refl, ◌∙◌, true, Result, ok, err, Exec, [], ◌∷◌, none, some,
}
use agent_manager.StateManager.Transitions.{
  TaskState, permitted, implementing, verifying, completed, failed,
}
use agent_manager.StateManager.Machine.{Repository}
use agent_manager.Runtime.Errors.{PyError, value_error}
use agent_manager.Runtime.Context.{
  ExecutionContext, Fields, text, object, number, to_object, task_started, task_completed,
  task_failed, get_duration, mark_completed, mark_failed,
}
use agent_manager.Runtime.Executor.{
  Task, CheckpointManager, WorkerSandbox, Executor, Work, move_to, attempts, add_retries,
  on_context, execute_with_retry, exhausted, lifecycle, try_checkpoint, publish_event, context_of,
  save, handle, workflow_of, duration_value,
}
use agent_manager.Runtime.Moves.{move_to-permitted}

module _ {R M : Type 0} (ops : Repository R) (manager : CheckpointManager M)
    (sandbox : WorkerSandbox) (clock : ℕ → ℕ) (task : Task) where
  abbrev At : TaskState → Work R M → Type 0
  At s w = Dict.get w.executor.state_machine.states task.node_id ≡ some s

  abbrev pub begun : Work R M → Work R M
  begun w =
      (move_to ops manager sandbox clock task.node_id implementing "Starting task execution"
        (clock 1) w).1

  abbrev pub answer : Work R M → Result PyError Fields × ℕ
  answer w =
      attempts ops manager sandbox clock (suc (begun w).executor.max_retries) 0 (value_error "None")
        task

  abbrev pub counted : Work R M → Work R M
  counted w = record (begun w) {
    context = add_retries ops manager sandbox clock (answer w).1 (begun w).context;
  }

  abbrev pub shift : TaskState → String → ℕ → Exec (Work R M) PyError (Unit {0})
  shift new reason now = move_to ops manager sandbox clock task.node_id new reason now

  abbrev pub gave_up : Work R M → Work R M
  gave_up w = (shift verifying "Verification after retries" (clock 2) (counted w)).1

  module _ (w : Work R M) (s : TaskState) (at : At s w)
      (startable : permitted s implementing ≡ true) where
    pub begin :
        (shift implementing "Starting task execution" (clock 1) w ≡ (ok tt, begun w))
        × At implementing (begun w)
    begin =
        move_to-permitted ops manager sandbox clock task.node_id implementing
          "Starting task execution" (clock 1) w s at startable

    execute_with_retry-succeeds :
        (result : Fields)
        → (answer w).0 ≡ ok result
        → execute_with_retry ops manager sandbox clock task w ≡ (ok result, counted w)
    unfolding execute_with_retry on_context
    execute_with_retry-succeeds result h =
        bind-ok (shift implementing "Starting task execution" (clock 1)) _ w begin.0 ∙ rw h refl

    -- Once the attempts are used up, the run is in the state "verifying" and raises.
    give_up :
        (shift verifying "Verification after retries" (clock 2) (counted w) ≡ (ok tt, gave_up w))
        × At verifying (gave_up w)
    unfolding permitted
    give_up =
        move_to-permitted ops manager sandbox clock task.node_id verifying
          "Verification after retries" (clock 2) (counted w) implementing begin.1 refl

    execute_with_retry-fails :
        (e : PyError)
        → (answer w).0 ≡ err e
        → execute_with_retry ops manager sandbox clock task w ≡ (
          err (exhausted ops manager sandbox clock task (suc (begun w).executor.max_retries) e),
          gave_up w,
        )
    unfolding execute_with_retry on_context
    execute_with_retry-fails e h =
        bind-ok (shift implementing "Starting task execution" (clock 1)) _ w begin.0
        ∙ rw h (
            bind-ok (shift verifying "Verification after retries" (clock 2)) _ (counted w)
              give_up.0)

  -- The stages of the `try` block.
  abbrev pub announced : Work R M → Work R M
  announced w =
      (publish_event task_started (workflow_of task.metadata)
        (("task_id", text task.node_id) ∷ ("status", text "started") ∷ []) w).1

  abbrev pub verified : Work R M → Work R M
  verified w = (shift verifying "Verifying execution result" (clock 3) w).1

  abbrev pub marked : Fields → Work R M → Work R M
  marked result w = record w { context = mark_completed (clock 4) result w.context }

  abbrev pub finished : Work R M → Work R M
  finished w = (shift completed "Task completed successfully" (clock 5) w).1

  abbrev pub saved : Work R M → Work R M
  saved w = (save ops manager sandbox clock task.node_id w).1

  abbrev pub reported : Fields → Work R M → Work R M
  reported result w =
      (publish_event task_completed (workflow_of task.metadata)
        (("task_id", text task.node_id)
          ∷ ("status", text "completed")
          ∷ ("result", object (to_object result))
          ∷ ("duration", duration_value (get_duration (clock 6) w.context))
          ∷ [])
        w).1

  -- A manager without a checkpoint for the task, which saves without an exception.
  pub record IsFresh (x : Executor R M) : Type 0 where
    pub none_saved : manager.load_checkpoint task.node_id x.checkpoints ≡ ok none
    pub saves :
        (k : String) (c : ExecutionContext) (m : M) → (manager.save_checkpoint k c m).0 ≡ ok tt

  save-ok :
      (w : Work R M)
      → ((k : String) (c : ExecutionContext) (m : M) → (manager.save_checkpoint k c m).0 ≡ ok tt)
      → save ops manager sandbox clock task.node_id w ≡ (ok tt, saved w)
  unfolding save
  save-ok w saves = rw (saves task.node_id w.context w.executor.checkpoints) refl

  pub load :
      (w : Work R M)
      → IsFresh w.executor
      → try_checkpoint ops manager sandbox clock task.node_id w ≡ (ok tt, w)
  unfolding try_checkpoint
  load w fresh = rw (try_checkpoint, fresh.none_saved) refl

  module _ (w : Work R M) (s : TaskState) (at : At s w)
      (startable : permitted s implementing ≡ true) (fresh : IsFresh w.executor) where
    pub announced_keeps : At s (announced w)
    unfolding publish_event
    announced_keeps = at

    pub lifecycle-succeeds :
        (result : Fields)
        → (answer (announced w)).0 ≡ ok result
        → (lifecycle ops manager sandbox clock task w ≡ (
          ok tt,
          reported result (saved (finished (marked result (verified (counted (announced w)))))),
        ))
          × At completed (
              reported result (saved (finished (marked result (verified (counted (announced w)))))))
    unfolding lifecycle publish_event on_context context_of permitted save
    lifecycle-succeeds result h =
        let x = announced w in
        let attempt = begin x s announced_keeps startable in
        let check =
          move_to-permitted ops manager sandbox clock task.node_id verifying
            "Verifying execution result" (clock 3) (counted x) implementing attempt.1 refl in
        let finish =
          move_to-permitted ops manager sandbox clock task.node_id completed
            "Task completed successfully" (clock 5) (marked result (verified (counted x))) verifying
            check.1 refl in
        (
          bind-ok (try_checkpoint ops manager sandbox clock task.node_id) _ w (load w fresh)
              ∙ bind-ok (execute_with_retry ops manager sandbox clock task) _ x
                  (execute_with_retry-succeeds x s announced_keeps startable result h)
              ∙ bind-ok (shift verifying "Verifying execution result" (clock 3)) _ (counted x)
                  check.0
              ∙ bind-ok (shift completed "Task completed successfully" (clock 5)) _
                  (marked result (verified (counted x))) finish.0
              ∙ bind-ok (save ops manager sandbox clock task.node_id) _
                  (finished (marked result (verified (counted x))))
                  (save-ok (finished (marked result (verified (counted x)))) fresh.saves),
          finish.1,
        )

    pub lifecycle-fails :
        (e : PyError)
        → (answer (announced w)).0 ≡ err e
        → (lifecycle ops manager sandbox clock task w ≡ (
          err (
              exhausted ops manager sandbox clock task
                (suc (begun (announced w)).executor.max_retries)
                e),
          gave_up (announced w),
        ))
          × At verifying (gave_up (announced w))
    unfolding lifecycle publish_event
    lifecycle-fails e h = (
      bind-ok (try_checkpoint ops manager sandbox clock task.node_id) _ w (load w fresh)
          ∙ bind-err (execute_with_retry ops manager sandbox clock task) _ (announced w)
              (execute_with_retry-fails (announced w) s announced_keeps startable e h),
      (give_up (announced w) s announced_keeps startable).1,
    )

  -- The stages of the `except` block.
  abbrev pub failing : PyError → Work R M → Work R M
  failing e w = record w { context = mark_failed (clock 7) e.message w.context }

  abbrev pub fallen : PyError → Work R M → Work R M
  fallen e w = (shift failed (String.◌++◌ "Task failed: " e.message) (clock 8) (failing e w)).1

  abbrev pub told : PyError → Work R M → Work R M
  told e w =
      (publish_event task_failed (workflow_of task.metadata)
        (("task_id", text task.node_id)
          ∷ ("status", text "failed")
          ∷ ("error", text e.message)
          ∷ ("retry_count", number w.context.retry_count)
          ∷ [])
        w).1

  pub handle_lem :
      (e : PyError) (w : Work R M) (u : TaskState)
      → At u w
      → permitted u failed ≡ true
      → ((k : String) (c : ExecutionContext) (m : M) → (manager.save_checkpoint k c m).0 ≡ ok tt)
      → (handle ops manager sandbox clock e task w ≡ (err e, told e (saved (fallen e w))))
        × At failed (told e (saved (fallen e w)))
  unfolding handle on_context publish_event context_of save
  handle_lem e w u at p saves =
      let fall =
        move_to-permitted ops manager sandbox clock task.node_id failed
          (String.◌++◌ "Task failed: " e.message) (clock 8) (failing e w) u at p in
      (
        bind-ok (shift failed (String.◌++◌ "Task failed: " e.message) (clock 8)) _ (failing e w)
              fall.0
            ∙ bind-ok (save ops manager sandbox clock task.node_id) _ (fallen e w)
                (save-ok (fallen e w) saves),
        fall.1,
      )
