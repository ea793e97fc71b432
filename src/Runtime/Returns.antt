-- ===== src/Runtime/Returns.antt =====
-- runtime/task_executor.py, `run_task`: what is true whenever it returns.
use agent_manager.Prelude.Actions.{Ends, Ends-bind, Carries, Carries-bind, Ends-carried, ◌>>=◌}
use agent_manager.Prelude.Dict
use agent_manager.Prelude.{ℕ, String, ◌≡◌, refl, ap, subst, Result, ok, err, some, arith}
use agent_manager.StateManager.Transitions.{completed, verifying}
use agent_manager.StateManager.Machine.{Repository, StateMachine}
use agent_manager.StateManager.Progress.{transition-accepted}
use agent_manager.Runtime.Errors.{PyError, from_machine-ok}
use agent_manager.Runtime.Context.{
  ExecutionContext, Fields, EventType, task_started, task_completed, mark_completed,
}
use agent_manager.Runtime.Executor.{
  workflow_of, try_checkpoint, execute_with_retry, on_context, Task, CheckpointManager,
  WorkerSandbox, Executor, Work, move_to, save, context_of, publish_event, lifecycle, handle, kept,
  reraised, ended, started, opened, ensure_state, run_task,
}

module _ {R M : Type 0} (ops : Repository R) (manager : CheckpointManager M)
    (sandbox : WorkerSandbox) (clock : ℕ → ℕ) (task : Task) where
  abbrev IsCompleted : Work R M → Type 0
  IsCompleted w = Dict.get w.executor.state_machine.states task.node_id ≡ some completed

  saved : Carries IsCompleted (save ops manager sandbox clock task.node_id)
  unfolding save
  saved w at = at

  reported :
      (event_type : EventType) (workflow_id : String) (payload : ExecutionContext → Fields)
      → Carries IsCompleted
          (do context ← context_of; publish_event event_type workflow_id (payload context))
  unfolding context_of publish_event
  reported event_type workflow_id payload w at = at

  move_to-Ends :
      (reason : String) (now : ℕ)
      → Ends IsCompleted (move_to ops manager sandbox clock task.node_id completed reason now)
  unfolding move_to
  move_to-Ends reason now w a w' h = subst IsCompleted (ap (λ p. p.1) h) (
      transition-accepted ops task.node_id w.executor.state_machine completed reason now
        (from_machine-ok _ (ap (λ p. p.0) h)))

  lifecycle-Ends : Ends IsCompleted (lifecycle ops manager sandbox clock task)
  unfolding lifecycle
  lifecycle-Ends =
      Ends-bind IsCompleted (try_checkpoint ops manager sandbox clock task.node_id) _ (λ loaded.
        Ends-bind IsCompleted (publish_event task_started (workflow_of task.metadata) _) _ (λ told.
          Ends-bind IsCompleted (execute_with_retry ops manager sandbox clock task) _ (λ result.
            Ends-bind IsCompleted (move_to ops manager sandbox clock task.node_id verifying _ _) _
              (λ verified.
                Ends-bind IsCompleted (on_context (mark_completed (clock 4) result)) _ (λ marked.
                  Ends-carried IsCompleted
                    (move_to ops manager sandbox clock task.node_id completed
                      "Task completed successfully" (clock 5))
                    _ (move_to-Ends "Task completed successfully" (clock 5))
                    (λ done.
                      Carries-bind IsCompleted (save ops manager sandbox clock task.node_id) _ saved
                        (λ kept_it. reported task_completed _ _)))))))

  reraised-err :
      (e : PyError) (p : Result PyError (Unit {0}) × Work R M) (c : ExecutionContext)
      (x : Executor R M)
      → reraised ops manager sandbox clock task e p ≡ (ok c, x)
      → ⊥
  unfolding reraised
  reraised-err e (ok done, w) c x h = absurd (ground (arith, ap (λ p. p.0) h))
  reraised-err e (err e', w) c x h = absurd (ground (arith, ap (λ p. p.0) h))

  IsDone : Executor R M → Type 0
  IsDone x = Dict.get x.state_machine.states task.node_id ≡ some completed

  ended-IsDone :
      (p : Result PyError (Unit {0}) × Work R M) (c : ExecutionContext) (x : Executor R M)
      → ((w : Work R M) → p ≡ (ok tt, w) → IsCompleted w)
      → ended ops manager sandbox clock task p ≡ (ok c, x)
      → IsDone x
  unfolding ended IsDone kept
  ended-IsDone (ok done, w) c x at h = subst IsDone (ap (λ p. p.1) h) (at w refl)
  ended-IsDone (err e, w) c x at h =
      absurd (reraised-err e (handle ops manager sandbox clock e task w) c x h)

  opened-IsDone :
      (p : Result PyError (Unit {0}) × StateMachine R) (c : ExecutionContext) (x x' : Executor R M)
      → opened ops manager sandbox clock task x p ≡ (ok c, x')
      → IsDone x'
  unfolding opened started
  opened-IsDone (ok known, m) c x x' h =
      ended-IsDone (lifecycle ops manager sandbox clock task _) c x'
        (λ w equal. lifecycle-Ends _ tt w equal) h
  opened-IsDone (err e, m) c x x' h = absurd (ground (arith, ap (λ p. p.0) h))

  -- Whenever a run returns, the state of the task is "completed".
  pub run_task-completed :
      (x x' : Executor R M) (c : ExecutionContext)
      → run_task ops manager sandbox clock task x ≡ (ok c, x')
      → Dict.get x'.state_machine.states task.node_id ≡ some completed
  unfolding run_task IsDone
  run_task-completed x x' c h =
      opened-IsDone (ensure_state ops manager sandbox clock task.node_id x.state_machine) c x x' h
