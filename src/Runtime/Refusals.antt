-- ===== src/Runtime/Refusals.antt =====
-- runtime/task_executor.py, `run_task`, for a task whose state does not allow it to start.
use Prim.Native.String
use agent_manager.Prelude.Actions.{bind-ok, bind-err}
use agent_manager.Prelude.Dict
use agent_manager.Prelude.{
  ℕ, ◌≡◌, refl, ◌∙◌, ap, true, false, Result, ok, err, Result-cases, none, some, inl, inr,
}
use agent_manager.StateManager.Transitions.{TaskState, permitted, implementing, failed}
use agent_manager.StateManager.Machine.{Repository, invalid_transition}
use agent_manager.Runtime.Errors.{PyError, raised}
use agent_manager.Runtime.Executor.{
  Task, CheckpointManager, WorkerSandbox, Executor, Work, on_context, execute_with_retry, lifecycle,
  try_checkpoint, publish_event, context_of, save, handle, kept, started, ended, reraised, run_task,
}
use agent_manager.Runtime.Moves.{move_to-permitted, move_to-refused}
use agent_manager.Runtime.Lifecycle.{announced, begun, shift, saved, failing, fallen, told}
use agent_manager.Runtime.Runs.{opening, run_task-started}

module _ {R M : Type 0} (ops : Repository R) (manager : CheckpointManager M)
    (sandbox : WorkerSandbox) (clock : ℕ → ℕ) (task : Task) where
  abbrev At : TaskState → Work R M → Type 0
  At s w = Dict.get w.executor.state_machine.states task.node_id ≡ some s

  -- An action ended with an error, in a state of the task.
  abbrev RaisesAt : {A : Type 0} → TaskState → Result PyError A × Work R M → Type 0
  RaisesAt s p = (e : PyError) × (w : Work R M) × (p ≡ (err e, w)) × At s w

  module _ (s : TaskState) (refusal : permitted s implementing ≡ false) where
    after_load :
        (w : Work R M) → At s w → RaisesAt s (execute_with_retry ops manager sandbox clock task w)
    unfolding execute_with_retry
    after_load w at =
        let (refused, still) =
          move_to-refused ops manager sandbox clock task.node_id implementing
            "Starting task execution" (clock 1) w s at refusal in
        (
          raised (invalid_transition s implementing),
          begun ops manager sandbox clock task w,
          bind-err
              (shift ops manager sandbox clock task implementing "Starting task execution"
                (clock 1))
              _ w refused,
          still,
        )

    loaded :
        (w w' : Work R M)
        → try_checkpoint ops manager sandbox clock task.node_id w ≡ (ok tt, w')
        → At s w'
        → RaisesAt s (lifecycle ops manager sandbox clock task w)
    unfolding lifecycle publish_event
    loaded w w' load at =
        let (e, w'', equal, still) = after_load (announced ops manager sandbox clock task w') at in
        (
          e,
          w'',
          bind-ok (try_checkpoint ops manager sandbox clock task.node_id) _ w load
              ∙ bind-err (execute_with_retry ops manager sandbox clock task) _
                  (announced ops manager sandbox clock task w') equal,
          still,
        )

    lifecycle-RaisesAt :
        (w : Work R M) → At s w → RaisesAt s (lifecycle ops manager sandbox clock task w)
    unfolding lifecycle try_checkpoint
    lifecycle-RaisesAt w at =
        elim (Result-cases (manager.load_checkpoint task.node_id w.executor.checkpoints)) [
          | inr (e, h) ↦ (
            e,
            w,
            bind-err (try_checkpoint ops manager sandbox clock task.node_id) _ w
                (rw (try_checkpoint, h) refl),
            at,
          )
          | inl (none, h) ↦ loaded w w (rw (try_checkpoint, h) refl) at
          | inl (some c, h) ↦ loaded w (record w { context = c }) (rw (try_checkpoint, h) refl) at
        ]

  handle-RaisesAt :
      (s : TaskState)
      → permitted s failed ≡ true
      → (e : PyError) (w : Work R M) → At s w
      → RaisesAt failed (handle ops manager sandbox clock e task w)
  unfolding handle on_context publish_event context_of save
  handle-RaisesAt s p e w at =
      let reason = String.◌++◌ "Task failed: " e.message in
      let (fall, in_failed) =
        move_to-permitted ops manager sandbox clock task.node_id failed reason (clock 8)
          (failing ops manager sandbox clock task e w) s at p in
      let after = fallen ops manager sandbox clock task e w in
      elim (Result-cases (save ops manager sandbox clock task.node_id after).0) [
        | inl (done, h) ↦ (
          e,
          told ops manager sandbox clock task e (saved ops manager sandbox clock task after),
          bind-ok (shift ops manager sandbox clock task failed reason (clock 8)) _
                (failing ops manager sandbox clock task e w) fall
              ∙ bind-ok (save ops manager sandbox clock task.node_id) _ after
                  (ap (λ r. (r, (save ops manager sandbox clock task.node_id after).1)) h),
          in_failed,
        )
        | inr (e', h) ↦ (
          e',
          saved ops manager sandbox clock task after,
          bind-ok (shift ops manager sandbox clock task failed reason (clock 8)) _
                (failing ops manager sandbox clock task e w) fall
              ∙ bind-err (save ops manager sandbox clock task.node_id) _ after
                  (ap (λ r. (r, (save ops manager sandbox clock task.node_id after).1)) h),
          in_failed,
        )
      ]

  -- A run of a task whose state refuses "implementing", and from which a task can fail, raises and
  -- leaves the task in "failed"; the sandbox and the checkpoints do not matter.
  pub run_task-refused :
      (s : TaskState) (x : Executor R M)
      → permitted s implementing ≡ false
      → permitted s failed ≡ true
      → Dict.get x.state_machine.states task.node_id ≡ some s
      → (e : PyError) × (x' : Executor R M) × (run_task ops manager sandbox clock task x
          ≡ (err e, x'))
        × (Dict.get x'.state_machine.states task.node_id ≡ some failed)
  unfolding started ended reraised kept
  run_task-refused s x refusal p at =
      let (e, w, raising, still) =
        lifecycle-RaisesAt s refusal (opening ops manager sandbox clock task x) at in
      let (e', w', handled, in_failed) = handle-RaisesAt s p e w still in
      (
        e',
        kept ops manager sandbox clock task.node_id w',
        run_task-started ops manager sandbox clock task x s at
            ∙ ap (ended ops manager sandbox clock task) raising
            ∙ ap (reraised ops manager sandbox clock task e) handled,
        in_failed,
      )
