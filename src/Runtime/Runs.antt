-- ===== src/Runtime/Runs.antt =====
-- runtime/task_executor.py, `run_task`: the result, the state and the events of a whole run.
use agent_manager.Prelude.Dict
use agent_manager.Prelude.Dict.{get-put}
use agent_manager.Prelude.{
  ℕ, suc, ◌≡◌, refl, ◌∙◌, sym, ap, true, Result, ok, err, some, [], ◌∷◌, ◌++◌, eq_refl,
  Result-cases, subst, arith, inl, inr,
}
use agent_manager.StateManager.Transitions
use agent_manager.StateManager.Transitions.{TaskState, permitted}
use agent_manager.StateManager.Machine.{Repository}
use agent_manager.Runtime.Errors.{PyError, value_error}
use agent_manager.Runtime.Context.{
  ExecutionContext, Fields, mark_completed, mark_failed, mark_started, new_context, Published,
  EventType, task_started, task_completed, task_failed,
}
use agent_manager.Runtime.Context
use agent_manager.Runtime.Executor.{
  Task, CheckpointManager, WorkerSandbox, Executor, Work, move_to, attempts, add_retries, exhausted,
  lifecycle, publish_event, save, kept, started, ended, reraised, run_task, opened, workflow_of,
}
use agent_manager.Runtime.Moves.{ensure_state-known}
use agent_manager.Runtime.Lifecycle.{
  IsFresh, announced, gave_up, saved, lifecycle-succeeds, lifecycle-fails, handle_lem, told, fallen,
}

module _ {R M : Type 0} (ops : Repository R) (manager : CheckpointManager M)
    (sandbox : WorkerSandbox) (clock : ℕ → ℕ) (task : Task) where
  -- The context that a run starts with, and the run.
  abbrev pub first_context : ExecutionContext
  first_context =
      mark_started (clock 0) (new_context task.node_id (workflow_of task.metadata) task.metadata)

  abbrev pub opening : Executor R M → Work R M
  opening x = record {
    executor = record x {
      task_registry = Dict.put x.task_registry task.node_id task;
      execution_contexts = Dict.put x.execution_contexts task.node_id first_context;
    };
    context = first_context;
  }

  pub run_task-started :
      (x : Executor R M) (s : TaskState)
      → Dict.get x.state_machine.states task.node_id ≡ some s
      → run_task ops manager sandbox clock task x
        ≡ started ops manager sandbox clock task (opening x)
  unfolding run_task opened
  run_task-started x s at =
      ap (opened ops manager sandbox clock task x)
        (ensure_state-known ops manager sandbox clock task.node_id x.state_machine at)

  -- How a run ends, for the outcome of the attempts: the result, or the last error, and how many
  -- attempts raised.
  pub record Succeeds (result : Fields) (count : ℕ) (x : Executor R M)
      (end : Result PyError ExecutionContext × Executor R M) : Type 0 where
    pub context : ExecutionContext
    pub returned : end.0 ≡ ok context
    pub completed : context.status ≡ Context.completed
    pub result_kept : context.result ≡ result
    pub retries : context.retry_count ≡ count
    pub stored : Dict.get end.1.execution_contexts task.node_id ≡ some context
    pub state : Dict.get end.1.state_machine.states task.node_id ≡ some Transitions.completed
    pub events :
        (a : Published) × (b : Published) × (end.1.published ≡ (x.published ++ a ∷ []) ++ b ∷ [])
        × (a.event_type ≡ task_started)
        × (b.event_type ≡ task_completed)

  pub record Fails (e : PyError) (count : ℕ) (x : Executor R M)
      (end : Result PyError ExecutionContext × Executor R M) : Type 0 where
    pub context : ExecutionContext
    pub raised_error : end.0 ≡ err e
    pub failed : context.status ≡ Context.failed
    pub retries : context.retry_count ≡ count
    pub stored : Dict.get end.1.execution_contexts task.node_id ≡ some context
    pub state : Dict.get end.1.state_machine.states task.node_id ≡ some Transitions.failed
    pub events :
        (a : Published) × (b : Published) × (end.1.published ≡ (x.published ++ a ∷ []) ++ b ∷ [])
        × (a.event_type ≡ task_started)
        × (b.event_type ≡ task_failed)

  module _ (x : Executor R M) (s : TaskState)
      (at : Dict.get x.state_machine.states task.node_id ≡ some s)
      (fresh : IsFresh ops manager sandbox clock task x) where
    opening-IsFresh : IsFresh ops manager sandbox clock task (opening x).executor
    opening-IsFresh = record { none_saved = fresh.none_saved; saves = fresh.saves }

    abbrev outcome : Result PyError Fields × ℕ
    outcome = attempts ops manager sandbox clock (suc x.max_retries) 0 (value_error "None") task

    run_task-Succeeds :
        (result : Fields)
        → permitted s Transitions.implementing ≡ true
        → outcome.0 ≡ ok result
        → Succeeds result outcome.1 x (run_task ops manager sandbox clock task x)
    unfolding publish_event move_to save kept started ended add_retries mark_completed mark_started
    run_task-Succeeds result startable h =
        let (e, done) =
          lifecycle-succeeds ops manager sandbox clock task (opening x) s at startable
            opening-IsFresh result h in
        subst (Succeeds result outcome.1 x)
          (sym (run_task-started x s at ∙ ap (ended ops manager sandbox clock task) e))
          (record {
            context = _;
            returned = refl;
            completed = refl;
            result_kept = refl;
            retries = omega arith;
            stored = get-put _ task.node_id task.node_id _ ∙ rw (eq_refl task.node_id) refl;
            state = done;
            events = (_, _, refl, refl, refl);
          })

    -- The end of a run whose `try` block raised in a state from which a task can fail.
    fails :
        (e : PyError) (w : Work R M) (u : TaskState)
        → lifecycle ops manager sandbox clock task (opening x) ≡ (err e, w)
        → Dict.get w.executor.state_machine.states task.node_id ≡ some u
        → permitted u Transitions.failed ≡ true
        → (run_task ops manager sandbox clock task x ≡ (
          err e,
          kept ops manager sandbox clock task.node_id (
              told ops manager sandbox clock task e
                (saved ops manager sandbox clock task (fallen ops manager sandbox clock task e w))),
        ))
          × (Dict.get
                (told ops manager sandbox clock task e (
                  saved ops manager sandbox clock task
                    (fallen ops manager sandbox clock task e w))).executor.state_machine.states
                task.node_id
              ≡ some Transitions.failed)
    unfolding started ended reraised
    fails e w u raising in_u p =
        let (handled, fallen_state) =
          handle_lem ops manager sandbox clock task e w u in_u p fresh.saves in
        (
          run_task-started x s at
              ∙ ap (ended ops manager sandbox clock task) raising
              ∙ ap (reraised ops manager sandbox clock task e) handled,
          fallen_state,
        )

    run_task-Fails :
        (e : PyError)
        → permitted s Transitions.implementing ≡ true
        → outcome.0 ≡ err e
        → Fails
            (exhausted ops manager sandbox clock task (suc x.max_retries) e)
            outcome.1
            x
            (run_task ops manager sandbox clock task x)
    unfolding publish_event move_to save kept add_retries mark_failed mark_started permitted
    run_task-Fails e startable h =
        let (raising, in_verifying) =
          lifecycle-fails ops manager sandbox clock task (opening x) s at startable opening-IsFresh
            e h in
        let (equal, state) =
          fails (exhausted ops manager sandbox clock task (suc x.max_retries) e)
            (gave_up ops manager sandbox clock task
              (announced ops manager sandbox clock task (opening x)))
            Transitions.verifying raising in_verifying refl in
        subst (Fails (exhausted ops manager sandbox clock task (suc x.max_retries) e) outcome.1 x)
          (sym equal)
          (record {
            context =
                (fallen ops manager sandbox clock task
                  (exhausted ops manager sandbox clock task (suc x.max_retries) e)
                  (gave_up ops manager sandbox clock task
                    (announced ops manager sandbox clock task (opening x)))).context;
            raised_error = refl;
            failed = refl;
            retries = omega arith;
            stored = get-put _ task.node_id task.node_id _ ∙ rw (eq_refl task.node_id) refl;
            state = state;
            events = (_, _, refl, refl, refl);
          })

  -- How a run ends, from the outcome of its attempts.
  unfoldable pub IsEnd :
      Executor R M
      → Result PyError Fields
      → ℕ
      → Result PyError ExecutionContext × Executor R M
      → Type 0
  IsEnd x (ok result) count end = Succeeds result count x end
  IsEnd x (err e) count end =
      Fails (exhausted ops manager sandbox clock task (suc x.max_retries) e) count x end

  -- A run of a task that may start and has no checkpoint, with a checkpoint manager that saves without
  -- an exception: if the attempts give a result, the run returns a completed context with it, the
  -- state is "completed" and the events are "started" and "completed"; otherwise it raises the error
  -- for exhausted attempts, context and state are "failed" and the events are "started" and "failed".
  -- The context is kept, and its retry count is the number of the attempts that raised.
  pub run_task-IsEnd :
      (x : Executor R M) (s : TaskState)
      → Dict.get x.state_machine.states task.node_id ≡ some s
      → IsFresh ops manager sandbox clock task x
      → permitted s Transitions.implementing ≡ true
      → IsEnd x
          (attempts ops manager sandbox clock (suc x.max_retries) 0 (value_error "None") task).0
          (attempts ops manager sandbox clock (suc x.max_retries) 0 (value_error "None") task).1
          (run_task ops manager sandbox clock task x)
  unfolding IsEnd
  run_task-IsEnd x s at fresh startable =
      let ends = run_task ops manager sandbox clock task x in
      let (given, count) = outcome x s at fresh in
      elim (Result-cases given) [
        | inl (result, h) ↦
            subst (λ r. IsEnd x r count ends) (sym h)
              (run_task-Succeeds x s at fresh result startable h)
        | inr (e, h) ↦
            subst (λ r. IsEnd x r count ends) (sym h) (run_task-Fails x s at fresh e startable h)
      ]
