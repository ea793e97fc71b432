-- ===== src/Recovery/Blocked.antt =====
-- recovery/recovery_engine.py, `execute_recovery`, for a task that failed and of which neither an event
-- nor a checkpoint is known.
use agent_manager.Prelude.Dict
use agent_manager.Prelude.Dict.{Dict}
use agent_manager.Prelude.{
  ℕ, String, ◌≡◌, refl, ◌∙◌, sym, ap, subst, Bool, true, false, Bool-cases, Result, ok, List,
  Option, none, some, leb, if◌then◌else◌, inl, inr,
}
use agent_manager.StateManager.Transitions.{TaskState, permitted, failed, blocked_hitl}
use agent_manager.StateManager.Machine.{Repository, StateMachine}
use agent_manager.Runtime.Errors.{PyError}
use agent_manager.Runtime.Context.{text}
use agent_manager.Runtime.Executor.{CheckpointManager, WorkerSandbox, Task}
use agent_manager.Runtime.Moves.{get_state-known}
use agent_manager.Runtime.Refusals.{run_task-refused}
use agent_manager.Recovery.Failures.{
  RecoveryStrategy, retry, event_replay, snapshot_restore, hitl, escalate, defect_repair,
}
use agent_manager.Recovery.Steps.{
  Event, Recovery, max_retry_attempts, set_metadata, ensure_context, track_recovery_attempt,
  publish_recovery_event, reason_with,
}
use agent_manager.Recovery.Moves.{
  state_of, block_unless, succeeded, move, record_manual_intervention, execute_hitl,
  execute_escalate, execute_event_replay,
}
use agent_manager.Recovery.Repairs.{Pipeline, execute_defect_repair}
use agent_manager.Recovery.Engine.{
  retried, retry_task, counted, execute_retry, execute_snapshot_restore, execute_strategy, chosen,
  conclude, answer, published, execute_recovery,
}
use agent_manager.Recovery.Choice.{asks}
use agent_manager.Recovery.Keeps.{
  StateIs, IsQuiet-trans, IsQuiet-StateIs, on_stored-IsQuiet, ensure_context-IsQuiet,
  record_manual_intervention-IsQuiet, move-permitted,
}

-- A strategy that answered, and the state of the task after it.
abbrev pub Answers : {R M : Type 0} → Bool → TaskState → Bool × Recovery R M → Type 0
Answers {R} {M} b s p = (r : Recovery R M) × (p ≡ (b, r)) × StateIs s r

module _ {R M : Type 0} (ops : Repository R) (manager : CheckpointManager M)
    (sandbox : WorkerSandbox) (clock : ℕ → ℕ) (pipeline : Option (Pipeline R M)) (now : ℕ) where
  -- A run of the failed task raises.
  retried-Answers :
      (task : Task) (r : Recovery R M)
      → task.node_id ≡ r.ctx.task_id
      → StateIs failed r
      → Answers false failed (retry_task ops manager sandbox clock pipeline now (some task) r)
  unfolding retry_task retried permitted
  retried-Answers task r named at =
      let (e, x, equal, still) =
        run_task-refused ops manager sandbox clock task failed r.executor refl refl
          (subst (λ k. Dict.get r.executor.state_machine.states k ≡ some failed) (sym named) at) in
      let after = record r { executor = x } in
      let at_after : StateIs failed after =
        subst (λ k. Dict.get x.state_machine.states k ≡ some failed) named still in
      (
        _,
        ap (λ run. retried ops manager sandbox clock pipeline now run r) equal,
        IsQuiet-StateIs
            (IsQuiet-trans (ensure_context-IsQuiet after) (
              on_stored-IsQuiet (set_metadata "recovery_retry_error" (text e.message))
                (ensure_context after)))
            at_after,
      )

  execute_retry-Answers :
      (task : Task) (r : Recovery R M)
      → Dict.get r.executor.task_registry r.ctx.task_id ≡ some task
      → task.node_id ≡ r.ctx.task_id
      → StateIs failed r
      → Answers false failed (execute_retry ops manager sandbox clock pipeline now r)
  unfolding execute_retry
  execute_retry-Answers task r registered named at =
      let quiet = ensure_context-IsQuiet r in
      elim (Bool-cases (leb max_retry_attempts r.ctx.retry_count)) [
        | inl h ↦ (r, rw h refl, at)
        | inr h ↦
            let (r', equal, at') =
              retried-Answers task (counted (ensure_context r)) (named ∙ sym quiet.task)
                (IsQuiet-StateIs quiet at) in
            (
              r',
              rw h (
                  ap
                    (λ t.
                      retry_task ops manager sandbox clock pipeline now t
                        (counted (ensure_context r)))
                    registered
                  ∙ equal),
              at',
            )
      ]

  asked :
      (strategy reason : String) (r : Recovery R M)
      → StateIs failed r
      → Answers true blocked_hitl (
          succeeded ops
            (move ops blocked_hitl reason now (record_manual_intervention ops strategy now r)))
  unfolding succeeded permitted
  asked strategy reason r at =
      let noted = record_manual_intervention ops strategy now r in
      let (equal, at') =
        move-permitted ops blocked_hitl reason now noted failed
          (IsQuiet-StateIs (record_manual_intervention-IsQuiet ops strategy now r) at) refl in
      ((move ops blocked_hitl reason now noted).1, ap (succeeded ops) equal, at')

  -- The outcome of each strategy on a task that failed.
  strategy_lem :
      (strategy : RecoveryStrategy) (events : Result PyError (List Event)) (task : Task)
      (r : Recovery R M)
      → (strategy ≡ defect_repair → pipeline ≡ none)
      → r.ctx.event_id ≡ none
      → r.ctx.checkpoint_id ≡ none
      → Dict.get r.executor.task_registry r.ctx.task_id ≡ some task
      → task.node_id ≡ r.ctx.task_id
      → StateIs failed r
      → Answers
          (asks strategy)
          (if asks strategy then blocked_hitl else failed)
          (execute_strategy ops manager sandbox clock pipeline strategy events now r)
  unfolding execute_strategy asks execute_event_replay execute_snapshot_restore execute_hitl
      execute_escalate execute_defect_repair permitted
  strategy_lem retry events task r without e c registered named at =
      execute_retry-Answers task r registered named at
  strategy_lem event_replay events task r without e c registered named at = (r, rw e refl, at)
  strategy_lem snapshot_restore events task r without e c registered named at = (r, rw c refl, at)
  strategy_lem hitl events task r without e c registered named at = asked _ _ r at
  strategy_lem escalate events task r without e c registered named at = asked _ _ r at
  strategy_lem defect_repair events task r without e c registered named at = (
    (execute_defect_repair ops none now r).1,
    ap (λ p. execute_defect_repair ops p now r) (without refl),
    IsQuiet-StateIs
        (IsQuiet-trans (ensure_context-IsQuiet r) (on_stored-IsQuiet _ (ensure_context r))) at,
  )

  block_lem :
      (strategy : RecoveryStrategy) (r : Recovery R M)
      → StateIs failed r
      → (r' : Recovery R M) × (block_unless ops strategy now (state_of ops r) ≡ (ok tt, r'))
        × StateIs blocked_hitl r'
  unfolding block_unless state_of permitted
  block_lem strategy r at =
      let reason = reason_with "Recovery failed with " strategy in
      let (equal, at') = move-permitted ops blocked_hitl reason now r failed at refl in
      (
        (move ops blocked_hitl reason now r).1,
        ap
              (λ (g : Option TaskState × StateMachine R).
                block_unless ops strategy now
                  (g.0, record r { executor = record r.executor { state_machine = g.1 } }))
              (get_state-known ops r.ctx.task_id r.executor.state_machine at)
            ∙ equal,
        at',
      )

  unasked :
      (strategy : RecoveryStrategy) (p : Bool × Recovery R M) (r : Recovery R M)
      → ((w : Recovery R M)
          → conclude ops manager sandbox clock pipeline strategy false now w
            ≡ block_unless ops strategy now (state_of ops w))
      → p ≡ (false, r)
      → StateIs failed r
      → Answers false blocked_hitl (published ops manager sandbox clock pipeline strategy now p)
  unfolding published answer publish_recovery_event
  unasked strategy p r concludes equal at =
      let told = publish_recovery_event false none now r in
      let (r', blocked, at') = block_lem strategy told at in
      (
        r',
        ap (published ops manager sandbox clock pipeline strategy now) equal
            ∙ ap (answer ops manager sandbox clock pipeline false now) (concludes told ∙ blocked),
        at',
      )

  -- After a strategy on a task that failed, the task is blocked, and the answer stays.
  published-Blocked :
      (strategy : RecoveryStrategy) (p : Bool × Recovery R M)
      → Answers (asks strategy) (if asks strategy then blocked_hitl else failed) p
      → Answers
          (asks strategy)
          blocked_hitl
          (published ops manager sandbox clock pipeline strategy now p)
  unfolding published conclude answer asks publish_recovery_event block_unless state_of permitted
  published-Blocked hitl p (r, equal, at) =
      (_, ap (published ops manager sandbox clock pipeline hitl now) equal, at)
  published-Blocked escalate p (r, equal, at) =
      (_, ap (published ops manager sandbox clock pipeline escalate now) equal, at)
  published-Blocked retry p (r, equal, at) = unasked retry p r (λ w. refl) equal at
  published-Blocked event_replay p (r, equal, at) = unasked event_replay p r (λ w. refl) equal at
  published-Blocked snapshot_restore p (r, equal, at) =
      unasked snapshot_restore p r (λ w. refl) equal at
  published-Blocked defect_repair p (r, equal, at) = unasked defect_repair p r (λ w. refl) equal at

  -- A recovery of a failed task without an event id and a checkpoint id, where the task is registered
  -- under its id, and where no pipeline is there if the strategy is defect repair, leaves the task in
  -- "blocked_hitl", whatever the sandbox, the checkpoints and the bus do. It answers true for the
  -- strategies "hitl" and "escalate" and false for the others.
  pub execute_recovery-Blocked :
      (events : Result PyError (List Event)) (task : Task) (r : Recovery R M)
      → (chosen ops manager sandbox clock pipeline r.ctx ≡ defect_repair → pipeline ≡ none)
      → r.ctx.event_id ≡ none
      → r.ctx.checkpoint_id ≡ none
      → Dict.get r.executor.task_registry r.ctx.task_id ≡ some task
      → task.node_id ≡ r.ctx.task_id
      → StateIs failed r
      → Answers
          (asks (chosen ops manager sandbox clock pipeline r.ctx))
          blocked_hitl
          (execute_recovery ops manager sandbox clock pipeline events now r)
  unfolding execute_recovery track_recovery_attempt
  execute_recovery-Blocked events task r without e c registered named at =
      let strategy = chosen ops manager sandbox clock pipeline r.ctx in
      let tracked = record (track_recovery_attempt now r) {
        ctx = record r.ctx { recovery_strategy = some strategy };
      } in
      published-Blocked strategy
        (execute_strategy ops manager sandbox clock pipeline strategy events now tracked)
        (strategy_lem strategy events task tracked without e c registered named at)
