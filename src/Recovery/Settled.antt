-- ===== src/Recovery/Settled.antt =====
-- recovery/recovery_engine.py, `execute_recovery`: where a recovery that answers true leaves the task.
use agent_manager.Prelude.{
  ℕ, String, ◌≡◌, refl, Bool, true, false, Result, ok, err, List, [], ◌∷◌, Option, none, some,
  arith,
}
use agent_manager.StateManager.Transitions.{
  TaskState, among, ready, completed, failed, blocked_repair, blocked_hitl,
}
use agent_manager.StateManager.Machine.{Repository, transition}
use agent_manager.StateManager.Progress.{get_state-kept, transition-accepted}
use agent_manager.Runtime.Errors.{PyError, from_machine, from_machine-ok}
use agent_manager.Runtime.Executor.{CheckpointManager, WorkerSandbox}
use agent_manager.Recovery.Failures.{
  RecoveryStrategy, retry, event_replay, snapshot_restore, hitl, escalate, defect_repair,
}
use agent_manager.Recovery.Steps.{Event, Recovery, publish_recovery_event}
use agent_manager.Recovery.Moves.{
  state_of, move, mark_ready_from, mark_recovery_ready, succeeded, execute_hitl, execute_escalate,
}
use agent_manager.Recovery.Repairs.{Pipeline}
use agent_manager.Recovery.Engine.{
  execute_strategy, chosen, conclude, answer, published, execute_recovery,
}
use agent_manager.Recovery.Choice.{asks}
use agent_manager.Recovery.Keeps.{StateIs}

-- The states in which no further step of the recovery is expected.
unfoldable pub settled : TaskState → Bool
settled s = among s (completed ∷ ready ∷ blocked_repair ∷ blocked_hitl ∷ [])

abbrev pub IsSettled : {R M : Type 0} → Recovery R M → Type 0
IsSettled r = (s : TaskState) × StateIs s r × (settled s ≡ true)

module _ {R M : Type 0} (ops : Repository R) where
  -- A move that does not raise.
  move-accepted :
      (new : TaskState) (reason : String) (now : ℕ) (r : Recovery R M)
      → (move ops new reason now r).0 ≡ ok tt
      → StateIs new (move ops new reason now r).1
  unfolding move from_machine
  move-accepted new reason now r h =
      transition-accepted ops r.ctx.task_id r.executor.state_machine new reason now
        (from_machine-ok (transition ops r.ctx.task_id new reason now r.executor.state_machine).0 h)

  moved-IsSettled :
      (new : TaskState) (reason : String) (now : ℕ) (r : Recovery R M)
      → settled new ≡ true
      → (move ops new reason now r).0 ≡ ok tt
      → IsSettled (move ops new reason now r).1
  moved-IsSettled new reason now r s h = (new, move-accepted new reason now r h, s)

  mark_ready_from-IsSettled :
      (reason : String) (now : ℕ) (g : Option TaskState) (r : Recovery R M)
      → ((s : TaskState) → g ≡ some s → StateIs s r)
      → (mark_ready_from ops reason now (g, r)).0 ≡ ok tt
      → IsSettled (mark_ready_from ops reason now (g, r)).1
  unfolding mark_ready_from settled among
  mark_ready_from-IsSettled reason now (some completed) r at h =
      (completed, at completed refl, refl)
  mark_ready_from-IsSettled reason now (some ready) r at h = (ready, at ready refl, refl)
  mark_ready_from-IsSettled reason now (some failed) r at h =
      moved-IsSettled blocked_repair reason now r refl h
  mark_ready_from-IsSettled reason now (some blocked_repair) r at h =
      (blocked_repair, at blocked_repair refl, refl)
  mark_ready_from-IsSettled reason now g r at h = moved-IsSettled ready reason now r refl h

  -- After `get_state` the task is in the state that it answered.
  mark_recovery_ready-IsSettled :
      (strategy : RecoveryStrategy) (now : ℕ) (r : Recovery R M)
      → (mark_recovery_ready ops strategy now r).0 ≡ ok tt
      → IsSettled (mark_recovery_ready ops strategy now r).1
  unfolding mark_recovery_ready state_of
  mark_recovery_ready-IsSettled strategy now r =
      mark_ready_from-IsSettled _ now (state_of ops r).0 (state_of ops r).1
        (get_state-kept ops r.ctx.task_id r.executor.state_machine)

  succeeded-StateIs :
      (s : TaskState) (c : Result PyError (Unit {0}) × Recovery R M)
      → (c.0 ≡ ok tt → StateIs s c.1)
      → (succeeded ops c).0 ≡ true
      → StateIs s (succeeded ops c).1
  unfolding succeeded
  succeeded-StateIs s (ok done, r) at h = at refl
  succeeded-StateIs s (err e, r) at h = absurd (ground (arith, h))

module _ {R M : Type 0} (ops : Repository R) (manager : CheckpointManager M)
    (sandbox : WorkerSandbox) (clock : ℕ → ℕ) (pipeline : Option (Pipeline R M)) (now : ℕ) where
  answer-IsSettled :
      (recovered : Bool) (c : Result PyError (Unit {0}) × Recovery R M)
      → (recovered ≡ true → c.0 ≡ ok tt → IsSettled c.1)
      → (answer ops manager sandbox clock pipeline recovered now c).0 ≡ true
      → IsSettled (answer ops manager sandbox clock pipeline recovered now c).1
  unfolding answer
  answer-IsSettled recovered (ok done, r) at h = at h refl
  answer-IsSettled recovered (err e, r) at h = absurd (ground (arith, h))

  -- A strategy that asks for a person, and answers true, blocks the task.
  strategy-StateIs :
      (strategy : RecoveryStrategy) (events : Result PyError (List Event)) (r : Recovery R M)
      → asks strategy ≡ true
      → (execute_strategy ops manager sandbox clock pipeline strategy events now r).0 ≡ true
      → StateIs blocked_hitl
          (execute_strategy ops manager sandbox clock pipeline strategy events now r).1
  unfolding execute_strategy execute_hitl execute_escalate asks
  strategy-StateIs hitl events r human =
      succeeded-StateIs ops blocked_hitl _ (move-accepted ops blocked_hitl _ now _)
  strategy-StateIs escalate events r human =
      succeeded-StateIs ops blocked_hitl _ (move-accepted ops blocked_hitl _ now _)
  strategy-StateIs retry events r human = absurd (ground (arith, human))
  strategy-StateIs event_replay events r human = absurd (ground (arith, human))
  strategy-StateIs snapshot_restore events r human = absurd (ground (arith, human))
  strategy-StateIs defect_repair events r human = absurd (ground (arith, human))

  conclude-IsSettled :
      (strategy : RecoveryStrategy) (r : Recovery R M)
      → (asks strategy ≡ true → StateIs blocked_hitl r)
      → (conclude ops manager sandbox clock pipeline strategy true now r).0 ≡ ok tt
      → IsSettled (conclude ops manager sandbox clock pipeline strategy true now r).1
  unfolding conclude asks settled among
  conclude-IsSettled hitl r at h = (blocked_hitl, at refl, refl)
  conclude-IsSettled escalate r at h = (blocked_hitl, at refl, refl)
  conclude-IsSettled retry r at h = mark_recovery_ready-IsSettled ops retry now r h
  conclude-IsSettled event_replay r at h = mark_recovery_ready-IsSettled ops event_replay now r h
  conclude-IsSettled snapshot_restore r at h =
      mark_recovery_ready-IsSettled ops snapshot_restore now r h
  conclude-IsSettled defect_repair r at h = mark_recovery_ready-IsSettled ops defect_repair now r h

  published-IsSettled :
      (strategy : RecoveryStrategy) (p : Bool × Recovery R M)
      → (asks strategy ≡ true → p.0 ≡ true → StateIs blocked_hitl p.1)
      → (published ops manager sandbox clock pipeline strategy now p).0 ≡ true
      → IsSettled (published ops manager sandbox clock pipeline strategy now p).1
  unfolding published publish_recovery_event
  published-IsSettled strategy (true, r) at = answer-IsSettled true _ (λ same.
      conclude-IsSettled strategy (publish_recovery_event true none now r) (λ human. at human refl))
  published-IsSettled strategy (false, r) at =
      answer-IsSettled false _ (λ never. absurd (ground (arith, never)))

  -- After a recovery that answers true the task is in "completed", "ready", "blocked_repair" or
  -- "blocked_hitl", whatever its state was and whatever the strategy is.
  pub execute_recovery-IsSettled :
      (events : Result PyError (List Event)) (r : Recovery R M)
      → (execute_recovery ops manager sandbox clock pipeline events now r).0 ≡ true
      → IsSettled (execute_recovery ops manager sandbox clock pipeline events now r).1
  unfolding execute_recovery
  execute_recovery-IsSettled events r =
      published-IsSettled (chosen ops manager sandbox clock pipeline r.ctx) _
        (strategy-StateIs (chosen ops manager sandbox clock pipeline r.ctx) events _)
