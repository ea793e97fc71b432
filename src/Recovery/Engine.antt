-- ===== src/Recovery/Engine.antt =====
-- recovery/recovery_engine.py, `execute_recovery` and the strategies that run a task or restore a
-- snapshot. What the bus answers and the repair pipeline are parameters; `clock` gives the times that a run of a task reads, `now` the others.
use agent_manager.Prelude.Dict
use agent_manager.Prelude.Dict.{Dict}
use agent_manager.Prelude.{
  ℕ, ◌+◌, String, Bool, true, false, not, ◌&&◌, Result, ok, err, Exec, Option, none, some, List,
  leb, if◌then◌else◌, str_eq,
}
use agent_manager.StateManager.Machine.{Repository}
use agent_manager.Runtime.Errors.{PyError}
use agent_manager.Runtime.Context.{ExecutionContext, text, number, flag}
use agent_manager.Runtime.Executor.{CheckpointManager, WorkerSandbox, Executor, Task, run_task}
use agent_manager.Recovery.Failures.{
  RecoveryStrategy, retry, event_replay, snapshot_restore, defect_repair, hitl, escalate,
  RecoveryContext,
}
use agent_manager.Recovery.Steps.{
  Event, Recovery, max_retry_attempts, select_recovery_strategy, on_stored, set_metadata,
  ensure_context, track_recovery_attempt, publish_recovery_event,
}
use agent_manager.Recovery.Moves.{
  state_of, execute_event_replay, execute_hitl, execute_escalate, mark_recovery_ready, block_unless,
}
use agent_manager.Recovery.Repairs.{Pipeline, text_at, execute_defect_repair}

module _ {R M : Type 0} where
  -- `ctx.retry_count += 1`
  abbrev pub counted : Recovery R M → Recovery R M
  counted r = record r { ctx = record r.ctx { retry_count = r.ctx.retry_count + 1 } }

module _ {R M : Type 0} (ops : Repository R) (manager : CheckpointManager M)
    (sandbox : WorkerSandbox) (clock : ℕ → ℕ) (pipeline : Option (Pipeline R M)) where
  -- `_execute_retry`, from `get_task` on. A run puts a new context in the place of the one that the
  -- metadata of a successful retry goes to.
  unfoldable pub retried :
      (now : ℕ)
      → Result PyError ExecutionContext × Executor R M
      → Recovery R M
      → Bool × Recovery R M
  retried now (ok c, x) r = (true, record r { executor = x })
  retried now (err e, x) r = (
    false,
    on_stored (set_metadata "recovery_retry_error" (text e.message))
        (ensure_context (record r { executor = x })),
  )

  unfoldable pub retry_task : (now : ℕ) → Option Task → Recovery R M → Bool × Recovery R M
  retry_task now none r = (
    true,
    on_stored
        (λ c. set_metadata "recovery_last_retry_at" (number now) (
          set_metadata "recovery_retry_count" (number r.ctx.retry_count) (
            set_metadata "recovery_retry_reason"
              (text "Task object unavailable for immediate re-run")
              (set_metadata "recovery_retry_ready" (flag true) c))))
        r,
  )
  retry_task now (some task) r = retried now (run_task ops manager sandbox clock task r.executor) r

  unfoldable pub execute_retry : (now : ℕ) → Recovery R M → Bool × Recovery R M
  execute_retry now r =
      if leb max_retry_attempts r.ctx.retry_count
      then (false, r)
      else retry_task now (Dict.get r.executor.task_registry r.ctx.task_id)
          (counted (ensure_context r))

  -- `_extract_checkpoint_id`, and the test on it
  unfoldable pub other_checkpoint : String → ExecutionContext → Bool
  other_checkpoint expected c = elim (text_at "checkpoint_id" c.metadata) [
    | none ↦ false
    | some actual ↦ not (str_eq actual expected)
  ]

  unfoldable pub restored :
      String → Result PyError (Option ExecutionContext) → Recovery R M → Bool × Recovery R M
  restored checkpoint_id (err e) r = (false, r)
  restored checkpoint_id (ok none) r = (false, r)
  restored checkpoint_id (ok (some c)) r =
      if not (str_eq c.task_id "") && not (str_eq c.task_id r.ctx.task_id)
      then (false, r)
      else if other_checkpoint checkpoint_id c
      then (false, r)
      else (
        true,
        record r {
          executor = record r.executor {
            execution_contexts =
                Dict.put r.executor.execution_contexts r.ctx.task_id
                  (set_metadata "restored_from_checkpoint" (text checkpoint_id) c);
          };
        },
      )

  unfoldable pub execute_snapshot_restore : Recovery R M → Bool × Recovery R M
  execute_snapshot_restore r = elim r.ctx.checkpoint_id [
    | none ↦ (false, r)
    | some id ↦
        if str_eq id ""
        then (false, r)
        else restored id (manager.load_checkpoint r.ctx.task_id r.executor.checkpoints) r
  ]

  unfoldable pub execute_strategy :
      RecoveryStrategy
      → Result PyError (List Event)
      → (now : ℕ) → Recovery R M
      → Bool × Recovery R M
  execute_strategy retry events now r = execute_retry now r
  execute_strategy event_replay events now r = execute_event_replay ops events now r
  execute_strategy snapshot_restore events now r = execute_snapshot_restore r
  execute_strategy defect_repair events now r = execute_defect_repair ops pipeline now r
  execute_strategy hitl events now r = execute_hitl ops now r
  execute_strategy escalate events now r = execute_escalate ops now r

  -- The strategy of the context, or the one for its failure type, which is then written to it.
  unfoldable pub chosen : RecoveryContext → RecoveryStrategy
  chosen c = elim c.recovery_strategy [
    | some s ↦ s
    | none ↦ select_recovery_strategy c.failure_type
  ]

  -- The transition after the strategy.
  unfoldable pub conclude :
      RecoveryStrategy → Bool → (now : ℕ) → Exec (Recovery R M) PyError (Unit {0})
  conclude hitl true now r = (ok tt, r)
  conclude escalate true now r = (ok tt, r)
  conclude strategy true now r = mark_recovery_ready ops strategy now r
  conclude strategy false now r = block_unless ops strategy now (state_of ops r)

  -- The answer, unless the transition raised.
  unfoldable pub answer :
      Bool → (now : ℕ) → Result PyError (Unit {0}) × Recovery R M → Bool × Recovery R M
  answer recovered now (ok done, r) = (recovered, r)
  answer recovered now (err e, r) = (false, publish_recovery_event false (some e.message) now r)

  unfoldable pub published :
      RecoveryStrategy → (now : ℕ) → Bool × Recovery R M → Bool × Recovery R M
  published strategy now (recovered, r) =
      answer recovered now
        (conclude strategy recovered now (publish_recovery_event recovered none now r))

  unfoldable pub execute_recovery :
      Result PyError (List Event) → (now : ℕ) → Recovery R M → Bool × Recovery R M
  execute_recovery events now r =
      let strategy = chosen r.ctx in
      let tracked = track_recovery_attempt now r in
      published strategy now (
        execute_strategy strategy events now
          (record tracked { ctx = record r.ctx { recovery_strategy = some strategy } }))
