-- ===== src/Recovery/Moves.antt =====
-- recovery/recovery_engine.py: what a recovery asks of the state machine, and the strategies that use only
-- the state machine and the contexts.
use Prim.Native.String
use agent_manager.Prelude.Dict
use agent_manager.Prelude.Dict.{Dict}
use agent_manager.Prelude.{
  ℕ, String, Bool, true, false, Result, ok, err, Exec, Option, none, some, List, [], ◌∷◌, ◌++◌,
  if◌then◌else◌, str_eq,
}
use agent_manager.StateManager.Transitions.{
  TaskState, pending, ready, implementing, completed, failed, blocked_repair, blocked_hitl,
}
use agent_manager.StateManager.Machine.{Repository, get_state, initialize, transition}
use agent_manager.Runtime.Errors.{PyError, from_machine, decimal}
use agent_manager.Runtime.Context.{
  ExecutionContext, Fields, Value, null, flag, text, number, texts, interventions, object,
  to_fields, Intervention, task_started, task_completed, task_failed, task_blocked, mark_started,
  mark_completed, mark_failed,
}
use agent_manager.Recovery.Failures.{RecoveryStrategy, hitl, escalate}
use agent_manager.Recovery.Steps.{
  Event, Recovery, elsewhere, ensure_context, failure_value, from_event, last_id, on_stored,
  reason_with, set_metadata, strategy_value,
}

-- `str(payload.get("error", default))`. An error that is a list or a dictionary has a text of Python's
-- own, which is left out: it is written as "...".
unfoldable pub payload_error : (default : String) → Option Value → String
payload_error default none = default
payload_error default (some (text e)) = e
payload_error default (some null) = "None"
payload_error default (some (flag true)) = "True"
payload_error default (some (flag false)) = "False"
payload_error default (some (number n)) = decimal n
payload_error default (some v) = "..."

module _ {R M : Type 0} (ops : Repository R) where
  unfoldable pub state_of : Recovery R M → Option TaskState × Recovery R M
  state_of r =
      let (s, m) = get_state ops r.ctx.task_id r.executor.state_machine in
      (s, record r { executor = record r.executor { state_machine = m } })

  unfoldable pub move : TaskState → String → (now : ℕ) → Exec (Recovery R M) PyError (Unit {0})
  move new_state reason now r =
      let (a, m) = transition ops r.ctx.task_id new_state reason now r.executor.state_machine in
      (from_machine a, record r { executor = record r.executor { state_machine = m } })

  -- `if get_state(task_id) is None: initialize(task_id, TaskState.PENDING)`; what it raises is caught.
  unfoldable pub prepare : Option TaskState × Recovery R M → Recovery R M
  prepare (some s, r) = r
  prepare (none, r) = record r {
    executor = record r.executor {
      state_machine = (initialize ops r.ctx.task_id pending r.executor.state_machine).1;
    };
  }

  unfoldable pub safe_transition : TaskState → String → (now : ℕ) → Recovery R M → Recovery R M
  safe_transition new_state reason now r = (move new_state reason now (prepare (state_of r))).1

  -- `_apply_event_to_execution_context`, on the stored context
  unfoldable pub apply_event : Event → (now : ℕ) → Recovery R M → Recovery R M
  apply_event event now r = elim event.event_type [
    | task_started ↦
        safe_transition implementing "Recovery event replay: task_started" now
          (on_stored (mark_started now) r)
    | task_completed ↦
        let result : Fields = elim (Dict.get event.payload "result") [
          | none ↦ []
          | some (object o) ↦ to_fields o
          | some v ↦ ("result", v) ∷ []
        ] in
        safe_transition completed "Recovery event replay: task_completed" now
          (on_stored (mark_completed now result) r)
    | task_failed ↦
        let error = payload_error r.ctx.error_msg (Dict.get event.payload "error") in
        let counted : ExecutionContext → ExecutionContext =
          elim (Dict.get event.payload "retry_count") [
            | some (number n) ↦ λ c. record c { retry_count = n }
            | some (flag b) ↦ λ c. record c { retry_count = if b then 1 else 0 }
            | _ ↦ λ c. c
          ] in
        safe_transition failed "Recovery event replay: task_failed" now
          (on_stored (λ c. counted (mark_failed now error c)) r)
    | task_blocked ↦ safe_transition blocked_hitl "Recovery event replay: task_blocked" now r
    | _ ↦ r
  ]

  -- The loop over the replayed events, with their ids.
  unfoldable pub replay : List Event → (now : ℕ) → Recovery R M → List String × Recovery R M
  unfolding elsewhere
  replay [] now r = ([], r)
  replay (event ∷ events) now r = elim (elsewhere r.ctx.task_id event) [
    | true ↦ replay events now r
    | false ↦
        let (ids, r') = replay events now (apply_event event now r) in (event.event_id ∷ ids, r')
  ]

  unfoldable pub replayed : String → List String × Recovery R M → Bool × Recovery R M
  replayed event_id ([], r) = (false, r)
  replayed event_id (id ∷ ids, r) = (
    true,
    on_stored
        (λ c. set_metadata "replayed_from_event_id" (text event_id) (
          set_metadata "last_replayed_event_id" (text (last_id id ids))
            (set_metadata "replayed_event_ids" (texts (id ∷ ids)) c)))
        r,
  )

  -- `_execute_event_replay`; `events` is what the bus answers for the workflow.
  unfoldable pub execute_event_replay :
      Result PyError (List Event) → (now : ℕ) → Recovery R M → Bool × Recovery R M
  execute_event_replay events now r = elim r.ctx.event_id [
    | none ↦ (false, r)
    | some event_id ↦ if str_eq event_id "" then (false, r) else elim events [
      | err e ↦ (false, r)
      | ok es ↦ elim (from_event event_id es) [
        | none ↦ (false, r)
        | some later ↦ replayed event_id (replay later now (ensure_context r))
      ]
    ]
  ]

  -- `_record_manual_intervention`
  unfoldable pub record_manual_intervention : String → (now : ℕ) → Recovery R M → Recovery R M
  record_manual_intervention strategy now r =
      let entry : Intervention = record {
        strategy = strategy;
        failure_type = failure_value r.ctx.failure_type;
        error_msg = r.ctx.error_msg;
        retry_count = r.ctx.retry_count;
        checkpoint_id = r.ctx.checkpoint_id;
        event_id = r.ctx.event_id;
        timestamp = now;
      } in
      on_stored
        (λ c.
          set_metadata "manual_intervention"
            (elim (Dict.get c.metadata "manual_intervention") [
              | some (interventions es) ↦ interventions (es ++ entry ∷ [])
              | _ ↦ interventions (entry ∷ [])
            ])
            c)
        (ensure_context r)

  -- Whether an action raised.
  unfoldable pub succeeded : Result PyError (Unit {0}) × Recovery R M → Bool × Recovery R M
  succeeded (ok done, r) = (true, r)
  succeeded (err e, r) = (false, r)

  unfoldable pub execute_hitl : (now : ℕ) → Recovery R M → Bool × Recovery R M
  execute_hitl now r = succeeded (
      move blocked_hitl (String.◌++◌ "Awaiting human intervention for error: " r.ctx.error_msg) now
        (record_manual_intervention (strategy_value hitl) now r))

  unfoldable pub execute_escalate : (now : ℕ) → Recovery R M → Bool × Recovery R M
  execute_escalate now r = succeeded (
      move blocked_hitl
        (String.◌++◌ "Escalated due to "
          (String.◌++◌ (failure_value r.ctx.failure_type) (String.◌++◌ ": " r.ctx.error_msg)))
        now (record_manual_intervention (strategy_value escalate) now r))

  -- `_mark_recovery_ready`, for the state that `get_state` gives
  unfoldable pub mark_ready_from :
      String
      → (now : ℕ) → Option TaskState × Recovery R M
      → Result PyError (Unit {0}) × Recovery R M
  mark_ready_from reason now (some completed, r) = (ok tt, r)
  mark_ready_from reason now (some ready, r) = (ok tt, r)
  mark_ready_from reason now (some failed, r) = move blocked_repair reason now r
  mark_ready_from reason now (some blocked_repair, r) = (ok tt, r)
  mark_ready_from reason now (s, r) = move ready reason now r

  unfoldable pub mark_recovery_ready :
      RecoveryStrategy → (now : ℕ) → Exec (Recovery R M) PyError (Unit {0})
  mark_recovery_ready strategy now r =
      mark_ready_from (reason_with "Recovery succeeded with " strategy) now (state_of r)

  -- The branch for a recovery that failed.
  unfoldable pub block_unless :
      RecoveryStrategy
      → (now : ℕ) → Option TaskState × Recovery R M
      → Result PyError (Unit {0}) × Recovery R M
  block_unless strategy now (some blocked_hitl, r) = (ok tt, r)
  block_unless strategy now (s, r) =
      move blocked_hitl (reason_with "Recovery failed with " strategy) now r
