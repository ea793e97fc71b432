-- ===== src/Recovery/Steps.antt =====
-- recovery/recovery_engine.py: the record of a recovery, and its steps that do not use the state machine. The executor holds the state machine and the contexts, which the
-- engine shares with it; `now` is the time of the strategy.
use Prim.Native.String
use agent_manager.Prelude.Dict
use agent_manager.Prelude.Dict.{Dict}
use agent_manager.Prelude.{
  ℕ, String, Bool, true, false, not, ◌&&◌, Option, none, some, List, [], ◌∷◌, ◌++◌, if◌then◌else◌,
  str_eq, ◌==◌,
}
use agent_manager.StateManager.Transitions.{TaskState, ordinal}
use agent_manager.Runtime.Context.{
  ExecutionContext, Fields, Value, null, text, number, flag, EventType, task_completed, task_failed,
  new_context,
}
use agent_manager.Runtime.Executor.{Executor}
use agent_manager.Recovery.Failures.{
  FailureType, timeout, network, syntax, runtime, unknown, RecoveryStrategy, retry, event_replay,
  snapshot_restore, defect_repair, hitl, escalate, RecoveryContext,
}

-- An event that the bus has kept.
pub record Event : Type 0 where
  pub event_id : String
  pub event_type : EventType
  pub workflow_id : String
  pub payload : Fields

-- An entry of `recovery_history`.
pub record Attempt : Type 0 where
  pub failure_type : FailureType
  pub error_msg : String
  pub retry_count : ℕ
  pub strategy : Option RecoveryStrategy
  pub timestamp : ℕ

-- The engine, and the context that it is called with.
pub record Recovery (R M : Type 0) : Type 0 where
  pub executor : Executor R M
  pub recovery_history : Dict (List Attempt)
  pub ctx : RecoveryContext

abbrev pub max_retry_attempts : ℕ
max_retry_attempts = 3

unfoldable pub failure_value : FailureType → String
failure_value timeout = "timeout"
failure_value network = "network"
failure_value syntax = "syntax"
failure_value runtime = "runtime"
failure_value unknown = "unknown"

unfoldable pub strategy_value : RecoveryStrategy → String
strategy_value retry = "retry"
strategy_value event_replay = "event_replay"
strategy_value snapshot_restore = "snapshot_restore"
strategy_value defect_repair = "defect_repair"
strategy_value hitl = "hitl"
strategy_value escalate = "escalate"

unfoldable pub select_recovery_strategy : FailureType → RecoveryStrategy
select_recovery_strategy timeout = retry
select_recovery_strategy network = event_replay
select_recovery_strategy syntax = hitl
select_recovery_strategy runtime = snapshot_restore
select_recovery_strategy unknown = escalate

-- `not text`, for a text that may be missing
unfoldable pub blank : Option String → Bool
blank none = true
blank (some t) = str_eq t ""

abbrev pub same_state : TaskState → TaskState → Bool
same_state s t = ordinal s == ordinal t

unfoldable pub set_metadata : String → Value → ExecutionContext → ExecutionContext
set_metadata key value c = record c { metadata = Dict.put c.metadata key value }

abbrev pub strategy_text : Option RecoveryStrategy → Value
strategy_text none = null
strategy_text (some s) = text (strategy_value s)

abbrev pub error_field : Option String → Fields
error_field none = []
error_field (some e) = if str_eq e "" then [] else ("error", text e) ∷ []

-- The event is about another task.
unfoldable pub elsewhere : String → Event → Bool
elsewhere task_id event = elim (Dict.get event.payload "task_id") [
  | some (text t) ↦ not (str_eq t "") && not (str_eq t task_id)
  | _ ↦ false
]

-- `events[replay_start:]`, if the event is there
unfoldable pub from_event : String → List Event → Option (List Event)
from_event event_id [] = none
from_event event_id (event ∷ events) =
    let later = from_event event_id events in
    if str_eq event.event_id event_id then some (event ∷ events) else later

abbrev pub last_id : String → List String → String
last_id id [] = id
last_id id (x ∷ xs) = last_id x xs

abbrev pub reason_with : String → RecoveryStrategy → String
reason_with words strategy = String.◌++◌ words (strategy_value strategy)

module _ {R M : Type 0} where
  -- The executor's stored context of the task, changed in place.
  unfoldable pub on_stored : (ExecutionContext → ExecutionContext) → Recovery R M → Recovery R M
  on_stored f r = elim (Dict.get r.executor.execution_contexts r.ctx.task_id) [
    | none ↦ r
    | some c ↦ record r {
      executor = record r.executor {
        execution_contexts = Dict.put r.executor.execution_contexts r.ctx.task_id (f c);
      };
    }
  ]

  -- `_get_or_create_execution_context`, whose context is then the stored one
  unfoldable pub ensure_context : Recovery R M → Recovery R M
  ensure_context r = elim (Dict.get r.executor.execution_contexts r.ctx.task_id) [
    | some c ↦ r
    | none ↦ record r {
      executor = record r.executor {
        execution_contexts =
            Dict.put r.executor.execution_contexts r.ctx.task_id
              (new_context r.ctx.task_id r.ctx.workflow_id []);
      };
    }
  ]

  unfoldable pub track_recovery_attempt : (now : ℕ) → Recovery R M → Recovery R M
  track_recovery_attempt now r =
      let attempt : Attempt = record {
        failure_type = r.ctx.failure_type;
        error_msg = r.ctx.error_msg;
        retry_count = r.ctx.retry_count;
        strategy = r.ctx.recovery_strategy;
        timestamp = now;
      } in
      record r {
        recovery_history =
            Dict.put r.recovery_history r.ctx.task_id
              (elim (Dict.get r.recovery_history r.ctx.task_id) [
                | none ↦ attempt ∷ []
                | some attempts ↦ attempts ++ attempt ∷ []
              ]);
      }

  unfoldable pub publish_recovery_event :
      Bool → Option String → (now : ℕ) → Recovery R M → Recovery R M
  unfolding strategy_value failure_value
  publish_recovery_event success error_msg now r = record r {
    executor = record r.executor {
      published =
          r.executor.published
          ++ record {
            event_type = if success then task_completed else task_failed;
            workflow_id = r.ctx.workflow_id;
            payload =
                (("task_id", text r.ctx.task_id)
                  ∷ ("recovery_strategy", strategy_text r.ctx.recovery_strategy)
                  ∷ ("failure_type", text (failure_value r.ctx.failure_type))
                  ∷ ("success", flag success)
                  ∷ ("retry_count", number r.ctx.retry_count)
                  ∷ ("timestamp", number now)
                  ∷ [])
                ++ error_field error_msg;
          }
            ∷ [];
    };
  }
