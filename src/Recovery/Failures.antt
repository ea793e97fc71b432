-- ===== src/Recovery/Failures.antt =====
-- recovery/recovery_context.py and recovery/error_classifier.py: kinds of failures, and the strategy
-- against each.
use Prim.Native.Char.{Char, code}
use Prim.Native.String
use Prim.Native.String.{[], ◌∷◌, slice}
use text.Mathlib.Text.{find?}
use agent_manager.Prelude.Dict.{is_some}
use agent_manager.Prelude.{
  ℕ, ◌-◌, String, Bool, false, ◌&&◌, ◌||◌, Result, ok, err, Option, List, [], ◌∷◌, leb,
  if◌then◌else◌, str_eq,
}
use agent_manager.Runtime.Errors.{PyError}

pub data FailureType : Type 0 where
  timeout network syntax runtime unknown : FailureType

pub data RecoveryStrategy : Type 0 where
  retry event_replay snapshot_restore defect_repair hitl escalate : RecoveryStrategy

pub record RecoveryContext : Type 0 where
  pub task_id : String
  pub workflow_id : String
  pub failure_type : FailureType
  pub error_msg : String
  pub checkpoint_id : Option String
  pub event_id : Option String
  pub retry_count : ℕ
  pub recovery_strategy : Option RecoveryStrategy

-- `__post_init__`
pub data ContextError : Type 0 where
  required : (field : String) → ContextError

unfoldable pub checked : RecoveryContext → Result ContextError RecoveryContext
checked c =
    if str_eq c.task_id ""
    then err (required "task_id")
    else if str_eq c.workflow_id ""
    then err (required "workflow_id")
    else if str_eq c.error_msg ""
    then err (required "error_msg")
    else ok c

-- `str.lower`; letters outside of ASCII are left as they are.
unfoldable pub lower_char : Char → String
lower_char c =
    if leb 65 (code c) && leb (code c) 90
    then slice "abcdefghijklmnopqrstuvwxyz" (code c - 65) (code c - 64)
    else c ∷ []

unfoldable pub lower : String → String
unfolding lower_char
lower [] = ""
lower (c ∷ text) = String.◌++◌ (lower_char c) (lower text)

-- `pattern in text`
unfoldable pub includes : String → String → Bool
includes text pattern = is_some (find? text pattern)

unfoldable pub matches_patterns : String → List String → Bool
unfolding includes
matches_patterns text [] = false
matches_patterns text (pattern ∷ patterns) = includes text pattern || matches_patterns text patterns

abbrev pub timeout_patterns : List String
timeout_patterns = "timeout" ∷ "timed out" ∷ "deadline exceeded" ∷ "time limit" ∷ []

abbrev pub network_patterns : List String
network_patterns =
    "connection" ∷ "network" ∷ "socket" ∷ "refused" ∷ "unreachable" ∷ "dns" ∷ "http error"
    ∷ "request failed" ∷ []

abbrev pub syntax_patterns : List String
syntax_patterns =
    "syntax error" ∷ "invalid syntax" ∷ "parse error" ∷ "unexpected token" ∷ "indentation error"
    ∷ []

abbrev pub runtime_patterns : List String
runtime_patterns =
    "runtime error" ∷ "attribute error" ∷ "type error" ∷ "value error" ∷ "key error" ∷ "index error"
    ∷ "zero division" ∷ "failed" ∷ []

-- `STRATEGY_RECOMMENDATIONS`
unfoldable pub recommendation : FailureType → RecoveryStrategy
recommendation timeout = retry
recommendation network = event_replay
recommendation syntax = hitl
recommendation runtime = snapshot_restore
recommendation unknown = escalate

unfoldable pub failure_of : (error_str error_type_name : String) → FailureType
unfolding matches_patterns
failure_of error_str error_type_name =
    if matches_patterns error_str timeout_patterns
    then timeout
    else if matches_patterns error_str network_patterns
    then network
    else if matches_patterns error_str syntax_patterns || includes error_type_name "syntaxerror"
    then syntax
    else if matches_patterns error_str runtime_patterns || includes error_type_name "error"
    then runtime
    else unknown

unfoldable pub classify : PyError → FailureType × RecoveryStrategy
unfolding lower failure_of recommendation
classify error =
    let failure = failure_of (lower error.message) (lower error.type_name) in
    (failure, recommendation failure)
