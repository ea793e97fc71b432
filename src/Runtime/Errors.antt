-- ===== src/Runtime/Errors.antt =====
-- The exceptions that the runtime catches: the name of the type, and what `str` gives.
use Prim.Native.String.{◌++◌}
use agent_manager.Prelude.{
  ℕ, zero, suc, ◌/◌, ◌%◌, String, ltb, ◌==◌, if◌then◌else◌, Result, ok, err, ◌≡◌, refl, arith,
}
use agent_manager.StateManager.Transitions.{
  TaskState, pending, ready, implementing, verifying, completed, failed, blocked_repair,
  blocked_hitl,
}
use agent_manager.StateManager.Machine.{
  StateError, already_initialized, not_initialized, invalid_transition,
}

pub record PyError : Type 0 where
  pub type_name : String
  pub message : String

abbrev pub value_error : String → PyError
value_error message = record { type_name = "ValueError"; message = message }

-- `state.value`
unfoldable pub state_value : TaskState → String
state_value pending = "pending"
state_value ready = "ready"
state_value implementing = "implementing"
state_value verifying = "verifying"
state_value completed = "completed"
state_value failed = "failed"
state_value blocked_repair = "blocked_repair"
state_value blocked_hitl = "blocked_hitl"

-- The `ValueError`s of engine/state_manager.py.
unfoldable pub raised : StateError → PyError
unfolding state_value
raised (already_initialized task_id) = value_error ("Task " ++ task_id ++ " already initialized")
raised (not_initialized task_id) = value_error ("Task " ++ task_id ++ " not initialized")
raised (invalid_transition current new) =
    value_error ("Invalid transition: " ++ state_value current ++ " → " ++ state_value new)

-- What a method of the state machine returns or raises.
unfoldable pub from_machine : {A : Type 0} → Result StateError A → Result PyError A
unfolding raised
from_machine (ok a) = ok a
from_machine (err e) = err (raised e)

unfoldable pub digit : ℕ → String
digit n =
    if n == 0
    then "0"
    else if n == 1
    then "1"
    else if n == 2
    then "2"
    else if n == 3
    then "3"
    else if n == 4
    then "4"
    else if n == 5
    then "5"
    else if n == 6
    then "6"
    else if n == 7
    then "7"
    else if n == 8
    then "8"
    else "9"

-- The digits of a number, the last `fuel` of them; a number has fewer digits than its successor is.
unfoldable pub digits : (fuel : ℕ) → ℕ → String
unfolding digit
digits zero n = ""
digits (suc fuel) n =
    let rest = digits fuel (n / 10) in if ltb n 10 then digit n else rest ++ digit (n % 10)

-- `str(n)`
unfoldable pub decimal : ℕ → String
unfolding digits
decimal n = digits (suc n) n

pub from_machine-ok : (x : Result StateError (Unit {0})) → from_machine x ≡ ok tt → x ≡ ok tt
unfolding from_machine
from_machine-ok (ok done) h = refl
from_machine-ok (err e) h = absurd (ground (arith, h))
