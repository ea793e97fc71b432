-- ===== src/StateManager/Calls.antt =====
-- engine/state_manager.py: sequences of calls of a `StateMachine`.
use agent_manager.Prelude.{ℕ, String, List, [], ◌∷◌, ◌≡◌, true}
use agent_manager.StateManager.Transitions.{TaskState, permitted}
use agent_manager.StateManager.Machine.{
  Repository, StateMachine, initialize, get_state, get_history, transition,
}

-- A call of a method; `is_terminal` and `is_failed` change the machine as `get_state` does.
pub data Call : Type 0 where
  initialize_task : String → TaskState → Call
  transition_task : String → TaskState → String → ℕ → Call
  state_of history_of : String → Call

module _ {R : Type 0} (ops : Repository R) where
  unfoldable pub call : Call → StateMachine R → StateMachine R
  call (initialize_task task_id s) m = (initialize ops task_id s m).1
  call (transition_task task_id s reason now) m = (transition ops task_id s reason now m).1
  call (state_of task_id) m = (get_state ops task_id m).1
  call (history_of task_id) m = (get_history ops task_id m).1

  -- The machine after the calls, each of which may have raised.
  unfoldable pub run : List Call → StateMachine R → StateMachine R
  run [] m = m
  run (c ∷ cs) m = run cs (call c m)

-- The states that permitted steps lead to from `s`.
pub data Leads (s : TaskState) : TaskState → Type 0 where
  here : Leads s s
  next : {t u : TaskState} → Leads s t → permitted t u ≡ true → Leads s u
