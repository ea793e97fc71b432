-- ===== src/StateManager/History.antt =====
-- engine/state_manager.py without a repository: the recorded history of a task explains its state.
use agent_manager.Prelude.Dict
use agent_manager.Prelude.{ℕ, String, ◌≡◌, true, some, none, List, [], ◌∷◌}
use agent_manager.StateManager.Transitions.{TaskState, permitted}
use agent_manager.StateManager.Machine.{Repository, StateMachine, StateTransition}

-- The transitions lead from `s` to `u`, each from where the one before it ended, each permitted.
abbrev pub Chain : TaskState → List StateTransition → TaskState → Type 0
Chain s [] u = s ≡ u
Chain s (t ∷ ts) u = (t.from_state ≡ s) × (permitted s t.to_state ≡ true) × Chain t.to_state ts u

-- Each task that has a state has a history, whose transitions lead to that state.
pub record IsRecorded {R : Type 0} (m : StateMachine R) : Type 0 where
  pub memory : m.repository ≡ none
  pub recorded :
      (t : String) (s : TaskState)
      → Dict.get m.states t ≡ some s
      → (i : TaskState) × (ts : List StateTransition) × (Dict.get m.history t ≡ some ts)
        × Chain i ts s

module _ {R : Type 0} (ops : Repository R) (m : StateMachine R) (inv : IsRecorded m) where
  open inv use {memory, recorded}

  module _ (k : String) (new : TaskState) (reason : String) (now : ℕ) {cur : TaskState}
      (found : Dict.get m.states k ≡ some cur) where
    abbrev step : StateTransition
    step = record {
      task_id = k;
      from_state = cur;
      to_state = new;
      timestamp = now;
      reason = reason;
    }
