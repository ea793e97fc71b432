-- ===== src/StateManager/Transitions.antt =====
-- engine/state_manager.py, `TaskState` and the test that `_transition_impl` makes on two states.
use agent_manager.Prelude.{ℕ, ◌≡◌, Bool, true, false, not, ◌&&◌, ◌||◌, List, [], ◌∷◌, arith, ◌==◌}

pub data TaskState : Type 0 where
  pending ready implementing verifying completed failed blocked_repair blocked_hitl : TaskState

-- The place of a state in the enumeration, by which states are compared.
unfoldable pub ordinal : TaskState → ℕ
ordinal pending = 0
ordinal ready = 1
ordinal implementing = 2
ordinal verifying = 3
ordinal completed = 4
ordinal failed = 5
ordinal blocked_repair = 6
ordinal blocked_hitl = 7

-- `s in states`
unfoldable pub among : TaskState → List TaskState → Bool
unfolding ordinal
among s [] = false
among s (t ∷ ts) = ordinal s == ordinal t || among s ts

unfoldable pub valid_transitions : TaskState → List TaskState
valid_transitions pending = ready ∷ implementing ∷ blocked_repair ∷ failed ∷ []
valid_transitions ready = implementing ∷ blocked_repair ∷ failed ∷ []
valid_transitions implementing = verifying ∷ failed ∷ blocked_repair ∷ []
valid_transitions verifying = completed ∷ failed ∷ blocked_repair ∷ []
valid_transitions completed = []
valid_transitions failed = blocked_repair ∷ blocked_hitl ∷ []
valid_transitions blocked_repair = implementing ∷ blocked_hitl ∷ failed ∷ []
valid_transitions blocked_hitl = []

unfoldable pub emergency_transition : TaskState → TaskState → Bool
unfolding among
emergency_transition current new =
    among new (blocked_hitl ∷ completed ∷ failed ∷ [])
    && not (among current (completed ∷ blocked_hitl ∷ []))

-- The machine takes a step from `current` to `new`.
unfoldable pub permitted : TaskState → TaskState → Bool
unfolding emergency_transition among valid_transitions
permitted current new = emergency_transition current new || among new (valid_transitions current)

-- `is_terminal` and `is_failed`, on a state
unfoldable pub terminal : TaskState → Bool
unfolding among
terminal s = among s (completed ∷ blocked_hitl ∷ [])

unfoldable pub failing : TaskState → Bool
unfolding among
failing s = among s (failed ∷ blocked_repair ∷ [])

-- No step leaves a terminal state.
pub permitted-terminal : (s t : TaskState) → terminal s ≡ true → permitted s t ≡ false
unfolding permitted terminal
permitted-terminal completed pending h = ground arith
permitted-terminal completed t h = ground arith
permitted-terminal blocked_hitl t h = ground arith
permitted-terminal s t h = ground arith
