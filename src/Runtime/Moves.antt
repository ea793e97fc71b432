-- ===== src/Runtime/Moves.antt =====
-- runtime/task_executor.py: the steps of a run, and what each does to the state of the task.
use agent_manager.Prelude.Dict
use agent_manager.Prelude.Dict.{get-put, contains-get}
use agent_manager.Prelude.{ℕ, String, ◌≡◌, refl, ◌∙◌, ap, true, false, ok, err, some, eq_refl}
use agent_manager.StateManager.Transitions.{TaskState, permitted}
use agent_manager.StateManager.Machine.{Repository, StateMachine, invalid_transition, get_state}
use agent_manager.StateManager.Progress.{transition-answer, state-transition}
use agent_manager.Runtime.Errors.{from_machine, raised}
use agent_manager.Runtime.Executor.{
  CheckpointManager, WorkerSandbox, Work, move_to, ensure_state, initialized,
}

pub get_state-known :
    {R : Type 0} (ops : Repository R) (k : String) (m : StateMachine R) {s : TaskState}
    → Dict.get m.states k ≡ some s
    → get_state ops k m ≡ (some s, m)
unfolding get_state
get_state-known ops k m h = rw (get_state, h) refl

module _ {R M : Type 0} (ops : Repository R) (manager : CheckpointManager M)
    (sandbox : WorkerSandbox) (clock : ℕ → ℕ) where
  -- The machine of the run has the task in this state, in memory.
  abbrev pub IsAt : String → TaskState → Work R M → Type 0
  IsAt k s w = Dict.get w.executor.state_machine.states k ≡ some s

  pub ensure_state-known :
      (k : String) (m : StateMachine R) {s : TaskState}
      → Dict.get m.states k ≡ some s
      → ensure_state ops manager sandbox clock k m ≡ (ok tt, m)
  unfolding ensure_state initialized
  ensure_state-known k m h =
      ap (initialized ops manager sandbox clock k) (get_state-known ops k m h)

  module _ (k : String) (new : TaskState) (reason : String) (now : ℕ) (w : Work R M) (s : TaskState)
      (at : IsAt k s w) where
    pub move_to-permitted :
        permitted s new ≡ true
        → (move_to ops manager sandbox clock k new reason now w
            ≡ (ok tt, (move_to ops manager sandbox clock k new reason now w).1))
          × IsAt k new (move_to ops manager sandbox clock k new reason now w).1
    unfolding move_to from_machine
    move_to-permitted p = (
      rw (transition-answer ops k new reason now w.executor.state_machine at, p, from_machine) refl,
      state-transition ops k w.executor.state_machine at k new reason now ∙ rw (eq_refl k, p) refl,
    )

    pub move_to-refused :
        permitted s new ≡ false
        → (move_to ops manager sandbox clock k new reason now w ≡ (
          err (raised (invalid_transition s new)),
          (move_to ops manager sandbox clock k new reason now w).1,
        ))
          × IsAt k s (move_to ops manager sandbox clock k new reason now w).1
    unfolding move_to from_machine
    move_to-refused p = (
      rw (transition-answer ops k new reason now w.executor.state_machine at, p, from_machine) refl,
      state-transition ops k w.executor.state_machine at k new reason now ∙ rw (eq_refl k, p) refl,
    )
