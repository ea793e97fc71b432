-- ===== src/Recovery/Keeps.antt =====
-- recovery/recovery_engine.py: what the steps of a recovery leave as it is, and the state after a move.
use agent_manager.Prelude.Dict
use agent_manager.Prelude.Dict.{Dict, get-put, contains-get, is_some}
use agent_manager.Prelude.{
  ℕ, String, ◌≡◌, refl, ◌∙◌, true, ok, some, Option-cases, inl, inr, eq_refl,
}
use agent_manager.StateManager.Transitions.{TaskState, permitted}
use agent_manager.StateManager.Machine.{Repository}
use agent_manager.StateManager.Progress.{transition-answer, state-transition}
use agent_manager.Runtime.Errors.{from_machine}
use agent_manager.Runtime.Context.{ExecutionContext}
use agent_manager.Recovery.Steps.{Recovery, on_stored, ensure_context}
use agent_manager.Recovery.Moves.{record_manual_intervention, move}

-- A step that leaves the state machine, the registered tasks and the task of the recovery as they are.
pub record IsQuiet {R M : Type 0} (r r' : Recovery R M) : Type 0 where
  pub machine : r'.executor.state_machine ≡ r.executor.state_machine
  pub registry : r'.executor.task_registry ≡ r.executor.task_registry
  pub task : r'.ctx.task_id ≡ r.ctx.task_id

module _ {R M : Type 0} where
  -- The machine has the task of the recovery in this state, in memory.
  abbrev pub StateIs : TaskState → Recovery R M → Type 0
  StateIs s r = Dict.get r.executor.state_machine.states r.ctx.task_id ≡ some s

  abbrev quiet : (r : Recovery R M) → IsQuiet r r
  quiet r = record { machine = refl; registry = refl; task = refl }

  abbrev pub IsQuiet-trans : {a b c : Recovery R M} → IsQuiet a b → IsQuiet b c → IsQuiet a c
  IsQuiet-trans p q = record {
    machine = q.machine ∙ p.machine;
    registry = q.registry ∙ p.registry;
    task = q.task ∙ p.task;
  }

  pub on_stored-IsQuiet :
      (f : ExecutionContext → ExecutionContext) (r : Recovery R M) → IsQuiet r (on_stored f r)
  unfolding on_stored
  on_stored-IsQuiet f r =
      elim (Option-cases (Dict.get r.executor.execution_contexts r.ctx.task_id)) [
        | inl h ↦ rw (on_stored, h) (quiet r)
        | inr (c, h) ↦ rw (on_stored, h) (record { machine = refl; registry = refl; task = refl })
      ]

  pub ensure_context-IsQuiet : (r : Recovery R M) → IsQuiet r (ensure_context r)
  unfolding ensure_context
  ensure_context-IsQuiet r =
      elim (Option-cases (Dict.get r.executor.execution_contexts r.ctx.task_id)) [
        | inl h ↦ rw (ensure_context, h) (record { machine = refl; registry = refl; task = refl })
        | inr (c, h) ↦ rw (ensure_context, h) (quiet r)
      ]

  pub IsQuiet-StateIs :
      {s : TaskState} {r r' : Recovery R M} → IsQuiet r r' → StateIs s r → StateIs s r'
  IsQuiet-StateIs q at = rw (q.machine, q.task) at

module _ {R M : Type 0} (ops : Repository R) where
  pub record_manual_intervention-IsQuiet :
      (strategy : String) (now : ℕ) (r : Recovery R M)
      → IsQuiet r (record_manual_intervention ops strategy now r)
  unfolding record_manual_intervention
  record_manual_intervention-IsQuiet strategy now r =
      IsQuiet-trans (ensure_context-IsQuiet r) (on_stored-IsQuiet _ (ensure_context r))

  -- A permitted move of the task.
  pub move-permitted :
      (new : TaskState) (reason : String) (now : ℕ) (r : Recovery R M) (s : TaskState)
      → StateIs s r
      → permitted s new ≡ true
      → (move ops new reason now r ≡ (ok tt, (move ops new reason now r).1))
        × StateIs new (move ops new reason now r).1
  unfolding move from_machine
  move-permitted new reason now r s at p = (
    rw
        (
          transition-answer ops r.ctx.task_id new reason now r.executor.state_machine at,
          p,
          from_machine,
        )
        refl,
    state-transition ops r.ctx.task_id r.executor.state_machine at r.ctx.task_id new reason now
        ∙ rw (eq_refl r.ctx.task_id, p) refl,
  )
