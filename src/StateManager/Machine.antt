-- ===== src/StateManager/Machine.antt =====
-- engine/state_manager.py, `StateTransition` and the class `StateMachine`. Spans and log lines are
-- left out. A method returns its result, or what it raised, and the machine as it left it.
use agent_manager.Prelude.Dict
use agent_manager.Prelude.Dict.{Dict}
use agent_manager.Prelude.{
  ℕ, String, Bool, false, Option, none, some, List, [], ◌∷◌, ◌++◌, ok, err, Exec, if◌then◌else◌,
}
use agent_manager.StateManager.Transitions.{TaskState, terminal, failing, permitted}

pub record StateTransition : Type 0 where
  pub task_id : String
  pub from_state : TaskState
  pub to_state : TaskState
  pub timestamp : ℕ
  pub reason : String

-- storage.AuditRecord, as far as this module fills it in
pub data AuditRecord : Type 0 where
  task_state_initialized : (entity_id : String) → TaskState → AuditRecord
  task_state_transitioned : (entity_id : String) → TaskState → TaskState → String → AuditRecord

-- The methods that the machine calls on its repository; `R` is the repository's own state. They
-- return: what the machine does when one of them raises is outside of the model.
pub record Repository (R : Type 0) : Type 0 where
  pub save_task_state : String → TaskState → R → R
  pub append_audit_record : AuditRecord → R → R
  pub save_transition : StateTransition → R → R
  pub load_task_state : String → R → Option TaskState
  pub load_transitions : String → R → List StateTransition

pub data StateError : Type 0 where
  already_initialized not_initialized : String → StateError
  invalid_transition : TaskState → TaskState → StateError

pub record StateMachine (R : Type 0) : Type 0 where
  pub repository : Option R
  pub states : Dict TaskState
  pub history : Dict (List StateTransition)

-- `__init__`
abbrev pub new_machine : {R : Type 0} → Option R → StateMachine R
new_machine repository = record { repository = repository; states = []; history = [] }

module _ {R : Type 0} (ops : Repository R) where
  open ops use {
    save_task_state, append_audit_record, save_transition, load_task_state, load_transitions,
  }

  persist_initial : String → TaskState → Option R → Option R
  persist_initial task_id s none = none
  persist_initial task_id s (some r) =
      some (append_audit_record (task_state_initialized task_id s) (save_task_state task_id s r))

  unfoldable pub initialize : String → TaskState → Exec (StateMachine R) StateError (Unit {0})
  unfolding persist_initial
  initialize task_id initial_state m =
      if Dict.contains m.states task_id then (err (already_initialized task_id), m) else (
        ok tt,
        record {
          repository = persist_initial task_id initial_state m.repository;
          states = Dict.put m.states task_id initial_state;
          history = Dict.put m.history task_id [];
        },
      )

  keep_loaded : String → Option TaskState → StateMachine R → StateMachine R
  keep_loaded task_id none m = m
  keep_loaded task_id (some s) m = record m { states = Dict.put m.states task_id s }

  loaded_state : String → Option R → Option TaskState
  loaded_state task_id none = none
  loaded_state task_id (some r) = load_task_state task_id r

  unfoldable pub get_state : String → StateMachine R → Option TaskState × StateMachine R
  unfolding keep_loaded loaded_state
  get_state task_id m = elim (Dict.get m.states task_id) [
    | some s ↦ (some s, m)
    | none ↦ let s = loaded_state task_id m.repository in (s, keep_loaded task_id s m)
  ]

  keep_history : String → List StateTransition → StateMachine R → StateMachine R
  keep_history task_id [] m = m
  keep_history task_id (t ∷ ts) m = record m { history = Dict.put m.history task_id (t ∷ ts) }

  -- The branch of `get_history` for an entry that is missing or empty.
  reload_history : String → Option R → StateMachine R → List StateTransition × StateMachine R
  unfolding keep_history
  reload_history task_id none m = ([], m)
  reload_history task_id (some r) m =
      let persisted = load_transitions task_id r in (persisted, keep_history task_id persisted m)

  unfoldable pub get_history : String → StateMachine R → List StateTransition × StateMachine R
  unfolding reload_history
  get_history task_id m = elim (Dict.get m.history task_id) [
    | some (t ∷ ts) ↦ (t ∷ ts, m)
    | _ ↦ reload_history task_id m.repository m
  ]

  persist_transition : StateTransition → Option R → Option R
  persist_transition t none = none
  persist_transition t (some r) = some (
      append_audit_record (task_state_transitioned t.task_id t.from_state t.to_state t.reason)
        (save_transition t (save_task_state t.task_id t.to_state r)))

  abbrev or_empty : Option (List StateTransition) → List StateTransition
  or_empty none = []
  or_empty (some ts) = ts

  -- The end of `_transition_impl`, from the comment "Record transition" on.
  unfoldable pub record_transition : StateTransition → StateMachine R → StateMachine R
  unfolding persist_transition
  record_transition t m = record {
    repository = persist_transition t m.repository;
    states = Dict.put m.states t.task_id t.to_state;
    history = Dict.put m.history t.task_id (or_empty (Dict.get m.history t.task_id) ++ t ∷ []);
  }

  -- `if task_id not in self.history: self.history[task_id] = self.get_history(task_id)`
  unfoldable pub ensure_history : String → StateMachine R → StateMachine R
  unfolding get_history
  ensure_history task_id m =
      if Dict.contains m.history task_id
      then m
      else let (ts, m') = get_history task_id m in
        record m' { history = Dict.put m'.history task_id ts }

  -- `_transition_impl` once the current state is known
  unfoldable pub transition_from :
      TaskState → String → TaskState → String → ℕ → Exec (StateMachine R) StateError (Unit {0})
  unfolding ensure_history record_transition
  transition_from current task_id new_state reason now m =
      let m' = ensure_history task_id m in
      if permitted current new_state
      then (
        ok tt,
        record_transition
            (record {
              task_id = task_id;
              from_state = current;
              to_state = new_state;
              timestamp = now;
              reason = reason;
            })
            m',
      )
      else (err (invalid_transition current new_state), m')

  -- `_transition_impl`
  unfoldable pub transition :
      String → TaskState → String → ℕ → Exec (StateMachine R) StateError (Unit {0})
  unfolding get_state transition_from
  transition task_id new_state reason now m =
      let m' = if Dict.contains m.states task_id then m else (get_state task_id m).1 in
      elim (Dict.get m'.states task_id) [
        | none ↦ (err (not_initialized task_id), m')
        | some current ↦ transition_from current task_id new_state reason now m'
      ]

  abbrev holds_when : (TaskState → Bool) → Option TaskState → Bool
  holds_when test none = false
  holds_when test (some s) = test s

  unfoldable pub is_terminal : String → StateMachine R → Bool × StateMachine R
  unfolding get_state
  is_terminal task_id m = let (s, m') = get_state task_id m in (holds_when terminal s, m')

  unfoldable pub is_failed : String → StateMachine R → Bool × StateMachine R
  unfolding get_state
  is_failed task_id m = let (s, m') = get_state task_id m in (holds_when failing s, m')
