-- ===== src/StateManager/Durable.antt =====
-- engine/state_manager.py with a repository: what a machine that is started again sees. What the
-- machine relies on of a repository is that a saved state is the state that is loaded, and that
-- audit records and transitions are kept apart from the states.
use agent_manager.Prelude.Dict
use agent_manager.Prelude.Dict.{get-put, contains-get}
use agent_manager.Prelude.{
  ℕ, String, ◌≡◌, refl, ◌∙◌, eq_refl, ok, false, inl, inr, some, List, [], ◌∷◌, arith, str_eq,
  eq_iff, Bool-cases, Option-cases, if◌then◌else◌,
}
use agent_manager.StateManager.Transitions.{TaskState, permitted}
use agent_manager.StateManager.Machine.{
  Repository, StateMachine, StateTransition, AuditRecord, task_state_initialized,
  task_state_transitioned, new_machine, initialize, get_state, get_history, ensure_history,
  record_transition, transition_from, transition,
}
use agent_manager.StateManager.Calls.{
  Call, initialize_task, transition_task, state_of, history_of, call, run,
}
use agent_manager.StateManager.Progress.{
  states-get_history, states-ensure_history, repository-get_history, repository-ensure_history,
  before, transition-missing, transition-found,
}

pub record IsFaithful {R : Type 0} (ops : Repository R) : Type 0 where
  pub load-save :
      (t u : String) (s : TaskState) (r : R)
      → ops.load_task_state u (ops.save_task_state t s r)
        ≡ (if str_eq t u then some s else ops.load_task_state u r)
  pub load-audit :
      (u : String) (a : AuditRecord) (r : R)
      → ops.load_task_state u (ops.append_audit_record a r) ≡ ops.load_task_state u r
  pub load-transition :
      (u : String) (t : StateTransition) (r : R)
      → ops.load_task_state u (ops.save_transition t r) ≡ ops.load_task_state u r

module _ {R : Type 0} (ops : Repository R) (law : IsFaithful ops) where
  open ops use {save_task_state, append_audit_record, save_transition}
  open law use {load-save, load-audit, load-transition}

  -- The repository holds every state that the machine holds.
  pub record IsDurable (m : StateMachine R) : Type 0 where
    pub store : R
    pub attached : m.repository ≡ some store
    pub durable :
        (t : String) (s : TaskState)
        → Dict.get m.states t ≡ some s
        → ops.load_task_state t store ≡ some s

  -- It is enough that the repository takes in what the machine takes in.
  IsDurable-put :
      (m m' : StateMachine R) (k : String) (s : TaskState) (store : R) (d : IsDurable m)
      → m'.repository ≡ some store
      → m'.states ≡ Dict.put m.states k s
      → ((u : String)
          → ops.load_task_state u store
            ≡ (if str_eq k u then some s else ops.load_task_state u d.store))
      → IsDurable m'
  IsDurable-put m m' k s store d at_store at_states loads = record {
    store = store;
    attached = at_store;
    durable = λ u x h. ground (arith, loads u, get-put m.states k u s, d.durable u x);
  }

  IsDurable-same :
      (m m' : StateMachine R)
      → IsDurable m
      → m'.repository ≡ m.repository
      → m'.states ≡ m.states
      → IsDurable m'
  IsDurable-same m m' d r st = record {
    store = d.store;
    attached = r ∙ d.attached;
    durable = λ u x h. d.durable u x (rw st at h);
  }

  saved :
      (k u : String) (s : TaskState) (a : AuditRecord) (store : R)
      → ops.load_task_state u (ops.append_audit_record a (ops.save_task_state k s store))
        ≡ (if str_eq k u then some s else ops.load_task_state u store)
  saved k u s a store = simp (load-audit, load-save)

  initialize-IsDurable :
      (k : String) (i : TaskState) (m : StateMachine R)
      → IsDurable m
      → IsDurable (initialize ops k i m).1
  unfolding initialize
  initialize-IsDurable k i m d = elim (Bool-cases (Dict.contains m.states k)) [
    | inl e ↦ rw e d
    | inr e ↦ rw e (
        IsDurable-put m _ k i
          (append_audit_record (task_state_initialized k i) (save_task_state k i d.store)) d
          (rw d.attached) refl (λ u. saved k u i (task_state_initialized k i) d.store))
  ]

  get_state-IsDurable :
      (k : String) (m : StateMachine R) → IsDurable m → IsDurable (get_state ops k m).1
  unfolding get_state
  get_state-IsDurable k m d = elim (Option-cases (Dict.get m.states k)) [
    | inr (s, e) ↦ rw (e, get_state) d
    | inl e ↦ elim (Option-cases (ops.load_task_state k d.store)) [
      | inl missing ↦ IsDurable-same m _ d (ground arith) (ground arith)
      | inr (s, loaded) ↦
          IsDurable-put m _ k s d.store d (ground arith) (ground arith)
            (λ u. ground (arith, eq_iff k u))
    ]
  ]

  record_transition-IsDurable :
      (tr : StateTransition) (m : StateMachine R)
      → IsDurable m
      → IsDurable (record_transition ops tr m)
  unfolding record_transition
  record_transition-IsDurable tr m d =
      IsDurable-put m _ tr.task_id tr.to_state
        (append_audit_record
          (task_state_transitioned tr.task_id tr.from_state tr.to_state tr.reason)
          (save_transition tr (save_task_state tr.task_id tr.to_state d.store)))
        d (rw d.attached) refl (λ u. simp (load-audit, load-transition, load-save))

  transition_from-IsDurable :
      (cur : TaskState) (k : String) (new : TaskState) (reason : String) (now : ℕ)
      (m : StateMachine R)
      → IsDurable m
      → IsDurable (transition_from ops cur k new reason now m).1
  unfolding transition_from
  transition_from-IsDurable cur k new reason now m d = elim (Bool-cases (permitted cur new)) [
    | inl p ↦ rw p (record_transition-IsDurable _ (ensure_history ops k m) ready)
    | inr p ↦ rw p ready
  ]
    where
      ready : IsDurable (ensure_history ops k m)
      ready =
          IsDurable-same m (ensure_history ops k m) d (repository-ensure_history ops k m)
            (states-ensure_history ops k m)

  before-IsDurable : (k : String) (m : StateMachine R) → IsDurable m → IsDurable (before ops k m)
  before-IsDurable k m d = elim (Bool-cases (Dict.contains m.states k)) [
    | inl e ↦ rw e d
    | inr e ↦ rw e (get_state-IsDurable k m d)
  ]

  transition-IsDurable :
      (k : String) (new : TaskState) (reason : String) (now : ℕ) (m : StateMachine R)
      → IsDurable m
      → IsDurable (transition ops k new reason now m).1
  transition-IsDurable k new reason now m d =
      elim (Option-cases (Dict.get (before ops k m).states k)) [
        | inl e ↦ rw (transition-missing ops k new reason now m e) (before-IsDurable k m d)
        | inr (cur, e) ↦ rw (transition-found ops k new reason now m cur e) (
            transition_from-IsDurable cur k new reason now (before ops k m)
              (before-IsDurable k m d))
      ]

  call-IsDurable : (c : Call) (m : StateMachine R) → IsDurable m → IsDurable (call ops c m)
  unfolding call
  call-IsDurable (initialize_task k i) m d = initialize-IsDurable k i m d
  call-IsDurable (transition_task k new reason now) m d = transition-IsDurable k new reason now m d
  call-IsDurable (state_of k) m d = get_state-IsDurable k m d
  call-IsDurable (history_of k) m d =
      IsDurable-same m (get_history ops k m).1 d (repository-get_history ops k m)
        (states-get_history ops k m)

  run-IsDurable :
      (calls : List Call) (m : StateMachine R) → IsDurable m → IsDurable (run ops calls m)
  unfolding run
  run-IsDurable [] m d = d
  run-IsDurable (c ∷ cs) m d = run-IsDurable cs (call ops c m) (call-IsDurable c m d)

  get_state-IsDurable_lem :
      (m : StateMachine R) (t : String)
      → IsDurable m
      → (get_state ops t m).0 ≡ (get_state ops t (new_machine m.repository)).0
  unfolding get_state Dict.get
  get_state-IsDurable_lem m t d = elim (Option-cases (Dict.get m.states t)) [
    | inl e ↦ ground arith
    | inr (s, e) ↦ ground (arith, d.durable t s e)
  ]

  -- With a repository whose methods do not raise, and which keeps the state that it saved last for a
  -- task and nothing else for it (`IsFaithful`): after any calls on a machine that was started with
  -- the repository, `get_state` answers for every task as it does on a machine that is started anew
  -- with the repository as it then is.
  pub restart-get_state :
      (calls : List Call) (r : R) (t : String)
      → (get_state ops t (run ops calls (new_machine (some r)))).0
        ≡ (get_state ops t (new_machine (run ops calls (new_machine (some r))).repository)).0
  unfolding Dict.get
  restart-get_state calls r t = get_state-IsDurable_lem (run ops calls (new_machine (some r))) t (
      run-IsDurable calls (new_machine (some r))
        (record { store = r; attached = refl; durable = λ u s h. cc }))

  -- `initialize` looks for the task in the memory of the machine only: with the task absent there,
  -- it succeeds and saves the initial state over any state, terminal or not, that the repository
  -- holds for the task.
  pub initialize-overwrites :
      (k : String) (i : TaskState) (m : StateMachine R) (r : R)
      → m.repository ≡ some r
      → Dict.contains m.states k ≡ false
      → (r' : R) × (initialize ops k i m ≡ (
        ok tt,
        record {
          repository = some r';
          states = Dict.put m.states k i;
          history = Dict.put m.history k [];
        },
      ))
        × (ops.load_task_state k r' ≡ some i)
  unfolding initialize
  initialize-overwrites k i m r at absent =
      let a = task_state_initialized k i in
      (
        append_audit_record a (save_task_state k i r),
        rw (absent, at),
        saved k k i a r ∙ rw eq_refl refl,
      )
