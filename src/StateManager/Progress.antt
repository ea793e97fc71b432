-- ===== src/StateManager/Progress.antt =====
-- engine/state_manager.py: what any sequence of calls can do to the state of a task.
use agent_manager.Prelude.Dict
use agent_manager.Prelude.Dict.{dict_laws, get-put, contains-get}
use agent_manager.Prelude.{
  ℕ, String, ◌≡◌, refl, ◌⊎◌, inl, inr, true, some, none, ok, err, List, [], ◌∷◌, arith, ◌&&◌,
  str_eq, eq_iff, eq_refl, if◌then◌else◌, Bool-cases, Option-cases, subst,
}
use agent_manager.StateManager.Transitions.{TaskState, permitted, terminal, permitted-terminal}
use agent_manager.StateManager.Machine.{
  Repository, StateMachine, not_initialized, invalid_transition, initialize, get_state, get_history,
  ensure_history, record_transition, transition_from, transition,
}
use agent_manager.StateManager.Calls.{
  Call, initialize_task, transition_task, state_of, history_of, call, run, Leads, here, next,
}

module _ {R : Type 0} (ops : Repository R) where
  pub states-ensure_history :
      (task_id : String) (m : StateMachine R) → (ensure_history ops task_id m).states ≡ m.states
  unfolding ensure_history
  states-ensure_history task_id m = ground arith

  pub repository-ensure_history :
      (task_id : String) (m : StateMachine R)
      → (ensure_history ops task_id m).repository ≡ m.repository
  unfolding ensure_history
  repository-ensure_history task_id m = ground arith

  pub repository-get_history :
      (task_id : String) (m : StateMachine R)
      → (get_history ops task_id m).1.repository ≡ m.repository
  unfolding get_history
  repository-get_history task_id m = ground arith

  pub states-get_history :
      (task_id : String) (m : StateMachine R) → (get_history ops task_id m).1.states ≡ m.states
  unfolding get_history
  states-get_history task_id m = ground arith

  -- With the state in memory a transition starts from it.
  pub transition-known :
      (task_id : String) (new_state : TaskState) (reason : String) (now : ℕ) (m : StateMachine R)
      {s : TaskState}
      → Dict.get m.states task_id ≡ some s
      → transition ops task_id new_state reason now m
        ≡ transition_from ops s task_id new_state reason now m
  unfolding transition
  transition-known task_id new_state reason now m h = ground (arith, contains-get m.states task_id)

  -- The machine whose states a transition of `k` reads.
  abbrev pub before : String → StateMachine R → StateMachine R
  before k m = if Dict.contains m.states k then m else (get_state ops k m).1

  pub transition-missing :
      (k : String) (new : TaskState) (reason : String) (now : ℕ) (m : StateMachine R)
      → Dict.get (before k m).states k ≡ none
      → transition ops k new reason now m ≡ (err (not_initialized k), before k m)
  unfolding transition
  transition-missing k new reason now m h = ground arith

  pub transition-found :
      (k : String) (new : TaskState) (reason : String) (now : ℕ) (m : StateMachine R)
      (cur : TaskState)
      → Dict.get (before k m).states k ≡ some cur
      → transition ops k new reason now m ≡ transition_from ops cur k new reason now (before k m)
  unfolding transition
  transition-found k new reason now m cur h = ground arith

  -- With the state in memory the answer of a transition is that of the test.
  pub transition-answer :
      (k : String) (new : TaskState) (reason : String) (now : ℕ) (m : StateMachine R)
      {s : TaskState}
      → Dict.get m.states k ≡ some s
      → (transition ops k new reason now m).0
        ≡ (if permitted s new then ok tt else err (invalid_transition s new))
  unfolding transition_from
  transition-answer k new reason now m {s} h =
      rw (transition-known k new reason now m h) (ground arith)

  state-transition_from :
      (current : TaskState) (k : String) (new : TaskState) (reason : String) (now : ℕ)
      (m : StateMachine R) (t : String)
      → Dict.get (transition_from ops current k new reason now m).1.states t
        ≡ (if str_eq k t && permitted current new then some new else Dict.get m.states t)
  unfolding transition_from record_transition
  state-transition_from current k new reason now m t =
      ground (arith, states-ensure_history k m, get-put (ensure_history ops k m).states k t new)

  module _ (t : String) (m : StateMachine R) {s : TaskState}
      (h : Dict.get m.states t ≡ some s) where
    pub state-initialize :
        (k : String) (i : TaskState) → Dict.get (initialize ops k i m).1.states t ≡ some s
    unfolding initialize
    state-initialize k i =
        ground (arith, contains-get m.states k, get-put m.states k t i, eq_iff k t)

    pub state-get_state : (k : String) → Dict.get (get_state ops k m).1.states t ≡ some s
    unfolding get_state
    state-get_state k = grind (arith, get-put, eq_iff k t)

    state-before : (k : String) → Dict.get (before k m).states t ≡ some s
    state-before k = ground (arith, state-get_state k)

    pub state-transition :
        (k : String) (new : TaskState) (reason : String) (now : ℕ)
        → Dict.get (transition ops k new reason now m).1.states t
          ≡ some (if str_eq k t && permitted s new then new else s)
    state-transition k new reason now = elim (Option-cases (Dict.get (before k m).states k)) [
      | inl missing ↦
          ground (arith, transition-missing k new reason now m missing, state-before k, eq_iff k t)
      | inr (cur, found) ↦ ground (
        arith,
        transition-found k new reason now m cur found,
        state-before k,
        eq_iff k t,
        state-transition_from cur k new reason now (before k m) t,
      )
    ]

    -- One call moves a task that has a state by one permitted step, or not at all.
    call_step :
        (c : Call)
        → (u : TaskState) × (Dict.get (call ops c m).states t ≡ some u)
          × ((u ≡ s) ⊎ (permitted s u ≡ true))
    unfolding call
    call_step (initialize_task k i) = (s, state-initialize k i, inl refl)
    call_step (transition_task k new reason now) =
        elim (Bool-cases (str_eq k t && permitted s new)) [
          | inl e ↦ (new, rw e at (state-transition k new reason now), inr (ground arith))
          | inr e ↦ (s, rw e at (state-transition k new reason now), inl refl)
        ]
    call_step (state_of k) = (s, state-get_state k, inl refl)
    call_step (history_of k) = (s, rw (states-get_history k m) h, inl refl)

module _ {R : Type 0} (ops : Repository R) (t : String) where
  Leads-cons : {s u v : TaskState} → permitted s u ≡ true → Leads u v → Leads s v
  Leads-cons p here = next here p
  Leads-cons p (next l q) = next (Leads-cons p l) q

  Leads-step : {s u v : TaskState} → (u ≡ s) ⊎ (permitted s u ≡ true) → Leads u v → Leads s v
  Leads-step {v = v} (inl e) l = subst (λ x. Leads x v) e l
  Leads-step (inr p) l = Leads-cons p l

  -- Whatever is called, in whatever order, a task whose state the machine has in memory (in its
  -- `states`, and not only in its repository) is there later in a state that permitted steps lead to.
  pub run-Leads :
      (calls : List Call) (m : StateMachine R) {s : TaskState}
      → Dict.get m.states t ≡ some s
      → (u : TaskState) × (Dict.get (run ops calls m).states t ≡ some u) × Leads s u
  unfolding run
  run-Leads [] m {s} h = (s, h, here)
  run-Leads (c ∷ cs) m {s} h =
      let (u, at_u, step) = call_step ops t m h c in
      let (v, at_v, rest) = run-Leads cs (call ops c m) at_u in (v, at_v, Leads-step step rest)

  Leads-terminal : {s u : TaskState} → terminal s ≡ true → Leads s u → u ≡ s
  Leads-terminal h here = refl
  Leads-terminal {s} h (next {t = x} {u = u} l p) =
      let e = Leads-terminal h l in
      cc (permitted-terminal s u h, subst (λ y. permitted y u ≡ true) e p)

  -- A task for which the machine has a terminal state in memory (in its `states`, and not only in its
  -- repository) stays there in that state, whatever is called on the machine.
  pub run-terminal :
      (calls : List Call) (m : StateMachine R) (s : TaskState)
      → Dict.get m.states t ≡ some s
      → terminal s ≡ true
      → Dict.get (run ops calls m).states t ≡ some s
  run-terminal calls m s h term =
      let (u, at_u, l) = run-Leads calls m h in rw (Leads-terminal term l) at at_u

-- What `get_state` answers is in memory afterwards, and so is the state that a transition moves to.
module _ {R : Type 0} (ops : Repository R) (k : String) (m : StateMachine R) where
  pub get_state-kept :
      (s : TaskState)
      → (get_state ops k m).0 ≡ some s
      → Dict.get (get_state ops k m).1.states k ≡ some s
  unfolding get_state
  get_state-kept s h = grind (arith, get-put, eq_iff k k)

  pub transition-accepted :
      (new : TaskState) (reason : String) (now : ℕ)
      → (transition ops k new reason now m).0 ≡ ok tt
      → Dict.get (transition ops k new reason now m).1.states k ≡ some new
  unfolding transition_from
  transition-accepted new reason now h = elim (Option-cases (Dict.get (before ops k m).states k)) [
    | inl missing ↦ ground (arith, transition-missing ops k new reason now m missing)
    | inr (cur, found) ↦ ground (
      arith,
      transition-found ops k new reason now m cur found,
      state-transition_from ops cur k new reason now (before ops k m) k,
      eq_iff k k,
    )
  ]

  pub get_state-memory : Dict.get (get_state ops k m).1.states k ≡ (get_state ops k m).0
  unfolding get_state
  get_state-memory = grind (arith, get-put, eq_iff k k)

  -- A task without a state in memory is initialized.
  pub initialize-new :
      (i : TaskState)
      → Dict.get m.states k ≡ none
      → ((initialize ops k i m).0 ≡ ok tt) × (Dict.get (initialize ops k i m).1.states k ≡ some i)
  unfolding initialize
  initialize-new i h = (
    ground (arith, h, contains-get m.states k),
    ground (arith, h, contains-get m.states k, get-put m.states k k i, eq_iff k k),
  )

  -- A permitted transition of a task whose state is in memory.
  pub transition-permitted :
      (new : TaskState) (reason : String) (now : ℕ) {s : TaskState}
      → Dict.get m.states k ≡ some s
      → permitted s new ≡ true
      → ((transition ops k new reason now m).0 ≡ ok tt)
        × (Dict.get (transition ops k new reason now m).1.states k ≡ some new)
  transition-permitted new reason now h p = (
    rw (transition-answer ops k new reason now m h, p) refl,
    rw (state-transition ops k m h k new reason now, eq_refl k, p) refl,
  )
