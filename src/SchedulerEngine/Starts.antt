-- ===== src/SchedulerEngine/Starts.antt =====
-- engine/scheduler.py: which tasks a pass over the queue starts.
use agent_manager.Prelude.Dict
use agent_manager.Prelude.Dict.{Dict, get-put}
use agent_manager.Prelude.StrSet.{length-add}
use agent_manager.Prelude.{
  ℕ, ◌+◌, ◌*◌, ◌≤◌, String, ◌≡◌, ◌⊎◌, refl, ap, sym, ◌∙◌, subst, inl, inr, Bool, true, false,
  Option, none, some, List, [], ◌∷◌, length, All, arith, str_eq, eq_iff, eq_refl, Bool-cases,
  Option-cases,
}
use agent_manager.SchedulerEngine.Engine.{
  running, is_pending, ScheduledTask, Scheduler, Verdict, skip, wait, start, give_up, back_off,
  is_empty, backing_off, consider, carry_out, unmet, picked, detect_conflicts,
  detect_permanent_conflict, process,
}
use agent_manager.SchedulerEngine.Verdicts.{Explains, consider-Explains}
use agent_manager.SchedulerEngine.Invariant.{running_at}

-- The dependency is a task that is completed.
abbrev pub IsMet : Dict ScheduledTask → String → Type 0
IsMet tasks dep = unmet (Dict.get tasks dep) ≡ false

picked-nil :
    (test : Option ScheduledTask → Bool) (tasks : Dict ScheduledTask) (deps : List String)
    → picked test tasks deps ≡ []
    → All (λ d. test (Dict.get tasks d) ≡ false) deps
unfolding picked
picked-nil test tasks [] h = tt
picked-nil test tasks (d ∷ deps) h = elim (Bool-cases (test (Dict.get tasks d))) [
  | inl e ↦ absurd (ground arith)
  | inr e ↦ (e, picked-nil test tasks deps (ground arith))
]

All-picked :
    (test : Option ScheduledTask → Bool) (tasks : Dict ScheduledTask) (deps : List String)
    → All (λ d. test (Dict.get tasks d) ≡ false) deps
    → picked test tasks deps ≡ []
unfolding picked
All-picked test tasks [] a = refl
All-picked test tasks (d ∷ deps) a = ground (arith, All-picked test tasks deps a.1)

module _ (clock : ℕ → ℕ) (round : ℕ) (id : String) (s : Scheduler) where
  abbrev pub after : Scheduler
  after = (process clock round id s).0

  abbrev pub verdict_of : ScheduledTask → Verdict
  verdict_of t = consider clock round (detect_conflicts id s) (detect_permanent_conflict id s) t

  pub process-some :
      {t : ScheduledTask}
      → Dict.get s.tasks id ≡ some t
      → process clock round id s ≡ carry_out id t (verdict_of t) s
  unfolding process
  process-some e = rw (e, process)

  pub process-none : Dict.get s.tasks id ≡ none → process clock round id s ≡ (s, [])
  unfolding process
  process-none e = rw (e, process)

  consider-settled : (t : ScheduledTask) → is_pending t.status ≡ false → verdict_of t ≡ skip
  unfolding consider
  consider-settled t h = rw h

  tasks-carry_out :
      (t : ScheduledTask) (v : Verdict) (k : String)
      → str_eq id k ≡ false
      → Dict.get (carry_out id t v s).0.tasks k ≡ Dict.get s.tasks k
  unfolding carry_out
  tasks-carry_out t skip k h = refl
  tasks-carry_out t wait k h = refl
  tasks-carry_out t (start t') k h = rw (get-put, h) refl
  tasks-carry_out t (give_up t') k h = rw (get-put, h) refl
  tasks-carry_out t (back_off t') k h = rw (get-put, h) refl

  -- A round changes no task but the popped one.
  pub tasks-process :
      (k : String) → str_eq id k ≡ false → Dict.get after.tasks k ≡ Dict.get s.tasks k
  tasks-process k h = elim (Option-cases (Dict.get s.tasks id)) [
    | inl e ↦ rw (after, process-none e)
    | inr (t, e) ↦ rw (after, process-some e) (tasks-carry_out t (verdict_of t) k h)
  ]

  -- A round changes no task that is not pending.
  pub process-settled :
      (k : String) (t : ScheduledTask)
      → Dict.get s.tasks k ≡ some t
      → is_pending t.status ≡ false
      → Dict.get after.tasks k ≡ some t
  unfolding carry_out
  process-settled k t at settled = elim (Bool-cases (str_eq id k)) [
    | inl same ↦
        let e = (eq_iff id k).0 same in
        let at_id = subst (λ j. Dict.get s.tasks j ≡ some t) (sym e) at in
        rw (after, process-some at_id, consider-settled t settled) at
    | inr other ↦ tasks-process k other ∙ at
  ]

  running-carry_out :
      (t : ScheduledTask) (v : Verdict)
      → (length (carry_out id t v s).0.running_tasks ≤ length s.running_tasks + 1)
        × ((carry_out id t v s).0.max_concurrent_tasks ≡ s.max_concurrent_tasks)
  unfolding carry_out
  running-carry_out t skip = omega arith
  running-carry_out t wait = omega arith
  running-carry_out t (start t') = omega (arith, length-add s.running_tasks id)
  running-carry_out t (give_up t') = omega arith
  running-carry_out t (back_off t') = omega arith

  -- A round starts at most one task.
  pub running-process :
      (length after.running_tasks ≤ length s.running_tasks + 1)
      × (after.max_concurrent_tasks ≡ s.max_concurrent_tasks)
  running-process = elim (Option-cases (Dict.get s.tasks id)) [
    | inl e ↦ rw (after, process-none e) (omega arith)
    | inr (t, e) ↦ rw (after, process-some e) (running-carry_out t (verdict_of t))
  ]

  pub IsMet-process : (d : String) → IsMet s.tasks d → IsMet after.tasks d
  unfolding unmet is_pending
  IsMet-process d h = elim (Option-cases (Dict.get s.tasks d)) [
    | inl e ↦ absurd (ground arith)
    | inr (t, e) ↦ rw (process-settled d t e (ground arith)) (ground arith)
  ]

  -- What a round does to a task that it leaves running.
  started-carry_out :
      (t : ScheduledTask) (v : Verdict)
      → Explains (detect_conflicts id s) t v
      → Dict.get s.tasks id ≡ some t
      → (u : ScheduledTask) → Dict.get (carry_out id t v s).0.tasks id ≡ some u
      → running_at (some u) ≡ true
      → (running_at (Dict.get s.tasks id) ≡ true)
        ⊎ (detect_conflicts id s ≡ []) × (u.dependencies ≡ t.dependencies)
  unfolding carry_out is_pending
  started-carry_out t skip f found u at r = inl (rw at r)
  started-carry_out t wait f found u at r = inl (rw at r)
  started-carry_out t (start t') f found u at r =
      inr (f.0, ground (arith, get-put s.tasks id id t', eq_refl id))
  started-carry_out t (give_up t') f found u at r =
      absurd (ground (arith, get-put s.tasks id id t', eq_refl id))
  started-carry_out t (back_off t') f found u at r =
      absurd (ground (arith, get-put s.tasks id id t', eq_refl id))

  detect_conflicts-nil :
      (t : ScheduledTask)
      → Dict.get s.tasks id ≡ some t
      → detect_conflicts id s ≡ []
      → All (IsMet s.tasks) t.dependencies
  unfolding detect_conflicts
  detect_conflicts-nil t found e =
      picked-nil unmet s.tasks t.dependencies (rw (found, detect_conflicts) at e)

  -- A task that runs after a round ran before it, or its dependencies were met then.
  pub started-process :
      (t : ScheduledTask)
      → Dict.get s.tasks id ≡ some t
      → (u : ScheduledTask) → Dict.get after.tasks id ≡ some u
      → running_at (some u) ≡ true
      → (running_at (some t) ≡ true) × (u ≡ t)
        ⊎ All (IsMet s.tasks) t.dependencies × (u.dependencies ≡ t.dependencies)
  unfolding is_pending
  started-process t found u at r =
      elim (started-carry_out t (verdict_of t)
        (consider-Explains (detect_conflicts id s) (detect_permanent_conflict id s) t clock round)
        found u (rw (after, process-some found) at at) r) [
          | inl was ↦
              let runs : running_at (some t) ≡ true = ground arith in
              inl (runs, ground (arith, process-settled id t found (ground arith)))
          | inr (nil, deps) ↦ inr (detect_conflicts-nil t found nil, deps)
        ]

  -- A round starts a pending task that is not backing off and whose dependencies are met.
  pub process-started :
      {t : ScheduledTask}
      → Dict.get s.tasks id ≡ some t
      → is_pending t.status ≡ true
      → backing_off t.next_retry_at (clock (3 * round)) ≡ false
      → All (IsMet s.tasks) t.dependencies
      → process clock round id s
        ≡ carry_out id t
            (start (record t { retry_attempts = 0; next_retry_at = none; status = running }))
            s
  unfolding consider detect_conflicts
  process-started {t} found waits due met =
      process-some found
      ∙ ap (λ v. carry_out id t v s)
          (rw (waits, due, found, All-picked unmet s.tasks t.dependencies met, is_empty))
