-- ===== src/SchedulerEngine/Passes.antt =====
-- engine/scheduler.py: which tasks a pass over the queue starts, and which it is sure to start.
use agent_manager.Prelude.Dict
use agent_manager.Prelude.Dict.{get-put}
use agent_manager.Prelude.{
  ℕ, suc, ◌+◌, ◌*◌, ◌≤◌, String, ◌≡◌, ◌⊎◌, refl, sym, ◌∙◌, subst, inl, inr, true, false, none, some,
  List, [], ◌∷◌, ◌++◌, length, All, All-map, arith, str_eq, eq_iff, eq_refl, Bool-cases, ltb,
  lt→ltb,
}
use agent_manager.SchedulerEngine.Queue.{Entry, queued}
use agent_manager.SchedulerEngine.Engine.{
  carry_out, running, is_pending, ScheduledTask, Scheduler, backing_off, process, pass,
  execute_scheduled_tasks,
}
use agent_manager.SchedulerEngine.Invariant.{running_at}
use agent_manager.SchedulerEngine.Starts.{
  IsMet, tasks-process, process-settled, IsMet-process, running-process, process-started,
}

-- Each task that runs in `s` ran in `s₀` already, or all of its dependencies are completed in `s`.
abbrev StartedMet : Scheduler → Scheduler → Type 0
StartedMet s₀ s =
    (k : String) (u : ScheduledTask)
    → Dict.get s.tasks k ≡ some u
    → running_at (some u) ≡ true
    → (running_at (Dict.get s₀.tasks k) ≡ true) ⊎ All (IsMet s.tasks) u.dependencies

module _ (clock : ℕ → ℕ) (s₀ : Scheduler) where
  -- One round, the pop included.
  module _ (round : ℕ) (x : Entry) (queue deferred : List Entry) (s : Scheduler)
      (old : StartedMet s₀ s) where
    abbrev next : Scheduler
    next = (process clock round x.task_id s).0

    abbrev Explained : String → List String → Type 0
    Explained k deps = (running_at (Dict.get s₀.tasks k) ≡ true) ⊎ All (IsMet next.tasks) deps

    kept :
        (k : String) (t : ScheduledTask)
        → (running_at (Dict.get s₀.tasks k) ≡ true) ⊎ All (IsMet s.tasks) t.dependencies
        → Explained k t.dependencies
    kept k t (inl was) = inl was
    kept k t (inr met) = inr (All-map t.dependencies (IsMet-process clock round x.task_id s) met)

-- What makes a pass sure to start a task.
pub record IsDue (clock : ℕ → ℕ) (k : String) (t : ScheduledTask) (s : Scheduler) : Type 0 where
  pub found : Dict.get s.tasks k ≡ some t
  pub waits : is_pending t.status ≡ true
  pub due : (n : ℕ) → backing_off t.next_retry_at (clock n) ≡ false
  pub met : All (IsMet s.tasks) t.dependencies

module _ (clock : ℕ → ℕ) (k : String) (t : ScheduledTask) where
  process-due :
      (round : ℕ) (s : Scheduler)
      → IsDue clock k t s
      → (u : ScheduledTask) × (Dict.get (process clock round k s).0.tasks k ≡ some u)
        × (u.status ≡ running)
  unfolding carry_out
  process-due round s d =
      let next = record t { retry_attempts = 0; next_retry_at = none; status = running } in
      (
        next,
        rw (process-started clock round k s d.found d.waits (d.due (3 * round)) d.met)
            (ground (arith, get-put s.tasks k k next, eq_refl k)),
        refl,
      )

  pass-settled :
      (queue : List Entry) (round : ℕ) (deferred : List Entry) (s : Scheduler) (u : ScheduledTask)
      → Dict.get s.tasks k ≡ some u
      → is_pending u.status ≡ false
      → Dict.get (pass clock round queue deferred s).tasks k ≡ some u
  unfolding pass
  pass-settled [] round deferred s u at p = at
  pass-settled (x ∷ queue) round deferred s u at p =
      elim (Bool-cases (ltb (length s.running_tasks) s.max_concurrent_tasks)) [
        | inr full ↦ rw full at
        | inl room ↦ rw room (
            pass-settled queue (suc round) (deferred ++ (process clock round x.task_id s).1)
              (process clock round x.task_id s).0 u
              (process-settled clock round x.task_id s k u at p) p)
      ]

  IsDue-process :
      (round : ℕ) (j : String) (s : Scheduler)
      → str_eq j k ≡ false
      → IsDue clock k t s
      → IsDue clock k t (process clock round j s).0
  IsDue-process round j s other d = record {
    found = tasks-process clock round j s k other ∙ d.found;
    waits = d.waits;
    due = d.due;
    met = All-map t.dependencies (IsMet-process clock round j s) d.met;
  }

  pass-due :
      (queue : List Entry) (round : ℕ) (deferred : List Entry) (s : Scheduler)
      → IsDue clock k t s
      → queued queue k ≡ true
      → length s.running_tasks + length queue ≤ s.max_concurrent_tasks
      → (u : ScheduledTask) × (Dict.get (pass clock round queue deferred s).tasks k ≡ some u)
        × (u.status ≡ running)
  unfolding pass queued is_pending
  pass-due [] round deferred s d q room = absurd (ground arith)
  pass-due (x ∷ queue) round deferred s d q room =
      rw (lt→ltb (length s.running_tasks) s.max_concurrent_tasks (omega arith))
        (elim (Bool-cases (str_eq x.task_id k)) [
          | inl same ↦
              let (u, at, runs) =
                subst
                  (λ j.
                    (u : ScheduledTask) × (Dict.get (process clock round j s).0.tasks k ≡ some u)
                    × (u.status ≡ running))
                  (sym ((eq_iff x.task_id k).0 same)) (process-due round s d) in
              (
                u,
                pass-settled queue (suc round) (deferred ++ (process clock round x.task_id s).1)
                    (process clock round x.task_id s).0 u at (rw runs refl),
                runs,
              )
          | inr other ↦
              pass-due queue (suc round) (deferred ++ (process clock round x.task_id s).1)
                (process clock round x.task_id s).0 (IsDue-process round x.task_id s other d)
                (ground arith) (omega (arith, running-process clock round x.task_id s))
        ])

-- In any scheduler, sound or not, a pending task is started by the pass if it is in the queue, its
-- dependencies are all completed, it is not backing off at any time of the pass, and there is room for
-- all that the queue holds beside what runs.
pub execute_scheduled_tasks-due :
    (clock : ℕ → ℕ) (k : String) (t : ScheduledTask) (s : Scheduler)
    → queued s.execution_queue k ≡ true
    → IsDue clock k t s
    → length s.running_tasks + length s.execution_queue ≤ s.max_concurrent_tasks
    → (u : ScheduledTask) × (Dict.get (execute_scheduled_tasks clock s).tasks k ≡ some u)
      × (u.status ≡ running)
unfolding execute_scheduled_tasks queued
execute_scheduled_tasks-due clock k t s waiting d room =
    pass-due clock k t s.execution_queue 0 [] s d waiting room
