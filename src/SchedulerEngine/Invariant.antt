-- ===== src/SchedulerEngine/Invariant.antt =====
-- engine/scheduler.py: the invariant of `SchedulerEngine`, which every method keeps.
use mathlib.Core.List.{append-nil}
use agent_manager.Prelude.Dict
use agent_manager.Prelude.Dict.{Dict, get-put, contains-get}
use agent_manager.Prelude.Int.{neg}
use agent_manager.Prelude.StrSet.{member, member-add, length-add}
use agent_manager.Prelude.{
  ℕ, suc, ◌≤◌, ◌<◌, String, ◌≡◌, ◌⊎◌, subst, inl, inr, Bool, true, false, Option, none, some, List,
  [], ◌∷◌, ◌++◌, length, arith, str_eq, eq_iff, if◌then◌else◌, Bool-cases, Option-cases, ltb,
  ltb→lt,
}
use agent_manager.SchedulerEngine.Queue.{Entry, queued, requeue, queued-requeue, queued-append}
use agent_manager.SchedulerEngine.Engine.{
  running, is_pending, ScheduledTask, Scheduler, Verdict, skip, wait, start, give_up, back_off,
  consider, carry_out, process, pass, execute_scheduled_tasks, detect_conflicts,
  detect_permanent_conflict,
}
use agent_manager.SchedulerEngine.Verdicts.{IsCounted, Fits, consider-Fits}

abbrev pub running_at : Option ScheduledTask → Bool
running_at none = false
running_at (some t) = elim t.status [ running ↦ true | _ ↦ false ]

-- In the loop: `queue` is what is left of the queue.
pub record InLoop (queue deferred : List Entry) (s : Scheduler) : Type 0 where
  -- the set of running tasks is that of the tasks whose status says so
  pub running : (k : String) → member s.running_tasks k ≡ running_at (Dict.get s.tasks k)
  -- no pending task is lost: it is in the queue or deferred
  pub waiting :
      (k : String) (t : ScheduledTask)
      → Dict.get s.tasks k ≡ some t
      → is_pending t.status ≡ true
      → (if queued queue k then true else queued deferred k) ≡ true
  -- no more tasks run than allowed
  pub bounded : length s.running_tasks ≤ s.max_concurrent_tasks
  -- the conflicts of each task are on record, and their number is bounded
  pub counted : (k : String) (t : ScheduledTask) → Dict.get s.tasks k ≡ some t → IsCounted t

abbrev pub IsSound : Scheduler → Type 0
IsSound s = InLoop s.execution_queue [] s

-- A write of one task to the dictionary.
pub IsCounted-put :
    (tasks : Dict ScheduledTask) (k : String) (t' : ScheduledTask)
    → IsCounted t'
    → ((j : String) (u : ScheduledTask) → Dict.get tasks j ≡ some u → IsCounted u)
    → (j : String) (u : ScheduledTask) → Dict.get (Dict.put tasks k t') j ≡ some u
    → IsCounted u
IsCounted-put tasks k t' c all j u at = elim (Bool-cases (str_eq k j)) [
  | inl same ↦ let e : t' ≡ u = ground (arith, get-put tasks k j t') in subst IsCounted e c
  | inr other ↦ all j u (rw (get-put, other) at at)
]

abbrev deferral : String → ScheduledTask → List Entry
deferral task_id t = record { neg_priority = neg t.priority; task_id = task_id } ∷ []

module _ (x : Entry) (queue deferred : List Entry) (s : Scheduler)
    (i : InLoop (x ∷ queue) deferred s) {t : ScheduledTask}
    (found : Dict.get s.tasks x.task_id ≡ some t) where
  -- A pending task other than the popped one is still in the queue or deferred.
  still_waiting :
      (k : String) (u : ScheduledTask) (more : List Entry)
      → str_eq x.task_id k ≡ false
      → Dict.get s.tasks k ≡ some u
      → is_pending u.status ≡ true
      → (if queued queue k then true else queued (deferred ++ more) k) ≡ true
  unfolding queued
  still_waiting k u more other at p =
      ground (arith, i.waiting k u at p, queued-append deferred more k)

  -- A task other than the popped one, after a write to the popped one.
  put_cases :
      (t' : ScheduledTask) (k : String) (u : ScheduledTask)
      → Dict.get (Dict.put s.tasks x.task_id t') k ≡ some u
      → (str_eq x.task_id k ≡ true) × (u ≡ t')
        ⊎ (str_eq x.task_id k ≡ false) × (Dict.get s.tasks k ≡ some u)
  put_cases t' k u at = ground (arith, get-put s.tasks x.task_id k t')

  carry_out-InLoop :
      (conflicts : List String) (v : Verdict)
      → Fits conflicts t v
      → length s.running_tasks < s.max_concurrent_tasks
      → InLoop queue (deferred ++ (carry_out x.task_id t v s).1) (carry_out x.task_id t v s).0
  unfolding carry_out queued is_pending
  carry_out-InLoop conflicts skip f room = record {
    running = i.running;
    waiting = λ k u at p. elim (Bool-cases (str_eq x.task_id k)) [
      | inl same ↦ ground (arith, eq_iff x.task_id k)
      | inr other ↦ still_waiting k u [] other at p
    ];
    bounded = i.bounded;
    counted = i.counted;
  }
  carry_out-InLoop conflicts wait f room = record {
    running = i.running;
    waiting = λ k u at p. elim (Bool-cases (str_eq x.task_id k)) [
      | inl same ↦ ground (arith, queued-append deferred (deferral x.task_id t) k)
      | inr other ↦ still_waiting k u _ other at p
    ];
    bounded = i.bounded;
    counted = i.counted;
  }
  carry_out-InLoop conflicts (start t') f room = record {
    running = λ k. ground (
      arith,
      member-add s.running_tasks x.task_id k,
      get-put s.tasks x.task_id k t',
      i.running k,
    );
    waiting = λ k u at p. elim (put_cases t' k u at) [
      | inl (_, e) ↦ ground arith
      | inr (other, old) ↦ still_waiting k u [] other old p
    ];
    bounded = omega (arith, length-add s.running_tasks x.task_id);
    counted = IsCounted-put s.tasks x.task_id t' f.3 i.counted;
  }
  carry_out-InLoop conflicts (give_up t') f room = record {
    running = λ k. ground (arith, get-put s.tasks x.task_id k t', i.running k, eq_iff x.task_id k);
    waiting = λ k u at p. elim (put_cases t' k u at) [
      | inl (_, e) ↦ ground arith
      | inr (other, old) ↦ still_waiting k u [] other old p
    ];
    bounded = i.bounded;
    counted = IsCounted-put s.tasks x.task_id t' f.3 i.counted;
  }
  carry_out-InLoop conflicts (back_off t') f room = record {
    running = λ k. ground (arith, get-put s.tasks x.task_id k t', i.running k, eq_iff x.task_id k);
    waiting = λ k u at p. elim (put_cases t' k u at) [
      | inl (same, e) ↦ ground (arith, queued-append deferred (deferral x.task_id t) k)
      | inr (other, old) ↦ still_waiting k u _ other old p
    ];
    bounded = i.bounded;
    counted = IsCounted-put s.tasks x.task_id t' f.3 i.counted;
  }

  process-InLoop :
      (clock : ℕ → ℕ) (round : ℕ)
      → length s.running_tasks < s.max_concurrent_tasks
      → InLoop queue
          (deferred ++ (process clock round x.task_id s).1)
          (process clock round x.task_id s).0
  unfolding process
  process-InLoop clock round room =
      rw (process, found)
        (carry_out-InLoop (detect_conflicts x.task_id s)
          (consider clock round (detect_conflicts x.task_id s)
            (detect_permanent_conflict x.task_id s) t)
          (consider-Fits (detect_conflicts x.task_id s) (detect_permanent_conflict x.task_id s) t
            (i.counted x.task_id t found) clock round)
          room)

-- A popped name that is no task is dropped.
process-unknown :
    (clock : ℕ → ℕ) (round : ℕ) (x : Entry) (queue deferred : List Entry) (s : Scheduler)
    → InLoop (x ∷ queue) deferred s
    → Dict.get s.tasks x.task_id ≡ none
    → InLoop queue
        (deferred ++ (process clock round x.task_id s).1)
        (process clock round x.task_id s).0
unfolding queued process
process-unknown clock round x queue deferred s i unknown =
    rw (process, unknown, append-nil)
      (record {
        running = i.running;
        waiting = λ k u at p. ground (arith, i.waiting k u at p, eq_iff x.task_id k);
        bounded = i.bounded;
        counted = i.counted;
      })

-- One round of the loop, the pop included.
pub round-InLoop :
    (clock : ℕ → ℕ) (round : ℕ) (x : Entry) (queue deferred : List Entry) (s : Scheduler)
    → InLoop (x ∷ queue) deferred s
    → length s.running_tasks < s.max_concurrent_tasks
    → InLoop queue
        (deferred ++ (process clock round x.task_id s).1)
        (process clock round x.task_id s).0
round-InLoop clock round x queue deferred s i room =
    elim (Option-cases (Dict.get s.tasks x.task_id)) [
      | inl unknown ↦ process-unknown clock round x queue deferred s i unknown
      | inr (t, found) ↦ process-InLoop x queue deferred s i found clock round room
    ]

requeue-IsSound :
    (queue deferred : List Entry) (s : Scheduler)
    → InLoop queue deferred s
    → IsSound (record s { execution_queue = requeue deferred queue })
unfolding queued
requeue-IsSound queue deferred s i = record {
  running = i.running;
  waiting = λ k u at p. ground (arith, i.waiting k u at p, queued-requeue deferred queue k);
  bounded = i.bounded;
  counted = i.counted;
}

pass-IsSound :
    (clock : ℕ → ℕ) (queue : List Entry) (round : ℕ) (deferred : List Entry) (s : Scheduler)
    → InLoop queue deferred s
    → IsSound (pass clock round queue deferred s)
unfolding pass
pass-IsSound clock [] round deferred s i = requeue-IsSound [] deferred s i
pass-IsSound clock (x ∷ queue) round deferred s i =
    elim (Bool-cases (ltb (length s.running_tasks) s.max_concurrent_tasks)) [
      | inr full ↦ rw full (requeue-IsSound (x ∷ queue) deferred s i)
      | inl room ↦ rw room (
          pass-IsSound clock queue (suc round) (deferred ++ (process clock round x.task_id s).1)
            (process clock round x.task_id s).0
            (round-InLoop clock round x queue deferred s i (ltb→lt _ _ room)))
    ]

-- A pass over the queue keeps the invariant.
pub execute_scheduled_tasks-IsSound :
    (clock : ℕ → ℕ) (s : Scheduler) → IsSound s → IsSound (execute_scheduled_tasks clock s)
unfolding execute_scheduled_tasks
execute_scheduled_tasks-IsSound clock s i = pass-IsSound clock s.execution_queue 0 [] s i
