-- ===== src/SchedulerEngine/Runs.antt =====
-- engine/scheduler.py: every scheduler that calls of its methods lead to.
use agent_manager.Prelude.Dict
use agent_manager.Prelude.Dict.{get-put, contains-get}
use agent_manager.Prelude.Int.{ℤ, neg}
use agent_manager.Prelude.StrSet
use agent_manager.Prelude.StrSet.{
  StrSet, discard, member, member-add, member-discard, length-discard,
}
use agent_manager.Prelude.{
  ℕ, String, ◌≡◌, refl, inl, inr, true, false, some, none, List, [], ◌∷◌, arith, eq_iff, eq_refl,
  Bool-cases, Option-cases, ok, err, Result,
}
use agent_manager.SchedulerEngine.Queue.{queued, queued-heappush}
use agent_manager.SchedulerEngine.Engine.{
  Scheduler, ScheduledTask, SchedulerError, Status, pending, completed, failed, new_scheduler,
  add_task, execute_scheduled_tasks, mark_completed, mark_failed, is_pending, get_task_status,
}
use agent_manager.SchedulerEngine.Verdicts.{IsCounted}
use agent_manager.SchedulerEngine.Invariant.{
  IsSound, running_at, IsCounted-put, execute_scheduled_tasks-IsSound,
}

pub data Call : Type 0 where
  add : String → ℤ → List String → ℕ → Call
  execute : (clock : ℕ → ℕ) → Call
  complete fail : String → Call

or_unchanged : Scheduler → Result SchedulerError Scheduler → Scheduler
or_unchanged s (ok s') = s'
or_unchanged s (err e) = s

unfoldable pub run : List Call → Scheduler → Scheduler
unfolding or_unchanged
run [] s = s
run (add k p deps retries ∷ cs) s = run cs (or_unchanged s (add_task k p deps retries s))
run (execute clock ∷ cs) s = run cs (execute_scheduled_tasks clock s)
run (complete k ∷ cs) s = run cs (or_unchanged s (mark_completed k s))
run (fail k ∷ cs) s = run cs (or_unchanged s (mark_failed k s))

pub new_scheduler-IsSound : (n : ℕ) → IsSound (new_scheduler n)
unfolding member Dict.get
new_scheduler-IsSound n = record {
  running = λ k. refl;
  waiting = λ k t h p. cc;
  bounded = omega arith;
  counted = λ k t h. cc;
}

add_task-IsSound :
    (k : String) (p : ℤ) (deps : List String) (retries : ℕ) (s : Scheduler)
    → IsSound s
    → IsSound (or_unchanged s (add_task k p deps retries s))
unfolding add_task or_unchanged queued
add_task-IsSound k p deps retries s i = elim (Bool-cases (Dict.contains s.tasks k)) [
  | inl old ↦ rw old i
  | inr new ↦ rw new (record {
    running = λ j.
        ground (arith, get-put s.tasks k j fresh, i.running j, contains-get s.tasks k, eq_iff k j);
    waiting = λ j t h q. ground (
      arith,
      get-put s.tasks k j fresh,
      queued-heappush (record { neg_priority = neg p; task_id = k }) s.execution_queue j,
      i.waiting j t,
    );
    bounded = i.bounded;
    counted = IsCounted-put s.tasks k fresh fresh-IsCounted i.counted;
  })
]
  where
    fresh : ScheduledTask
    fresh = record {
      task_id = k;
      priority = p;
      status = pending;
      dependencies = deps;
      next_retry_at = none;
      retry_attempts = 0;
      max_retry_attempts = retries;
      conflict_history = [];
    }

    fresh-IsCounted : IsCounted fresh
    fresh-IsCounted = record { all = omega arith; waiting = λ q. refl; allowed = λ q. omega arith }

-- A task that leaves the running ones for a final status.
module _ (k : String) (s : Scheduler) (i : IsSound s) {t : ScheduledTask}
    (found : Dict.get s.tasks k ≡ some t) (status : Status)
    (final : (is_pending status ≡ false)
      × (running_at (some (record t { status = status })) ≡ false)) where
  finish-IsSound :
      (done : StrSet)
      → IsSound (record s {
        tasks = Dict.put s.tasks k (record t { status = status });
        running_tasks = discard s.running_tasks k;
        completed_tasks = done;
      })
  finish-IsSound done = record {
    running = λ j. ground (
      arith,
      get-put s.tasks k j (record t { status = status }),
      member-discard s.running_tasks k j,
      i.running j,
    );
    waiting = λ j u h q.
        ground (arith, get-put s.tasks k j (record t { status = status }), i.waiting j u);
    bounded = omega (arith, length-discard s.running_tasks k, i.bounded);
    counted = IsCounted-put s.tasks k (record t { status = status }) settled i.counted;
  }
    where
      settled : IsCounted (record t { status = status })
      settled = record { all = (i.counted k t found).all; waiting = λ q. cc; allowed = λ q. cc }

mark_completed-IsSound :
    (k : String) (s : Scheduler) → IsSound s → IsSound (or_unchanged s (mark_completed k s))
unfolding mark_completed or_unchanged is_pending
mark_completed-IsSound k s i = elim (Option-cases (Dict.get s.tasks k)) [
  | inl missing ↦ rw (missing, mark_completed, or_unchanged) i
  | inr (t, found) ↦
      rw (found, mark_completed, or_unchanged)
        (finish-IsSound k s i found completed (refl, refl) (StrSet.add s.completed_tasks k))
]

mark_failed-IsSound :
    (k : String) (s : Scheduler) → IsSound s → IsSound (or_unchanged s (mark_failed k s))
unfolding mark_failed or_unchanged is_pending
mark_failed-IsSound k s i = elim (Option-cases (Dict.get s.tasks k)) [
  | inl missing ↦ rw (missing, mark_failed, or_unchanged) i
  | inr (t, found) ↦
      rw (found, mark_failed, or_unchanged)
        (finish-IsSound k s i found failed (refl, refl) s.completed_tasks)
]

run_from-IsSound : (calls : List Call) (s : Scheduler) → IsSound s → IsSound (run calls s)
unfolding run
run_from-IsSound [] s i = i
run_from-IsSound (add k p deps retries ∷ cs) s i =
    run_from-IsSound cs (or_unchanged s (add_task k p deps retries s))
      (add_task-IsSound k p deps retries s i)
run_from-IsSound (execute clock ∷ cs) s i =
    run_from-IsSound cs (execute_scheduled_tasks clock s)
      (execute_scheduled_tasks-IsSound clock s i)
run_from-IsSound (complete k ∷ cs) s i =
    run_from-IsSound cs (or_unchanged s (mark_completed k s)) (mark_completed-IsSound k s i)
run_from-IsSound (fail k ∷ cs) s i =
    run_from-IsSound cs (or_unchanged s (mark_failed k s)) (mark_failed-IsSound k s i)

-- Whatever is called on a new scheduler, in whatever order and at whatever times: the set of running
-- tasks holds exactly the tasks whose status is "running", no more of them than allowed; every
-- pending task is in the queue; and each task has on record at most one conflict more than its
-- `max_retry_attempts`, while it is pending one for each of its retry attempts, which are at most
-- `max_retry_attempts`.
pub run-IsSound : (n : ℕ) (calls : List Call) → IsSound (run calls (new_scheduler n))
run-IsSound n calls = run_from-IsSound calls (new_scheduler n) (new_scheduler-IsSound n)

-- A task that was completed and is then marked as failed has the status "failed", and
-- `get_completed_tasks` goes on listing it.
pub mark_failed-completed :
    (k : String) (s : Scheduler) (t : ScheduledTask)
    → Dict.get s.tasks k ≡ some t
    → member s.completed_tasks k ≡ true
    → (s' : Scheduler) × (mark_failed k s ≡ ok s')
      × (get_task_status k s' ≡ some failed)
      × (member s'.completed_tasks k ≡ true)
unfolding mark_failed get_task_status
mark_failed-completed k s t found listed = (
  record s {
    tasks = Dict.put s.tasks k (record t { status = failed });
    running_tasks = discard s.running_tasks k;
  },
  ground arith,
  ground (arith, get-put s.tasks k k (record t { status = failed }), eq_refl k),
  listed,
)
