-- ===== src/SchedulerEngine/Engine.antt =====
-- engine/scheduler.py, `ScheduledTask` and the class `SchedulerEngine`. The lock, the spans and log
-- lines are left out: each method runs under the one lock, so calls do not interleave. `clock n` is
-- the time, in seconds, that the n-th reading of `utc_now` in a pass gives; a round of the loop has
-- three readings of its own, taken or not.
use agent_manager.Prelude.Dict
use agent_manager.Prelude.Dict.{Dict}
use agent_manager.Prelude.Int.{ℤ, neg}
use agent_manager.Prelude.StrSet.{StrSet, add, discard}
use agent_manager.Prelude.{
  ℕ, suc, ◌+◌, ◌*◌, String, Bool, true, false, not, Option, none, some, List, [], ◌∷◌, ◌++◌, ok,
  err, Result, length, ltb, if◌then◌else◌,
}
use agent_manager.SchedulerEngine.Queue.{Entry, heappush, requeue}

pub data Status : Type 0 where
  pending running completed failed : Status

unfoldable pub is_pending : Status → Bool
is_pending pending = true
is_pending _ = false

unfoldable pub is_completed : Status → Bool
is_completed completed = true
is_completed _ = false

unfoldable pub is_failed : Status → Bool
is_failed failed = true
is_failed _ = false

pub record Conflict : Type 0 where
  pub attempt : ℕ
  pub conflicts : List String
  pub permanent_conflicts : List String
  pub timestamp : ℕ

pub record ScheduledTask : Type 0 where
  pub task_id : String
  pub priority : ℤ
  pub status : Status
  pub dependencies : List String
  pub next_retry_at : Option ℕ
  pub retry_attempts : ℕ
  pub max_retry_attempts : ℕ
  pub conflict_history : List Conflict

pub record Scheduler : Type 0 where
  pub max_concurrent_tasks : ℕ
  pub tasks : Dict ScheduledTask
  pub execution_queue : List Entry
  pub running_tasks : StrSet
  pub completed_tasks : StrSet

pub data SchedulerError : Type 0 where
  already_scheduled task_not_found : String → SchedulerError

abbrev pub new_scheduler : ℕ → Scheduler
new_scheduler max_concurrent_tasks = record {
  max_concurrent_tasks = max_concurrent_tasks;
  tasks = [];
  execution_queue = [];
  running_tasks = [];
  completed_tasks = [];
}

unfoldable pub add_task : String → ℤ → List String → ℕ → Scheduler → Result SchedulerError Scheduler
unfolding heappush
add_task task_id priority dependencies max_retry_attempts s =
    if Dict.contains s.tasks task_id
    then err (already_scheduled task_id)
    else ok (record s {
      tasks = Dict.put s.tasks task_id (record {
        task_id = task_id;
        priority = priority;
        status = pending;
        dependencies = dependencies;
        next_retry_at = none;
        retry_attempts = 0;
        max_retry_attempts = max_retry_attempts;
        conflict_history = [];
      });
      execution_queue =
          heappush (record { neg_priority = neg priority; task_id = task_id }) s.execution_queue;
    })

-- The tests on a dependency in `detect_conflicts` and in `detect_permanent_conflict`.
unfoldable pub unmet : Option ScheduledTask → Bool
unfolding is_completed
unmet none = true
unmet (some t) = not (is_completed t.status)

unfoldable pub unavailable : Option ScheduledTask → Bool
unfolding is_failed
unavailable none = true
unavailable (some t) = is_failed t.status

-- The dependencies that a test picks, in order.
unfoldable pub picked :
    (Option ScheduledTask → Bool) → Dict ScheduledTask → List String → List String
picked test tasks [] = []
picked test tasks (dep ∷ deps) =
    let rest = picked test tasks deps in if test (Dict.get tasks dep) then dep ∷ rest else rest

unfoldable pub detect_conflicts : String → Scheduler → List String
unfolding picked unmet
detect_conflicts task_id s = elim (Dict.get s.tasks task_id) [
  | none ↦ []
  | some t ↦ picked unmet s.tasks t.dependencies
]

unfoldable pub detect_permanent_conflict : String → Scheduler → List String
unfolding picked unavailable
detect_permanent_conflict task_id s = elim (Dict.get s.tasks task_id) [
  | none ↦ []
  | some t ↦ picked unavailable s.tasks t.dependencies
]

-- What a round of the loop does with a task.
pub data Verdict : Type 0 where
  skip wait : Verdict
  start give_up back_off : ScheduledTask → Verdict

unfoldable pub is_empty {ℓ} : {A : Type ℓ} → List A → Bool
is_empty [] = true
is_empty (x ∷ xs) = false

-- `task.next_retry_at and utc_now() < task.next_retry_at`
unfoldable pub backing_off : Option ℕ → ℕ → Bool
backing_off none now = false
backing_off (some t) now = ltb now t

-- The branch for a task with conflicts.
unfoldable pub with_conflicts :
    (conflicts permanent : List String) (recorded_at now : ℕ) → ScheduledTask → Verdict
unfolding is_empty
with_conflicts conflicts permanent recorded_at now t =
    let attempts = t.retry_attempts + 1 in
    let history =
      t.conflict_history
      ++ record {
        attempt = attempts;
        conflicts = conflicts;
        permanent_conflicts = permanent;
        timestamp = recorded_at;
      }
        ∷ [] in
    if not (is_empty permanent)
    then give_up (record t {
      status = failed;
      next_retry_at = none;
      retry_attempts = attempts;
      conflict_history = history;
    })
    else if ltb t.max_retry_attempts attempts
    then give_up (record t {
      status = failed;
      next_retry_at = none;
      retry_attempts = attempts;
      conflict_history = history;
    })
    else back_off (record t {
      next_retry_at = some (now + 5);
      retry_attempts = attempts;
      conflict_history = history;
    })

unfoldable pub consider :
    (clock : ℕ → ℕ) (round : ℕ) (conflicts permanent : List String) → ScheduledTask → Verdict
unfolding with_conflicts is_pending backing_off is_empty
consider clock round conflicts permanent t =
    if not (is_pending t.status)
    then skip
    else if backing_off t.next_retry_at (clock (3 * round))
    then wait
    else if is_empty conflicts
    then start (record t { retry_attempts = 0; next_retry_at = none; status = running })
    else with_conflicts conflicts permanent (clock (3 * round + 1)) (clock (3 * round + 2)) t

-- The effect of the verdict, and the entry that is put in `deferred`.
unfoldable pub carry_out : String → ScheduledTask → Verdict → Scheduler → Scheduler × List Entry
carry_out task_id t skip s = (s, [])
carry_out task_id t wait s = (s, record { neg_priority = neg t.priority; task_id = task_id } ∷ [])
carry_out task_id t (start t') s = (
  record s { tasks = Dict.put s.tasks task_id t'; running_tasks = add s.running_tasks task_id },
  [],
)
carry_out task_id t (give_up t') s = (record s { tasks = Dict.put s.tasks task_id t' }, [])
carry_out task_id t (back_off t') s = (
  record s { tasks = Dict.put s.tasks task_id t' },
  record { neg_priority = neg t.priority; task_id = task_id } ∷ [],
)

-- The body of the loop, after the pop.
unfoldable pub process : (clock : ℕ → ℕ) → ℕ → String → Scheduler → Scheduler × List Entry
unfolding consider carry_out
process clock round task_id s = elim (Dict.get s.tasks task_id) [
  | none ↦ (s, [])
  | some t ↦
      carry_out task_id t
        (consider clock round (detect_conflicts task_id s) (detect_permanent_conflict task_id s) t)
        s
]

-- The `while` loop. Nothing is pushed in it, so it runs along the queue.
unfoldable pub pass :
    (clock : ℕ → ℕ) → ℕ → List Entry → (deferred : List Entry) → Scheduler → Scheduler
unfolding process requeue
pass clock round [] deferred s = record s { execution_queue = requeue deferred [] }
pass clock round (x ∷ queue) deferred s =
    let (s', more) = process clock round x.task_id s in
    let rest = pass clock (suc round) queue (deferred ++ more) s' in
    if ltb (length s.running_tasks) s.max_concurrent_tasks
    then rest
    else record s { execution_queue = requeue deferred (x ∷ queue) }

unfoldable pub execute_scheduled_tasks : (clock : ℕ → ℕ) → Scheduler → Scheduler
unfolding pass
execute_scheduled_tasks clock s = pass clock 0 s.execution_queue [] s

unfoldable pub mark_completed : String → Scheduler → Result SchedulerError Scheduler
mark_completed task_id s = elim (Dict.get s.tasks task_id) [
  | none ↦ err (task_not_found task_id)
  | some t ↦ ok (record s {
    tasks = Dict.put s.tasks task_id (record t { status = completed });
    running_tasks = discard s.running_tasks task_id;
    completed_tasks = add s.completed_tasks task_id;
  })
]

unfoldable pub mark_failed : String → Scheduler → Result SchedulerError Scheduler
mark_failed task_id s = elim (Dict.get s.tasks task_id) [
  | none ↦ err (task_not_found task_id)
  | some t ↦ ok (record s {
    tasks = Dict.put s.tasks task_id (record t { status = failed });
    running_tasks = discard s.running_tasks task_id;
  })
]

unfoldable pub get_task_status : String → Scheduler → Option Status
get_task_status task_id s = elim (Dict.get s.tasks task_id) [ none ↦ none | some t ↦ some t.status ]
