-- ===== src/SchedulerEngine/Tests.antt =====
-- engine/scheduler.py on small inputs: a scheduler with room for two tasks, the second of which
-- depends on the first.
use agent_manager.Prelude.Dict
use agent_manager.Prelude.Dict.{Dict}
use agent_manager.Prelude.Int.{pos, neg, ltb_ℤ}
use agent_manager.Prelude.StrSet
use agent_manager.Prelude.StrSet.{member}
use agent_manager.Prelude.{ℕ, ◌≡◌, refl, true, some, none, List, [], ◌∷◌, arith, ◌≤◌, ◌+◌, length}
use agent_manager.SchedulerEngine.Queue.{before, heappush, requeue, queued}
use agent_manager.SchedulerEngine.Engine.{
  Scheduler, ScheduledTask, pending, running, completed, new_scheduler, add_task,
  execute_scheduled_tasks, mark_completed, mark_failed, get_task_status, is_pending, backing_off,
  detect_conflicts, detect_permanent_conflict,
}
use agent_manager.SchedulerEngine.Invariant.{IsSound}
use agent_manager.SchedulerEngine.Runs.{Call, add, execute, complete, run, run-IsSound}
use agent_manager.SchedulerEngine.Passes.{IsDue, execute_scheduled_tasks-due}

abbrev noon : ℕ → ℕ
noon n = 43200

abbrev added : List Call
added = add "build" (pos 1) [] 2 ∷ add "test" (pos 3) ("build" ∷ []) 2 ∷ []

abbrev first_pass : List Call
first_pass = add "build" (pos 1) [] 2 ∷ add "test" (pos 3) ("build" ∷ []) 2 ∷ execute noon ∷ []

abbrev built : List Call
built = add "build" (pos 1) [] 2 ∷ complete "build" ∷ []

abbrev fresh : Scheduler
fresh = run added (new_scheduler 2)

abbrev build : ScheduledTask
build = record {
  task_id = "build";
  priority = pos 1;
  status = pending;
  dependencies = [];
  next_retry_at = none;
  retry_attempts = 0;
  max_retry_attempts = 2;
  conflict_history = [];
}

program : Unit {0}
unfolding requeue heappush run add_task execute_scheduled_tasks mark_completed mark_failed
    get_task_status Dict.get Dict.put Dict.contains is_pending before ltb_ℤ neg detect_conflicts
    detect_permanent_conflict
program = tt

test-waits : get_task_status "test" (run first_pass (new_scheduler 2)) ≡ some pending
unfolding program
test-waits = refl

build-started :
    Dict.get (execute_scheduled_tasks noon fresh).tasks "build"
    ≡ some (record build { status = running })
unfolding program
build-started = refl

run-IsSound_example : IsSound (run first_pass (new_scheduler 2))
run-IsSound_example = run-IsSound 2 first_pass

build-found : Dict.get fresh.tasks "build" ≡ some build
unfolding program
build-found = refl

build-listed : member (run built (new_scheduler 2)).completed_tasks "build" ≡ true
unfolding program member StrSet.add
build-listed = refl

build-done :
    Dict.get (run built (new_scheduler 2)).tasks "build"
    ≡ some (record build { status = completed })
unfolding program
build-done = refl

abbrev after_build : Scheduler
after_build =
    run (add "build" (pos 1) [] 2 ∷ complete "build" ∷ add "test" (pos 3) ("build" ∷ []) 2 ∷ [])
      (new_scheduler 2)

abbrev test : ScheduledTask
test = record build {
  task_id = "test";
  priority = pos 3;
  status = running;
  dependencies = "build" ∷ [];
}

build-queued : queued fresh.execution_queue "build" ≡ true
unfolding program queued
build-queued = refl

build-IsDue : IsDue noon "build" build fresh
unfolding is_pending backing_off
build-IsDue = record { found = build-found; waits = refl; due = λ n. refl; met = tt }

both_fit : length fresh.running_tasks + length fresh.execution_queue ≤ fresh.max_concurrent_tasks
unfolding program
both_fit = omega arith

execute_scheduled_tasks-due_example :
    (u : ScheduledTask) × (Dict.get (execute_scheduled_tasks noon fresh).tasks "build" ≡ some u)
    × (u.status ≡ running)
execute_scheduled_tasks-due_example =
    execute_scheduled_tasks-due noon "build" build fresh build-queued build-IsDue both_fit
