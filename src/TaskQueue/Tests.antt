-- ===== src/TaskQueue/Tests.antt =====
-- agentManager/scheduler/task_scheduler.py on a small input: two tasks, the second of which fails.
use agent_manager.Prelude.Dict
use agent_manager.Prelude.Int.{pos, negsuc}
use agent_manager.Prelude.{
  ℕ, String, ◌≡◌, ◌⊎◌, refl, true, if◌then◌else◌, Result, ok, err, Option, none, some, [], ◌∷◌,
  str_eq,
}
use agent_manager.Resources.Allocator.{ResourceRequest, ResourceAllocator}
use agent_manager.TaskQueue.Scheduler.{
  TaskScheduler, QueuedTask, scheduled, running, completed, failed, is_scheduled, execute_scheduled,
}
use agent_manager.TaskQueue.Executions.{execute_scheduled-allocator, execute_scheduled-answered}

abbrev small : ResourceRequest
small = record { cpu_part = 2; memory_part = 4; gpu_part = 0 }

abbrev task : String → QueuedTask ℕ
task name = record {
  task_id = name;
  payload = 7;
  priority = pos 1;
  resources = small;
  status = scheduled;
}

abbrev executor : QueuedTask ℕ → Result String ℕ
executor t = if str_eq t.task_id "bad" then err "broken" else ok t.payload

abbrev two_tasks : Option ResourceAllocator → TaskScheduler ℕ
two_tasks allocator = record {
  resource_allocator = allocator;
  tasks = ("good", task "good") ∷ ("bad", task "bad") ∷ [];
  queue = record {
    items =
        record { neg_priority = negsuc 0; order = 0; item = "good" }
        ∷ record { neg_priority = negsuc 0; order = 1; item = "bad" }
        ∷ [];
    counter = 2;
  };
}

abbrev of_four : ResourceAllocator
of_four = record {
  capacity = record { cpu_part = 4; memory_part = 16; gpu_part = 0 };
  allocations = [];
}

execute_scheduled-allocator_example :
    (execute_scheduled executor (some 5) (two_tasks (some of_four))).1.resource_allocator
    ≡ some of_four
execute_scheduled-allocator_example =
    execute_scheduled-allocator executor (some 5) (two_tasks (some of_four))

good_found : Dict.get (two_tasks none).tasks "good" ≡ some (task "good")
unfolding Dict.get
good_found = refl

all_known :
    (Dict.contains (two_tasks none).tasks "good" ≡ true)
    × ((Dict.contains (two_tasks none).tasks "bad" ≡ true) × Unit {0})
unfolding Dict.contains
all_known = (refl, (refl, tt))

good_waits : is_scheduled (task "good").status ≡ true
unfolding is_scheduled
good_waits = refl

execute_scheduled-answered_example :
    ((r : ℕ) × (executor (record (task "good") { status = running }) ≡ ok r)
      × (Dict.get (execute_scheduled executor none (two_tasks none)).1.tasks "good"
          ≡ some (record (task "good") { status = completed })))
    ⊎ ((e : String) × (executor (record (task "good") { status = running }) ≡ err e)
        × (Dict.get (execute_scheduled executor none (two_tasks none)).1.tasks "good"
            ≡ some (record (task "good") { status = failed })))
execute_scheduled-answered_example =
    execute_scheduled-answered executor (two_tasks none) "good" (task "good") refl all_known refl
      good_found good_waits
