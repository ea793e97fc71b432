-- ===== src/TaskQueue/Scheduler.antt =====
-- agentManager/scheduler/task_scheduler.py, `TaskScheduler`. The payload is of a type `P`; the executor
-- is a parameter, which returns an `R` or raises with a message.
use agent_manager.Prelude.Dict
use agent_manager.Prelude.Dict.{Dict}
use agent_manager.Prelude.Int.{ℤ}
use agent_manager.Prelude.{
  ℕ, String, Bool, true, false, Result, ok, err, Option, none, some, List, [], ◌∷◌, ◌++◌, length,
  ltb, if◌then◌else◌,
}
use agent_manager.Resources.Allocator.{ResourceRequest, ResourceAllocator, allocate, release}
use agent_manager.TaskQueue.Queue.{Item, PriorityQueue, new_queue, push}

pub data TaskStatus : Type 0 where
  scheduled running completed failed : TaskStatus

unfoldable pub is_scheduled : TaskStatus → Bool
is_scheduled scheduled = true
is_scheduled _ = false

pub record QueuedTask (P : Type 0) : Type 0 where
  pub task_id : String
  pub payload : P
  pub priority : ℤ
  pub resources : ResourceRequest
  pub status : TaskStatus

pub record TaskScheduler (P : Type 0) : Type 0 where
  pub resource_allocator : Option ResourceAllocator
  pub tasks : Dict (QueuedTask P)
  pub queue : PriorityQueue String

pub data QueueError : Type 0 where
  already_scheduled missing_key : String → QueueError

-- An entry of the results: the dictionary with "result", or the one with "error".
pub data Outcome (R : Type 0) : Type 0 where
  finished : (task_id : String) (result : R) → Outcome R
  broken : (task_id error : String) → Outcome R

abbrev pub new_scheduler_with : {P : Type 0} → Option ResourceAllocator → TaskScheduler P
new_scheduler_with resource_allocator = record {
  resource_allocator = resource_allocator;
  tasks = [];
  queue = new_queue;
}

unfoldable pub schedule :
    {P : Type 0}
    → String
    → P
    → ℤ
    → ResourceRequest
    → TaskScheduler P
    → Result QueueError (TaskScheduler P)
unfolding push
schedule task_id payload priority resources s =
    if Dict.contains s.tasks task_id
    then err (already_scheduled task_id)
    else ok (record s {
      tasks = Dict.put s.tasks task_id (record {
        task_id = task_id;
        payload = payload;
        priority = priority;
        resources = resources;
        status = scheduled;
      });
      queue = push task_id priority s.queue;
    })

-- `len(results) < limit` or no limit
unfoldable pub below : {R : Type 0} → Option ℕ → List R → Bool
below none results = true
below (some limit) results = ltb (length results) limit

module _ {P R : Type 0} (executor : QueuedTask P → Result String R) where
  -- The allocation for a task, unless it is refused.
  unfoldable pub reserve : QueuedTask P → TaskScheduler P → Option (TaskScheduler P)
  reserve task s = elim s.resource_allocator [
    | none ↦ some s
    | some a ↦ elim (allocate task.task_id task.resources a).0 [
      | true ↦
          some (record s { resource_allocator = some (allocate task.task_id task.resources a).1 })
      | false ↦ none
    ]
  ]

  unfoldable pub give_back : String → Option ResourceAllocator → Option ResourceAllocator
  give_back task_id none = none
  give_back task_id (some a) = some (release task_id a)

  -- The status that the executor's answer leads to, and the entry for the results.
  unfoldable pub status_after : Result String R → TaskStatus
  status_after (ok r) = completed
  status_after (err e) = failed

  unfoldable pub outcome : String → Result String R → Outcome R
  outcome task_id (ok r) = finished task_id r
  outcome task_id (err e) = broken task_id e

  -- From `task.status = "running"` on; `key` is the task's key in `_tasks`.
  unfoldable pub attempt : String → QueuedTask P → TaskScheduler P → Outcome R × TaskScheduler P
  unfolding give_back status_after outcome
  attempt key task s =
      let answer = executor (record task { status = running }) in
      (
        outcome task.task_id answer,
        record s {
          tasks = Dict.put s.tasks key (record task { status = status_after answer });
          resource_allocator = give_back task.task_id s.resource_allocator;
        },
      )

  abbrev with_items : List (Item String) → TaskScheduler P → TaskScheduler P
  with_items items s = record s { queue = record { items = items; counter = s.queue.counter } }

  -- The `while` loop. The push of a task that is refused ends it, so it runs along the queue.
  unfoldable pub loop :
      Option ℕ
      → List (Item String)
      → List (Outcome R)
      → TaskScheduler P
      → Result QueueError (List (Outcome R)) × TaskScheduler P
  unfolding below reserve attempt is_scheduled push
  loop limit [] results s = (ok results, with_items [] s)
  loop limit (x ∷ items) results s = elim (below limit results) [
    | false ↦ (ok results, with_items (x ∷ items) s)
    | true ↦ elim (Dict.get s.tasks x.item) [
      | none ↦ (err (missing_key x.item), with_items items s)
      | some task ↦ elim (is_scheduled task.status) [
        | false ↦ loop limit items results s
        | true ↦ elim (reserve task s) [
          | none ↦ (
            ok results,
            record s {
              queue =
                  push x.item task.priority (record { items = items; counter = s.queue.counter });
            },
          )
          | some s' ↦
              loop limit items (results ++ (attempt x.item task s').0 ∷ [])
                (attempt x.item task s').1
        ]
      ]
    ]
  ]

  unfoldable pub execute_scheduled :
      Option ℕ → TaskScheduler P → Result QueueError (List (Outcome R)) × TaskScheduler P
  unfolding loop
  execute_scheduled limit s = loop limit s.queue.items [] s
