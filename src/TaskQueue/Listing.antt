-- ===== src/TaskQueue/Listing.antt =====
-- agentManager/scheduler/task_scheduler.py, `get_scheduled_tasks`.
use agent_manager.Prelude.Dict
use agent_manager.Prelude.Dict.{Dict}
use agent_manager.Prelude.Int.{ltb_ℤ}
use agent_manager.Prelude.{◌≡◌, true, false, Bool-cases, inl, inr, List, [], ◌∷◌, if◌then◌else◌}
use agent_manager.TaskQueue.Scheduler.{QueuedTask, TaskScheduler, is_scheduled}

module _ {P : Type 0} where
  -- `sorted(..., key=lambda task: task.priority, reverse=True)` keeps the order of equal priorities.
  unfoldable pub insert_by_priority : QueuedTask P → List (QueuedTask P) → List (QueuedTask P)
  insert_by_priority task [] = task ∷ []
  insert_by_priority task (next ∷ tasks) = elim (ltb_ℤ task.priority next.priority) [
    | true ↦ next ∷ insert_by_priority task tasks
    | false ↦ task ∷ next ∷ tasks
  ]

  unfoldable pub scheduled_among : List (QueuedTask P) → List (QueuedTask P)
  unfolding insert_by_priority
  scheduled_among [] = []
  scheduled_among (task ∷ tasks) =
      let rest = scheduled_among tasks in
      if is_scheduled task.status then insert_by_priority task rest else rest

  unfoldable pub get_scheduled_tasks : TaskScheduler P → List (QueuedTask P)
  unfolding scheduled_among
  get_scheduled_tasks s = scheduled_among (Dict.values s.tasks)

  -- Every task of the list is still scheduled.
  unfoldable pub AllScheduled : List (QueuedTask P) → Type 0
  AllScheduled [] = Unit
  AllScheduled (task ∷ tasks) = (is_scheduled task.status ≡ true) × AllScheduled tasks

  insert_by_priority-AllScheduled :
      (task : QueuedTask P) (tasks : List (QueuedTask P))
      → is_scheduled task.status ≡ true
      → AllScheduled tasks
      → AllScheduled (insert_by_priority task tasks)
  unfolding AllScheduled insert_by_priority
  insert_by_priority-AllScheduled task [] h a = (h, tt)
  insert_by_priority-AllScheduled task (next ∷ tasks) h (at, a) =
      elim (Bool-cases (ltb_ℤ task.priority next.priority)) [
        | inl e ↦ rw (insert_by_priority, e) (at, insert_by_priority-AllScheduled task tasks h a)
        | inr e ↦ rw (insert_by_priority, e) (h, (at, a))
      ]

  -- Only tasks that are still scheduled are listed.
  scheduled_among-AllScheduled :
      (tasks : List (QueuedTask P)) → AllScheduled (scheduled_among tasks)
  unfolding AllScheduled scheduled_among
  scheduled_among-AllScheduled [] = tt
  scheduled_among-AllScheduled (task ∷ tasks) = elim (Bool-cases (is_scheduled task.status)) [
    | inl h ↦ rw h (
        insert_by_priority-AllScheduled task (scheduled_among tasks) h
          (scheduled_among-AllScheduled tasks))
    | inr h ↦ rw h (scheduled_among-AllScheduled tasks)
  ]
