-- ===== src/TaskQueue/Executions.antt =====
-- agentManager/scheduler/task_scheduler.py: what `execute_scheduled` does to the allocations and to the
-- tasks.
use agent_manager.Prelude.Dict
use agent_manager.Prelude.Dict.{Dict, get-put, contains-get, contains-put}
use agent_manager.Prelude.{
  ℕ, String, ◌≡◌, refl, ◌∙◌, ap, sym, subst, Bool, true, false, Result, ok, err, Option, none, some,
  List, [], ◌∷◌, ◌++◌, arith, ◌⊎◌, inl, inr, Bool-cases, Option-cases, Result-cases, str_eq, eq_iff,
  All, All-map, if◌then◌else◌,
}
use agent_manager.Resources.Allocator.{allocate}
use agent_manager.Resources.AllocatorRuns.{release-allocate}
use agent_manager.TaskQueue.Queue.{Item}
use agent_manager.TaskQueue.Scheduler.{
  running, completed, failed, is_scheduled, QueuedTask, TaskScheduler, Outcome, below, reserve,
  give_back, status_after, attempt, loop, execute_scheduled,
}

same_some : {A : Type 0} (a b : A) → some a ≡ some b → a ≡ b
same_some a b e = cc

none-some : {A : Type 0} (a : A) → none ≡ some a → ⊥
none-some a e = cc

module _ {P R : Type 0} (executor : QueuedTask P → Result String R) where
  reserve-give_back :
      (task : QueuedTask P) (s s' : TaskScheduler P)
      → reserve executor task s ≡ some s'
      → give_back executor task.task_id s'.resource_allocator ≡ s.resource_allocator
  unfolding reserve give_back
  reserve-give_back task s s' e = elim (Option-cases s.resource_allocator) [
    | inl without ↦
        subst Returned (same_some s s' (rw (reserve, without) at e)) (rw (without, give_back) refl)
    | inr (a, with_one) ↦ elim (Bool-cases (allocate task.task_id task.resources a).0) [
      | inr refused ↦ absurd (none-some s' (rw (reserve, with_one, refused) at e))
      | inl granted ↦
          subst Returned (same_some _ s' (rw (reserve, with_one, granted) at e))
            (ap some (release-allocate task.resources a task.task_id granted) ∙ sym with_one)
    ]
  ]
    where
      Returned : TaskScheduler P → Type 0
      Returned u = give_back executor task.task_id u.resource_allocator ≡ s.resource_allocator

  loop-allocator :
      (limit : Option ℕ) (items : List (Item String)) (results : List (Outcome R))
      (s : TaskScheduler P)
      → (loop executor limit items results s).1.resource_allocator ≡ s.resource_allocator
  unfolding loop attempt
  loop-allocator limit [] results s = refl
  loop-allocator limit (x ∷ items) results s = elim (Bool-cases (below limit results)) [
    | inr full ↦ rw (full, loop) refl
    | inl room ↦ elim (Option-cases (Dict.get s.tasks x.item)) [
      | inl missing ↦ rw (loop, room, missing) refl
      | inr (task, found) ↦ elim (Bool-cases (is_scheduled task.status)) [
        | inr other ↦ rw (loop, room, found, other) (loop-allocator limit items results s)
        | inl waits ↦ elim (Option-cases (reserve executor task s)) [
          | inl refused ↦ rw (loop, room, found, waits, refused) refl
          | inr (s', granted) ↦
              rw (loop, room, found, waits, granted)
                (loop-allocator limit items (results ++ (attempt executor x.item task s').0 ∷ [])
                    (attempt executor x.item task s').1
                  ∙ reserve-give_back task s s' granted)
        ]
      ]
    ]
  ]

  -- `execute_scheduled` leaves the allocations as they were, whatever the executor answers or raises
  -- and wherever the loop ends, with an error too.
  pub execute_scheduled-allocator :
      (limit : Option ℕ) (s : TaskScheduler P)
      → (execute_scheduled executor limit s).1.resource_allocator ≡ s.resource_allocator
  unfolding execute_scheduled
  execute_scheduled-allocator limit s = loop-allocator limit s.queue.items [] s

  reserve-tasks :
      (task : QueuedTask P) (s s' : TaskScheduler P)
      → reserve executor task s ≡ some s'
      → s'.tasks ≡ s.tasks
  unfolding reserve
  reserve-tasks task s s' e = elim (Option-cases s.resource_allocator) [
    | inl without ↦ subst Kept (same_some s s' (rw (reserve, without) at e)) refl
    | inr (a, with_one) ↦ elim (Bool-cases (allocate task.task_id task.resources a).0) [
      | inr refused ↦ absurd (none-some s' (rw (reserve, with_one, refused) at e))
      | inl granted ↦ subst Kept (same_some _ s' (rw (reserve, with_one, granted) at e)) refl
    ]
  ]
    where
      Kept : TaskScheduler P → Type 0
      Kept u = u.tasks ≡ s.tasks

  abbrev pub answered : QueuedTask P → QueuedTask P
  answered task = record task {
    status = status_after executor (executor (record task { status = running }));
  }

  is_scheduled-answered : (task : QueuedTask P) → is_scheduled (answered task).status ≡ false
  unfolding is_scheduled status_after
  is_scheduled-answered task =
      elim (executor (record task { status = running }))
        as (λ r. is_scheduled (status_after executor r) ≡ false) [ ok r ↦ refl | err e ↦ refl ]

  tasks-attempt :
      (k : String) (task : QueuedTask P) (s : TaskScheduler P)
      → (attempt executor k task s).1.tasks ≡ Dict.put s.tasks k (answered task)
  unfolding attempt
  tasks-attempt k task s = refl

  get-attempt :
      (j k : String) (task : QueuedTask P) (s s' : TaskScheduler P)
      → reserve executor task s ≡ some s'
      → Dict.get (attempt executor j task s').1.tasks k
        ≡ (if str_eq j k then some (answered task) else Dict.get s.tasks k)
  get-attempt j k task s s' e =
      rw (tasks-attempt j task s', reserve-tasks task s s' e) (get-put s.tasks j k (answered task))

  distinct_keys :
      (tasks : Dict (QueuedTask P)) (j k : String) (t u : QueuedTask P)
      → Dict.get tasks j ≡ some t
      → is_scheduled t.status ≡ true
      → Dict.get tasks k ≡ some u
      → is_scheduled u.status ≡ false
      → str_eq j k ≡ false
  distinct_keys tasks j k t u t_found t_waits u_found u_settled = ground (arith, eq_iff j k)

  -- A task that is not waiting stays as it is.
  loop-settled :
      (limit : Option ℕ) (items : List (Item String)) (results : List (Outcome R))
      (s : TaskScheduler P) (k : String) (u : QueuedTask P)
      → Dict.get s.tasks k ≡ some u
      → is_scheduled u.status ≡ false
      → Dict.get (loop executor limit items results s).1.tasks k ≡ some u
  unfolding loop
  loop-settled limit [] results s k u at p = at
  loop-settled limit (x ∷ items) results s k u at p = elim (Bool-cases (below limit results)) [
    | inr full ↦ rw (full, loop) at
    | inl room ↦ elim (Option-cases (Dict.get s.tasks x.item)) [
      | inl missing ↦ rw (loop, room, missing) at
      | inr (task, found) ↦ elim (Bool-cases (is_scheduled task.status)) [
        | inr other ↦ rw (loop, room, found, other) (loop-settled limit items results s k u at p)
        | inl waits ↦ elim (Option-cases (reserve executor task s)) [
          | inl refused ↦ rw (loop, room, found, waits, refused) at
          | inr (s', granted) ↦
              rw (loop, room, found, waits, granted)
                (loop-settled limit items (results ++ (attempt executor x.item task s').0 ∷ [])
                  (attempt executor x.item task s').1 k u
                  (rw (get-attempt x.item k task s s' granted)
                    (rw (distinct_keys s.tasks x.item k task u found waits at p) at))
                  p)
        ]
      ]
    ]
  ]

  -- Each entry of the queue names a task.
  abbrev pub IsKnown : Dict (QueuedTask P) → List (Item String) → Type 0
  IsKnown tasks items = All (λ x. Dict.contains tasks x.item ≡ true) items

  abbrev pub waiting_for : String → List (Item String) → Bool
  waiting_for k [] = false
  waiting_for k (x ∷ items) = if str_eq x.item k then true else waiting_for k items

  reserve-without :
      (task : QueuedTask P) (s : TaskScheduler P)
      → s.resource_allocator ≡ none
      → reserve executor task s ≡ some s
  unfolding reserve
  reserve-without task s without =
      rw (without, reserve) (ap (λ a. some (record s { resource_allocator = a })) without)

  attempt-without :
      (k : String) (task : QueuedTask P) (s : TaskScheduler P)
      → s.resource_allocator ≡ none
      → (attempt executor k task s).1.resource_allocator ≡ none
  unfolding attempt give_back
  attempt-without k task s without = rw (without, give_back) refl

  IsKnown-attempt :
      (items : List (Item String)) (j : String) (task : QueuedTask P) (s : TaskScheduler P)
      → IsKnown s.tasks items
      → IsKnown (attempt executor j task s).1.tasks items
  IsKnown-attempt items j task s known = rw (tasks-attempt j task s) (
      All-map items (λ x present. ground (arith, contains-put s.tasks j x.item (answered task)))
        known)

  loop-answered :
      (items : List (Item String)) (results : List (Outcome R)) (s : TaskScheduler P) (k : String)
      (t : QueuedTask P)
      → s.resource_allocator ≡ none
      → IsKnown s.tasks items
      → waiting_for k items ≡ true
      → Dict.get s.tasks k ≡ some t
      → is_scheduled t.status ≡ true
      → Dict.get (loop executor none items results s).1.tasks k ≡ some (answered t)
  unfolding loop below
  loop-answered [] results s k t without known queued at waits = cc
  loop-answered (x ∷ items) results s k t without known queued at waits =
      elim (Option-cases (Dict.get s.tasks x.item)) [
        | inl missing ↦ absurd (absent s.tasks x.item known.0 missing)
        | inr (task, found) ↦ elim (Bool-cases (is_scheduled task.status)) [
          | inr other ↦
              rw (loop, found, other)
                (loop-answered items results s k t without known.1 (ground (arith, eq_iff x.item k))
                  at waits)
          | inl ready ↦
              rw (loop, found, ready, reserve-without task s without)
                (elim (Bool-cases (str_eq x.item k)) [
                  | inl same ↦
                      let same_task =
                        same_some task t
                          (sym found ∙ ap (Dict.get s.tasks) ((eq_iff x.item k).0 same) ∙ at) in
                      loop-settled none items (results ++ (attempt executor x.item task s).0 ∷ [])
                        (attempt executor x.item task s).1 k (answered t)
                        (get-attempt x.item k task s s (reserve-without task s without)
                          ∙ rw same (ap (λ u. some (answered u)) same_task))
                        (is_scheduled-answered t)
                  | inr apart ↦
                      loop-answered items (results ++ (attempt executor x.item task s).0 ∷ [])
                        (attempt executor x.item task s).1 k t
                        (attempt-without x.item task s without)
                        (IsKnown-attempt items x.item task s known.1) (ground arith)
                        (get-attempt x.item k task s s (reserve-without task s without)
                          ∙ rw apart at)
                        waits
                ])
        ]
      ]
    where
      absent :
          (tasks : Dict (QueuedTask P)) (j : String)
          → Dict.contains tasks j ≡ true
          → Dict.get tasks j ≡ none
          → ⊥
      absent tasks j present missing = absurd (ground (arith, contains-get tasks j))

  -- Without an allocator and without a limit, if every entry of the queue names a task, then each task
  -- that is scheduled and queued ends as "completed" if the executor returns for it, and as "failed" if
  -- the executor raises for it, and is otherwise as it was. The executor is given the task with the
  -- status "running".
  pub execute_scheduled-answered :
      (s : TaskScheduler P) (k : String) (t : QueuedTask P)
      → s.resource_allocator ≡ none
      → IsKnown s.tasks s.queue.items
      → waiting_for k s.queue.items ≡ true
      → Dict.get s.tasks k ≡ some t
      → is_scheduled t.status ≡ true
      → ((r : R) × (executor (record t { status = running }) ≡ ok r)
          × (Dict.get (execute_scheduled executor none s).1.tasks k
              ≡ some (record t { status = completed })))
        ⊎ ((e : String) × (executor (record t { status = running }) ≡ err e)
            × (Dict.get (execute_scheduled executor none s).1.tasks k
                ≡ some (record t { status = failed })))
  unfolding execute_scheduled status_after
  execute_scheduled-answered s k t without known queued at waits =
      let after = loop-answered s.queue.items [] s k t without known queued at waits in
      elim (Result-cases (executor (record t { status = running }))) [
        | inl (r, e) ↦ inl (r, e, rw e at after)
        | inr (x, e) ↦ inr (x, e, rw e at after)
      ]
