-- ===== src/SchedulerEngine/Queue.antt =====
-- engine/scheduler.py, `execution_queue`: a heap of pairs (-priority, task_id). `heapq` pops the
-- least pair, so the heap is the list of its pairs in order: a push inserts, a pop takes the head.
use Prim.Native.String.{compare}
use text.Mathlib.Text.{is_lt}
use agent_manager.Prelude.Int.{ℤ, ltb_ℤ}
use agent_manager.Prelude.{
  String, ◌≡◌, refl, Bool, true, false, List, [], ◌∷◌, ◌++◌, arith, str_eq, if◌then◌else◌,
}

pub record Entry : Type 0 where
  pub neg_priority : ℤ
  pub task_id : String

-- Python's order on the pairs. Texts are compared by their code points.
unfoldable pub before : Entry → Entry → Bool
before a b =
    if ltb_ℤ a.neg_priority b.neg_priority
    then true
    else if ltb_ℤ b.neg_priority a.neg_priority
    then false
    else is_lt (compare a.task_id b.task_id)

-- `heapq.heappush`
unfoldable pub heappush : Entry → List Entry → List Entry
heappush x [] = x ∷ []
heappush x (y ∷ ys) = if before y x then y ∷ heappush x ys else x ∷ y ∷ ys

-- `for item in deferred: heapq.heappush(self.execution_queue, item)`
unfoldable pub requeue : List Entry → List Entry → List Entry
unfolding heappush
requeue [] queue = queue
requeue (x ∷ xs) queue = requeue xs (heappush x queue)

-- The queue has an entry for the task.
unfoldable pub queued : List Entry → String → Bool
queued [] k = false
queued (x ∷ xs) k = if str_eq x.task_id k then true else queued xs k

pub queued-heappush :
    (x : Entry) (xs : List Entry) (k : String)
    → queued (heappush x xs) k ≡ (if str_eq x.task_id k then true else queued xs k)
unfolding queued heappush
queued-heappush x [] k = refl
queued-heappush x (y ∷ ys) k = ground (arith, queued-heappush x ys k)

pub queued-requeue :
    (xs queue : List Entry) (k : String)
    → queued (requeue xs queue) k ≡ (if queued xs k then true else queued queue k)
unfolding queued requeue
queued-requeue [] queue k = refl
queued-requeue (x ∷ xs) queue k =
    ground (arith, queued-requeue xs (heappush x queue) k, queued-heappush x queue k)

pub queued-append :
    (xs ys : List Entry) (k : String)
    → queued (xs ++ ys) k ≡ (if queued xs k then true else queued ys k)
unfolding queued
queued-append [] ys k = refl
queued-append (x ∷ xs) ys k = ground (arith, queued-append xs ys k)
