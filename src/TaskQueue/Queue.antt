-- ===== src/TaskQueue/Queue.antt =====
-- agentManager/scheduler/priority_queue.py, `PriorityQueue`. `heapq` pops the least triple, so the heap
-- is the list of its triples in order. The counter makes all triples differ before the item.
use agent_manager.Prelude.Int.{ℤ, neg, ltb_ℤ}
use agent_manager.Prelude.{
  ℕ, ◌+◌, Bool, true, false, Option, none, some, List, [], ◌∷◌, length, ltb, if◌then◌else◌,
}

pub record Item {ℓ} (A : Type ℓ) : Type ℓ where
  pub neg_priority : ℤ
  pub order : ℕ
  pub item : A

pub record PriorityQueue {ℓ} (A : Type ℓ) : Type ℓ where
  pub items : List (Item A)
  pub counter : ℕ

module _ {ℓ} {A : Type ℓ} where
  abbrev pub new_queue : PriorityQueue A
  new_queue = record { items = []; counter = 0 }

  unfoldable pub precedes : Item A → Item A → Bool
  precedes a b =
      if ltb_ℤ a.neg_priority b.neg_priority
      then true
      else if ltb_ℤ b.neg_priority a.neg_priority
      then false
      else ltb a.order b.order

  unfoldable pub insert : Item A → List (Item A) → List (Item A)
  unfolding precedes
  insert x [] = x ∷ []
  insert x (y ∷ ys) = if precedes y x then y ∷ insert x ys else x ∷ y ∷ ys

  unfoldable pub push : A → ℤ → PriorityQueue A → PriorityQueue A
  unfolding insert
  push item priority q = record {
    items = insert (record { neg_priority = neg priority; order = q.counter; item = item }) q.items;
    counter = q.counter + 1;
  }

  -- `none` stands for the IndexError.
  unfoldable pub pop : PriorityQueue A → Option (A × PriorityQueue A)
  pop q = elim q.items [
    | [] ↦ none
    | x ∷ xs ↦ some (x.item, record { items = xs; counter = q.counter })
  ]

  unfoldable pub peek : PriorityQueue A → Option A
  peek q = elim q.items [ [] ↦ none | x ∷ xs ↦ some x.item ]

  unfoldable pub size : PriorityQueue A → ℕ
  size q = length q.items
