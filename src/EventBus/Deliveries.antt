-- ===== src/EventBus/Deliveries.antt =====
-- engine/event_bus/in_memory.py: who is called by a publication, and what is kept.
use agent_manager.Prelude.Dict
use agent_manager.Prelude.Dict.{get-put}
use agent_manager.Prelude.{
  ℕ, ◌-◌, ◌≤◌, ◌<◌, String, ◌≡◌, refl, true, false, Option, List, [], ◌∷◌, ◌++◌, length,
  length-drop, arith, if◌then◌else◌, str_eq, eq_iff, eq_refl, inl, inr, Bool-cases, ap, ◌⊎◌,
}
use agent_manager.EventBus.Bus.{
  Event, EventBus, new_bus, key_of, or_star, callbacks, subscribe, publish, trimmed, subscribed,
  remove_first, unsubscribe, clear,
}

subscribed-append : (c : ℕ) (xs : List ℕ) → subscribed c (xs ++ c ∷ []) ≡ true
unfolding subscribed
subscribed-append c [] = ground arith
subscribed-append c (x ∷ xs) = ground (arith, subscribed-append c xs)

remove_first-append :
    (c : ℕ) (xs : List ℕ) → subscribed c xs ≡ false → remove_first c (xs ++ c ∷ []) ≡ xs
unfolding subscribed remove_first
remove_first-append c [] absent = ground arith
remove_first-append c (x ∷ xs) absent = ground (arith, remove_first-append c xs)

-- One entry of the subscribers is set.
callbacks-put :
    (bus : EventBus) (k : String) (cs : List ℕ) (j : String)
    → callbacks (record bus { subscribers = Dict.put bus.subscribers k cs }) j
      ≡ (if str_eq k j then cs else callbacks bus j)
unfolding callbacks
callbacks-put bus k cs j = elim (Bool-cases (str_eq k j)) [
  | inl same ↦ rw (callbacks, get-put bus.subscribers k j cs, same) refl
  | inr other ↦ rw (callbacks, get-put bus.subscribers k j cs, other) refl
]

callbacks-subscribe :
    (t : String) (c : ℕ) (w : Option String) (bus : EventBus) (key : String)
    → callbacks (subscribe t c w bus) key ≡ (
        if str_eq (key_of t (or_star w)) key
        then callbacks bus (key_of t (or_star w)) ++ c ∷ []
        else callbacks bus key)
unfolding subscribe
callbacks-subscribe t c w bus key =
    let k = key_of t (or_star w) in callbacks-put bus k (callbacks bus k ++ c ∷ []) key

-- If the callback is not subscribed under a key, then to subscribe it there and to unsubscribe it
-- again leaves the callbacks of every key as they were, in order.
pub unsubscribe-subscribe :
    (t : String) (c : ℕ) (w : Option String) (bus : EventBus)
    → subscribed c (callbacks bus (key_of t (or_star w))) ≡ false
    → (key : String) → callbacks (unsubscribe t c w (subscribe t c w bus)) key ≡ callbacks bus key
unfolding unsubscribe
unsubscribe-subscribe t c w bus absent key =
    let k = key_of t (or_star w) in
    let added = callbacks-subscribe t c w bus k in
    rw
      (
        added,
        eq_refl k,
        subscribed-append c (callbacks bus k),
        remove_first-append c (callbacks bus k) absent,
        callbacks-put (subscribe t c w bus) k (callbacks bus k) key,
        callbacks-subscribe t c w bus key,
      )
      (elim (Bool-cases (str_eq k key)) [
        | inl same ↦ rw same (ap (callbacks bus) ((eq_iff k key).0 same))
        | inr other ↦ rw other refl
      ])

subscribed-left : (c : ℕ) (xs ys : List ℕ) → subscribed c xs ≡ true → subscribed c (xs ++ ys) ≡ true
unfolding subscribed
subscribed-left c [] ys h = cc
subscribed-left c (x ∷ xs) ys h = ground (arith, subscribed-left c xs ys)

subscribed-right :
    (c : ℕ) (xs ys : List ℕ) → subscribed c ys ≡ true → subscribed c (xs ++ ys) ≡ true
unfolding subscribed
subscribed-right c [] ys h = h
subscribed-right c (x ∷ xs) ys h = ground (arith, subscribed-right c xs ys)

-- A publication calls each callback that was subscribed just before to the event's type, for all
-- workflows or for the event's own.
pub publish-subscribe :
    (c : ℕ) (w correlation_id : Option String) (e : Event) (bus : EventBus)
    → (or_star w ≡ "*") ⊎ (or_star w ≡ e.workflow_id)
    → subscribed c (publish correlation_id e (subscribe e.event_type c w bus)).0 ≡ true
unfolding publish
publish-subscribe c w correlation_id e bus (inl all) =
    let k = key_of e.event_type "*" in
    subscribed-right c
      (callbacks (subscribe e.event_type c w bus) (key_of e.event_type e.workflow_id))
      (callbacks (subscribe e.event_type c w bus) k)
      (rw (callbacks-subscribe e.event_type c w bus k, all, eq_refl k)
        (subscribed-append c (callbacks bus k)))
publish-subscribe c w correlation_id e bus (inr own) =
    let k = key_of e.event_type e.workflow_id in
    subscribed-left c (callbacks (subscribe e.event_type c w bus) k)
      (callbacks (subscribe e.event_type c w bus) (key_of e.event_type "*"))
      (rw (callbacks-subscribe e.event_type c w bus k, own, eq_refl k)
        (subscribed-append c (callbacks bus k)))

length-trimmed : (n : ℕ) (es : List Event) → 0 < n → length (trimmed n es) ≤ n
unfolding trimmed
length-trimmed n es some_room = ground (arith, length-drop (length es - n) es)

pub data Call : Type 0 where
  subscription unsubscription : String → ℕ → Option String → Call
  publication : Option String → Event → Call
  clearing : Call

unfoldable pub run : List Call → EventBus → EventBus
run [] bus = bus
run (subscription t c w ∷ cs) bus = run cs (subscribe t c w bus)
run (unsubscription t c w ∷ cs) bus = run cs (unsubscribe t c w bus)
run (publication i e ∷ cs) bus = run cs (publish i e bus).1
run (clearing ∷ cs) bus = run cs (clear bus)

record IsBounded (n : ℕ) (bus : EventBus) : Type 0 where
  limit : bus.max_events ≡ n
  events : length bus.events ≤ n

unsubscribe-IsBounded :
    (n : ℕ) (t : String) (c : ℕ) (w : Option String) (bus : EventBus)
    → IsBounded n bus
    → IsBounded n (unsubscribe t c w bus)
unfolding unsubscribe
unsubscribe-IsBounded n t c w bus b =
    elim (Bool-cases (subscribed c (callbacks bus (key_of t (or_star w))))) [
      | inl there ↦ rw there (record { limit = b.limit; events = b.events })
      | inr absent ↦ rw absent b
    ]

run-IsBounded_from :
    (n : ℕ) (calls : List Call) (bus : EventBus)
    → 0 < n
    → IsBounded n bus
    → IsBounded n (run calls bus)
unfolding run subscribe publish
run-IsBounded_from n [] bus some_room b = b
run-IsBounded_from n (subscription t c w ∷ cs) bus some_room b =
    run-IsBounded_from n cs (subscribe t c w bus) some_room
      (record { limit = b.limit; events = b.events })
run-IsBounded_from n (unsubscription t c w ∷ cs) bus some_room b =
    run-IsBounded_from n cs (unsubscribe t c w bus) some_room (unsubscribe-IsBounded n t c w bus b)
run-IsBounded_from n (publication i e ∷ cs) bus some_room b =
    run-IsBounded_from n cs (publish i e bus).1 some_room
      (record { limit = b.limit; events = rw b.limit (length-trimmed n _ some_room) })
run-IsBounded_from n (clearing ∷ cs) bus some_room b =
    run-IsBounded_from n cs (clear bus) some_room (record { limit = b.limit; events = omega arith })

-- A bus that is made with a positive limit holds no more events than that, whatever is called on it.
pub length-events : (n : ℕ) (calls : List Call) → 0 < n → length (run calls (new_bus n)).events ≤ n
length-events n calls some_room =
    (run-IsBounded_from n calls (new_bus n) some_room
      (record { limit = refl; events = omega arith })).events
