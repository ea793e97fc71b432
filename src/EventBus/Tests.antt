-- ===== src/EventBus/Tests.antt =====
-- engine/event_bus/in_memory.py on small inputs.
use agent_manager.Prelude.Dict
use agent_manager.Prelude.{◌≤◌, ◌≡◌, refl, false, none, some, [], ◌∷◌, length, arith}
use agent_manager.EventBus.Bus.{
  Event, EventBus, new_bus, callbacks, subscribe, publish, subscribed, key_of, or_star,
}
use agent_manager.EventBus.Deliveries.{publication, run, length-events}

abbrev created : Event
created = record { event_type = "task.created"; workflow_id = "wf"; payload = [] }

abbrev one_subscriber : EventBus
one_subscriber = record {
  subscribers = ("task.created:wf", 1 ∷ []) ∷ [];
  events = [];
  max_events = 2;
}

delivered_in_order :
    (publish none created (subscribe "task.created" 2 none one_subscriber)).0 ≡ 1 ∷ 2 ∷ []
unfolding publish subscribe callbacks key_of or_star Dict.get Dict.put
delivered_in_order = refl

not_yet :
    subscribed 2 (callbacks one_subscriber (key_of "task.created" (or_star (some "wf")))) ≡ false
unfolding subscribed callbacks key_of or_star Dict.get
not_yet = refl

own_workflow : or_star (some "wf") ≡ created.workflow_id
unfolding or_star
own_workflow = refl

length-events_example :
    length
      (run
        (publication none created ∷ publication none created ∷ publication none created ∷ [])
        (new_bus 2)).events
    ≤ 2
length-events_example =
    length-events 2
      (publication none created ∷ publication none created ∷ publication none created ∷ [])
      (omega arith)
