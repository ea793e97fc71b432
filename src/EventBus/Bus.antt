-- ===== src/EventBus/Bus.antt =====
-- engine/event_bus/in_memory.py, `InMemoryEventBus`. An event type is its value, a text; a callback is
-- a number, as the bus compares callbacks and calls them only. What a callback raises is caught, so a
-- publication is described by the callbacks that it calls, in order; they do not call the bus.
use Prim.Native.String
use agent_manager.Prelude.Dict
use agent_manager.Prelude.Dict.{Dict}
use agent_manager.Prelude.{
  ℕ, ◌-◌, String, Bool, true, false, ◌&&◌, not, Option, none, some, List, [], ◌∷◌, ◌++◌, length,
  drop, ltb, ◌==◌, if◌then◌else◌, str_eq,
}

pub record Event : Type 0 where
  pub event_type : String
  pub workflow_id : String
  pub payload : Dict String

pub record EventBus : Type 0 where
  pub subscribers : Dict (List ℕ)
  pub events : List Event
  pub max_events : ℕ

abbrev pub new_bus : ℕ → EventBus
new_bus max_events = record { subscribers = []; events = []; max_events = max_events }

-- `f"{event_type.value}:{workflow}"`
unfoldable pub key_of : String → String → String
key_of event_type workflow = String.◌++◌ event_type (String.◌++◌ ":" workflow)

-- `workflow_id or '*'`
unfoldable pub or_star : Option String → String
or_star none = "*"
or_star (some workflow_id) = if str_eq workflow_id "" then "*" else workflow_id

-- `self.subscribers.get(key, [])`
unfoldable pub callbacks : EventBus → String → List ℕ
callbacks bus key = elim (Dict.get bus.subscribers key) [ none ↦ [] | some cs ↦ cs ]

unfoldable pub subscribe : String → ℕ → Option String → EventBus → EventBus
unfolding callbacks
subscribe event_type callback workflow_id bus =
    let key = key_of event_type (or_star workflow_id) in
    record bus { subscribers = Dict.put bus.subscribers key (callbacks bus key ++ callback ∷ []) }

-- The payload of the event that is kept and delivered; `correlation_id` is the result of
-- `get_correlation_id()`, where an empty text counts as none.
unfoldable pub correlated : Option String → Dict String → Dict String
correlated none payload = payload
correlated (some correlation_id) payload =
    if not (str_eq correlation_id "") && not (Dict.contains payload "correlation_id")
    then Dict.put payload "correlation_id" correlation_id
    else payload

-- `del self.events[: len(self.events) - self.max_events]`
unfoldable pub trimmed : ℕ → List Event → List Event
trimmed max_events events =
    if ltb 0 max_events && ltb max_events (length events)
    then drop (length events - max_events) events
    else events

-- The callbacks that are called, and the bus.
unfoldable pub publish : Option String → Event → EventBus → List ℕ × EventBus
unfolding callbacks correlated trimmed
publish correlation_id event bus =
    let event' = record event { payload = correlated correlation_id event.payload } in
    (
      callbacks bus (key_of event.event_type event.workflow_id)
          ++ callbacks bus (key_of event.event_type "*"),
      record bus { events = trimmed bus.max_events (bus.events ++ event' ∷ []) },
    )

unfoldable pub subscribed : ℕ → List ℕ → Bool
subscribed callback [] = false
subscribed callback (c ∷ cs) = if c == callback then true else subscribed callback cs

-- `cs.remove(callback)`: the first one only
unfoldable pub remove_first : ℕ → List ℕ → List ℕ
remove_first callback [] = []
remove_first callback (c ∷ cs) = if c == callback then cs else c ∷ remove_first callback cs

unfoldable pub unsubscribe : String → ℕ → Option String → EventBus → EventBus
unfolding callbacks subscribed remove_first
unsubscribe event_type callback workflow_id bus =
    let key = key_of event_type (or_star workflow_id) in
    if subscribed callback (callbacks bus key)
    then record bus {
      subscribers = Dict.put bus.subscribers key (remove_first callback (callbacks bus key));
    }
    else bus

-- A filter that is given and not empty.
unfoldable pub matches : Option String → String → Bool
matches none text = true
matches (some wanted) text = if str_eq wanted "" then true else str_eq text wanted

unfoldable pub selected : Option String → Option String → List Event → List Event
unfolding matches
selected event_type workflow_id [] = []
selected event_type workflow_id (e ∷ es) =
    let rest = selected event_type workflow_id es in
    if matches event_type e.event_type && matches workflow_id e.workflow_id then e ∷ rest else rest

unfoldable pub get_events : Option String → Option String → EventBus → List Event
unfolding selected
get_events event_type workflow_id bus = selected event_type workflow_id bus.events

abbrev pub clear : EventBus → EventBus
clear bus = record bus { events = []; subscribers = [] }
