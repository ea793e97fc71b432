-- ===== src/Runtime/Context.antt =====
-- runtime/execution_context.py, and the events that the runtime publishes (domain/models.py).
use agent_manager.Prelude.Dict.{Dict}
use agent_manager.Prelude.{ℕ, ◌+◌, ◌-◌, String, Bool, Option, none, some, List, [], ◌∷◌}

-- An entry of "manual_intervention" that recovery writes; `failure_type` and `strategy` are texts.
pub record Intervention : Type 0 where
  pub strategy : String
  pub failure_type : String
  pub error_msg : String
  pub retry_count : ℕ
  pub checkpoint_id : Option String
  pub event_id : Option String
  pub timestamp : ℕ

-- The values in metadata, results and payloads; `opaque_value` stands for a value that the runtime
-- only carries.
mutual
  pub data Value : Type 0 where
    null : Value
    text : String → Value
    number : ℕ → Value
    flag : Bool → Value
    texts : List String → Value
    interventions : List Intervention → Value
    object : Object → Value
    opaque_value : ℕ → Value

  pub data Object : Type 0 where
    empty : Object
    entry : String → Value → Object → Object

abbrev pub Fields : Type 0
Fields = Dict Value

-- A dictionary as a value, and back.
unfoldable pub to_object : Fields → Object
to_object [] = empty
to_object ((k, v) ∷ fields) = entry k v (to_object fields)

unfoldable pub to_fields : Object → Fields
to_fields empty = []
to_fields (entry k v o) = (k, v) ∷ to_fields o

pub data EventType : Type 0 where
  task_created task_started task_completed task_failed task_blocked : EventType
  workflow_started workflow_completed workflow_failed : EventType
  agent_registered worker_registered artifact_created checkpoint_saved : EventType
  task_plan_created task_plan_updated task_plan_confirmed task_plan_confirm_failed : EventType
  agent_assigned : EventType

-- An event as the runtime makes it; the bus adds an id and a time.
pub record Published : Type 0 where
  pub event_type : EventType
  pub workflow_id : String
  pub payload : Fields

pub data ExecutionStatus : Type 0 where
  pending implementing verifying completed failed : ExecutionStatus

pub record ExecutionContext : Type 0 where
  pub task_id : String
  pub workflow_id : String
  pub status : ExecutionStatus
  pub start_time : Option ℕ
  pub end_time : Option ℕ
  pub result : Fields
  pub error : Option String
  pub retry_count : ℕ
  pub metadata : Fields

abbrev pub new_context : String → String → Fields → ExecutionContext
new_context task_id workflow_id metadata = record {
  task_id = task_id;
  workflow_id = workflow_id;
  status = pending;
  start_time = none;
  end_time = none;
  result = [];
  error = none;
  retry_count = 0;
  metadata = metadata;
}

unfoldable pub mark_started : (now : ℕ) → ExecutionContext → ExecutionContext
mark_started now c = record c { start_time = some now; status = implementing }

unfoldable pub mark_verifying : ExecutionContext → ExecutionContext
mark_verifying c = record c { status = verifying }

unfoldable pub mark_completed : (now : ℕ) → Fields → ExecutionContext → ExecutionContext
mark_completed now result c = record c { end_time = some now; status = completed; result = result }

unfoldable pub mark_failed : (now : ℕ) → String → ExecutionContext → ExecutionContext
mark_failed now error c = record c { end_time = some now; status = failed; error = some error }

unfoldable pub increment_retry : ExecutionContext → ExecutionContext
increment_retry c = record c { retry_count = c.retry_count + 1 }

-- The time from the start to the end or, without an end, to `now`; times do not run backwards.
unfoldable pub get_duration : (now : ℕ) → ExecutionContext → Option ℕ
get_duration now c = elim c.start_time [
  | none ↦ none
  | some start ↦ elim c.end_time [ none ↦ some (now - start) | some end ↦ some (end - start) ]
]
