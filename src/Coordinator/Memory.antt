-- ===== src/Coordinator/Memory.antt =====
-- runtime/workflow_coordinator.py, the records that it writes to the memory backend; what the backend
-- raises is caught.
use Prim.Native.String
use agent_manager.Prelude.Dict
use agent_manager.Prelude.{ℕ, String, Option, none, some, [], ◌∷◌, ◌++◌}
use agent_manager.Runtime.Context.{ExecutionContext, Fields, text, texts, number, get_duration}
use agent_manager.Runtime.Executor.{duration_value, workflow_of}
use agent_manager.Coordinator.State.{Coordinator, MemoryRecord}

abbrev str : String → String → String
str = String.◌++◌

-- `if context.result: extra["result_keys"] = list(context.result.keys())`
abbrev result_keys : Fields → Fields
result_keys [] = []
result_keys ((k, v) ∷ result) = ("result_keys", texts (Dict.keys ((k, v) ∷ result))) ∷ []

unfoldable pub extra_of : (now : ℕ) → Option ExecutionContext → Fields
extra_of now none = []
extra_of now (some c) =
    ("duration", duration_value (get_duration now c))
    ∷ ("retry_count", number c.retry_count)
    ∷ result_keys c.result

module _ {R M G : Type 0} where
  unfoldable pub write_record_to_memory :
      String
      → (metadata : Fields) → (record_type outcome key_prefix : String) → (extra : Fields)
      → Coordinator R M G
      → Coordinator R M G
  write_record_to_memory task_id metadata record_type outcome key_prefix extra c = elim c.memory [
    | none ↦ c
    | some kept ↦
        let entry : MemoryRecord = record {
          namespace = workflow_of metadata;
          key = str key_prefix (str ":" (str task_id (str ":" outcome)));
          value =
              ("type", text record_type)
              ∷ ("task_id", text task_id)
              ∷ ("workflow_id", text (workflow_of metadata))
              ∷ ("outcome", text outcome)
              ∷ ("tags", texts (key_prefix ∷ outcome ∷ []))
              ∷ extra;
        } in
        record c { memory = some (kept ++ entry ∷ []) }
  ]

  unfoldable pub write_task_result_to_memory :
      (now : ℕ)
      → String
      → (metadata : Fields) → (outcome : String) → Coordinator R M G
      → Coordinator R M G
  write_task_result_to_memory now task_id metadata outcome c =
      write_record_to_memory task_id metadata "task_execution" outcome "task"
        (extra_of now (Dict.get c.executor.execution_contexts task_id)) c

  unfoldable pub write_recovery_result_to_memory :
      String → (metadata : Fields) → (outcome : String) → Coordinator R M G → Coordinator R M G
  write_recovery_result_to_memory task_id metadata outcome c =
      write_record_to_memory task_id metadata "task_recovery" outcome "recovery" [] c
