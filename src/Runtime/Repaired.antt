-- ===== src/Runtime/Repaired.antt =====
-- runtime/task_executor.py, `execute`: repaired code is run in the sandbox and verified.
use agent_manager.Prelude.Dict
use agent_manager.Prelude.{String, Bool, true, false, Result, ok, err, Option, none, some, [], ◌∷◌}
use agent_manager.Runtime.Errors.{PyError}
use agent_manager.Runtime.Context.{
  ExecutionContext, Fields, Value, text, flag, object, to_object, new_context,
}
use agent_manager.Runtime.Executor.{Task, WorkerSandbox, Executor, workflow_of}

-- `old.update(new)`
unfoldable pub update : Fields → Fields → Fields
update old [] = old
update old ((k, v) ∷ new) = update (Dict.put old k v) new

unfoldable pub repair_data : String → Option Task → Fields
unfolding update
repair_data code none = ("code", text code) ∷ ("repair_attempt", flag true) ∷ []
repair_data code (some task) =
    Dict.put
      (Dict.put (update (("code", text code) ∷ ("repair_attempt", flag true) ∷ []) task.metadata)
        "code" (text code))
      "repair_attempt" (flag true)

abbrev repair_workflow : Option Task → String
repair_workflow none = "unknown"
repair_workflow (some task) = workflow_of task.metadata

abbrev noted : String → Value → ExecutionContext → ExecutionContext
noted key value c = record c { metadata = Dict.put c.metadata key value }

module _ {R M : Type 0} (sandbox : WorkerSandbox) where
  abbrev stored : String → ExecutionContext → Executor R M → Executor R M
  stored task_id c x = record x { execution_contexts = Dict.put x.execution_contexts task_id c }

  -- The context that is there, or a new one.
  unfoldable pub repair_context :
      String → (workflow_id : String) → Fields → Executor R M → ExecutionContext
  repair_context task_id workflow_id fields x = elim (Dict.get x.execution_contexts task_id) [
    | some c ↦ c
    | none ↦ new_context task_id workflow_id fields
  ]

  unfoldable pub repair_verified :
      String
      → (code : String) → (result : Fields) → ExecutionContext
      → Result PyError Bool
      → Executor R M
      → Result PyError Fields × Executor R M
  repair_verified task_id code result c (err e) x = (err e, x)
  repair_verified task_id code result c (ok false) x = (
    ok (
        ("success", flag false)
        ∷ ("error", text "Verification failed")
        ∷ ("result", object (to_object result))
        ∷ []),
    stored task_id (noted "repair_verification_failed" (flag true) c) x,
  )
  repair_verified task_id code result c (ok true) x = (
    ok (("success", flag true) ∷ ("result", object (to_object result)) ∷ []),
    stored task_id
        (noted "last_repair_result" (object (to_object result))
          (noted "last_repaired_code" (text code) c))
        x,
  )

  unfoldable pub repair_executed :
      String
      → (code : String) → ExecutionContext
      → Result PyError Fields
      → Executor R M
      → Result PyError Fields × Executor R M
  repair_executed task_id code c (err e) x = (err e, x)
  repair_executed task_id code c (ok result) x =
      repair_verified task_id code result c (sandbox.verify 0 task_id result) x

  unfoldable pub execute :
      String → (code : String) → Executor R M → Result PyError Fields × Executor R M
  execute task_id code x =
      let task = Dict.get x.task_registry task_id in
      let fields = repair_data code task in
      let c = repair_context task_id (repair_workflow task) fields x in
      repair_executed task_id code c (sandbox.execute 0 task_id fields) (stored task_id c x)
