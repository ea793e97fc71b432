-- ===== src/DefectRepair/Verified.antt =====
-- defect_repair/repair_pipeline.py: a repair that is answered as a success was verified.
use agent_manager.Prelude.Dict
use agent_manager.Prelude.Dict.{Dict}
use agent_manager.Prelude.{
  String, ◌≡◌, refl, Bool, true, false, Result, ok, err, Option, some, str_eq, arith,
}
use agent_manager.Runtime.Errors.{PyError}
use agent_manager.Runtime.Context.{ExecutionContext, Fields}
use agent_manager.Runtime.Executor.{Executor, WorkerSandbox, Task}
use agent_manager.Runtime.Repaired.{execute, repair_data, repair_executed, repair_verified}
use agent_manager.Recovery.Repairs.{RepairStatus}
use agent_manager.DefectRepair.Pipeline.{Classifier, Strategies, reports_success}

module _ (sandbox : WorkerSandbox) where
  -- The sandbox ran the code, as data of the task, and accepted the result.
  pub record IsVerified (task_id code : String) : Type 0 where
    pub task : Option Task
    pub result : Fields
    pub ran : sandbox.execute 0 task_id (repair_data code task) ≡ ok result
    pub accepted : sandbox.verify 0 task_id result ≡ ok true

module _ {R M : Type 0} (sandbox : WorkerSandbox) where
  -- The code was verified, with some data of the task.
  verified-success :
      (task_id code : String) (result : Fields) (c : ExecutionContext) (v : Result PyError Bool)
      (x : Executor R M)
      → reports_success (repair_verified sandbox task_id code result c v x).0 ≡ true
      → v ≡ ok true
  unfolding repair_verified reports_success Dict.get
  verified-success task_id code result c (ok true) x h = refl
  verified-success task_id code result c (ok false) x h = absurd (ground (arith, h))
  verified-success task_id code result c (err e) x h = absurd (ground (arith, h))

  executed-IsVerified :
      (task_id code : String) (task : Option Task) (c : ExecutionContext)
      (r : Result PyError Fields) (x : Executor R M)
      → sandbox.execute 0 task_id (repair_data code task) ≡ r
      → reports_success (repair_executed sandbox task_id code c r x).0 ≡ true
      → IsVerified sandbox task_id code
  unfolding repair_executed reports_success
  executed-IsVerified task_id code task c (ok result) x e h = record {
    task = task;
    result = result;
    ran = e;
    accepted = verified-success task_id code result c (sandbox.verify 0 task_id result) x h;
  }
  executed-IsVerified task_id code task c (err er) x e h = absurd (ground (arith, h))

  pub execute-IsVerified :
      (task_id code : String) (x : Executor R M)
      → reports_success (execute sandbox task_id code x).0 ≡ true
      → IsVerified sandbox task_id code
  unfolding execute
  execute-IsVerified task_id code x h =
      executed-IsVerified task_id code (Dict.get x.task_registry task_id) _ _ _ refl h

module _ {R M : Type 0} (sandbox : WorkerSandbox) (classifier : Classifier)
    (strategies : Strategies R M) where
  -- The answer of a successful repair: code that is not empty and that was verified.
  abbrev pub Proven : String → (RepairStatus × Option String) → Type 0
  Proven task_id answer =
      (code : String) × (answer.1 ≡ some code)
      × (str_eq code "" ≡ false)
      × IsVerified sandbox task_id code
