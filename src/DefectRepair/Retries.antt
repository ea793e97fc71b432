-- ===== src/DefectRepair/Retries.antt =====
-- defect_repair/repair_strategies.py, `L1RepairStrategy.repair`: how the attempts end.
use agent_manager.Prelude.Dict
use agent_manager.Prelude.{
  ℕ, zero, suc, ◌+◌, ◌≤◌, ◌<◌, String, ◌≡◌, refl, ◌⊎◌, true, false, Bool-cases, Result, ok, err,
  none, some, inl, inr, str_eq, leb, subst, arith,
}
use agent_manager.Runtime.Errors.{PyError}
use agent_manager.Runtime.Context.{Fields, Value}
use agent_manager.Runtime.Executor.{Executor, WorkerSandbox}
use agent_manager.Runtime.Repaired.{execute, repair_data, repair_executed, repair_verified}
use agent_manager.Recovery.Repairs.{success, failed, RepairResult}
use agent_manager.DefectRepair.Pipeline.{reports_success}
use agent_manager.DefectRepair.Results.{success_result}
use agent_manager.DefectRepair.Strategies.{error_text, after_attempt, retry, repair_l1}
use agent_manager.DefectRepair.Verified.{IsVerified}

-- The result reports the code that the sandbox verified at an attempt from `low` to `high`, or it
-- reports a failure after `high` attempts.
abbrev pub Ended :
    (sandboxes : (attempt : ℕ) → WorkerSandbox)
    → (task_id code : String) → (low high : ℕ) → RepairResult
    → Type 0
Ended sandboxes task_id code low high result =
    ((k : ℕ) × (low ≤ k)
      × (k ≤ high)
      × (result.status ≡ success)
      × (result.repaired_code ≡ some code)
      × (result.attempts ≡ k)
      × IsVerified (sandboxes k) task_id code)
    ⊎ ((result.status ≡ failed) × (result.repaired_code ≡ none) × (result.attempts ≡ high))

-- The sandbox runs and accepts whatever it is given for the task.
abbrev pub Accepts : WorkerSandbox → (task_id : String) → Type 0
Accepts sandbox task_id =
    (fields : Fields)
    → (result : Fields) × (sandbox.execute 0 task_id fields ≡ ok result)
      × (sandbox.verify 0 task_id result ≡ ok true)

module _ {R M : Type 0} (show : Value → String) (sandboxes : (attempt : ℕ) → WorkerSandbox) where
  execute-success :
      (attempt : ℕ) (task_id code : String) (x : Executor R M)
      → Accepts (sandboxes attempt) task_id
      → reports_success (execute (sandboxes attempt) task_id code x).0 ≡ true
  unfolding execute repair_executed reports_success repair_verified Dict.get
  execute-success attempt task_id code x accepts =
      let (result, ran, accepted) = accepts (repair_data code (Dict.get x.task_registry task_id)) in
      rw (ran, accepted) refl

  after_attempt-success :
      (attempt : ℕ) (code : String) (answer : Result PyError Fields × Executor R M)
      (again : String → Executor R M → RepairResult × Executor R M)
      → (reports_success answer.0 ≡ true)
        ⊎ ((error : String) (x : Executor R M) → (again error x).0.status ≡ success)
      → (after_attempt show sandboxes code attempt answer again).0.status ≡ success
  unfolding after_attempt success_result reports_success
  after_attempt-success attempt code (err e, x) again (inl h) = absurd (ground (arith, h))
  after_attempt-success attempt code (err e, x) again (inr h) = h e.message x
  after_attempt-success attempt code (ok fields, x) again (inl h) = rw (after_attempt, h) refl
  after_attempt-success attempt code (ok fields, x) again (inr h) =
      elim (Bool-cases (reports_success (ok fields))) [
        | inl e ↦ rw (after_attempt, e) refl
        | inr e ↦ rw (after_attempt, e) (h (error_text show fields) x)
      ]

  retry-success :
      (left attempt k : ℕ) (task_id code error : String) (x : Executor R M)
      → attempt ≤ k
      → k < attempt + left
      → Accepts (sandboxes k) task_id
      → (retry show sandboxes left attempt task_id code error x).0.status ≡ success
  unfolding retry
  retry-success zero attempt k task_id code error x low high accepts = absurd (omega arith)
  retry-success (suc left) attempt k task_id code error x low high accepts =
      after_attempt-success attempt code _ _ (elim (Bool-cases (leb k attempt)) [
        | inl e ↦ inl (
            execute-success attempt task_id code x
              (subst (λ n. Accepts (sandboxes n) task_id) (ground (arith, e, low)) accepts))
        | inr e ↦ inr (λ error y.
            retry-success left (suc attempt) k task_id code error y (ground (arith, e))
              (omega arith) accepts)
      ])

  -- If the sandbox runs and accepts whatever it is given for a task that has an id, at one of the
  -- attempts 1 to 3, then the repair is a success, whatever the other attempts answer or raise.
  pub repair_l1-success :
      (k : ℕ) (error_msg code task_id : String) (x : Executor R M)
      → str_eq task_id "" ≡ false
      → 1 ≤ k
      → k ≤ 3
      → Accepts (sandboxes k) task_id
      → (repair_l1 show sandboxes error_msg code task_id x).0.status ≡ success
  unfolding repair_l1
  repair_l1-success k error_msg code task_id x named low high accepts =
      rw named (retry-success 3 1 k task_id code error_msg x low (omega arith) accepts)
