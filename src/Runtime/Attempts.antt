-- ===== src/Runtime/Attempts.antt =====
-- runtime/task_executor.py, the loop of `_execute_with_retry`: which attempt gives the result.
use agent_manager.Prelude.{
  ℕ, zero, suc, ◌+◌, ◌≤◌, ◌<◌, ◌≡◌, Result, ok, err, Result-cases, subst, arith, inl, inr, ◌⊎◌,
}
use agent_manager.StateManager.Machine.{Repository}
use agent_manager.Runtime.Errors.{PyError}
use agent_manager.Runtime.Context.{Fields}
use agent_manager.Runtime.Executor.{Task, CheckpointManager, WorkerSandbox, one_attempt, attempts}

le_cases : (i j : ℕ) → i ≤ j → (i ≡ j) ⊎ (suc i ≤ j)
le_cases i j h = ground arith

module _ {R M : Type 0} (ops : Repository R) (manager : CheckpointManager M)
    (sandbox : WorkerSandbox) (clock : ℕ → ℕ) (task : Task) where
  -- Each attempt from the `i`-th to before the `n`-th raises.
  pub Raises : ℕ → ℕ → Type 0
  Raises i n =
      (j : ℕ)
      → i ≤ j
      → j < n
      → (e : PyError) × (one_attempt ops manager sandbox clock j task ≡ err e)

  -- `count` is the first attempt that does not raise, from the `i`-th on and among `left` of them; for
  -- an error all of them raise.
  unfoldable pub IsFirst : (left i : ℕ) → Result PyError Fields → (count : ℕ) → Type 0
  IsFirst left i (ok result) count =
      (i ≤ count)
      × (count < i + left)
      × (one_attempt ops manager sandbox clock count task ≡ ok result)
      × Raises i count
  IsFirst left i (err e) count = (count ≡ i + left) × Raises i (i + left)

  Raises-cons :
      (i n : ℕ) {e : PyError}
      → one_attempt ops manager sandbox clock i task ≡ err e
      → Raises (suc i) n
      → Raises i n
  unfolding Raises
  Raises-cons i n {e} h later j low high = elim (le_cases i j low) [
    | inl same ↦ (e, subst (λ k. one_attempt ops manager sandbox clock k task ≡ err e) same h)
    | inr above ↦ later j above high
  ]

  IsFirst-cons :
      (left i : ℕ) (r : Result PyError Fields) (count : ℕ) {e : PyError}
      → one_attempt ops manager sandbox clock i task ≡ err e
      → IsFirst left (suc i) r count
      → IsFirst (suc left) i r count
  unfolding IsFirst
  IsFirst-cons left i (ok result) count h (low, high, found, raising) =
      (omega (arith, low), omega (arith, high), found, Raises-cons i count h raising)
  IsFirst-cons left i (err e) count h (all, raising) = (
    omega (arith, all),
    Raises-cons i (i + suc left) h (subst (Raises (suc i)) (omega arith) raising),
  )

  -- The loop over the attempts returns the result of the first of them that does not raise, with the
  -- number of those before it; if all of them raise, it makes each of them and gives an error.
  pub attempts-IsFirst :
      (left i : ℕ) (last_error : PyError)
      → IsFirst left i
          (attempts ops manager sandbox clock left i last_error task).0
          (attempts ops manager sandbox clock left i last_error task).1
  unfolding attempts IsFirst Raises
  attempts-IsFirst zero i last_error =
      (omega arith, λ j low high. absurd (omega (arith, low, high)))
  attempts-IsFirst (suc left) i last_error =
      elim (Result-cases (one_attempt ops manager sandbox clock i task)) [
        | inl (result, h) ↦
            rw (attempts, h)
              (omega arith, omega arith, h, λ j low high. absurd (omega (arith, low, high)))
        | inr (e, h) ↦
            rw (attempts, h) (IsFirst-cons left i _ _ h (attempts-IsFirst left (suc i) e))
      ]
