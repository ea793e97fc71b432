-- ===== src/SchedulerEngine/Verdicts.antt =====
-- engine/scheduler.py: what a round of the loop decides about a task, and what it then changes.
use agent_manager.Prelude.{
  ℕ, ◌+◌, ◌*◌, ◌≤◌, String, ◌≡◌, refl, ◌∙◌, ltb, inl, inr, true, false, none, List, [], ◌∷◌, ◌++◌,
  length, length-append, arith, Bool-cases,
}
use agent_manager.SchedulerEngine.Engine.{
  running, failed, is_pending, ScheduledTask, Verdict, skip, wait, start, give_up, back_off,
  is_empty, with_conflicts, consider, Conflict, backing_off,
}

-- The conflicts of a task are on record: while it is pending, one for each attempt, of which there
-- are no more than allowed; afterwards at most one more.
pub record IsCounted (t : ScheduledTask) : Type 0 where
  pub all : length t.conflict_history ≤ t.max_retry_attempts + 1
  pub waiting : is_pending t.status ≡ true → length t.conflict_history ≡ t.retry_attempts
  pub allowed : is_pending t.status ≡ true → t.retry_attempts ≤ t.max_retry_attempts

-- The facts behind each verdict on the task `t`.
abbrev pub Fits : (conflicts : List String) → ScheduledTask → Verdict → Type 0
Fits conflicts t skip = is_pending t.status ≡ false
Fits conflicts t wait = is_pending t.status ≡ true
Fits conflicts t (start t') =
    (is_pending t.status ≡ true)
    × (conflicts ≡ [])
    × (t'.status ≡ running)
    × IsCounted t'
    × (t'.dependencies ≡ t.dependencies)
Fits conflicts t (give_up t') =
    (is_pending t.status ≡ true)
    × (is_empty conflicts ≡ false)
    × (t'.status ≡ failed)
    × IsCounted t'
Fits conflicts t (back_off t') =
    (is_pending t.status ≡ true)
    × (is_empty conflicts ≡ false)
    × (t'.status ≡ t.status)
    × IsCounted t'

is_empty-nil {ℓ} : {A : Type ℓ} (xs : List A) → is_empty xs ≡ true → xs ≡ []
unfolding is_empty
is_empty-nil [] h = refl
is_empty-nil (x ∷ xs) h = cc

module _ (conflicts permanent : List String) (t : ScheduledTask) (counted : IsCounted t) where
  with_conflicts-Fits :
      (recorded_at now : ℕ)
      → is_pending t.status ≡ true
      → is_empty conflicts ≡ false
      → Fits conflicts t (with_conflicts conflicts permanent recorded_at now t)
  unfolding with_conflicts is_pending
  with_conflicts-Fits recorded_at now p c = elim (Bool-cases (is_empty permanent)) [
    | inr lasting ↦ rw lasting (p, c, refl, gone)
    | inl passing ↦
        rw passing (elim (Bool-cases (ltb t.max_retry_attempts (t.retry_attempts + 1))) [
          | inl spent ↦ rw spent (p, c, refl, gone)
          | inr left ↦ rw left (
            p,
            c,
            refl,
            record {
              all = omega (arith, longer);
              waiting = λ q. omega (arith, longer);
              allowed = λ q. ground arith;
            },
          )
        ])
  ]
    where
      history : List Conflict
      history =
          t.conflict_history
          ++ record {
            attempt = t.retry_attempts + 1;
            conflicts = conflicts;
            permanent_conflicts = permanent;
            timestamp = recorded_at;
          }
            ∷ []

      longer : (length history ≡ t.retry_attempts + 1) × (t.retry_attempts ≤ t.max_retry_attempts)
      longer =
          (length-append t.conflict_history _ ∙ omega (arith, counted.waiting p), counted.allowed p)

      gone : IsCounted (record t {
        status = failed;
        next_retry_at = none;
        retry_attempts = t.retry_attempts + 1;
        conflict_history = history;
      })
      gone = record { all = omega (arith, longer); waiting = λ q. cc; allowed = λ q. cc }

  pub consider-Fits :
      (clock : ℕ → ℕ) (round : ℕ) → Fits conflicts t (consider clock round conflicts permanent t)
  unfolding consider
  consider-Fits clock round = elim (Bool-cases (is_pending t.status)) [
    | inr p ↦ rw p p
    | inl p ↦ rw p (elim (Bool-cases (backing_off t.next_retry_at (clock (3 * round)))) [
      | inl b ↦ rw b p
      | inr b ↦ rw b (elim (Bool-cases (is_empty conflicts)) [
        | inl c ↦ rw c (
          p,
          is_empty-nil conflicts c,
          refl,
          record { all = counted.all; waiting = λ q. cc; allowed = λ q. cc },
          refl,
        )
        | inr c ↦ rw c (with_conflicts-Fits (clock (3 * round + 1)) (clock (3 * round + 2)) p c)
      ])
    ])
  ]

-- What a verdict says of a task that runs after it, whatever is on record of its conflicts.
abbrev pub Explains : (conflicts : List String) → ScheduledTask → Verdict → Type 0
Explains conflicts t skip = Unit
Explains conflicts t wait = Unit
Explains conflicts t (start t') = (conflicts ≡ []) × (t'.dependencies ≡ t.dependencies)
Explains conflicts t (give_up t') = t'.status ≡ failed
Explains conflicts t (back_off t') = (is_pending t.status ≡ true) × (t'.status ≡ t.status)

module _ (conflicts permanent : List String) (t : ScheduledTask) where
  with_conflicts-Explains :
      (recorded_at now : ℕ)
      → is_pending t.status ≡ true
      → Explains conflicts t (with_conflicts conflicts permanent recorded_at now t)
  unfolding with_conflicts
  with_conflicts-Explains recorded_at now p = elim (Bool-cases (is_empty permanent)) [
    | inr lasting ↦ rw lasting refl
    | inl passing ↦
        rw passing (elim (Bool-cases (ltb t.max_retry_attempts (t.retry_attempts + 1))) [
          | inl spent ↦ rw spent refl
          | inr left ↦ rw left (p, refl)
        ])
  ]

  pub consider-Explains :
      (clock : ℕ → ℕ) (round : ℕ)
      → Explains conflicts t (consider clock round conflicts permanent t)
  unfolding consider
  consider-Explains clock round = elim (Bool-cases (is_pending t.status)) [
    | inr p ↦ rw p tt
    | inl p ↦ rw p (elim (Bool-cases (backing_off t.next_retry_at (clock (3 * round)))) [
      | inl b ↦ rw b tt
      | inr b ↦ rw b (elim (Bool-cases (is_empty conflicts)) [
        | inl c ↦ rw c (is_empty-nil conflicts c, refl)
        | inr c ↦ rw c (with_conflicts-Explains (clock (3 * round + 1)) (clock (3 * round + 2)) p)
      ])
    ])
  ]
