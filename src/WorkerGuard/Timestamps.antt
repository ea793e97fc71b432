-- ===== src/WorkerGuard/Timestamps.antt =====
-- sandbox/worker_guard.py: the time stamp is part of an action, so it counts in the comparison.
use native.Mathlib.Nat.{mul-le-mul_left, mul-le-mul_right}
use agent_manager.Prelude.Fractions.{Fraction}
use agent_manager.Prelude.{
  ℕ, zero, suc, ◌*◌, ◌≤◌, ◌<◌, ◌-◌, ◌≡◌, refl, Bool, true, false, List, [], ◌∷◌, length, drop, All,
  All-map, Any, arith, inl, inr, Bool-cases, eq_refl,
}
use agent_manager.WorkerGuard.Windows.{recent, count, is_repeated}
use agent_manager.WorkerGuard.Repetition.{is_repeated-Iff}
use agent_manager.WorkerGuard.Guard.{Action, Guard, same_action, check_repeated_actions}

-- Each item is later than those before it.
unfoldable pub IsRising : {A : Type 0} → (A → ℕ) → List A → Type 0
IsRising time [] = Unit
IsRising time (x ∷ xs) = All (λ y. time x < time y) xs × IsRising time xs

module _ {A : Type 0} (same : A → A → Bool) (time : A → ℕ)
    (timed : (x y : A) → same x y ≡ true → time x ≡ time y) where
  count_later : (c : A) (xs : List A) → All (λ y. time c < time y) xs → count same c xs ≡ 0
  unfolding count
  count_later c [] a = refl
  count_later c (x ∷ xs) a = ground (arith, count_later c xs a.1, timed x c, a.0)

  count_rising : (c : A) (xs : List A) → IsRising time xs → count same c xs ≤ 1
  unfolding count IsRising
  count_rising c [] r = omega arith
  count_rising c (x ∷ xs) r = elim (Bool-cases (same x c)) [
    | inr other ↦ rw other (count_rising c xs r.1)
    | inl equal ↦
        let later =
          All-map {P = λ y. time x < time y} {Q = λ y. time c < time y} xs
            (λ y l. omega (arith, l, timed x c equal)) r.0 in
        rw (equal, count_later c xs later) (omega arith)
  ]

  IsRising-drop : (n : ℕ) (xs : List A) → IsRising time xs → IsRising time (drop n xs)
  unfolding IsRising
  IsRising-drop zero xs r = r
  IsRising-drop (suc n) [] r = tt
  IsRising-drop (suc n) (x ∷ xs) r = IsRising-drop n xs r.1

  no_majority :
      (t : Fraction) (n : ℕ) (ys zs : List A)
      → 2 ≤ n
      → t.denominator < t.numerator * 2
      → IsRising time ys
      → Any (λ y. t.numerator * n ≤ count same y ys * t.denominator) zs
      → ⊥
  no_majority t n ys [] wide most r a = a
  no_majority t n ys (z ∷ zs) wide most r (inr a) = no_majority t n ys zs wide most r a
  no_majority t n ys (z ∷ zs) wide most r (inl a) = omega (
    arith,
    a,
    most,
    mul-le-mul_left t.numerator wide,
    mul-le-mul_right t.denominator (count_rising z ys r),
  )

  unrepeated :
      (t : Fraction) (window_size : ℕ) (xs : List A)
      → ((x : A) → same x x ≡ true)
      → t.denominator < t.numerator * 2
      → IsRising time xs
      → is_repeated same window_size t xs ≡ false
  unrepeated t w xs e most r = elim (Bool-cases (is_repeated same w t xs)) [
    | inr never ↦ never
    | inl found ↦
        let (wide, filled, a) = (is_repeated-Iff same t w xs e).0 found in
        absurd (
          no_majority t w (recent w xs) (recent w xs) wide most
            (unfold recent in IsRising-drop (length xs - w) xs r) a)
  ]

module _ {P : Type 0} (same_params : P → P → Bool)
    (reflexive : (p : P) → same_params p p ≡ true) where
  same_action_refl : (a : Action P) → same_action same_params a a ≡ true
  unfolding same_action
  same_action_refl a = ground (arith, eq_refl a.action_type, reflexive a.action_params)

  same_action-timestamp :
      (a b : Action P) → same_action same_params a b ≡ true → a.timestamp ≡ b.timestamp
  unfolding same_action
  same_action-timestamp a b h = ground arith

  -- If each action that the guard holds has a later time stamp than those before it, and the
  -- threshold for actions is above one half, then no repetition is found, whatever the actions.
  pub check_repeated_actions-IsRising :
      (g : Guard P)
      → g.settings.action_repeat_threshold.denominator
        < g.settings.action_repeat_threshold.numerator * 2
      → IsRising (λ a. a.timestamp) g.actions
      → check_repeated_actions same_params g ≡ false
  unfolding check_repeated_actions
  check_repeated_actions-IsRising g most rising =
      unrepeated (same_action same_params) (λ a. a.timestamp) same_action-timestamp
        g.settings.action_repeat_threshold g.settings.action_window_size g.actions same_action_refl
        most rising
