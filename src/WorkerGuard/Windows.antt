-- ===== src/WorkerGuard/Windows.antt =====
-- sandbox/worker_guard.py, `_repeat_ratio`, `is_repeated_action` and `is_repeated_error` (which differ
-- in their defaults only), and the deques.
use agent_manager.Prelude.Fractions.{Fraction, at_least}
use agent_manager.Prelude.{
  ℕ, suc, ◌-◌, Bool, false, ◌||◌, List, [], ◌∷◌, ◌++◌, length, drop, ltb, if◌then◌else◌,
}

module _ {ℓ} {A : Type ℓ} where
  -- `list(xs)[-n:]` for n above 0
  unfoldable pub recent : ℕ → List A → List A
  recent n xs = drop (length xs - n) xs

  -- `xs.append(x)` on a `deque(maxlen=n)`
  unfoldable pub push : ℕ → A → List A → List A
  unfolding recent
  push n x xs = recent n (xs ++ x ∷ [])

module _ {ℓ} {A : Type ℓ} (same : A → A → Bool) where
  -- `sum(1 for item in items if item == candidate)`
  unfoldable pub count : A → List A → ℕ
  count candidate [] = 0
  count candidate (item ∷ items) =
      let rest = count candidate items in if same item candidate then suc rest else rest

  -- The loop over the candidates.
  unfoldable pub best_count : ℕ → (candidates items : List A) → ℕ
  unfolding count
  best_count best [] items = best
  best_count best (candidate ∷ rest) items =
      best_count (if ltb best (count candidate items) then count candidate items else best) rest
        items

  unfoldable pub repeat_ratio : List A → Fraction
  unfolding best_count
  repeat_ratio [] = record { numerator = 0; denominator = 1 }
  repeat_ratio (x ∷ xs) = record {
    numerator = best_count 1 (x ∷ xs) (x ∷ xs);
    denominator = length (x ∷ xs);
  }

  unfoldable pub is_repeated : (window_size : ℕ) → (repeat_threshold : Fraction) → List A → Bool
  unfolding recent repeat_ratio at_least
  is_repeated window_size repeat_threshold xs =
      if ltb window_size 2 || ltb (length xs) window_size
      then false
      else at_least (repeat_ratio (recent window_size xs)) repeat_threshold
