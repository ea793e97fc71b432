-- ===== src/WorkerGuard/Repetition.antt =====
-- sandbox/worker_guard.py: when a window of actions or errors counts as repeated.
use native.Mathlib.Nat.{mul-le-mul_right}
use agent_manager.Prelude.Fractions.{Fraction, at_least}
use agent_manager.Prelude.{
  ℕ, ◌*◌, ◌-◌, ◌≤◌, ◌≡◌, ◌↔◌, ◌⊎◌, Bool, true, List, [], ◌∷◌, length, length-drop, Any, arith, ltb,
  leb, inl, inr, Bool-cases,
}
use agent_manager.WorkerGuard.Windows.{recent, count, best_count, repeat_ratio, is_repeated}

leb_iff : (a b : ℕ) → (leb a b ≡ true) ↔ (a ≤ b)
leb_iff a b = ground arith

module _ {A : Type 0} (same : A → A → Bool) (t : Fraction) where
  -- So many equal items reach the threshold, in a window of `n`.
  abbrev Reaches : ℕ → ℕ → Type 0
  Reaches n c = t.numerator * n ≤ c * t.denominator

  Reaches-monotone : (n : ℕ) {c d : ℕ} → c ≤ d → Reaches n c → Reaches n d
  Reaches-monotone n h r = omega (arith, mul-le-mul_right t.denominator h)

  best_count-Reaches :
      (best n : ℕ) (candidates items : List A)
      → Reaches n (best_count same best candidates items)
      → Reaches n best ⊎ Any (λ x. Reaches n (count same x items)) candidates
  unfolding best_count
  best_count-Reaches best n [] items r = inl r
  best_count-Reaches best n (x ∷ xs) items r = elim (Bool-cases (ltb best (count same x items))) [
    | inl more ↦ inr (best_count-Reaches (count same x items) n xs items (rw more at r))
    | inr less ↦ elim (best_count-Reaches best n xs items (rw less at r)) [
      | inl b ↦ inl b
      | inr a ↦ inr (inr a)
    ]
  ]

  Reaches-best_count :
      (best n : ℕ) (candidates items : List A)
      → Reaches n best ⊎ Any (λ x. Reaches n (count same x items)) candidates
      → Reaches n (best_count same best candidates items)
  unfolding best_count
  Reaches-best_count best n [] items (inl r) = r
  Reaches-best_count best n [] items (inr r) = absurd r
  Reaches-best_count best n (x ∷ xs) items s = elim (Bool-cases (ltb best (count same x items))) [
    | inl more ↦ rw more (
        Reaches-best_count (count same x items) n xs items
          (elim s [ inl b ↦ inl (Reaches-monotone n (ground arith) b) | inr a ↦ a ]))
    | inr less ↦ rw less (
        Reaches-best_count best n xs items (elim s [
          | inl b ↦ inl b
          | inr (inl c) ↦ inl (Reaches-monotone n (ground arith) c)
          | inr (inr a) ↦ inr a
        ]))
  ]

  count_self : (x : A) (xs : List A) → same x x ≡ true → 1 ≤ count same x (x ∷ xs)
  unfolding count
  count_self x xs e = ground arith

  repeat_ratio-Reaches :
      (x : A) (xs : List A)
      → same x x ≡ true
      → (at_least (repeat_ratio same (x ∷ xs)) t ≡ true)
        ↔ Any (λ y. Reaches (length (x ∷ xs)) (count same y (x ∷ xs))) (x ∷ xs)
  unfolding at_least repeat_ratio
  repeat_ratio-Reaches x xs e =
      let n = length (x ∷ xs) in
      let items = x ∷ xs in
      let best = best_count same 1 items items in
      let exact = leb_iff (t.numerator * n) (best * t.denominator) in
      (
        λ h. elim (best_count-Reaches 1 n items items (exact.0 h)) [
          | inl one ↦ inl (Reaches-monotone n (count_self x xs e) one)
          | inr a ↦ a
        ],
        λ a. exact.1 (Reaches-best_count 1 n items items (inr a)),
      )

  repeat_ratio-Reaches_all :
      (ys : List A)
      → ((x : A) → same x x ≡ true)
      → 1 ≤ length ys
      → (at_least (repeat_ratio same ys) t ≡ true)
        ↔ Any (λ y. Reaches (length ys) (count same y ys)) ys
  repeat_ratio-Reaches_all [] e some_item = absurd (omega (arith, some_item))
  repeat_ratio-Reaches_all (x ∷ xs) e some_item = repeat_ratio-Reaches x xs (e x)

  length-recent : (w : ℕ) (xs : List A) → w ≤ length xs → length (recent w xs) ≡ w
  unfolding recent
  length-recent w xs filled = omega (arith, length-drop (length xs - w) xs)

  -- `is_repeated_action` and `is_repeated_error` answer True exactly if the window is at least 2 and
  -- filled, and some item makes up at least the given share of it. Items are compared by an equality
  -- that holds of each item with itself.
  pub is_repeated-Iff :
      (window_size : ℕ) (xs : List A)
      → ((x : A) → same x x ≡ true)
      → (is_repeated same window_size t xs ≡ true) ↔ (
          (2 ≤ window_size)
          × (window_size ≤ length xs)
          × Any
              (λ y.
                t.numerator * window_size ≤ count same y (recent window_size xs) * t.denominator)
              (recent window_size xs))
  unfolding is_repeated
  is_repeated-Iff w xs e = (
    λ h.
        let wide : 2 ≤ w = ground arith in
        let filled : w ≤ length xs = ground arith in
        let whole = length-recent w xs filled in
        (
          wide,
          filled,
          rw whole at
              ((repeat_ratio-Reaches_all (recent w xs) e (omega (arith, whole))).0 (ground arith)),
        ),
    λ (wide, filled, a).
        let whole = length-recent w xs filled in
        let reached =
          (repeat_ratio-Reaches_all (recent w xs) e (omega (arith, whole))).1 (rw whole a) in
        ground arith,
  )
