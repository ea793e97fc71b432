-- ===== src/WorkerGuard/Outputs.antt =====
-- sandbox/worker_guard.py, `track_output`: when an output counts as a repetition.
use native.Mathlib.Nat.{mul-le-mul_right}
use agent_manager.Prelude.Fractions.{Fraction, at_least}
use agent_manager.Prelude.StrSet.{StrSet, member, add, member-cons}
use agent_manager.Prelude.{
  ℕ, zero, suc, ◌-◌, ◌≤◌, String, ◌≡◌, refl, true, false, List, [], ◌∷◌, ◌++◌, length,
  length-append, drop, max, arith, inl, inr, Bool-cases, eq_refl, eq_iff, subst, str_eq,
}
use agent_manager.WorkerGuard.Windows.{recent, push}
use agent_manager.WorkerGuard.Similarity.{
  similarity, split_set, intersection, union, is_nil, split_from, ended, to_set,
}
use agent_manager.WorkerGuard.Guard.{Guard, Output, any_similar, track_output}

-- Every word of `s` is in `t`.
IsWithin : StrSet → StrSet → Type 0
IsWithin s t = (w : String) → member s w ≡ true → member t w ≡ true

tail-IsWithin : (w : String) (s t : StrSet) → IsWithin (w ∷ s) t → IsWithin s t
unfolding IsWithin
tail-IsWithin w s t h v m = h v (member-cons w s v m)

head_within : (w : String) (s t : StrSet) → IsWithin (w ∷ s) t → member t w ≡ true
unfolding IsWithin member
head_within w s t h = h w (rw (eq_refl w) refl)

intersection_within : (s t : StrSet) → IsWithin s t → intersection s t ≡ s
unfolding intersection
intersection_within [] t h = refl
intersection_within (w ∷ s) t h =
    rw (head_within w s t h, intersection_within s t (tail-IsWithin w s t h)) refl

union_within : (s t : StrSet) → IsWithin s t → union s t ≡ t
unfolding union add
union_within [] t h = refl
union_within (w ∷ s) t h = rw (union_within s t (tail-IsWithin w s t h), head_within w s t h) refl

written : (text : String) → is_nil (split_set text) ≡ false → str_eq text "" ≡ false
unfolding is_nil split_set split_from ended to_set
written text words = elim (Bool-cases (str_eq text "")) [
  | inr other ↦ other
  | inl blank ↦
      let no_words = subst (λ x. is_nil (split_set x) ≡ false) ((eq_iff text "").0 blank) words in
      cc
]

-- A text with words is as similar as can be to itself.
similarity_self :
    (text : String) (t : Fraction)
    → is_nil (split_set text) ≡ false
    → t.numerator ≤ t.denominator
    → at_least (similarity text text) t ≡ true
unfolding similarity at_least IsWithin
similarity_self text t words possible =
    rw
      (
        words,
        written text words,
        intersection_within (split_set text) (split_set text) (λ w m. m),
        union_within (split_set text) (split_set text) (λ w m. m),
      )
      (ground (arith, mul-le-mul_right (length (split_set text)) possible))

any_similar-append :
    (t : Fraction) (text : String) (xs : List Output) (now : ℕ)
    → at_least (similarity text text) t ≡ true
    → any_similar t text (xs ++ record { text = text; made_at = now } ∷ []) ≡ true
unfolding any_similar
any_similar-append t text [] now h = rw h refl
any_similar-append t text (x ∷ xs) now h = ground (arith, any_similar-append t text xs now h)

drop-append :
    {A : Type 0} (n : ℕ) (xs : List A) (x : A)
    → n ≤ length xs
    → drop n (xs ++ x ∷ []) ≡ drop n xs ++ x ∷ []
drop-append zero xs x h = refl
drop-append (suc n) [] x h = absurd (omega (arith, h))
drop-append (suc n) (y ∷ xs) x h = drop-append n xs x (omega (arith, h))

recent-append :
    {A : Type 0} (n : ℕ) (xs : List A) (x : A)
    → 1 ≤ n
    → (ys : List A) × (recent n (xs ++ x ∷ []) ≡ ys ++ x ∷ [])
unfolding recent
recent-append n xs x h =
    let dropped = length (xs ++ x ∷ []) - n in
    (drop dropped xs, drop-append dropped xs x (omega (arith, length-append xs (x ∷ []), h)))

-- An output that has a word and is tracked twice in a row is refused the second time, if the
-- threshold for outputs is at most 1; the times and what was tracked before do not matter.
pub track_output-twice :
    {P : Type 0} (output : String) (earlier later : ℕ) (g : Guard P)
    → is_nil (split_set output) ≡ false
    → g.settings.output_similarity_threshold.numerator
      ≤ g.settings.output_similarity_threshold.denominator
    → (track_output output later (track_output output earlier g).1).0 ≡ false
unfolding track_output push
track_output-twice output earlier later g words possible =
    let made : Output = record { text = output; made_at = earlier } in
    let (kept, pushed) =
      recent-append (max 50 g.settings.output_window_size) g.outputs made (omega arith) in
    let (seen, looked) =
      recent-append (max 1 g.settings.output_window_size) kept made (omega arith) in
    rw
      (
        pushed,
        looked,
        any_similar-append g.settings.output_similarity_threshold output seen earlier
            (similarity_self output g.settings.output_similarity_threshold words possible),
      )
      refl
