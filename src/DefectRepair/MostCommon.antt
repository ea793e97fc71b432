-- ===== src/DefectRepair/MostCommon.antt =====
-- defect_repair/repair_strategies.py, `_select_consensus_repair`: the counter against the number of
-- times that a proposal occurs.
use mathlib.Core.Option.{some-injective}
use agent_manager.Prelude.Dict
use agent_manager.Prelude.Dict.{Dict, get-put}
use agent_manager.Prelude.{
  ℕ, suc, ◌+◌, ◌≤◌, String, ◌≡◌, refl, subst, ap, sym, ◌∙◌, Bool-cases, none, some, inl, inr,
  Option-cases, List, [], ◌∷◌, ltb, str_eq, eq_iff, eq_refl, if◌then◌else◌, arith,
}
use agent_manager.DefectRepair.Consensus.{
  tally, count_proposals, greatest, most_common, select_consensus_repair, occurrences, or_zero,
}

-- No number of the counter is above the one that `f` gives.
unfoldable AtMost : (String → ℕ) → Dict ℕ → Type 0
AtMost f [] = Unit
AtMost f ((text, n) ∷ counter) = (n ≤ f text) × AtMost f counter

tally-put :
    (d : Dict ℕ) (text q : String)
    → tally (Dict.put d text (suc (tally d text))) q
      ≡ (if str_eq text q then suc (tally d q) else tally d q)
unfolding tally
tally-put d text q = elim (Bool-cases (str_eq text q)) [
  | inl e ↦ ap or_zero (get-put d text q _) ∙ rw e (ap (λ k. suc (tally d k)) ((eq_iff text q).0 e))
  | inr e ↦ ap or_zero (get-put d text q _) ∙ rw e refl
]

-- The counter has every text as often as it occurs.
tally-count_proposals :
    (proposals : List String) (d : Dict ℕ) (q : String)
    → tally (count_proposals proposals d) q ≡ occurrences q proposals + tally d q
unfolding count_proposals occurrences
tally-count_proposals [] d q = omega arith
tally-count_proposals (text ∷ proposals) d q = ground (
  arith,
  tally-put d text q,
  tally-count_proposals proposals (Dict.put d text (suc (tally d text))) q,
)

AtMost-weaken :
    (f g : String → ℕ) (d : Dict ℕ) → ((q : String) → f q ≤ g q) → AtMost f d → AtMost g d
unfolding AtMost
AtMost-weaken f g [] le a = tt
AtMost-weaken f g ((k, n) ∷ d) le (a, rest) = (ground (arith, le k, a), AtMost-weaken f g d le rest)

AtMost-put :
    (f : String → ℕ) (d : Dict ℕ) (k : String) (n : ℕ)
    → n ≤ f k
    → AtMost f d
    → AtMost f (Dict.put d k n)
unfolding AtMost Dict.put
AtMost-put f [] k n le a = (le, tt)
AtMost-put f ((j, m) ∷ d) k n le (a, rest) = elim (Bool-cases (str_eq j k)) [
  | inl e ↦ rw e (subst (λ i. n ≤ f i) (sym ((eq_iff j k).0 e)) le, rest)
  | inr e ↦ rw e (a, AtMost-put f d k n le rest)
]

tally-AtMost : (f : String → ℕ) (d : Dict ℕ) (k : String) → AtMost f d → tally d k ≤ f k
unfolding AtMost tally Dict.get
tally-AtMost f [] k a = omega arith
tally-AtMost f ((j, m) ∷ d) k (a, rest) = elim (Bool-cases (str_eq j k)) [
  | inl e ↦ rw e (subst (λ i. m ≤ f i) ((eq_iff j k).0 e) a)
  | inr e ↦ rw e (tally-AtMost f d k rest)
]

abbrev more : String → (String → ℕ) → String → ℕ
more text f q = if str_eq text q then suc (f q) else f q

AtMost-count_proposals :
    (proposals : List String) (f : String → ℕ) (d : Dict ℕ)
    → AtMost f d
    → AtMost (λ q. occurrences q proposals + f q) (count_proposals proposals d)
unfolding count_proposals occurrences
AtMost-count_proposals [] f d a = AtMost-weaken f _ d (λ q. omega arith) a
AtMost-count_proposals (text ∷ proposals) f d a =
    AtMost-weaken (λ q. occurrences q proposals + more text f q) _ _ (λ q. ground arith)
      (AtMost-count_proposals proposals (more text f) (Dict.put d text (suc (tally d text))) (
        AtMost-put (more text f) d text (suc (tally d text))
          (subst (λ b. suc (tally d text) ≤ (if b then suc (f text) else f text))
            (sym (eq_refl text)) (ground (arith, tally-AtMost f d text a)))
          (AtMost-weaken f (more text f) d (λ q. ground arith) a)))

-- What `greatest` answers is bounded as the entries are, and no entry is above it.
greatest-AtMost :
    (f : String → ℕ) (best : String × ℕ) (d : Dict ℕ)
    → best.1 ≤ f best.0
    → AtMost f d
    → (greatest best d).1 ≤ f (greatest best d).0
unfolding greatest AtMost
greatest-AtMost f best [] le a = le
greatest-AtMost f best (next ∷ d) le (a, rest) = elim (Bool-cases (ltb best.1 next.1)) [
  | inl e ↦ rw (greatest, e) (greatest-AtMost f next d a rest)
  | inr e ↦ rw (greatest, e) (greatest-AtMost f best d le rest)
]

greatest-above :
    (best : String × ℕ) (d : Dict ℕ) (q : String)
    → (best.1 ≤ (greatest best d).1) × (tally d q ≤ (greatest best d).1)
unfolding greatest tally Dict.get
greatest-above best [] q = (omega arith, omega arith)
greatest-above best ((j, m) ∷ d) q = elim (Bool-cases (ltb best.1 m)) [
  | inl e ↦
      rw (greatest, e)
        (ground (arith, e, greatest-above (j, m) d q), ground (arith, greatest-above (j, m) d q))
  | inr e ↦
      rw (greatest, e)
        (ground (arith, greatest-above best d q), ground (arith, e, greatest-above best d q))
]

most_common-none : (d : Dict ℕ) (q : String) → most_common d ≡ none → tally d q ≡ 0
unfolding most_common tally Dict.get
most_common-none [] q h = refl
most_common-none (first ∷ d) q h = absurd (ground (arith, h))

most_common-AtMost :
    (f : String → ℕ) (d : Dict ℕ) (best : String × ℕ) (q : String)
    → AtMost f d
    → most_common d ≡ some best
    → tally d q ≤ f best.0
unfolding most_common AtMost tally Dict.get
most_common-AtMost f [] best q a h = absurd (ground (arith, h))
most_common-AtMost f ((j, m) ∷ d) best q (a, rest) h =
    subst (λ b. tally ((j, m) ∷ d) q ≤ f b.0) (some-injective _ _ h)
      (ground (arith, greatest-above (j, m) d q, greatest-AtMost f (j, m) d a rest))

-- The text that the counter answers occurs at least as often as each.
chosen-most :
    (proposals : List String) (entry : String × ℕ) (q : String)
    → most_common (count_proposals proposals []) ≡ some entry
    → occurrences q proposals ≤ occurrences entry.0 proposals
unfolding AtMost tally Dict.get
chosen-most proposals entry q h = ground (
  arith,
  tally-count_proposals proposals [] q,
  most_common-AtMost (λ k. occurrences k proposals + 0) (count_proposals proposals []) entry q
      (AtMost-count_proposals proposals (λ k. 0) [] tt) h,
)

occurrences-first :
    (first : String) (proposals : List String) → 1 ≤ occurrences first (first ∷ proposals)
unfolding occurrences
occurrences-first first proposals = rw (eq_refl first) (omega arith)

-- The repair that is selected by consensus is one of the proposals, and none of them occurs more often
-- among the proposals than it does.
pub select_consensus_repair-occurrences :
    (proposals : List String) (best q : String)
    → select_consensus_repair proposals ≡ some best
    → (1 ≤ occurrences best proposals) × (occurrences q proposals ≤ occurrences best proposals)
unfolding select_consensus_repair
select_consensus_repair-occurrences [] best q h = absurd (ground (arith, h))
select_consensus_repair-occurrences (first ∷ rest) best q h =
    elim (Option-cases (most_common (count_proposals (first ∷ rest) []))) [
      | inl e ↦ absurd (
          ground (
            arith,
            most_common-none (count_proposals (first ∷ rest) []) first e,
            tally-count_proposals (first ∷ rest) [] first,
            occurrences-first first rest,
          ))
      | inr (entry, e) ↦
          let same = some-injective entry.0 best (rw (select_consensus_repair, e) at h) in
          subst
            (λ b.
              (1 ≤ occurrences b (first ∷ rest))
              × (occurrences q (first ∷ rest) ≤ occurrences b (first ∷ rest)))
            same
            (
              ground
                  (arith, occurrences-first first rest, chosen-most (first ∷ rest) entry first e),
              chosen-most (first ∷ rest) entry q e,
            )
    ]
