-- ===== src/DefectRepair/Classified.antt =====
-- defect_repair/classifier.py: which pattern decides on a classification.
use Prim.Native.Char.{Char}
use mathlib.Core.Option.{some-injective, none-ne-some}
use agent_manager.Prelude.Dict
use agent_manager.Prelude.Dict.{Dict, get-put, contains-get, is_some}
use agent_manager.Prelude.{
  String, ◌≡◌, refl, sym, ap, ◌∙◌, subst, inl, inr, Bool, true, false, Bool-cases, none, some,
  Option-cases, List, [], ◌∷◌, ◌++◌, str_eq, eq_iff, eq_refl, if◌then◌else◌, arith,
}
use agent_manager.DefectRepair.Pipeline.{RepairLevel, l2_logic}
use agent_manager.DefectRepair.Classifier.{
  SeverityLevel, medium, DefectPattern, DefectClassifier, matches, register_pattern, register_all,
  new_classifier, first_match, extract_error_type, base_severity, name_of, adjusted,
  calculate_severity, determine_impact_scope, classified, classify_error,
}

-- Every pattern is the one that the map has under its name.
unfoldable AllIn : List DefectPattern → Dict DefectPattern → Type 0
AllIn [] known = Unit
AllIn (p ∷ patterns) known = (Dict.get known p.pattern_name ≡ some p) × AllIn patterns known

unfoldable pub Consistent : DefectClassifier → Type 0
unfolding AllIn
Consistent c = AllIn c.patterns c.pattern_map

-- The classification by a pattern, of code with a scope.
unfoldable pub by_pattern : DefectPattern → (impact_scope : String) → RepairLevel × SeverityLevel
by_pattern p impact_scope = (p.repair_level, adjusted impact_scope p.severity)

-- What the registration of `p` adds to a classifier whose first match is given.
unfoldable pub with_registered :
    (matched : Bool)
    → DefectPattern
    → (error_msg impact_scope : String) → (before : RepairLevel × SeverityLevel)
    → RepairLevel × SeverityLevel
unfolding by_pattern
with_registered true p error_msg impact_scope before = before
with_registered false p error_msg impact_scope before =
    if matches p error_msg then by_pattern p impact_scope else (l2_logic, medium)

AllIn-put :
    (patterns : List DefectPattern) (known : Dict DefectPattern) (p : DefectPattern)
    → Dict.get known p.pattern_name ≡ none
    → AllIn patterns known
    → AllIn (patterns ++ p ∷ []) (Dict.put known p.pattern_name p)
unfolding AllIn
AllIn-put [] known p fresh a =
    (get-put known p.pattern_name p.pattern_name p ∙ rw (eq_refl p.pattern_name) refl, tt)
AllIn-put (q ∷ patterns) known p fresh (at, rest) = (
  elim (Bool-cases (str_eq p.pattern_name q.pattern_name)) [
    | inl e ↦ absurd (
        none-ne-some q
          (sym fresh ∙ ap (Dict.get known) ((eq_iff p.pattern_name q.pattern_name).0 e) ∙ at))
    | inr e ↦ get-put known p.pattern_name q.pattern_name p ∙ rw e at
  ],
  AllIn-put patterns known p fresh rest,
)

-- To register a pattern under a new name keeps a classifier consistent.
pub register_pattern-Consistent :
    (p : DefectPattern) (c : DefectClassifier)
    → Dict.get c.pattern_map p.pattern_name ≡ none
    → Consistent c
    → Consistent (register_pattern p c)
unfolding Consistent register_pattern
register_pattern-Consistent p c fresh a = AllIn-put c.patterns c.pattern_map p fresh a

-- The classifier with the patterns of the source is consistent.
pub new_classifier-Consistent : Consistent new_classifier
unfolding Consistent new_classifier register_all register_pattern AllIn Dict.get Dict.put
new_classifier-Consistent =
    (refl, (refl, (refl, (refl, (refl, (refl, (refl, (refl, (refl, (refl, tt))))))))))

first_match-AllIn :
    (patterns : List DefectPattern) (known : Dict DefectPattern) (error_msg : String)
    (p : DefectPattern)
    → AllIn patterns known
    → first_match patterns error_msg ≡ some p
    → Dict.get known p.pattern_name ≡ some p
unfolding AllIn first_match
first_match-AllIn [] known error_msg p a h = absurd (ground (arith, h))
first_match-AllIn (q ∷ patterns) known error_msg p (at, rest) h =
    elim (Bool-cases (matches q error_msg)) [
      | inl e ↦
          subst (λ (r : DefectPattern). Dict.get known r.pattern_name ≡ some r)
            (some-injective q p (rw (first_match, e) at h)) at
      | inr e ↦ first_match-AllIn patterns known error_msg p rest (rw (first_match, e) at h)
    ]

-- A pattern at the end decides where none before it matches.
first_match-append :
    (patterns : List DefectPattern) (p : DefectPattern) (error_msg : String)
    → first_match (patterns ++ p ∷ []) error_msg ≡ elim (first_match patterns error_msg) [
      | some q ↦ some q
      | none ↦ if matches p error_msg then some p else none
    ]
unfolding first_match
first_match-append [] p error_msg = elim (Bool-cases (matches p error_msg)) [
  | inl e ↦ rw (first_match, e) refl
  | inr e ↦ rw (first_match, e) refl
]
first_match-append (q ∷ patterns) p error_msg = elim (Bool-cases (matches q error_msg)) [
  | inl e ↦ rw (first_match, e) refl
  | inr e ↦ rw (first_match, e) (first_match-append patterns p error_msg)
]

module _ (word space : Char → Bool) where
  classify_error-none :
      (c : DefectClassifier) (error_msg code_context : String)
      → first_match c.patterns error_msg ≡ none
      → classify_error word space c error_msg code_context ≡ (l2_logic, medium)
  unfolding classify_error
  classify_error-none c error_msg code_context h =
      ap (classified word space c error_msg code_context) h

  -- In a consistent classifier the first pattern that matches a message gives both the level of repair
  -- and the severity, which the scope of the code adjusts.
  pub classify_error-by_pattern :
      (c : DefectClassifier) (error_msg code_context : String) (p : DefectPattern)
      → Consistent c
      → first_match c.patterns error_msg ≡ some p
      → classify_error word space c error_msg code_context
        ≡ by_pattern p (determine_impact_scope word space code_context)
  unfolding classify_error classified extract_error_type by_pattern Consistent calculate_severity
  classify_error-by_pattern c error_msg code_context p a h =
      ap (classified word space c error_msg code_context) h
      ∙ ap (λ s. (p.repair_level, adjusted (determine_impact_scope word space code_context) s))
          (ap (λ o. base_severity (Dict.get c.pattern_map (name_of o))) h
            ∙ ap base_severity (first_match-AllIn c.patterns c.pattern_map error_msg p a h))

  -- In a consistent classifier, to register a pattern under a new name leaves the classification of a
  -- message as it is if a pattern that was registered before matches it. If none does, the new pattern
  -- decides where it matches, and the default stays elsewhere.
  pub classify_error-register_pattern :
      (p : DefectPattern) (c : DefectClassifier) (error_msg code_context : String)
      → Consistent c
      → Dict.get c.pattern_map p.pattern_name ≡ none
      → classify_error word space (register_pattern p c) error_msg code_context
        ≡ with_registered
            (is_some (first_match c.patterns error_msg))
            p
            error_msg
            (determine_impact_scope word space code_context)
            (classify_error word space c error_msg code_context)
  unfolding with_registered register_pattern
  classify_error-register_pattern p c error_msg code_context a fresh =
      let added = register_pattern-Consistent p c fresh a in
      let now = first_match-append c.patterns p error_msg in
      elim (Option-cases (first_match c.patterns error_msg)) [
        | inr (q, e) ↦ rw e (
            classify_error-by_pattern (register_pattern p c) error_msg code_context q added
              (rw e at now)
            ∙ sym (classify_error-by_pattern c error_msg code_context q a e))
        | inl e ↦ elim (Bool-cases (matches p error_msg)) [
          | inl m ↦
              rw (e, m)
                (classify_error-by_pattern (register_pattern p c) error_msg code_context p added
                  (rw (e, m) at now))
          | inr m ↦
              rw (e, m)
                (classify_error-none (register_pattern p c) error_msg code_context
                  (rw (e, m) at now))
        ]
      ]
