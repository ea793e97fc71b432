-- ===== src/DefectRepair/Texts.antt =====
-- The functions of Python's `str` and `re` that defect_repair/repair_strategies.py uses.
use Prim.Native.Char.{Char, code}
use Prim.Native.String
use Prim.Native.String.{[], ◌∷◌, count}
use text.Mathlib.TextEquality.{Char-path}
use text.Mathlib.TextLemmas.{nil-append, cons-append, length-nil, length-cons}
use agent_manager.Prelude.Dict.{is_some}
use agent_manager.Prelude.{
  ℕ, zero, suc, ◌-◌, String, ◌≡◌, refl, sym, ◌∙◌, ap, Bool, true, false, Bool-cases, Option, none,
  some, inl, inr, List, [], ◌∷◌, ◌==◌, ==_iff, arith,
}

-- What follows `prefix` in the text, if the text starts with it.
unfoldable pub strip : (prefix text : String) → Option String
strip [] text = some text
strip (c ∷ prefix) [] = none
strip (c ∷ prefix) (d ∷ text) = elim (code c == code d) [ true ↦ strip prefix text | false ↦ none ]

-- `text.replace(old, new)`, where `old` is not empty; the first `skip` characters belong to the
-- occurrence before.
unfoldable pub replace_from : (old new : String) → (skip : ℕ) → String → String
unfolding strip
replace_from old new n [] = []
replace_from old new (suc n) (c ∷ text) = replace_from old new n text
replace_from old new zero (c ∷ text) = elim (is_some (strip old (c ∷ text))) [
  | true ↦ String.◌++◌ new (replace_from old new (count old - 1) text)
  | false ↦ c ∷ replace_from old new zero text
]

abbrev pub replace : (old new text : String) → String
replace old new text = replace_from old new 0 text

unfoldable put_first : Char → List String → List String
put_first c [] = (c ∷ []) ∷ []
put_first c (part ∷ parts) = (c ∷ part) ∷ parts

-- `text.split(separator)`, where the separator is not empty
unfoldable pub split_parts : (separator : String) → (skip : ℕ) → String → List String
unfolding strip put_first
split_parts separator n [] = "" ∷ []
split_parts separator (suc n) (c ∷ text) = split_parts separator n text
split_parts separator zero (c ∷ text) = elim (is_some (strip separator (c ∷ text))) [
  | true ↦ "" ∷ split_parts separator (count separator - 1) text
  | false ↦ put_first c (split_parts separator zero text)
]

abbrev pub split : (text separator : String) → List String
split text separator = split_parts separator 0 text

-- `separator.join(parts)`
unfoldable pub join : (separator : String) → List String → String
join separator [] = ""
join separator (part ∷ []) = part
join separator (part ∷ next ∷ parts) =
    String.◌++◌ part (String.◌++◌ separator (join separator (next ∷ parts)))

-- `re.search(r"(\w+Error):", text)`, its group. `word` says of a character whether `\w` takes it:
-- Python's tables of Unicode.
module _ (word : Char → Bool) where
  -- The match that begins with the text: `\w+` takes as much as it can.
  unfoldable pub match_error : String → Option String
  unfolding strip
  match_error [] = none
  match_error (c ∷ text) = elim (word c) [
    | false ↦ none
    | true ↦ elim (match_error text) [
      | some name ↦ some (c ∷ name)
      | none ↦ elim (strip "Error:" text) [ none ↦ none | some rest ↦ some (c ∷ "Error") ]
    ]
  ]

  unfoldable pub search_error : String → Option String
  unfolding match_error
  search_error [] = none
  search_error (c ∷ text) = elim (match_error (c ∷ text)) [
    | some name ↦ some name
    | none ↦ search_error text
  ]

-- `text[n:]`
unfoldable pub drop : ℕ → String → String
drop zero text = text
drop (suc n) [] = []
drop (suc n) (c ∷ text) = drop n text

strip-drop :
    (prefix text : String)
    → is_some (strip prefix text) ≡ true
    → String.◌++◌ prefix (drop (count prefix) text) ≡ text
unfolding strip drop
strip-drop [] text h = nil-append _ ∙ ap (λ n. drop n text) length-nil
strip-drop (c ∷ prefix) [] h = absurd (ground (arith, h))
strip-drop (c ∷ prefix) (d ∷ text) h = elim (Bool-cases (code c == code d)) [
  | inr e ↦ absurd (ground (arith, h, e))
  | inl e ↦
      cons-append c prefix _
      ∙ ap (λ n. c ∷ String.◌++◌ prefix (drop n (d ∷ text))) (length-cons c prefix)
      ∙ ap (λ rest. c ∷ rest) (strip-drop prefix text (rw (strip, e) at h))
      ∙ ap (λ k. k ∷ text) (Char-path c d ((==_iff (code c) (code d)).0 e))
]

one_less : (m : ℕ) → suc m - 1 ≡ m
one_less m = omega arith

-- To replace a text by itself changes nothing.
pub replace_from-same :
    (old : String) (m : ℕ)
    → count old ≡ suc m
    → (n : ℕ) (text : String) → replace_from old old n text ≡ drop n text
unfolding replace_from drop
replace_from-same old m size zero [] = refl
replace_from-same old m size (suc n) [] = refl
replace_from-same old m size (suc n) (c ∷ text) = replace_from-same old m size n text
replace_from-same old m size zero (c ∷ text) = elim (Bool-cases (is_some (strip old (c ∷ text)))) [
  | inr e ↦ rw (replace_from, e) (ap (λ rest. c ∷ rest) (replace_from-same old m size 0 text))
  | inl e ↦
      rw (replace_from, e)
        (ap (String.◌++◌ old) (
            replace_from-same old m size (count old - 1) text
            ∙ ap (λ n. drop n text) (ap (λ n. n - 1) size ∙ one_less m)
            ∙ ap (λ n. drop n (c ∷ text)) (sym size))
          ∙ strip-drop old (c ∷ text) e)
]
