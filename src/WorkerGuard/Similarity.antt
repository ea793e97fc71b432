-- ===== src/WorkerGuard/Similarity.antt =====
-- sandbox/worker_guard.py, `compute_word_jaccard_similarity`.
use Prim.Native.Char.{Char, code}
use Prim.Native.String
use Prim.Native.String.{[], ◌∷◌}
use agent_manager.Prelude.Fractions.{Fraction}
use agent_manager.Prelude.StrSet.{StrSet, member, add}
use agent_manager.Prelude.{
  String, Bool, true, false, ◌&&◌, ◌||◌, List, [], ◌∷◌, length, leb, ◌==◌, if◌then◌else◌, str_eq,
}

-- The characters at which `str.split()` cuts: Python's `str.isspace`.
unfoldable pub is_space : Char → Bool
is_space c =
    let n = code c in
    (leb 9 n && leb n 13)
    || (leb 28 n && leb n 32)
    || (n == 133)
    || (n == 160)
    || (n == 5760)
    || (leb 8192 n && leb n 8202)
    || (n == 8232)
    || (n == 8233)
    || (n == 8239)
    || (n == 8287)
    || (n == 12288)

-- A word that has ended, if it has characters.
unfoldable pub ended : String → List String → List String
ended word words = if str_eq word "" then words else word ∷ words

-- `text.split()`, with the characters of the word that is being read.
unfoldable pub split_from : String → String → List String
unfolding is_space ended
split_from word [] = ended word []
split_from word (c ∷ text) =
    let cut = split_from "" text in
    let longer = split_from (String.◌++◌ word (c ∷ [])) text in
    if is_space c then ended word cut else longer

-- `set(words)`
unfoldable pub to_set : List String → StrSet
to_set [] = []
to_set (w ∷ ws) = add (to_set ws) w

unfoldable pub split_set : String → StrSet
unfolding to_set split_from
split_set text = to_set (split_from "" text)

-- `words1 & words2` and `words1 | words2`
unfoldable pub intersection : StrSet → StrSet → StrSet
intersection [] t = []
intersection (w ∷ s) t = let rest = intersection s t in if member t w then w ∷ rest else rest

unfoldable pub union : StrSet → StrSet → StrSet
union [] t = t
union (w ∷ s) t = add (union s t) w

unfoldable pub is_nil : List String → Bool
is_nil [] = true
is_nil (w ∷ ws) = false

unfoldable pub similarity : String → String → Fraction
unfolding split_set intersection union is_nil
similarity text1 text2 =
    if str_eq text1 "" || str_eq text2 ""
    then record { numerator = 0; denominator = 1 }
    else if is_nil (split_set text1) || is_nil (split_set text2)
    then record { numerator = 0; denominator = 1 }
    else record {
      numerator = length (intersection (split_set text1) (split_set text2));
      denominator = length (union (split_set text1) (split_set text2));
    }
