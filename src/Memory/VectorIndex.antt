-- ===== src/Memory/VectorIndex.antt =====
-- memory/vector_backend.py, `InMemoryVectorSearchBackend`.
use Prim.Native.Char.{Char}
use Prim.Native.String
use Prim.Native.String.{[], ◌∷◌}
use agent_manager.Prelude.Dict
use agent_manager.Prelude.Dict.{Dict, is_some}
use agent_manager.Prelude.Fractions.{Fraction, at_least}
use agent_manager.Prelude.StrSet.{StrSet}
use agent_manager.Prelude.{
  ℕ, zero, suc, String, Bool, true, false, ok, none, some, List, [], ◌∷◌, length, ltb,
  if◌then◌else◌,
}
use agent_manager.Recovery.Failures.{lower}
use agent_manager.WorkerGuard.Similarity.{to_set, intersection, union, ended}
use agent_manager.Memory.Store.{VectorBackend}

-- The tokens of each key, by namespace.
abbrev pub VectorIndex : Type 0
VectorIndex = Dict (Dict StrSet)

-- `_jaccard_score`
unfoldable pub jaccard_score : StrSet → StrSet → Fraction
unfolding intersection union
jaccard_score a b = elim (union a b) [
  | [] ↦ record { numerator = 0; denominator = 1 }
  | token ∷ tokens ↦ record {
    numerator = length (intersection a b);
    denominator = length (token ∷ tokens);
  }
]

pub record VectorSearchResult : Type 0 where
  pub key : String
  pub score : Fraction

-- `results.sort(key=..., reverse=True)` keeps the order of equal scores: a result goes behind those that
-- have at least its score.
unfoldable ranked : VectorSearchResult → List VectorSearchResult → List VectorSearchResult
ranked r [] = r ∷ []
ranked r (next ∷ results) = elim (at_least next.score r.score) [
  | true ↦ next ∷ ranked r results
  | false ↦ r ∷ next ∷ results
]

-- The results with a score above 0, before those that are ranked already.
unfoldable pub ranked_results :
    (query_tokens : StrSet) → Dict StrSet → List VectorSearchResult → List VectorSearchResult
unfolding jaccard_score ranked
ranked_results query_tokens [] results = results
ranked_results query_tokens ((key, tokens) ∷ entries) results =
    let score = jaccard_score tokens query_tokens in
    ranked_results query_tokens entries (
      if ltb 0 score.numerator
      then ranked (record { key = key; score = score }) results
      else results)

-- The keys of `results[:limit]`
unfoldable pub first_keys : (limit : ℕ) → List VectorSearchResult → List String
first_keys zero results = []
first_keys (suc n) [] = []
first_keys (suc n) (r ∷ results) = r.key ∷ first_keys n results

unfoldable pub namespace_index : VectorIndex → String → Dict StrSet
namespace_index index namespace = elim (Dict.get index namespace) [
  | none ↦ []
  | some entries ↦ entries
]

-- `word` says of a character whether `\w` takes it.
module _ (word : Char → Bool) where
  -- `re.findall(r"\w+", text)`, with the characters of the token that is being read
  unfoldable pub find_words : (token text : String) → List String
  find_words token [] = ended token []
  find_words token (c ∷ text) = elim (word c) [
    | true ↦ find_words (String.◌++◌ token (c ∷ [])) text
    | false ↦ ended token (find_words "" text)
  ]

  -- `_tokenize`
  unfoldable pub tokenize : String → StrSet
  unfolding find_words
  tokenize text = to_set (find_words "" (lower text))

  unfoldable pub upsert : (namespace key text : String) → VectorIndex → VectorIndex
  unfolding namespace_index tokenize
  upsert namespace key text index =
      Dict.put index namespace (Dict.put (namespace_index index namespace) key (tokenize text))

  -- The keys of what `query` answers.
  unfoldable pub query : (limit : ℕ) → (namespace query_text : String) → VectorIndex → List String
  unfolding namespace_index ranked_results first_keys tokenize
  query limit namespace query_text index =
      first_keys limit (ranked_results (tokenize query_text) (namespace_index index namespace) [])

  unfoldable pub in_memory_backend : VectorBackend VectorIndex
  unfolding upsert query
  in_memory_backend = record {
    upsert = λ namespace key text index. (ok tt, upsert namespace key text index);
    query = λ namespace text index. (ok (query 10 namespace text index), index);
  }

unfoldable pub remove : (namespace key : String) → VectorIndex → Bool × VectorIndex
unfolding namespace_index
remove namespace key index =
    if Dict.contains (namespace_index index namespace) key
    then (true, Dict.put index namespace (Dict.remove (namespace_index index namespace) key))
    else (false, index)

unfoldable pub clear : (namespace : String) → VectorIndex → ℕ × VectorIndex
unfolding namespace_index
clear namespace index = elim (namespace_index index namespace) [
  | [] ↦ (0, index)
  | entry ∷ entries ↦ (length (entry ∷ entries), Dict.remove index namespace)
]
