-- ===== src/DefectRepair/StrategyTests.antt =====
-- defect_repair/repair_strategies.py and classifier.py on small inputs: a sandbox that accepts code at
-- the second attempt alone, and messages of errors that the classifier knows.
use Prim.Native.Char.{Char, code}
use agent_manager.Prelude.Dict
use agent_manager.Prelude.{
  ℕ, ◌≤◌, String, ◌≡◌, refl, Bool, false, ◌&&◌, ◌||◌, ok, none, some, [], ◌∷◌, leb, ◌==◌,
  if◌then◌else◌, arith,
}
use agent_manager.Recovery.Failures.{lower, includes, matches_patterns}
use agent_manager.Recovery.Repairs.{success}
use agent_manager.Runtime.Context.{Value}
use agent_manager.Runtime.Executor.{WorkerSandbox}
use agent_manager.DefectRepair.Pipeline.{RepairLevel, l3_performance}
use agent_manager.DefectRepair.Texts.{search_error, match_error, strip}
use agent_manager.DefectRepair.Templates.{error_type_of}
use agent_manager.DefectRepair.Consensus.{
  tally, count_proposals, greatest, most_common, select_consensus_repair, occurrences,
}
use agent_manager.DefectRepair.MostCommon.{select_consensus_repair-occurrences}
use agent_manager.DefectRepair.Strategies.{repair_l1}
use agent_manager.DefectRepair.Retries.{repair_l1-success}
use agent_manager.DefectRepair.Classifier.{
  DefectPattern, literals, high, new_classifier, register_all, register_pattern, first_match,
  matches, determine_impact_scope, classify_error,
}
use agent_manager.DefectRepair.Classified.{
  new_classifier-Consistent, with_registered, classify_error-register_pattern,
}
use agent_manager.DefectRepair.Tests.{lenient, new_pipeline}

abbrev refusing : WorkerSandbox
refusing = record { execute = λ n k m. ok m; verify = λ n k result. ok false }

abbrev at_second : (attempt : ℕ) → WorkerSandbox
at_second attempt = if attempt == 2 then lenient else refusing

abbrev shown : Value → String
shown v = "value"

-- The characters of ASCII in `\w` and `\s`.
abbrev word : Char → Bool
word c =
    (leb 48 (code c) && leb (code c) 57)
    || (leb 65 (code c) && leb (code c) 90)
    || (leb 97 (code c) && leb (code c) 122)
    || code c == 95

abbrev space : Char → Bool
space c = code c == 32 || (leb 9 (code c) && leb (code c) 13)

repair_l1-success_example :
    (repair_l1 shown at_second "TypeError" "pass" "t" new_pipeline.executor).0.status ≡ success
repair_l1-success_example =
    repair_l1-success shown at_second 2 "TypeError" "pass" "t" new_pipeline.executor refl
      (omega arith) (omega arith) (λ fields. (fields, refl, refl))

attribute_error : error_type_of word "AttributeError: 'A' has no attribute 'b'" ≡ "AttributeError"
unfolding error_type_of search_error match_error strip
attribute_error = refl

a_chosen : select_consensus_repair ("b" ∷ "a" ∷ "a" ∷ []) ≡ some "a"
unfolding select_consensus_repair most_common greatest count_proposals tally Dict.get Dict.put
a_chosen = refl

select_consensus_repair-occurrences_example :
    (1 ≤ occurrences "a" ("b" ∷ "a" ∷ "a" ∷ []))
    × (occurrences "b" ("b" ∷ "a" ∷ "a" ∷ []) ≤ occurrences "a" ("b" ∷ "a" ∷ "a" ∷ []))
select_consensus_repair-occurrences_example =
    select_consensus_repair-occurrences ("b" ∷ "a" ∷ "a" ∷ []) "a" "b" a_chosen

abbrev recursion : DefectPattern
recursion = record {
  pattern_name = "RecursionError";
  regex_pattern = literals ("maximum recursion depth" ∷ []);
  repair_level = l3_performance;
  severity = high;
}

recursion_fresh : Dict.get new_classifier.pattern_map "RecursionError" ≡ none
unfolding new_classifier register_all register_pattern Dict.get Dict.put
recursion_fresh = refl

classify_error-register_pattern_example :
    classify_error word space
      (register_pattern recursion new_classifier)
      "RecursionError: maximum recursion depth exceeded"
      "def f(): f()"
    ≡ with_registered
        (Dict.is_some
          (first_match new_classifier.patterns "RecursionError: maximum recursion depth exceeded"))
        recursion
        "RecursionError: maximum recursion depth exceeded"
        (determine_impact_scope word space "def f(): f()")
        (classify_error word space new_classifier "RecursionError: maximum recursion depth exceeded"
          "def f(): f()")
classify_error-register_pattern_example =
    classify_error-register_pattern word space recursion new_classifier
      "RecursionError: maximum recursion depth exceeded" "def f(): f()" new_classifier-Consistent
      recursion_fresh

abbrev import_pattern : DefectPattern
import_pattern = record {
  pattern_name = "ImportError";
  regex_pattern = literals ("ImportError" ∷ "ModuleNotFoundError" ∷ "cannot import" ∷ []);
  repair_level = RepairLevel.l4_architecture;
  severity = high;
}

import_matches :
    first_match new_classifier.patterns "ImportError: cannot import name 'x'" ≡ some import_pattern
unfolding first_match new_classifier register_all register_pattern matches matches_patterns includes
    lower
import_matches = refl
