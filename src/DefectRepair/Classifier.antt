-- ===== src/DefectRepair/Classifier.antt =====
-- defect_repair/classifier.py, the class `DefectClassifier`.
use Prim.Native.Char.{Char}
use Prim.Native.String.{[], ◌∷◌}
use agent_manager.Prelude.Dict
use agent_manager.Prelude.Dict.{Dict}
use agent_manager.Prelude.{
  ℕ, ◌*◌, ◌/◌, String, Bool, true, false, ◌||◌, Result, ok, err, Option, none, some, List, [], ◌∷◌,
  ◌++◌, ltb, if◌then◌else◌, str_eq,
}
use agent_manager.Runtime.Errors.{PyError}
use agent_manager.Recovery.Failures.{lower, matches_patterns}
use agent_manager.DefectRepair.Texts.{strip}
use agent_manager.DefectRepair.Pipeline as Pipeline
use agent_manager.DefectRepair.Pipeline.{
  RepairLevel, l1_syntax, l2_logic, l3_performance, l4_architecture,
}

pub data SeverityLevel : Type 0 where
  trivial low medium high critical : SeverityLevel

-- `SeverityLevel.level`
unfoldable pub level_of : SeverityLevel → ℕ
level_of trivial = 1
level_of low = 2
level_of medium = 3
level_of high = 4
level_of critical = 5

-- A regular expression: a choice of literal texts, or any other, as what `re.search` answers for it,
-- without regard to case, on each text; `re.error` is its exception.
pub data Regex : Type 0 where
  literals : List String → Regex
  searched_by : (String → Result PyError Bool) → Regex

pub record DefectPattern : Type 0 where
  pub pattern_name : String
  pub regex_pattern : Regex
  pub repair_level : RepairLevel
  pub severity : SeverityLevel

pub record DefectClassifier : Type 0 where
  pub patterns : List DefectPattern
  pub pattern_map : Dict DefectPattern

unfoldable lowered : List String → List String
lowered [] = []
lowered (text ∷ texts) = lower text ∷ lowered texts

-- `re.search(regex_pattern, text, re.IGNORECASE)`, no match where it raises; in a choice of literal
-- texts, letters outside of ASCII are compared as they are.
unfoldable pub matches : DefectPattern → String → Bool
unfolding lowered
matches pattern text = elim pattern.regex_pattern [
  | literals texts ↦ matches_patterns (lower text) (lowered texts)
  | searched_by search ↦ elim (search text) [ ok found ↦ found | err e ↦ false ]
]

unfoldable pub register_pattern : DefectPattern → DefectClassifier → DefectClassifier
register_pattern pattern c = record {
  patterns = c.patterns ++ pattern ∷ [];
  pattern_map = Dict.put c.pattern_map pattern.pattern_name pattern;
}

unfoldable pub register_all : List DefectPattern → DefectClassifier → DefectClassifier
register_all [] c = c
register_all (pattern ∷ patterns) c = register_all patterns (register_pattern pattern c)

abbrev defect_pattern : String → List String → RepairLevel → SeverityLevel → DefectPattern
defect_pattern name regex level severity = record {
  pattern_name = name;
  regex_pattern = literals regex;
  repair_level = level;
  severity = severity;
}

abbrev pub builtin_patterns : List DefectPattern
builtin_patterns =
    defect_pattern "SyntaxError" ("SyntaxError" ∷ "syntax error" ∷ "invalid syntax" ∷ []) l1_syntax
      high
    ∷ defect_pattern "TypeError" ("TypeError" ∷ "type error" ∷ "unsupported operand" ∷ []) l1_syntax
        high
    ∷ defect_pattern "AttributeError"
        ("AttributeError" ∷ "has no attribute" ∷ "attribute error" ∷ []) l1_syntax high
    ∷ defect_pattern "AssertionError" ("AssertionError" ∷ "assertion failed" ∷ []) l2_logic medium
    ∷ defect_pattern "ValueError" ("ValueError" ∷ "invalid value" ∷ "value error" ∷ []) l2_logic
        medium
    ∷ defect_pattern "KeyError" ("KeyError" ∷ "key error" ∷ "key not found" ∷ []) l2_logic medium
    ∷ defect_pattern "MemoryError" ("MemoryError" ∷ "out of memory" ∷ "memory exhausted" ∷ [])
        l3_performance critical
    ∷ defect_pattern "TimeoutError"
        ("TimeoutError" ∷ "timeout" ∷ "timed out" ∷ "execution timeout" ∷ []) l3_performance high
    ∷ defect_pattern "ImportError" ("ImportError" ∷ "ModuleNotFoundError" ∷ "cannot import" ∷ [])
        l4_architecture high
    ∷ defect_pattern "CircularDependency"
        ("circular import" ∷ "circular dependency" ∷ "import cycle" ∷ []) l4_architecture critical
    ∷ []

-- `__init__`
unfoldable pub new_classifier : DefectClassifier
unfolding register_all
new_classifier = register_all builtin_patterns (record { patterns = []; pattern_map = [] })

unfoldable pub get_all_patterns : DefectClassifier → List DefectPattern
get_all_patterns c = c.patterns

-- The first pattern that matches: the loop of `extract_error_type` and of `classify_error`.
unfoldable pub first_match : List DefectPattern → String → Option DefectPattern
first_match [] error_msg = none
first_match (pattern ∷ patterns) error_msg = elim (matches pattern error_msg) [
  | true ↦ some pattern
  | false ↦ first_match patterns error_msg
]

abbrev pub name_of : Option DefectPattern → String
name_of none = "unknown"
name_of (some pattern) = pattern.pattern_name

unfoldable pub extract_error_type : DefectClassifier → String → String
unfolding first_match
extract_error_type c error_msg = name_of (first_match c.patterns error_msg)

unfoldable pub base_severity : Option DefectPattern → SeverityLevel
base_severity none = medium
base_severity (some pattern) = pattern.severity

-- The adjustment by the scope of the impact; only "system" changes a severity.
unfoldable pub adjusted : (impact_scope : String) → SeverityLevel → SeverityLevel
unfolding level_of
adjusted impact_scope severity =
    if str_eq (lower impact_scope) "system"
    then (if ltb (level_of severity) (level_of high) then high else severity)
    else severity

unfoldable pub calculate_severity :
    DefectClassifier → (error_type impact_scope : String) → SeverityLevel
unfolding base_severity adjusted
calculate_severity c error_type impact_scope =
    adjusted impact_scope (base_severity (Dict.get c.pattern_map error_type))

-- `word` and `space` are the characters of `\w` and `\s`: Python's tables of Unicode.
module _ (word space : Char → Bool) where
  -- `\s*\w`, at the start of the text
  unfoldable pub spaces_word : String → Bool
  spaces_word [] = false
  spaces_word (c ∷ text) = elim (word c) [
    | true ↦ true
    | false ↦ elim (space c) [ true ↦ spaces_word text | false ↦ false ]
  ]

  -- `\s+\w`, at the start of a text that is there
  unfoldable pub space_word : Option String → Bool
  unfolding spaces_word
  space_word none = false
  space_word (some []) = false
  space_word (some (c ∷ text)) = elim (space c) [ true ↦ spaces_word text | false ↦ false ]

  -- `re.search(r"(class|def)\s+\w+", text)`
  unfoldable pub declares : String → Bool
  unfolding strip space_word
  declares [] = false
  declares (c ∷ text) =
      space_word (strip "class" (c ∷ text)) || space_word (strip "def" (c ∷ text)) || declares text

  -- `_determine_impact_scope`
  unfoldable pub determine_impact_scope : String → String
  unfolding matches_patterns declares
  determine_impact_scope code_context =
      if matches_patterns code_context ("import" ∷ "from" ∷ "__init__" ∷ "setup" ∷ "config" ∷ [])
      then "system"
      else if declares code_context
      then "module"
      else "local"

  unfoldable pub classified :
      DefectClassifier
      → (error_msg code_context : String) → Option DefectPattern
      → RepairLevel × SeverityLevel
  unfolding calculate_severity determine_impact_scope extract_error_type
  classified c error_msg code_context none = (l2_logic, medium)
  classified c error_msg code_context (some pattern) = (
    pattern.repair_level,
    calculate_severity c (extract_error_type c error_msg) (determine_impact_scope code_context),
  )

  unfoldable pub classify_error :
      DefectClassifier → (error_msg code_context : String) → RepairLevel × SeverityLevel
  unfolding classified first_match
  classify_error c error_msg code_context =
      classified c error_msg code_context (first_match c.patterns error_msg)

  -- The classifier as the pipeline takes it.
  unfoldable pub for_pipeline : DefectClassifier → Pipeline.Classifier
  unfolding classify_error extract_error_type level_of
  for_pipeline c = record {
    classify_error = λ error_msg code_context.
        let (level, severity) = classify_error c error_msg code_context in
        (level, level_of severity);
    extract_error_type = extract_error_type c;
  }

-- `level_priority`
unfoldable pub level_priority : RepairLevel → ℕ
level_priority l1_syntax = 80
level_priority l2_logic = 60
level_priority l3_performance = 40
level_priority l4_architecture = 50

-- `severity_multiplier`, in tenths
unfoldable pub severity_tenths : SeverityLevel → ℕ
severity_tenths trivial = 5
severity_tenths low = 7
severity_tenths medium = 10
severity_tenths high = 13
severity_tenths critical = 15

-- `max(1, min(100, priority))`
unfoldable pub clamp : ℕ → ℕ
clamp priority = if ltb 100 priority then 100 else if ltb priority 1 then 1 else priority

unfoldable pub get_repair_priority : RepairLevel → SeverityLevel → ℕ
unfolding level_priority severity_tenths clamp
get_repair_priority level severity = clamp (level_priority level * severity_tenths severity / 10)
