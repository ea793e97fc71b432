-- ===== src/DefectRepair/Templates.antt =====
-- defect_repair/repair_strategies.py, the class `L2RepairStrategy`: repairs by templates.
use Prim.Native.Char.{Char}
use Prim.Native.String
use Prim.Native.String.{count}
use agent_manager.Prelude.Dict
use agent_manager.Prelude.Dict.{Dict}
use agent_manager.Prelude.{
  ℕ, suc, String, ◌≡◌, refl, ap, ◌⊎◌, Bool, true, false, not, ◌&&◌, ◌||◌, Option, none, some, inl,
  inr, List, [], ◌∷◌, ◌++◌, if◌then◌else◌,
}
use agent_manager.Runtime.Context.{text}
use agent_manager.Recovery.Failures.{includes}
use agent_manager.Recovery.Repairs.{RepairResult, success}
use agent_manager.DefectRepair.Texts.{replace, split, join, search_error, replace_from-same, drop}
use agent_manager.DefectRepair.Results.{success_result, failed_result}

unfoldable pub template_key_error : String → String
template_key_error code =
    if includes code "dict.get(" then code else replace "dict[" "dict.get(" code

unfoldable pub indented : List String → List String
indented [] = []
indented (line ∷ lines) = String.◌++◌ "    " line ∷ indented lines

unfoldable pub template_value_error : String → String
unfolding indented
template_value_error code =
    if includes code "try:"
    then code
    else join "\n" (("try:" ∷ indented (split code "\n")) ++ "except ValueError:" ∷ "    pass" ∷ [])

unfoldable pub template_attribute_error : String → String
template_attribute_error code = if includes code "hasattr(" then code else replace "." "." code

unfoldable pub template_index_error : String → String
template_index_error code = if includes code "len(" then code else replace "[" "[min(" code

unfoldable pub template_type_error : String → String
template_type_error code =
    if includes code "str(" || includes code "int(" then code else replace "=" "= str(" code

-- `parts[0]` and `parts[1]` of what `split` answers, where the part is there
unfoldable pub first_part : List String → String
first_part [] = ""
first_part (part ∷ parts) = part

unfoldable pub second_part : List String → String
second_part [] = ""
second_part (part ∷ []) = ""
second_part (part ∷ next ∷ parts) = next

unfoldable pub template_assertion_error : String → String
unfolding first_part second_part
template_assertion_error code =
    if includes code "assert"
      && not (includes (first_part (split (second_part (split code "assert")) "\n")) ",")
    then replace "assert " "assert " code
    else code

-- `_init_templates`
unfoldable pub repair_templates : Dict (String → String)
repair_templates =
    ("KeyError", template_key_error)
    ∷ ("ValueError", template_value_error)
    ∷ ("AttributeError", template_attribute_error)
    ∷ ("IndexError", template_index_error)
    ∷ ("TypeError", template_type_error)
    ∷ ("AssertionError", template_assertion_error)
    ∷ []

module _ (word : Char → Bool) where
  -- `_extract_error_type`
  unfoldable pub error_type_of : String → String
  unfolding search_error
  error_type_of error_msg = elim (search_error word error_msg) [
    | some name ↦ name
    | none ↦ "UnknownError"
  ]

  unfoldable pub apply_template :
      (error_type code : String) → Option (String → String) → RepairResult
  apply_template error_type code none =
      failed_result (String.◌++◌ "No repair template for " error_type) 1
  apply_template error_type code (some template) =
      success_result (template code) 1
        (("error_type", text error_type) ∷ ("template", text error_type) ∷ [])

  -- `repair`; a template raises nothing.
  unfoldable pub repair_l2 : (error_msg code : String) → RepairResult
  unfolding error_type_of apply_template repair_templates
  repair_l2 error_msg code =
      apply_template (error_type_of error_msg) code
        (Dict.get repair_templates (error_type_of error_msg))

-- To replace a text that is not empty by itself changes nothing.
replace-same :
    (old : String) (m : ℕ) → count old ≡ suc m → (code : String) → replace old old code ≡ code
unfolding drop
replace-same old m size code = replace_from-same old m size 0 code

chosen_same : {A : Type 0} {x y : A} (b : Bool) → x ≡ y → (if b then x else y) ≡ y
chosen_same true h = h
chosen_same false h = refl

kept_same : {A : Type 0} {x y : A} (b : Bool) → y ≡ x → (if b then x else y) ≡ x
kept_same true h = refl
kept_same false h = h

template_attribute_error_lem : (code : String) → template_attribute_error code ≡ code
unfolding template_attribute_error
template_attribute_error_lem code = kept_same _ (replace-same "." 0 refl code)

template_assertion_error_lem : (code : String) → template_assertion_error code ≡ code
unfolding template_assertion_error
template_assertion_error_lem code = chosen_same _ (replace-same "assert " 6 refl code)

-- Errors of these two types have a template that leaves every code as it is, and the repair is
-- reported as a success all the same.
pub repair_l2-unchanged :
    (word : Char → Bool) (error_msg code : String)
    → (error_type_of word error_msg ≡ "AttributeError")
      ⊎ (error_type_of word error_msg ≡ "AssertionError")
    → ((repair_l2 word error_msg code).status ≡ success)
      × ((repair_l2 word error_msg code).repaired_code ≡ some code)
unfolding repair_l2 repair_templates apply_template success_result Dict.get
repair_l2-unchanged word error_msg code (inl e) =
    rw e (refl, ap some (template_attribute_error_lem code))
repair_l2-unchanged word error_msg code (inr e) =
    rw e (refl, ap some (template_assertion_error_lem code))
