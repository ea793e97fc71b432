-- ===== src/Agents.antt =====
-- agents/registry.py, the class `AgentRegistry` after its construction. Of a profile and of a template the
-- fields that the registry reads are kept; the lists of available names in the messages are left out.
use Prim.Native.String
use agent_manager.Prelude.Dict
use agent_manager.Prelude.Dict.{Dict}
use agent_manager.Prelude.{
  String, Bool, true, false, ◌&&◌, Result, ok, err, Option, none, some, List, [], ◌∷◌,
  if◌then◌else◌, str_eq,
}
pub mod Valid
mod Tests

pub record AgentTemplateRef : Type 0 where
  pub kind : String
  pub name : String
  pub required : Bool

pub record TemplateEntry : Type 0 where
  pub kind : String
  pub name : String
  pub description : String

pub record AgentProfile : Type 0 where
  pub agent_id : String
  pub skills : List AgentTemplateRef
  pub mcp_servers : List AgentTemplateRef

pub record ResolvedAgent : Type 0 where
  pub profile : AgentProfile
  pub resolved_skills : List TemplateEntry
  pub resolved_mcp_servers : List TemplateEntry

-- The `ValueError`s of `resolve_agent`.
pub data RegistryError : Type 0 where
  skill_not_found mcp_not_found : (kind name agent_id : String) → RegistryError

-- `_templates` has the entries in the order of insertion, each under its kind and name.
pub record AgentRegistry : Type 0 where
  pub profiles : Dict AgentProfile
  pub templates : List TemplateEntry

unfoldable pub under : String → String → TemplateEntry → Bool
under kind name t = str_eq t.kind kind && str_eq t.name name

unfoldable pub template_in : List TemplateEntry → String → String → Option TemplateEntry
unfolding under
template_in [] kind name = none
template_in (t ∷ ts) kind name =
    let rest = template_in ts kind name in if under kind name t then some t else rest

unfoldable pub put_template : TemplateEntry → List TemplateEntry → List TemplateEntry
unfolding under
put_template new [] = new ∷ []
put_template new (t ∷ ts) =
    let rest = put_template new ts in if under new.kind new.name t then new ∷ ts else t ∷ rest

unfoldable pub get_profile : String → AgentRegistry → Option AgentProfile
get_profile agent_id r = Dict.get r.profiles agent_id

unfoldable pub get_template : String → String → AgentRegistry → Option TemplateEntry
get_template kind name r = template_in r.templates kind name

unfoldable pub register_profile : AgentProfile → AgentRegistry → AgentRegistry
register_profile p r = record r { profiles = Dict.put r.profiles p.agent_id p }

unfoldable pub register_template : TemplateEntry → AgentRegistry → AgentRegistry
register_template t r = record r { templates = put_template t r.templates }

unfoldable pub with_template :
    TemplateEntry
    → Result RegistryError (List TemplateEntry)
    → Result RegistryError (List TemplateEntry)
with_template t (ok ts) = ok (t ∷ ts)
with_template t (err e) = err e

-- A loop of `resolve_agent` over references.
unfoldable pub resolve_refs :
    AgentRegistry
    → (AgentTemplateRef → RegistryError)
    → List AgentTemplateRef
    → Result RegistryError (List TemplateEntry)
resolve_refs r missing [] = ok []
resolve_refs r missing (ref ∷ refs) =
    let rest = resolve_refs r missing refs in
    elim (get_template ref.kind ref.name r) [
      | none ↦ if ref.required then err (missing ref) else rest
      | some t ↦ with_template t rest
    ]

unfoldable pub resolved_with :
    AgentProfile
    → Result RegistryError (List TemplateEntry)
    → Result RegistryError (List TemplateEntry)
    → Result RegistryError (Option ResolvedAgent)
resolved_with profile (err e) servers = err e
resolved_with profile (ok skills) (err e) = err e
resolved_with profile (ok skills) (ok servers) =
    ok (
      some (record { profile = profile; resolved_skills = skills; resolved_mcp_servers = servers }))

unfoldable pub resolve_agent : String → AgentRegistry → Result RegistryError (Option ResolvedAgent)
resolve_agent agent_id r = elim (get_profile agent_id r) [
  | none ↦ ok none
  | some profile ↦
      resolved_with profile
        (resolve_refs r (λ ref. skill_not_found ref.kind ref.name agent_id) profile.skills)
        (resolve_refs r (λ ref. mcp_not_found ref.kind ref.name agent_id) profile.mcp_servers)
]

-- The messages of `validate_template_refs`.
unfoldable pub template_errors : AgentRegistry → List AgentTemplateRef → List String
template_errors r [] = []
template_errors r (ref ∷ refs) =
    let rest = template_errors r refs in
    elim (get_template ref.kind ref.name r) [
      | none ↦
          if ref.required
          then String.◌++◌ "Required template not found: "
              (String.◌++◌ ref.kind (String.◌++◌ "/" ref.name))
            ∷ rest
          else rest
      | some t ↦ rest
    ]

abbrev pub none_of : List String → Bool
none_of [] = true
none_of (e ∷ es) = false

unfoldable pub validate_template_refs : List AgentTemplateRef → AgentRegistry → Bool × List String
validate_template_refs refs r = let errors = template_errors r refs in (none_of errors, errors)
