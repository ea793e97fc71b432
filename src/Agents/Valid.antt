-- ===== src/Agents/Valid.antt =====
-- agents/registry.py: the resolution of an agent and the validation of its references.
use agent_manager.Prelude.{
  String, ◌≡◌, refl, ◌∙◌, ap, Bool, true, false, Bool-cases, ◌&&◌, Result, ok, err, some,
  Option-cases, inl, inr, List, [], ◌∷◌,
}
use agent_manager.Agents.{
  AgentTemplateRef, TemplateEntry, AgentProfile, RegistryError, mcp_not_found, AgentRegistry,
  get_template, with_template, resolve_refs, resolved_with, resolve_agent, get_profile,
  template_errors, validate_template_refs, none_of,
}

abbrev pub is_ok : {E A : Type 0} → Result E A → Bool
is_ok (ok a) = true
is_ok (err e) = false

is_ok-with_template :
    (t : TemplateEntry) (x : Result RegistryError (List TemplateEntry))
    → is_ok (with_template t x) ≡ is_ok x
unfolding with_template
is_ok-with_template t (ok ts) = refl
is_ok-with_template t (err e) = refl

is_ok-resolve_refs :
    (r : AgentRegistry) (missing : AgentTemplateRef → RegistryError) (refs : List AgentTemplateRef)
    → is_ok (resolve_refs r missing refs) ≡ none_of (template_errors r refs)
unfolding resolve_refs template_errors
is_ok-resolve_refs r missing [] = refl
is_ok-resolve_refs r missing (ref ∷ refs) = elim (Option-cases (get_template ref.kind ref.name r)) [
  | inr (t, h) ↦
      rw (resolve_refs, template_errors, is_ok, none_of, h)
        (is_ok-with_template t (resolve_refs r missing refs) ∙ is_ok-resolve_refs r missing refs)
  | inl h ↦ elim (Bool-cases ref.required) [
    | inl must ↦ rw (resolve_refs, template_errors, is_ok, none_of, h, must) refl
    | inr may ↦
        rw (resolve_refs, template_errors, is_ok, none_of, h, may)
          (is_ok-resolve_refs r missing refs)
  ]
]

is_ok-resolved_with :
    (p : AgentProfile) (x y : Result RegistryError (List TemplateEntry))
    → is_ok (resolved_with p x y) ≡ (is_ok x && is_ok y)
unfolding resolved_with
is_ok-resolved_with p (err e) y = refl
is_ok-resolved_with p (ok skills) (err e) = refl
is_ok-resolved_with p (ok skills) (ok servers) = refl

-- For an agent that is registered, resolve_agent returns without an error exactly if
-- validate_template_refs accepts the references to skills and those to MCP servers of its profile.
pub resolve_agent-validate :
    (r : AgentRegistry) (agent_id : String) (p : AgentProfile)
    → get_profile agent_id r ≡ some p
    → is_ok (resolve_agent agent_id r)
      ≡ ((validate_template_refs p.skills r).0 && (validate_template_refs p.mcp_servers r).0)
unfolding resolve_agent validate_template_refs
resolve_agent-validate r agent_id p h =
    rw (resolve_agent, is_ok, h)
      (is_ok-resolved_with p _ _
        ∙ ap
            (λ b.
              b
              && is_ok
                  (resolve_refs r (λ ref. mcp_not_found ref.kind ref.name agent_id) p.mcp_servers))
            (is_ok-resolve_refs r _ p.skills)
        ∙ ap (λ b. none_of (template_errors r p.skills) && b)
            (is_ok-resolve_refs r _ p.mcp_servers))
