-- ===== src/Agents/Tests.antt =====
-- agents/registry.py on small inputs.
use agent_manager.Prelude.Dict
use agent_manager.Prelude.{◌≡◌, refl, true, ◌&&◌, [], ◌∷◌}
use agent_manager.Agents.{
  AgentProfile, AgentRegistry, resolve_agent, validate_template_refs, get_profile,
}
use agent_manager.Agents.Valid.{is_ok, resolve_agent-validate}

abbrev builder : AgentProfile
builder = record {
  agent_id = "builder";
  skills = record { kind = "skill"; name = "build"; required = true } ∷ [];
  mcp_servers = record { kind = "mcp"; name = "files"; required = true } ∷ [];
}

abbrev registry : AgentRegistry
registry = record {
  profiles = ("builder", builder) ∷ [];
  templates = record { kind = "skill"; name = "build"; description = "" } ∷ [];
}

resolve_agent-validate_example : is_ok (resolve_agent "builder" registry) ≡ (
    (validate_template_refs builder.skills registry).0
    && (validate_template_refs builder.mcp_servers registry).0)
unfolding get_profile Dict.get
resolve_agent-validate_example = resolve_agent-validate registry "builder" builder refl
