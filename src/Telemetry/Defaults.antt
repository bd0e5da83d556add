-- ===== src/Telemetry/Defaults.antt =====
-- crates/governance-telemetry/src/lib.rs: the default `RedactionPolicy`.
use featherlane_ai.Prelude.{List, [], ◌∷◌, ◌++◌, String}
use featherlane_ai.Telemetry.Redaction.{RedactionPolicy}
use featherlane_ai.Telemetry.Correlation.{
  attr_eval_run_id, attr_invocation_id, attr_scenario_id, attr_external_run_id, attr_run_terminal,
  attr_terminal_state, legacy_run_id, legacy_invocation_id, legacy_scenario_id,
  legacy_terminal_state,
}
use featherlane_ai.Telemetry.Inference.{attr_event_type, legacy_event_type}

abbrev pub default_policy : RedactionPolicy
default_policy = record {
  allowed_attributes =
      "openinference.span.kind" ∷ "gen_ai.operation.name" ∷ "gen_ai.tool.name"
      ∷ "gen_ai.conversation.id" ∷ "gen_ai.agent.id" ∷ attr_eval_run_id ∷ attr_invocation_id
      ∷ attr_scenario_id ∷ attr_external_run_id ∷ attr_event_type ∷ attr_run_terminal
      ∷ attr_terminal_state ∷ legacy_event_type ∷ "governance.input" ∷ "governance.output"
      ∷ "governance.actor.id" ∷ "governance.actor.type" ∷ legacy_run_id ∷ legacy_invocation_id
      ∷ legacy_scenario_id ∷ legacy_terminal_state ∷ "terminal_state" ∷ "decision" ∷ "retry_attempt"
      ∷ "service.name" ∷ [];
  sensitive_key_fragments =
      "authorization" ∷ "cookie" ∷ "password" ∷ "secret" ∷ "token" ∷ "api_key" ∷ [];
}

-- `extend` of the set of allowed attributes.
abbrev pub with_allowed_attributes : RedactionPolicy → List String → RedactionPolicy
with_allowed_attributes policy attributes = record policy {
  allowed_attributes = attributes ++ policy.allowed_attributes;
}
