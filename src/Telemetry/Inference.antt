-- ===== src/Telemetry/Inference.antt =====
-- crates/governance-telemetry/src/lib.rs: `infer_event_type` and `infer_actor_type`.
pub mod Laws
mod Tests
use featherlane_ai.Prelude.{
  Bool, ◌||◌, Option, none, some, String, str_eq, and_then, or_else, unwrap_or, is_some_and,
  if◌then◌else◌,
}
use featherlane_ai.Text.{to_ascii_uppercase}
use featherlane_ai.Json.{Numbers, as_str, lookup}
use featherlane_ai.Domain.Events.{
  EventType, scenario_input, agent_start, model_call, model_result, tool_call, tool_result,
  retrieval, handoff, guardrail_decision, human_approval_request, human_approval_decision,
  final_output, side_effect, retry, timeout, cancellation, unclassified, event_type_of_name,
  ActorType,
}
use featherlane_ai.Telemetry.{TraceSpan}

abbrev pub attr_event_type : String
attr_event_type = "featherlane.event.type"

abbrev pub legacy_event_type : String
legacy_event_type = "governance.event.type"

abbrev pub parse_event_type : String → Option EventType
parse_event_type value = event_type_of_name value

abbrev pub is_agent_operation : String → Bool
is_agent_operation name = str_eq name "invoke_agent" || str_eq name "invoke_workflow"

abbrev pub type_of_kind : String → EventType → EventType
type_of_kind kind other =
    if str_eq kind "TOOL"
    then tool_call
    else if str_eq kind "LLM"
    then model_call
    else if str_eq kind "RETRIEVER"
    then retrieval
    else if str_eq kind "GUARDRAIL"
    then guardrail_decision
    else if str_eq kind "AGENT" || str_eq kind "CHAIN"
    then agent_start
    else other

module _ {num : Numbers} where
  abbrev pub explicit_of : TraceSpan num → Option EventType
  explicit_of span =
      and_then
        (and_then
          (or_else (lookup attr_event_type span.attributes)
            (lookup legacy_event_type span.attributes))
          as_str)
        parse_event_type

  abbrev pub kind_of : TraceSpan num → String
  kind_of span =
      to_ascii_uppercase
        (unwrap_or (and_then (lookup "openinference.span.kind" span.attributes) as_str) "")

  abbrev pub operation_type : TraceSpan num → EventType
  operation_type span =
      if is_some_and (and_then (lookup "gen_ai.operation.name" span.attributes) as_str)
        is_agent_operation
      then agent_start
      else unclassified

  unfoldable pub infer_event_type : TraceSpan num → EventType
  infer_event_type span = elim (explicit_of span) [
    | some explicit ↦ explicit
    | none ↦ type_of_kind (kind_of span) (operation_type span)
  ]

unfoldable pub infer_actor_type : EventType → ActorType
infer_actor_type scenario_input = ActorType.user
infer_actor_type model_call = ActorType.model
infer_actor_type model_result = ActorType.model
infer_actor_type tool_call = ActorType.tool
infer_actor_type tool_result = ActorType.tool
infer_actor_type side_effect = ActorType.tool
infer_actor_type human_approval_request = ActorType.human
infer_actor_type human_approval_decision = ActorType.human
infer_actor_type agent_start = ActorType.agent
infer_actor_type final_output = ActorType.agent
infer_actor_type handoff = ActorType.agent
infer_actor_type retrieval = ActorType.agent
infer_actor_type guardrail_decision = ActorType.system
infer_actor_type retry = ActorType.system
infer_actor_type EventType.error = ActorType.system
infer_actor_type timeout = ActorType.system
infer_actor_type cancellation = ActorType.system
infer_actor_type unclassified = ActorType.system
