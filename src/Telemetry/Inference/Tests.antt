-- ===== src/Telemetry/Inference/Tests.antt =====
-- Types that are named, of a kind, of an operation, and unknown.
use featherlane_ai.Prelude.{ℕ, ◌==◌, ==_iff, leb, ◌≡◌, refl, none, some, [], ◌∷◌}
use featherlane_ai.Text.{to_ascii_uppercase}
use featherlane_ai.Json.{Numbers, Attributes, null, string, lookup}
use featherlane_ai.Domain.Events.{
  ActorType, side_effect, tool_call, agent_start, unclassified, event_type_of_name,
}
use featherlane_ai.Telemetry.{TraceSpan}
use featherlane_ai.Telemetry.Inference.{infer_event_type, infer_actor_type}
use featherlane_ai.Telemetry.Inference.Laws.{Infers, infer_event_type-Infers}

abbrev counting : Numbers
counting = record {
  Number = ℕ;
  F64 = ℕ;
  number_eq = λ m n. m == n;
  number_eq_iff = ==_iff;
  as_f64 = some;
  f64_le = leb;
}

abbrev span : Attributes counting → TraceSpan counting
span attributes = record {
  trace_id = "0123456789abcdef0123456789abcdef";
  span_id = "0123456789abcdef";
  parent_span_id = none;
  links = [];
  name = "refund";
  started_at = 1;
  ended_at = some 2;
  attributes = attributes;
  resource_attributes = [];
  instrumentation_scope = none;
  status = none;
}

-- A canonical value that is no text hides the legacy one.
inference_tests :
    (infer_event_type (span (("governance.event.type", string "side_effect") ∷ [])) ≡ side_effect)
    × (infer_event_type (
          span (
            ("featherlane.event.type", null)
            ∷ ("governance.event.type", string "side_effect")
            ∷ []))
        ≡ unclassified)
    × (infer_event_type (span (("openinference.span.kind", string "tool") ∷ [])) ≡ tool_call)
    × (infer_event_type (span (("gen_ai.operation.name", string "invoke_agent") ∷ []))
        ≡ agent_start)
    × (infer_event_type (span (("gen_ai.operation.name", string "chat") ∷ [])) ≡ unclassified)
    × (infer_actor_type side_effect ≡ ActorType.tool)
unfolding infer_event_type infer_actor_type lookup event_type_of_name to_ascii_uppercase
inference_tests = (refl, refl, refl, refl, refl, refl)

abbrev tool_span : TraceSpan counting
tool_span = span (("openinference.span.kind", string "tool") ∷ [])

infer_event_type-Infers_example : Infers tool_span (infer_event_type tool_span)
infer_event_type-Infers_example = infer_event_type-Infers tool_span
