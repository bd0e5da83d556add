-- ===== src/Telemetry/Finalization/Tests.antt =====
-- Spans that arrive out of order, with a cycle, and with a secret in serialized JSON.
use featherlane_ai.Prelude.{
  ℕ, ◌==◌, ==_iff, leb, ◌≡◌, ◌↔◌, refl, Option, none, some, List, [], ◌∷◌, map, String, str_eq,
  length, if◌then◌else◌, Result, ok,
}
use featherlane_ai.Text.{contains, to_ascii_lowercase, to_ascii_uppercase}
use featherlane_ai.Json.{Numbers, Value, Attributes, string, object, field, end, lookup}
use featherlane_ai.Domain.Events.{
  insufficient, explicit, event_type_of_name, EventType-discrete, TraceDefect,
}
use featherlane_ai.Telemetry.{TraceSpan, NormalizationContext}
use featherlane_ai.Telemetry.Redaction.{
  RedactionPolicy, redact_nested, redact_attributes, redact_span, is_sensitive,
}
use featherlane_ai.Telemetry.Quality.{assess_trace_quality, quality_from_defects}
use featherlane_ai.Telemetry.Correlation.{insert, extract_span_correlation}
use featherlane_ai.Telemetry.Inference.{infer_event_type, infer_actor_type}
use featherlane_ai.Telemetry.Causal.{causal_order}
use featherlane_ai.Telemetry.Causal.Laws.{IsCausalOrder, causal_order-IsCausalOrder}
use featherlane_ai.Telemetry.Normalization.{
  Libraries, prepare_span, normalize_span, normalize_ordered, normalize_prepared,
  normalize_spans_with_defects,
}
use featherlane_ai.Telemetry.Normalization.Laws.{IsCausalTrace, normalize_spans-IsCausalTrace}
use featherlane_ai.Telemetry.Normalization.Serialized.{normalize_span-serialized}
use featherlane_ai.Telemetry.Finalization.{
  FinalizationMetadata, CanonicalEvidence, final_defects, finalize_observed_spans,
}
use featherlane_ai.Telemetry.Finalization.Sufficiency.{Lacks, finalize_observed_spans-insufficient}

abbrev counting : Numbers
counting = record {
  Number = ℕ;
  F64 = ℕ;
  number_eq = λ m n. m == n;
  number_eq_iff = ==_iff;
  as_f64 = some;
  f64_le = leb;
}

abbrev secret : Value counting
secret = object (field "password" (string "x") end)

abbrev libraries : Libraries counting
libraries = record {
  parse_str = λ s. none;
  new_v5 = λ o s. if str_eq s "run:t:a" then 1 else if str_eq s "run:t:b" then 2 else 3;
  display = λ i. "run";
  from_str = λ s. if str_eq s "{}" then some secret else none;
}

abbrev context : NormalizationContext
context = record { organization_id = 1; eval_run_id = 2; invocation_id = 3; scenario_id = 4 }

abbrev policy : RedactionPolicy
policy = record {
  allowed_attributes = "featherlane.event.type" ∷ "governance.input" ∷ [];
  sensitive_key_fragments = "password" ∷ [];
}

abbrev span : String → Option String → ℕ → Attributes counting → TraceSpan counting
span id parent started_at attributes = record {
  trace_id = "t";
  span_id = id;
  parent_span_id = parent;
  links = [];
  name = id;
  started_at = started_at;
  ended_at = none;
  attributes = attributes;
  resource_attributes = [];
  instrumentation_scope = none;
  status = none;
}

-- The child arrives before its parent, and its clock is behind.
abbrev spans : List (TraceSpan counting)
spans =
    span "b" (some "a") 1 (("featherlane.event.type", string "final_output") ∷ [])
    ∷ span "a" none 5 (("governance.input", string "{}") ∷ ("password", string "y") ∷ [])
    ∷ []

abbrev circle : List (TraceSpan counting)
circle = span "a" (some "b") 1 [] ∷ span "b" (some "a") 2 [] ∷ []

abbrev metadata : FinalizationMetadata
metadata = record {
  target_version = "1";
  policy_content_sha256 = "sha";
  completion_reason = some explicit;
  terminal_state = none;
  finalized_at = 9;
}

abbrev to_vec : CanonicalEvidence counting → Result String ℕ
to_vec evidence = ok (length evidence.events)

normalization : Unit {0}
unfolding causal_order normalize_spans_with_defects normalize_prepared normalize_ordered
    normalize_span prepare_span redact_span redact_attributes redact_nested is_sensitive contains
    to_ascii_lowercase to_ascii_uppercase insert extract_span_correlation infer_event_type
    infer_actor_type event_type_of_name lookup assess_trace_quality quality_from_defects
    EventType-discrete final_defects finalize_observed_spans
normalization = tt

order_tests :
    ((causal_order spans).0 ≡ 1 ∷ 0 ∷ [])
    × (map (λ (d : TraceDefect). d.code) (causal_order spans).1 ≡ "clock_skew" ∷ [])
    × ((causal_order circle).0 ≡ 0 ∷ 1 ∷ [])
    × (map (λ (d : TraceDefect). d.code) (causal_order circle).1
        ≡ "clock_skew" ∷ "causal_cycle" ∷ [])
unfolding normalization
order_tests = (refl, refl, refl, refl)

causal_order-IsCausalOrder_example : IsCausalOrder spans (causal_order spans)
causal_order-IsCausalOrder_example = causal_order-IsCausalOrder spans

normalize_spans-IsCausalTrace_example :
    IsCausalTrace libraries context
      (map (prepare_span policy) spans)
      (normalize_spans_with_defects libraries context spans policy).0
normalize_spans-IsCausalTrace_example = normalize_spans-IsCausalTrace libraries context policy spans

normalize_span-serialized_example :
    (normalize_span libraries context [] 0
      (prepare_span policy (span "a" none 5 (("governance.input", string "{}") ∷ [])))).input
    ≡ secret
unfolding normalization
normalize_span-serialized_example =
    normalize_span-serialized libraries context [] policy 0
      (span "a" none 5 (("governance.input", string "{}") ∷ [])) "{}" secret refl refl refl

finalize_observed_spans-insufficient_example :
    ((finalize_observed_spans to_vec
        (λ s. 0)
        (λ n. "sha")
        libraries
        context
        metadata
        spans
        []
        policy).trace_quality
      ≡ insufficient)
    ↔ Lacks to_vec (λ s. 0) (λ n. "sha") libraries context metadata spans [] policy
finalize_observed_spans-insufficient_example =
    finalize_observed_spans-insufficient to_vec (λ s. 0) (λ n. "sha") libraries context metadata
      spans [] policy
