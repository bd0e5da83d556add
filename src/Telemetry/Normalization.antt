-- ===== src/Telemetry/Normalization.antt =====
-- crates/governance-telemetry/src/lib.rs: `normalize_spans_with_defects`, which turns the spans of a
-- run into events.
pub mod Laws
pub mod Serialized
use Prim.Native.String.{◌++◌ as str_append}
use featherlane_ai.Prelude.{
  ℕ, suc, ◌+◌, Bool, true, false, not, ◌&&◌, Option, none, some, List, [], ◌∷◌, ◌++◌, map, String,
  str_eq, any, filter_map, and_then, unwrap_or, keep, get_elem?, if◌then◌else◌, Result, ok, err,
}
use featherlane_ai.Json.{Numbers, Value, null, string, Attributes, as_str, lookup, has_key}
use featherlane_ai.Domain.Ids.{Uuid, EventId, OrganizationId, EvalRunId}
use featherlane_ai.Domain.Events.{NormalizedEvent, TraceDefect}
use featherlane_ai.Telemetry.{TraceSpan, NormalizationContext}
use featherlane_ai.Telemetry.Limits.{
  TelemetryError, invalid_trace_id, invalid_span_id, invalid_correlation_id, limit_exceeded,
}
use featherlane_ai.Telemetry.Redaction.{RedactionPolicy, redact_span}
use featherlane_ai.Telemetry.Quality.{defect}
use featherlane_ai.Telemetry.Correlation.{CorrelationCandidate, insert, extract_span_correlation}
use featherlane_ai.Telemetry.Inference.{infer_event_type, infer_actor_type}
use featherlane_ai.Telemetry.Causal.{causal_order}

-- What the uuid crate and serde_json do: `Uuid::parse_str`, `Uuid::new_v5` of the bytes of a text,
-- the display of an identifier, and `serde_json::from_str` into a value.
pub record Libraries (num : Numbers) : Type 0 where
  pub parse_str : String → Option Uuid
  pub new_v5 : Uuid → String → Uuid
  pub display : Uuid → String
  pub from_str : String → Option (Value num)

-- The `Display` of an error, as thiserror derives it.
abbrev pub display_error : TelemetryError → String
display_error invalid_trace_id = "trace id must be 32 hexadecimal characters"
display_error invalid_span_id = "span id must be 16 hexadecimal characters"
display_error (invalid_correlation_id key) = str_append "invalid correlation identifier in " key
display_error (limit_exceeded what) = str_append "telemetry limit exceeded: " what

abbrev pub no_correlation : CorrelationCandidate
no_correlation = record {
  eval_run_id = none;
  invocation_id = none;
  scenario_id = none;
  external_run_id = none;
  terminal = false;
  terminal_state = none;
}

abbrev pub correlation_or : Result TelemetryError CorrelationCandidate → CorrelationCandidate
correlation_or (ok c) = c
correlation_or (err e) = no_correlation

abbrev pub correlation_defects : Result TelemetryError CorrelationCandidate → List TraceDefect
correlation_defects (ok c) = []
correlation_defects (err e) = defect "invalid_correlation" (display_error e) true ∷ []

module _ {num : Numbers} where
  -- `entry(key).or_insert(value)` for each attribute of the resource.
  unfoldable add_defaults : Attributes num → Attributes num → Attributes num
  unfolding insert
  add_defaults [] attributes = attributes
  add_defaults ((key, value) ∷ defaults) attributes =
      add_defaults defaults
        (if has_key key attributes then attributes else insert key value attributes)

  unfoldable pub prepare_span : RedactionPolicy → TraceSpan num → TraceSpan num
  unfolding add_defaults redact_span
  prepare_span policy span =
      (redact_span policy
        (record span { attributes = add_defaults span.resource_attributes span.attributes })).0

  abbrev pub remove : String → Attributes num → Attributes num
  remove key = keep (λ entry. not (str_eq entry.0 key))

  abbrev pub has_ids : String → String → TraceSpan num → Bool
  has_ids trace_id span_id span = str_eq span.trace_id trace_id && str_eq span.span_id span_id

  abbrev pub text_or : Attributes num → String → String → String
  text_or attributes key default = unwrap_or (and_then (lookup key attributes) as_str) default

  abbrev pub parse_structured_attribute : (String → Option (Value num)) → Value num → Value num
  parse_structured_attribute from_str (string serialized) =
      unwrap_or (from_str serialized) (string serialized)
  parse_structured_attribute from_str v = v

  abbrev pub structured : (String → Option (Value num)) → Option (Value num) → Value num
  structured from_str none = null
  structured from_str (some v) = parse_structured_attribute from_str v

module _ {num : Numbers} (libraries : Libraries num) (context : NormalizationContext)
    (spans : List (TraceSpan num)) where
  open libraries use {parse_str, new_v5, display, from_str}

  -- `EventId::from_source_span`.
  abbrev pub from_source_span : OrganizationId → EvalRunId → String → String → EventId
  from_source_span organization_id eval_run_id trace_id span_id = new_v5 organization_id (
      str_append (display eval_run_id)
        (str_append ":" (str_append trace_id (str_append ":" span_id))))

  abbrev pub source_event : String → String → EventId
  source_event = from_source_span context.organization_id context.eval_run_id

  -- `get` of the map `span_to_event`, whose values are given by their keys.
  abbrev pub span_to_event : String → String → Option EventId
  span_to_event trace_id span_id =
      if any (has_ids trace_id span_id) spans then some (source_event trace_id span_id) else none

  abbrev pub correlation_of : TraceSpan num → Result TelemetryError CorrelationCandidate
  correlation_of span = extract_span_correlation parse_str span

  abbrev pub own_attributes : TraceSpan num → Attributes num
  own_attributes span = remove "governance.output" (remove "governance.input" span.attributes)

  -- The event of a span at a position in the causal order.
  unfoldable pub normalize_span : ℕ → TraceSpan num → NormalizedEvent num
  normalize_span index span =
      let correlation = correlation_or (correlation_of span) in
      let event_type = infer_event_type span in
      record {
        schema_version = "1.1";
        organization_id = context.organization_id;
        eval_run_id = context.eval_run_id;
        invocation_id = unwrap_or correlation.invocation_id context.invocation_id;
        scenario_id = unwrap_or correlation.scenario_id context.scenario_id;
        trace_id = span.trace_id;
        id = source_event span.trace_id span.span_id;
        parent_event_id = and_then span.parent_span_id (span_to_event span.trace_id);
        linked_event_ids = filter_map (λ link. span_to_event link.trace_id link.span_id) span.links;
        sequence = index + 1;
        started_at = span.started_at;
        ended_at = span.ended_at;
        actor = record {
          actor_type = infer_actor_type event_type;
          id = text_or span.attributes "governance.actor.id" "unknown";
        };
        event_type = event_type;
        name = text_or (own_attributes span) "gen_ai.tool.name" span.name;
        input = structured from_str (lookup "governance.input" span.attributes);
        output =
            structured from_str
              (lookup "governance.output" (remove "governance.input" span.attributes));
        attributes = own_attributes span;
        source_span_id = some span.span_id;
        redacted = true;
      }

  -- The loop over the ordered indices, each of which is that of a span.
  unfoldable pub normalize_ordered : ℕ → List ℕ → List (NormalizedEvent num) × List TraceDefect
  normalize_ordered index [] = ([], [])
  normalize_ordered index (i ∷ is) =
      let (events, defects) = normalize_ordered (suc index) is in
      elim (get_elem? spans i) [
        | some span ↦ (
          normalize_span index span ∷ events,
          correlation_defects (correlation_of span) ++ defects,
        )
        | none ↦ (events, defects)
      ]

  unfoldable pub normalize_prepared : List (NormalizedEvent num) × List TraceDefect
  normalize_prepared =
      let (ordered, defects) = causal_order spans in
      let (events, more) = normalize_ordered 0 ordered in (events, defects ++ more)

unfoldable pub normalize_spans_with_defects :
    {num : Numbers}
    → Libraries num
    → NormalizationContext
    → List (TraceSpan num)
    → RedactionPolicy
    → List (NormalizedEvent num) × List TraceDefect
normalize_spans_with_defects libraries context spans policy =
    normalize_prepared libraries context (map (prepare_span policy) spans)
