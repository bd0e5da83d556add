-- ===== src/Telemetry/Finalization.antt =====
-- crates/governance-telemetry/src/lib.rs: `finalize_evidence` and `finalize_observed_spans`, which
-- close the evidence of a run.
pub mod Laws
pub mod Sufficiency
mod Tests
use Prim.Native.String.{◌++◌ as str_append}
use featherlane_ai.Prelude.{
  Bool, true, false, not, ◌&&◌, ◌||◌, Option, none, some, List, [], ◌∷◌, ◌++◌, map, String, str_eq,
  keep, filter_map, and_then, is_some_and, sort, dedup, sort_dedup, if◌then◌else◌, Result, ok, err,
}
use featherlane_ai.Text.{str_lt}
use featherlane_ai.Json.{Numbers, Value, bool_eq}
use featherlane_ai.Domain.Ids.{OffsetDateTime, InvocationId}
use featherlane_ai.Domain.Events.{
  CompletionReason, explicit, terminal_event, target_terminal_response, idle_timeout, max_duration,
  NormalizedEvent, TraceDefect, EvidenceBundle,
}
use featherlane_ai.Telemetry.{TraceSpan, NormalizationContext}
use featherlane_ai.Telemetry.Redaction.{RedactionPolicy}
use featherlane_ai.Telemetry.Quality.{defect, quality_from_defects, assess_trace_quality}
use featherlane_ai.Telemetry.Correlation.{extract_span_correlation}
use featherlane_ai.Telemetry.Normalization.{Libraries, normalize_spans_with_defects}

pub record FinalizationMetadata : Type 0 where
  pub target_version : String
  pub policy_content_sha256 : String
  pub completion_reason : Option CompletionReason
  pub terminal_state : Option String
  pub finalized_at : OffsetDateTime

-- `sort` and `dedup` of texts.
abbrev pub sorted_texts : List String → List String
sorted_texts = sort_dedup str_lt str_eq

abbrev bool_lt : Bool → Bool → Bool
bool_lt a b = not a && b

abbrev pub defect_lt : TraceDefect → TraceDefect → Bool
defect_lt a b =
    str_lt a.code b.code
    || (str_eq a.code b.code
        && (str_lt a.message b.message
            || (str_eq a.message b.message && bool_lt a.blocking b.blocking)))

abbrev pub defect_eq : TraceDefect → TraceDefect → Bool
defect_eq a b =
    str_eq a.code b.code && (str_eq a.message b.message && bool_eq a.blocking b.blocking)

abbrev pub sorted_defects : List TraceDefect → List TraceDefect
sorted_defects = sort_dedup defect_lt defect_eq

-- The reasons that stand for a terminal event.
abbrev pub is_terminal_reason : CompletionReason → Bool
is_terminal_reason explicit = true
is_terminal_reason terminal_event = true
is_terminal_reason target_terminal_response = true
is_terminal_reason idle_timeout = false
is_terminal_reason max_duration = false

abbrev pub is_forced_reason : CompletionReason → Bool
is_forced_reason idle_timeout = true
is_forced_reason max_duration = true
is_forced_reason explicit = false
is_forced_reason terminal_event = false
is_forced_reason target_terminal_response = false

abbrev pub without_terminal_defect : Option CompletionReason → List TraceDefect → List TraceDefect
without_terminal_defect reason defects =
    if is_some_and reason is_terminal_reason
    then keep (λ d. not (str_eq d.code "missing_terminal")) defects
    else defects

abbrev pub with_timeout_defect : Option CompletionReason → List TraceDefect → List TraceDefect
with_timeout_defect reason defects =
    if is_some_and reason is_forced_reason
    then defects ++ defect "forced_timeout" "The run was finalized by a bounded timeout" true ∷ []
    else defects

unfoldable pub final_defects : Option CompletionReason → List TraceDefect → List TraceDefect
final_defects reason defects =
    sorted_defects (with_timeout_defect reason (without_terminal_defect reason defects))

-- What is hashed: the version of the schema, and what the bundle says of the run.
pub record CanonicalEvidence (num : Numbers) : Type 0 where
  pub schema_version : String
  pub target_version : String
  pub policy_content_sha256 : Option String
  pub trace_ids : List String
  pub invocation_ids : List InvocationId
  pub completion_reason : Option CompletionReason
  pub terminal_state : Option String
  pub events : List (NormalizedEvent num)
  pub side_effects : List (Value num)
  pub trace_defects : List TraceDefect

abbrev pub bytes_or : {Bytes : Type 0} → (String → Bytes) → Result String Bytes → Bytes
bytes_or otherwise (ok bytes) = bytes
bytes_or otherwise (err error) = otherwise error

-- `to_vec` is `serde_json::to_vec` with its error as text, `into_bytes` the bytes of a text, and
-- `digest` the hexadecimal SHA-256.
module _ {num : Numbers} {Bytes : Type 0} (to_vec : CanonicalEvidence num → Result String Bytes)
    (into_bytes : String → Bytes) (digest : Bytes → String) (libraries : Libraries num)
    (context : NormalizationContext) where
  open libraries use {parse_str, display}

  -- `finalized_at` is the time of the call.
  unfoldable pub finalize_evidence :
      OffsetDateTime
      → String
      → Option String
      → List (NormalizedEvent num)
      → List (Value num)
      → EvidenceBundle num
  finalize_evidence finalized_at target_version terminal_state events side_effects =
      let (trace_quality, trace_defects) = assess_trace_quality display events in
      let trace_ids = sorted_texts (map (λ event. event.trace_id) events) in
      let invocation_ids =
        dedup (sort (map (λ event. event.invocation_id) events ++ context.invocation_id ∷ [])) in
      let completion_reason = and_then terminal_state (λ _. some target_terminal_response) in
      record {
        schema_version = "1.1";
        organization_id = context.organization_id;
        eval_run_id = context.eval_run_id;
        invocation_id = context.invocation_id;
        invocation_ids = invocation_ids;
        scenario_id = context.scenario_id;
        target_version = target_version;
        policy_content_sha256 = "";
        trace_ids = trace_ids;
        completion_reason = completion_reason;
        terminal_state = terminal_state;
        events = events;
        side_effects = side_effects;
        trace_quality = trace_quality;
        trace_defects = trace_defects;
        finalized_at = some finalized_at;
        evidence_sha256 = digest (
            bytes_or (λ _. into_bytes "")
              (to_vec (record {
                schema_version = "1.1";
                target_version = target_version;
                policy_content_sha256 = none;
                trace_ids = trace_ids;
                invocation_ids = invocation_ids;
                completion_reason = completion_reason;
                terminal_state = terminal_state;
                events = events;
                side_effects = side_effects;
                trace_defects = trace_defects;
              })));
      }

  -- `extract_span_correlation(span).ok()?.invocation_id`.
  abbrev pub span_invocation : TraceSpan num → Option InvocationId
  span_invocation span = elim (extract_span_correlation parse_str span) [
    | ok c ↦ c.invocation_id
    | err e ↦ none
  ]

  abbrev pub canonicalization_error : String → String
  canonicalization_error error = str_append "canonicalization-error:" (
      str_append (display context.organization_id)
        (str_append ":" (str_append (display context.eval_run_id) (str_append ":" error))))

  unfoldable pub finalize_observed_spans :
      FinalizationMetadata
      → List (TraceSpan num)
      → List (Value num)
      → RedactionPolicy
      → EvidenceBundle num
  finalize_observed_spans metadata spans side_effects policy =
      let trace_ids = sorted_texts (map (λ span. span.trace_id) spans) in
      let invocation_ids =
        dedup (sort (filter_map span_invocation spans ++ context.invocation_id ∷ [])) in
      let (events, defects) = normalize_spans_with_defects libraries context spans policy in
      let trace_defects =
        final_defects metadata.completion_reason
          (defects ++ (assess_trace_quality display events).1) in
      record {
        schema_version = "1.1";
        organization_id = context.organization_id;
        eval_run_id = context.eval_run_id;
        invocation_id = context.invocation_id;
        invocation_ids = invocation_ids;
        scenario_id = context.scenario_id;
        target_version = metadata.target_version;
        policy_content_sha256 = metadata.policy_content_sha256;
        trace_ids = trace_ids;
        completion_reason = metadata.completion_reason;
        terminal_state = metadata.terminal_state;
        events = events;
        side_effects = side_effects;
        trace_quality = quality_from_defects trace_defects;
        trace_defects = trace_defects;
        finalized_at = some metadata.finalized_at;
        evidence_sha256 = digest (
            bytes_or (λ error. into_bytes (canonicalization_error error))
              (to_vec (record {
                schema_version = "1.1";
                target_version = metadata.target_version;
                policy_content_sha256 = some metadata.policy_content_sha256;
                trace_ids = trace_ids;
                invocation_ids = invocation_ids;
                completion_reason = metadata.completion_reason;
                terminal_state = metadata.terminal_state;
                events = events;
                side_effects = side_effects;
                trace_defects = trace_defects;
              })));
      }
