-- ===== src/Telemetry/Tests.antt =====
-- Spans, observations and traces run through the telemetry functions.
use featherlane_ai.Prelude.{
  false, ℕ, ◌+◌, ◌≤◌, ◌≡◌, ◌≢◌, refl, ◌↔◌, ◌++◌, none, some, List, [], ◌∷◌, String, All, Any, keep,
  ◌==◌, ==_iff, leb, length, Result, ok, err, arith, if◌then◌else◌,
}
use featherlane_ai.Text.{trim, contains, to_ascii_lowercase, all_chars, byte_length}
use featherlane_ai.Json.{Numbers, Value, null, string, object, end, field, get}
use featherlane_ai.Domain.Events.{
  tool_call, final_output, EventType, ActorType, ObservedEvent, NormalizedEvent, complete,
  insufficient, EventType-discrete,
}
use featherlane_ai.Telemetry.{TraceSpan, NormalizationContext}
use featherlane_ai.Telemetry.Redaction.{
  RedactionPolicy, drops, is_sensitive, redact_nested, redact_attributes, redact_span,
  NormalizationError, normalize_observations, normalize_from, normalize_observation,
}
use featherlane_ai.Telemetry.Redaction.Values.{
  IsClean, redact_nested-IsClean, redacted, get-redact_nested,
}
use featherlane_ai.Telemetry.Redaction.Attributes.{
  IsPublic, IsAllowed, Redacts, names, redact_span-IsPublic,
}
use featherlane_ai.Telemetry.Redaction.Observations.{
  NormalizesFrom, normalize_observations-Normalizes,
}
use featherlane_ai.Telemetry.Limits.{
  default_limits, invalid_span_id, is_bad_id, is_bad_link, has_bad_ids, has_long_text,
  attribute_count, value_exceeds_limits, validate_span,
}
use featherlane_ai.Telemetry.Limits.Laws.{Validates, validate_span-Validates}
use featherlane_ai.Telemetry.Quality.{assess_trace_quality}
use featherlane_ai.Telemetry.Quality.Laws.{
  IsRoot, IsFinal, IsWellFormed, assess_trace_quality-IsWellFormed,
}

-- Integers alone, read as they are.
abbrev counting : Numbers
counting = record {
  Number = ℕ;
  F64 = ℕ;
  number_eq = λ m n. m == n;
  number_eq_iff = ==_iff;
  as_f64 = some;
  f64_le = leb;
}

abbrev guarded : RedactionPolicy
guarded = record {
  allowed_attributes = "decision" ∷ "governance.input" ∷ [];
  sensitive_key_fragments = "password" ∷ "token" ∷ [];
}

abbrev secrets : Value counting
secrets = object (
    field "user" (object (field "Password1" (string "x") (field "id" (string "7") end)))
      (field "API_TOKEN" null end))

abbrev span : TraceSpan counting
span = record {
  trace_id = "0123456789abcdef0123456789abcdef";
  span_id = "0123456789abcdef";
  parent_span_id = none;
  links = [];
  name = "refund";
  started_at = 1;
  ended_at = some 2;
  attributes = ("decision", secrets) ∷ ("note", null) ∷ [];
  resource_attributes = ("token", null) ∷ [];
  instrumentation_scope = none;
  status = none;
}

telemetry : Unit {0}
unfolding redact_nested redact_attributes redact_span is_sensitive contains to_ascii_lowercase
    validate_span is_bad_id is_bad_link has_bad_ids has_long_text attribute_count
    value_exceeds_limits all_chars byte_length normalize_observations normalize_from
    normalize_observation trim assess_trace_quality EventType-discrete
telemetry = tt

redaction_tests :
    (redact_nested guarded.sensitive_key_fragments secrets
      ≡ object (field "user" (object (field "id" (string "7") end)) end))
    × ((redact_span guarded span).1 ≡ "token" ∷ "note" ∷ [])
    × (validate_span default_limits span ≡ ok tt)
    × (validate_span default_limits (record span { span_id = "0000000000000000" })
        ≡ err invalid_span_id)
unfolding telemetry
redaction_tests = (refl, refl, refl, refl)

-- A text that holds serialized JSON is a text: redaction leaves the keys that it spells.
serialized_secret :
    redact_nested {num = counting} guarded.sensitive_key_fragments (string "{\"password\":\"x\"}")
    ≡ string "{\"password\":\"x\"}"
unfolding telemetry
serialized_secret = refl

redact_nested-IsClean_example :
    IsClean {num = counting} guarded.sensitive_key_fragments
      (redact_nested guarded.sensitive_key_fragments secrets)
redact_nested-IsClean_example = redact_nested-IsClean guarded.sensitive_key_fragments secrets

get-redact_nested_example : get (redact_nested guarded.sensitive_key_fragments secrets) "user" ≡ (
    if is_sensitive guarded.sensitive_key_fragments "user"
    then none
    else redacted guarded.sensitive_key_fragments (get secrets "user"))
get-redact_nested_example = get-redact_nested guarded.sensitive_key_fragments secrets "user"

redact_span-IsPublic_example :
    All (IsPublic guarded) (redact_span guarded span).0.attributes
    × All (IsPublic guarded) (redact_span guarded span).0.resource_attributes
    × Redacts guarded span.attributes (redact_span guarded span).0.attributes
    × Redacts guarded span.resource_attributes (redact_span guarded span).0.resource_attributes
    × ((key : String) → (drops guarded key ≡ false) ↔ IsAllowed guarded key)
    × ((redact_span guarded span).1
        ≡ keep (drops guarded) (names guarded span.resource_attributes)
          ++ keep (drops guarded) (names guarded span.attributes))
    × ((redact_span guarded span).0 ≡ record span {
      attributes = (redact_span guarded span).0.attributes;
      resource_attributes = (redact_span guarded span).0.resource_attributes;
    })
redact_span-IsPublic_example = redact_span-IsPublic guarded span

validate_span-Validates_example : Validates default_limits span (validate_span default_limits span)
validate_span-Validates_example = validate_span-Validates default_limits (omega arith) span

abbrev context : NormalizationContext
context = record { organization_id = 1; eval_run_id = 2; invocation_id = 3; scenario_id = 4 }

abbrev observed : EventType → String → ObservedEvent counting
observed event_type name = record {
  event_type = event_type;
  name = name;
  actor = record { actor_type = ActorType.agent; id = "" };
  input = secrets;
  output = null;
  attributes = [];
}

abbrev observations : List (ObservedEvent counting)
observations = observed tool_call "refund" ∷ observed final_output "done" ∷ []

abbrev observe :
    List (ObservedEvent counting) → Result NormalizationError (List (NormalizedEvent counting))
observe = normalize_observations context "trace" "target" guarded (λ n. 70 + n) 5

normalize_observations-Normalizes_example :
    (((length observations ≤ 1000) × All (λ o. trim o.name ≢ "") observations)
      → (es : List (NormalizedEvent counting)) × (observe observations ≡ ok es))
    × ((es : List (NormalizedEvent counting))
        → observe observations ≡ ok es
        → (length observations ≤ 1000)
          × All (λ o. trim o.name ≢ "") observations
          × NormalizesFrom context "trace" "target" guarded (λ n. 70 + n) 5 0 observations es)
normalize_observations-Normalizes_example =
    normalize_observations-Normalizes context "trace" "target" guarded (λ n. 70 + n) 5 observations

abbrev normalized : List (NormalizedEvent counting)
normalized = normalize_from context "trace" "target" guarded (λ n. 70 + n) 5 0 observations

abbrev printed : ℕ → String
printed n = "id"

assess_trace_quality-IsWellFormed_example :
    (((assess_trace_quality printed normalized).0 ≡ insufficient)
      ↔ ¬ (Any IsRoot normalized × Any IsFinal normalized))
    × (((assess_trace_quality printed normalized).0 ≡ complete) ↔ (
        (Any IsRoot normalized × Any IsFinal normalized)
        × All (IsWellFormed normalized) normalized))
assess_trace_quality-IsWellFormed_example = assess_trace_quality-IsWellFormed printed normalized
