-- ===== src/Telemetry/Redaction.antt =====
-- crates/governance-telemetry/src/lib.rs: `RedactionPolicy`.
pub mod Values
pub mod Attributes
pub mod Observations
use featherlane_ai.Prelude.{
  ℕ, zero, suc, Bool, true, not, ◌||◌, Option, none, some, List, [], ◌∷◌, ◌++◌, String, str_eq, any,
  ltb, length, if◌then◌else◌, Result, ok, ensure, ◌>>=◌, ◌>>◌,
}
use featherlane_ai.Text.{trim, is_blank, contains, to_ascii_lowercase}
use featherlane_ai.Json.{
  Numbers, Value, null, bool, number, string, array, object, Items, nil, cons, Fields, end, field,
}
use featherlane_ai.Json as Json
use featherlane_ai.Domain.Ids.{EventId, OffsetDateTime}
use featherlane_ai.Domain.Events.{Actor, ObservedEvent, NormalizedEvent}
use featherlane_ai.Telemetry.{TraceSpan, NormalizationContext}

pub record RedactionPolicy : Type 0 where
  pub allowed_attributes : List String
  pub sensitive_key_fragments : List String

-- `fragments.iter().any(|fragment| normalized.contains(fragment))`.
unfoldable pub is_sensitive : List String → String → Bool
is_sensitive fragments key = any (λ fragment. contains (to_ascii_lowercase key) fragment) fragments

-- A set of texts has the text.
abbrev pub has : List String → String → Bool
has texts key = any (λ t. str_eq t key) texts

abbrev pub drops : RedactionPolicy → String → Bool
drops policy key =
    is_sensitive policy.sensitive_key_fragments key || not (has policy.allowed_attributes key)

unfoldable pub with_allowed_attributes : RedactionPolicy → List String → RedactionPolicy
with_allowed_attributes policy attributes = record policy {
  allowed_attributes = policy.allowed_attributes ++ attributes;
}

module _ {num : Numbers} where
  -- `retain` on the members of an object, in place.
  unfoldable mutual
    pub redact_nested : List String → Value num → Value num
    redact_nested fragments (object fs) = object (redact_fields fragments fs)
    redact_nested fragments (array xs) = array (redact_items fragments xs)
    redact_nested fragments null = null
    redact_nested fragments (bool b) = bool b
    redact_nested fragments (number n) = number n
    redact_nested fragments (string s) = string s

    pub redact_items : List String → Items num → Items num
    redact_items fragments nil = nil
    redact_items fragments (cons x xs) =
        cons (redact_nested fragments x) (redact_items fragments xs)

    pub redact_fields : List String → Fields num → Fields num
    redact_fields fragments end = end
    redact_fields fragments (field k v fs) =
        let rest = redact_fields fragments fs in
        if is_sensitive fragments k then rest else field k (redact_nested fragments v) rest

  unfoldable pub redact_value : RedactionPolicy → Value num → Value num
  unfolding redact_nested
  redact_value policy v = redact_nested policy.sensitive_key_fragments v

  -- The attributes that are kept, and the keys that are returned as removed.
  unfoldable pub redact_attributes :
      RedactionPolicy → Json.Attributes num → Json.Attributes num × List String
  unfolding redact_nested is_sensitive
  redact_attributes policy [] = ([], [])
  redact_attributes policy ((key, value) ∷ attributes) =
      let (kept, removed) = redact_attributes policy attributes in
      if drops policy key
      then (kept, key ∷ removed)
      else ((key, redact_nested policy.sensitive_key_fragments value) ∷ kept, removed)

  unfoldable pub redact_span : RedactionPolicy → TraceSpan num → TraceSpan num × List String
  unfolding redact_attributes
  redact_span policy span =
      let (resource, removed) = redact_attributes policy span.resource_attributes in
      let (own, more) = redact_attributes policy span.attributes in
      (record span { resource_attributes = resource; attributes = own }, removed ++ more)

pub data NormalizationError : Type 0 where
  too_many_observations empty_event_name : NormalizationError

abbrev pub filled_actor : String → Actor → Actor
filled_actor target_id actor =
    if is_blank (trim actor.id) then record actor { id = target_id } else actor

-- The parent of the observation at an index: the first one, which has none.
abbrev pub parent_of : (ℕ → EventId) → ℕ → Option EventId
parent_of ids zero = none
parent_of ids (suc n) = some (ids 0)

module _ {num : Numbers} (context : NormalizationContext) (trace_id target_id : String)
    (policy : RedactionPolicy) (ids : ℕ → EventId) (now : OffsetDateTime) where
  unfoldable pub normalize_observation : ℕ → ObservedEvent num → NormalizedEvent num
  unfolding redact_nested redact_attributes
  normalize_observation index observation = record {
    schema_version = "1.0";
    organization_id = context.organization_id;
    eval_run_id = context.eval_run_id;
    invocation_id = context.invocation_id;
    scenario_id = context.scenario_id;
    trace_id = trace_id;
    id = ids index;
    parent_event_id = parent_of ids index;
    linked_event_ids = [];
    sequence = suc index;
    started_at = now;
    ended_at = some now;
    actor = filled_actor target_id observation.actor;
    event_type = observation.event_type;
    name = observation.name;
    input = redact_nested policy.sensitive_key_fragments observation.input;
    output = redact_nested policy.sensitive_key_fragments observation.output;
    attributes = (redact_attributes policy observation.attributes).0;
    source_span_id = none;
    redacted = true;
  }

  -- `enumerate` and `map`.
  unfoldable pub normalize_from : ℕ → List (ObservedEvent num) → List (NormalizedEvent num)
  unfolding normalize_observation
  normalize_from index [] = []
  normalize_from index (o ∷ os) = normalize_observation index o ∷ normalize_from (suc index) os

  unfoldable pub normalize_observations :
      List (ObservedEvent num) → Result NormalizationError (List (NormalizedEvent num))
  unfolding normalize_from
  normalize_observations observations = do
    ensure (not (ltb 1000 (length observations))) too_many_observations
    ensure (not (any (λ event. is_blank (trim event.name)) observations)) empty_event_name
    ok (normalize_from 0 observations)
