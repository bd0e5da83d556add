-- ===== src/Telemetry/Correlation.antt =====
-- crates/governance-telemetry/src/lib.rs: `extract_correlation` and `extract_span_correlation`.
pub mod Merging
pub mod Reading
pub mod Laws
mod Tests
use featherlane_ai.Prelude.{
  Bool, false, Option, none, some, [], ◌∷◌, String, str_eq, and_then, or_else, unwrap_or,
  if◌then◌else◌, Result, ok, err, ◌>>=◌,
}
use featherlane_ai.Text.{is_blank, str_lt}
use featherlane_ai.Json.{Numbers, Value, Attributes, as_str, as_bool, lookup}
use featherlane_ai.Domain.Ids.{Uuid, EvalRunId, InvocationId, ScenarioId}
use featherlane_ai.Telemetry.{TraceSpan}
use featherlane_ai.Telemetry.Limits.{TelemetryError, invalid_correlation_id}

abbrev pub attr_eval_run_id : String
attr_eval_run_id = "featherlane.eval_run.id"

abbrev pub attr_invocation_id : String
attr_invocation_id = "featherlane.invocation.id"

abbrev pub attr_scenario_id : String
attr_scenario_id = "featherlane.scenario.id"

abbrev pub attr_external_run_id : String
attr_external_run_id = "featherlane.external_run.id"

abbrev pub attr_run_terminal : String
attr_run_terminal = "featherlane.run.terminal"

abbrev pub attr_terminal_state : String
attr_terminal_state = "featherlane.run.terminal_state"

abbrev pub legacy_run_id : String
legacy_run_id = "governance.run_id"

abbrev pub legacy_invocation_id : String
legacy_invocation_id = "governance.invocation_id"

abbrev pub legacy_scenario_id : String
legacy_scenario_id = "governance.scenario_id"

abbrev pub legacy_terminal_state : String
legacy_terminal_state = "governance.terminal_state"

pub record CorrelationCandidate : Type 0 where
  pub eval_run_id : Option EvalRunId
  pub invocation_id : Option InvocationId
  pub scenario_id : Option ScenarioId
  pub external_run_id : Option String
  pub terminal : Bool
  pub terminal_state : Option String

abbrev pub keyed : String → Option String → Option (String × String)
keyed key none = none
keyed key (some value) = some (key, value)

abbrev pub not_empty : Option String → Option String
not_empty none = none
not_empty (some value) = if is_blank value then none else some value

abbrev pub parsed : String → Option Uuid → Result TelemetryError (Option Uuid)
parsed key (some id) = ok (some id)
parsed key none = err (invalid_correlation_id key)

abbrev pub parse_found :
    (String → Option Uuid) → Option (String × String) → Result TelemetryError (Option Uuid)
parse_found parse_str none = ok none
parse_found parse_str (some (key, value)) = parsed key (parse_str value)

module _ {num : Numbers} where
  -- `insert` of a `BTreeMap`, which is sorted by its keys.
  unfoldable pub insert : String → Value num → Attributes num → Attributes num
  insert k v [] = (k, v) ∷ []
  insert k v ((j, w) ∷ m) =
      let rest = insert k v m in
      if str_eq j k then (k, v) ∷ m else if str_lt k j then (k, v) ∷ (j, w) ∷ m else (j, w) ∷ rest

  -- `extend`: the keys of the second map are distinct, so the order in which they are inserted does
  -- not matter.
  unfoldable extend : Attributes num → Attributes num → Attributes num
  unfolding insert
  extend m [] = m
  extend m ((k, v) ∷ n) = insert k v (extend m n)

  abbrev pub text_at : Attributes num → String → Option String
  text_at attributes key = and_then (lookup key attributes) as_str

  unfoldable string_attribute : Attributes num → String → Option String
  string_attribute attributes key = not_empty (text_at attributes key)

-- `Uuid::parse_str`, of the uuid crate.
module _ (parse_str : String → Option Uuid) {num : Numbers} where
  unfoldable parse_typed_id : Attributes num → String → String → Result TelemetryError (Option Uuid)
  parse_typed_id attributes canonical legacy = parse_found parse_str (
      or_else (keyed canonical (text_at attributes canonical))
        (keyed legacy (text_at attributes legacy)))

  unfoldable extract_correlation : Attributes num → Result TelemetryError CorrelationCandidate
  unfolding parse_typed_id string_attribute
  extract_correlation attributes = do
    eval_run_id ← parse_typed_id attributes attr_eval_run_id legacy_run_id
    invocation_id ← parse_typed_id attributes attr_invocation_id legacy_invocation_id
    scenario_id ← parse_typed_id attributes attr_scenario_id legacy_scenario_id
    ok (record {
      eval_run_id = eval_run_id;
      invocation_id = invocation_id;
      scenario_id = scenario_id;
      external_run_id = string_attribute attributes attr_external_run_id;
      terminal = unwrap_or (and_then (lookup attr_run_terminal attributes) as_bool) false;
      terminal_state =
          or_else (string_attribute attributes attr_terminal_state)
            (string_attribute attributes legacy_terminal_state);
    })

  unfoldable pub extract_span_correlation :
      TraceSpan num → Result TelemetryError CorrelationCandidate
  unfolding extract_correlation extend
  extract_span_correlation span =
      extract_correlation (extend span.resource_attributes span.attributes)
