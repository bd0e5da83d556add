-- ===== src/Telemetry/Correlation/Tests.antt =====
-- The correlation of a span whose resource names a run as well.
use featherlane_ai.Prelude.{
  ℕ, ◌==◌, ==_iff, leb, ◌≡◌, refl, true, Option, none, some, [], ◌∷◌, String, str_eq, if◌then◌else◌,
  ok, err,
}
use featherlane_ai.Json.{Numbers, bool, string, lookup}
use featherlane_ai.Domain.Ids.{Uuid}
use featherlane_ai.Telemetry.{TraceSpan}
use featherlane_ai.Telemetry.Limits.{invalid_correlation_id}
use featherlane_ai.Telemetry.Correlation.{
  insert, extend, string_attribute, parse_typed_id, extract_correlation, extract_span_correlation,
}
use featherlane_ai.Telemetry.Correlation.Laws.{
  Correlates, scoped, extract_span_correlation-Correlates,
}

abbrev counting : Numbers
counting = record {
  Number = ℕ;
  F64 = ℕ;
  number_eq = λ m n. m == n;
  number_eq_iff = ==_iff;
  as_f64 = some;
  f64_le = leb;
}

abbrev parse_str : String → Option Uuid
parse_str s = if str_eq s "7" then some 7 else if str_eq s "8" then some 8 else none

abbrev span : TraceSpan counting
span = record {
  trace_id = "0123456789abcdef0123456789abcdef";
  span_id = "0123456789abcdef";
  parent_span_id = none;
  links = [];
  name = "refund";
  started_at = 1;
  ended_at = some 2;
  attributes =
      ("featherlane.eval_run.id", string "7")
      ∷ ("featherlane.run.terminal", bool true)
      ∷ ("governance.terminal_state", string "done")
      ∷ [];
  resource_attributes =
      ("featherlane.eval_run.id", string "8")
      ∷ ("featherlane.run.terminal_state", string "")
      ∷ ("governance.run_id", string "9")
      ∷ [];
  instrumentation_scope = none;
  status = none;
}

abbrev misnamed : TraceSpan counting
misnamed = record span { attributes = ("governance.scenario_id", string "x") ∷ [] }

correlation : Unit {0}
unfolding insert extend string_attribute parse_typed_id extract_correlation extract_span_correlation
    lookup
correlation = tt

correlation_tests :
    (extract_span_correlation parse_str span
      ≡ ok (record {
        eval_run_id = some 7;
        invocation_id = none;
        scenario_id = none;
        external_run_id = none;
        terminal = true;
        terminal_state = some "done";
      }))
    × (extract_span_correlation parse_str misnamed
        ≡ err (invalid_correlation_id "governance.scenario_id"))
unfolding correlation
correlation_tests = (refl, refl)

extract_span_correlation-Correlates_example :
    Correlates parse_str (scoped span) (extract_span_correlation parse_str span)
extract_span_correlation-Correlates_example = extract_span_correlation-Correlates parse_str span
