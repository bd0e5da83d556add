-- ===== src/Evaluator/Matching.antt =====
-- crates/governance-evaluator/src/lib.rs: which events a matcher selects.
pub mod Laws
use featherlane_ai.Prelude.{
  Bool, false, not, Option, none, some, List, [], ◌∷◌, String, same, str_eq, if◌then◌else◌,
  is_none_or, is_some_and, and_then, all, keep,
}
use featherlane_ai.Text.{split}
use featherlane_ai.Json.{Numbers, Value, lookup, get, value_as_f64, value_eq}
use featherlane_ai.Domain.Events.{
  EventType-discrete, EventMatcher, NumericArgumentMatcher, NormalizedEvent,
}

-- `value > limit`, and no value does not exceed it.
abbrev pub exceeds : (num : Numbers) → Option num.F64 → num.F64 → Bool
exceeds num none limit = false
exceeds num (some value) limit = not (num.f64_le value limit)

module _ {num : Numbers} where
  -- `try_fold` over the parts of the path.
  unfoldable pub descend : Value num → List String → Option (Value num)
  descend v [] = some v
  descend v (part ∷ parts) = and_then (get v part) (λ w. descend w parts)

  unfoldable pub value_at_path : Value num → String → Option (Value num)
  unfolding descend
  value_at_path v path = descend v (split b'.' path)

  -- `event.attributes.get(key) == Some(expected)`.
  abbrev is_value : Option (Value num) → Value num → Bool
  is_value none expected = false
  is_value (some v) expected = value_eq v expected

  unfoldable pub numeric_ok : NormalizedEvent num → NumericArgumentMatcher num → Bool
  numeric_ok event numeric =
      exceeds num (and_then (value_at_path event.input numeric.path) value_as_f64)
        numeric.greater_than

  unfoldable pub attributes_ok : NormalizedEvent num → List (String × Value num) → Bool
  attributes_ok event = all (λ kv. is_value (lookup kv.0 event.attributes) kv.1)

  unfoldable pub event_matches : NormalizedEvent num → EventMatcher num → Bool
  unfolding numeric_ok attributes_ok
  event_matches event matcher =
      if not (same EventType-discrete event.event_type matcher.event_type)
      then false
      else if is_some_and matcher.name (λ name. not (str_eq event.name name))
      then false
      else if not (attributes_ok event matcher.attribute_equals)
      then false
      else is_none_or matcher.numeric_argument (numeric_ok event)

  abbrev pub matching : EventMatcher num → List (NormalizedEvent num) → List (NormalizedEvent num)
  matching matcher = keep (λ event. event_matches event matcher)
