-- ===== src/Evaluator/Requirement.antt =====
-- crates/governance-evaluator/src/lib.rs: the evidence that a rule requires.
use featherlane_ai.Prelude.{
  Bool, false, ◌||◌, Option, none, some, String, same, str_eq, if◌then◌else◌, is_some, is_none_or,
  is_some_and, any, keep,
}
use featherlane_ai.Text.{trim, strip_prefix, split_once}
use featherlane_ai.Json.{Numbers, Value, object, lookup, has_key, as_str, to_fields, value_eq}
use featherlane_ai.Domain.Events.{
  EventType, EventType-discrete, event_type_name, event_type_of_name, NormalizedEvent,
  EvidenceBundle,
}
use featherlane_ai.Evaluator.Matching.{value_at_path}

module _ {num : Numbers} where
  unfoldable pub event_has_path : NormalizedEvent num → String → Bool
  event_has_path event path = elim (strip_prefix "input." path) [
    | some rest ↦ is_some (value_at_path event.input rest)
    | none ↦ elim (strip_prefix "output." path) [
      | some rest ↦ is_some (value_at_path event.output rest)
      | none ↦ elim (strip_prefix "attributes." path) [
        | some rest ↦
            has_key rest event.attributes
            || is_some (value_at_path (object (to_fields event.attributes)) rest)
        | none ↦ false
      ]
    ]
  ]

module _ {num : Numbers} (from_str : String → Option (Value num)) where
  -- `attribute:key` and `attribute:key=expected`; the text is compared as it is, and parsed.
  abbrev expected_ok : Option String → Value num → Bool
  expected_ok expected value = is_none_or expected λ text.
      is_some_and (as_str value) (λ s. str_eq s text)
      || is_some_and (from_str text) (λ parsed. value_eq parsed value)

  abbrev attribute_parts : String → String × Option String
  attribute_parts attribute = elim (split_once b'=' attribute) [
    | none ↦ (attribute, none)
    | some (key, value) ↦ (key, some value)
  ]

  unfoldable pub attribute_observed : String → EvidenceBundle num → Bool
  attribute_observed attribute evidence =
      let (key, expected) = attribute_parts attribute in
      any (λ event. is_some_and (lookup key event.attributes) (expected_ok expected))
        evidence.events

  abbrev supported_path : String → Bool
  supported_path path =
      is_some (strip_prefix "input." path)
      || is_some (strip_prefix "output." path)
      || is_some (strip_prefix "attributes." path)

  -- A requirement `event_type.path`, if it is one.
  unfoldable pub path_requirement : String → Option (EventType × String)
  path_requirement requirement = elim (split_once b'.' requirement) [
    | none ↦ none
    | some (name, path) ↦ elim (event_type_of_name name) [
      | none ↦ none
      | some event_type ↦ if supported_path path then some (event_type, path) else none
    ]
  ]

  unfoldable pub named_observed : String → EvidenceBundle num → Bool
  named_observed requirement evidence =
      any
        (λ event.
          str_eq (event_type_name event.event_type) requirement
          || has_key requirement event.attributes)
        evidence.events

  unfoldable pub requirement_observed : String → EvidenceBundle num → Bool
  unfolding attribute_observed path_requirement named_observed
  requirement_observed requirement evidence =
      if str_eq requirement "terminal_state"
      then is_some evidence.terminal_state
      else elim (strip_prefix "attribute:" requirement) [
        | some attribute ↦ attribute_observed attribute evidence
        | none ↦ elim (path_requirement requirement) [
          | some (event_type, path) ↦
              any (λ event. event_has_path event path)
                (keep (λ event. same EventType-discrete event.event_type event_type)
                  evidence.events)
          | none ↦ named_observed requirement evidence
        ]
      ]

  unfoldable pub has_required_evidence : String → EvidenceBundle num → Bool
  unfolding requirement_observed
  has_required_evidence requirement evidence = requirement_observed (trim requirement) evidence
