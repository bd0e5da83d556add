-- ===== src/Evaluator/Matching/Laws.antt =====
-- What it means that a matcher selects an event, and that `event_matches` decides it.
use featherlane_ai.Prelude.{
  ◌≡◌, refl, ap, subst, sym, ◌↔◌, Bool, true, false, not, Option, none, some, List, String, same,
  same_iff, str_eq, str_eq_iff, All, all_iff, Given, is_none_or, is_none_or_iff, not-eq_true,
  not_intro, some_inj, iff_trans, not-eq_false, and_then, is_some_and, if◌then◌else◌,
}
use featherlane_ai.Json.{Numbers, Value, lookup, value_as_f64, value_eq_iff}
use featherlane_ai.Domain.Events.{
  EventType-discrete, NumericArgumentMatcher, EventMatcher, NormalizedEvent,
}
use featherlane_ai.Evaluator.Matching.{
  exceeds, value_at_path, is_value, numeric_ok, attributes_ok, event_matches,
}

-- The four tests of `event_matches`, in their order.
gates_iff :
    (a b c d : Bool)
    → ((if not a then false else if b then false else if not c then false else d) ≡ true)
      ↔ ((a ≡ true) × (b ≡ false) × (c ≡ true) × (d ≡ true))
gates_iff true false true d = ((λ h. (refl, refl, refl, h)), λ h. h.3)
gates_iff false b c d = ((λ h. cc), λ h. cc h.0)
gates_iff true true c d = ((λ h. cc), λ h. cc h.1)
gates_iff true false false d = ((λ h. cc), λ h. cc h.2)

exceeds_iff :
    (num : Numbers) (o : Option num.F64) (limit : num.F64)
    → (exceeds num o limit ≡ true) ↔ ((x : num.F64) × (o ≡ some x) × (num.f64_le x limit ≡ false))
exceeds_iff num none limit = (λ h. cc, λ h. absurd (cc h.1))
exceeds_iff num (some x) limit = (
  λ h. (x, refl, not-eq_true (num.f64_le x limit) h),
  λ h.
      not_intro (num.f64_le x limit)
        (subst (λ y. num.f64_le y limit ≡ false) (sym (some_inj h.1)) h.2),
)

wrong_name_iff :
    (o : Option String) (s : String)
    → (is_some_and o (λ name. not (str_eq s name)) ≡ false) ↔ Given o (λ name. s ≡ name)
wrong_name_iff none s = (λ _. tt, λ _. refl)
wrong_name_iff (some name) s =
    (λ h. (str_eq_iff s name).0 (not-eq_false (str_eq s name) h), λ e. rw ((str_eq_iff s name).1 e))

module _ {num : Numbers} where
  -- The argument at the path is a number above the threshold.
  abbrev pub Exceeds : NormalizedEvent num → NumericArgumentMatcher num → Type 0
  Exceeds event numeric =
      (x : num.F64) × (and_then (value_at_path event.input numeric.path) value_as_f64 ≡ some x)
      × (num.f64_le x numeric.greater_than ≡ false)

  pub record Selects (matcher : EventMatcher num) (event : NormalizedEvent num) : Type 0 where
    pub kind : event.event_type ≡ matcher.event_type
    pub named : Given matcher.name (λ name. event.name ≡ name)
    pub attributed : All (λ kv. lookup kv.0 event.attributes ≡ some kv.1) matcher.attribute_equals
    pub above : Given matcher.numeric_argument (Exceeds event)

  is_value_iff : (o : Option (Value num)) (v : Value num) → (is_value o v ≡ true) ↔ (o ≡ some v)
  is_value_iff none v = (λ h. cc, λ h. cc)
  is_value_iff (some w) v =
      ((λ h. ap some ((value_eq_iff w v).0 h)), λ h. (value_eq_iff w v).1 (cc))

  numeric_ok_iff :
      (event : NormalizedEvent num) (numeric : NumericArgumentMatcher num)
      → (numeric_ok event numeric ≡ true) ↔ Exceeds event numeric
  unfolding numeric_ok
  numeric_ok_iff event numeric =
      exceeds_iff num (and_then (value_at_path event.input numeric.path) value_as_f64)
        numeric.greater_than

  attributes_ok_iff :
      (event : NormalizedEvent num) (expected : List (String × Value num))
      → (attributes_ok event expected ≡ true)
        ↔ All (λ kv. lookup kv.0 event.attributes ≡ some kv.1) expected
  unfolding attributes_ok
  attributes_ok_iff event =
      all_iff (λ kv. is_value (lookup kv.0 event.attributes) kv.1)
        (λ kv. is_value_iff (lookup kv.0 event.attributes) kv.1)

  -- `event_matches` answers yes exactly for the events that the matcher selects: of its type, of its
  -- name if it has one, with all its attributes, and above its threshold if it has one.
  pub event_matches_iff :
      (event : NormalizedEvent num) (matcher : EventMatcher num)
      → (event_matches event matcher ≡ true) ↔ Selects matcher event
  unfolding event_matches
  event_matches_iff event matcher =
      iff_trans
        (gates_iff (same EventType-discrete event.event_type matcher.event_type)
          (is_some_and matcher.name (λ name. not (str_eq event.name name)))
          (attributes_ok event matcher.attribute_equals)
          (is_none_or matcher.numeric_argument (numeric_ok event)))
        (
          (λ h. record {
            kind = kinds.0 h.0;
            named = names.0 h.1;
            attributed = attributes.0 h.2;
            above = numbers.0 h.3;
          }),
          λ s. (kinds.1 s.kind, names.1 s.named, attributes.1 s.attributed, numbers.1 s.above),
        )
    where
      kinds :
          (same EventType-discrete event.event_type matcher.event_type ≡ true)
          ↔ (event.event_type ≡ matcher.event_type)
      kinds = same_iff EventType-discrete event.event_type matcher.event_type

      names :
          (is_some_and matcher.name (λ name. not (str_eq event.name name)) ≡ false)
          ↔ Given matcher.name (λ name. event.name ≡ name)
      names = wrong_name_iff matcher.name event.name

      attributes :
          (attributes_ok event matcher.attribute_equals ≡ true)
          ↔ All (λ kv. lookup kv.0 event.attributes ≡ some kv.1) matcher.attribute_equals
      attributes = attributes_ok_iff event matcher.attribute_equals

      numbers :
          (is_none_or matcher.numeric_argument (numeric_ok event) ≡ true)
          ↔ Given matcher.numeric_argument (Exceeds event)
      numbers =
          is_none_or_iff (numeric_ok event) (Exceeds event) (numeric_ok_iff event)
            matcher.numeric_argument
