-- ===== src/Telemetry/Normalization/Serialized.antt =====
-- What becomes of an input that a span carries as serialized JSON.
use featherlane_ai.Prelude.{
  ℕ, ◌≡◌, refl, ap, sym, ◌∙◌, subst, inl, inr, true, false, Option, none, some, is_some, List, [],
  ◌∷◌, String, str_eq, str_eq_iff, or_else, Bool-cases, if◌then◌else◌,
}
use featherlane_ai.Json.{Numbers, Value, string, Attributes, lookup}
use featherlane_ai.Telemetry.{TraceSpan, NormalizationContext}
use featherlane_ai.Telemetry.Redaction.{RedactionPolicy, drops, redact_nested, redact_span}
use featherlane_ai.Telemetry.Redaction.Values.{redacted}
use featherlane_ai.Telemetry.Redaction.Attributes.{lookup-redact_attributes}
use featherlane_ai.Telemetry.Correlation.{insert}
use featherlane_ai.Telemetry.Correlation.Merging.{lookup-insert}
use featherlane_ai.Telemetry.Normalization.{
  Libraries, add_defaults, prepare_span, structured, normalize_span,
}

or_else-some : {A : Type 0} (o p q : Option A) → is_some o ≡ true → or_else o p ≡ or_else o q
or_else-some none p q h = cc
or_else-some (some a) p q h = refl

not-is_some : {A : Type 0} (o : Option A) → is_some o ≡ false → o ≡ none
not-is_some none h = refl
not-is_some (some a) h = cc

or_else-none : {A : Type 0} (o : Option A) → or_else o none ≡ o
or_else-none none = refl
or_else-none (some a) = refl

module _ {num : Numbers} where
  lookup-add_defaults :
      (i : String) (defaults attributes : Attributes num)
      → lookup i (add_defaults defaults attributes)
        ≡ or_else (lookup i attributes) (lookup i defaults)
  unfolding add_defaults
  lookup-add_defaults i [] attributes = unfold lookup in (sym (or_else-none (lookup i attributes)))
  lookup-add_defaults i ((k, v) ∷ defaults) attributes =
      elim (Bool-cases (is_some (lookup k attributes))) [
        | inl present ↦ rw present (lookup-add_defaults i defaults attributes ∙ kept present)
        | inr absent ↦ rw absent (
            lookup-add_defaults i defaults (insert k v attributes)
            ∙ ap (λ o. or_else o (lookup i defaults)) (lookup-insert i k v attributes)
            ∙ added absent)
      ]
    where
      head : lookup i ((k, v) ∷ defaults) ≡ (if str_eq k i then some v else lookup i defaults)
      head = unfold lookup in refl

      kept :
          is_some (lookup k attributes) ≡ true
          → or_else (lookup i attributes) (lookup i defaults)
            ≡ or_else (lookup i attributes) (lookup i ((k, v) ∷ defaults))
      kept present = elim (Bool-cases (str_eq k i)) [
        | inl e ↦
            or_else-some (lookup i attributes) _ _
              (subst (λ j. is_some (lookup j attributes) ≡ true) ((str_eq_iff k i).0 e) present)
        | inr ne ↦ ap (or_else (lookup i attributes)) (sym (head ∙ rw ne refl))
      ]

      added :
          is_some (lookup k attributes) ≡ false
          → or_else (if str_eq k i then some v else lookup i attributes) (lookup i defaults)
            ≡ or_else (lookup i attributes) (lookup i ((k, v) ∷ defaults))
      added absent = elim (Bool-cases (str_eq k i)) [
        | inl e ↦
            let gone =
              not-is_some (lookup i attributes) (
                subst (λ j. is_some (lookup j attributes) ≡ false) ((str_eq_iff k i).0 e) absent) in
            rw (e, gone, head) (rw e refl)
        | inr ne ↦ rw (ne, head) (rw ne refl)
      ]

  lookup-prepare_span :
      (key : String) (policy : RedactionPolicy) (span : TraceSpan num) (text : String)
      → drops policy key ≡ false
      → or_else (lookup key span.attributes) (lookup key span.resource_attributes)
        ≡ some (string text)
      → lookup key (prepare_span policy span).attributes ≡ some (string text)
  unfolding prepare_span redact_span redact_nested
  lookup-prepare_span key policy span text held at =
      lookup-redact_attributes policy key (add_defaults span.resource_attributes span.attributes)
      ∙ rw held (
          ap (redacted policy.sensitive_key_fragments)
            (lookup-add_defaults key span.resource_attributes span.attributes ∙ at))

  -- An input that comes as serialized JSON is not redacted: under a policy that lets the attribute
  -- through, the input of the event is whatever value the text parses to, with all its members.
  pub normalize_span-serialized :
      (libraries : Libraries num) (context : NormalizationContext) (spans : List (TraceSpan num))
      (policy : RedactionPolicy) (index : ℕ) (span : TraceSpan num) (text : String) (v : Value num)
      → drops policy "governance.input" ≡ false
      → or_else
          (lookup "governance.input" span.attributes)
          (lookup "governance.input" span.resource_attributes)
        ≡ some (string text)
      → libraries.from_str text ≡ some v
      → (normalize_span libraries context spans index (prepare_span policy span)).input ≡ v
  unfolding normalize_span
  normalize_span-serialized libraries context spans policy index span text v held at parses =
      ap (structured libraries.from_str)
        (lookup-prepare_span "governance.input" policy span text held at)
      ∙ rw parses refl
