-- ===== src/Telemetry/Correlation/Laws.antt =====
-- What `extract_span_correlation` reads of the two attribute maps of a span.
use featherlane_ai.Prelude.{
  ◌≡◌, refl, ap, sym, ◌∙◌, subst, ◌↔◌, inl, inr, ◌⊎◌, true, false, Option, none, some, String,
  and_then, or_else, unwrap_or, Bool-cases, false-ne_true, Result, ok, err, ◌>>=◌,
}
use mathlib.Core.Path.{fun_ext}
use featherlane_ai.Text.{is_blank, is_blank_iff}
use featherlane_ai.Json.{Numbers, Value, bool, Attributes, as_bool, lookup}
use featherlane_ai.Domain.Ids.{Uuid}
use featherlane_ai.Telemetry.{TraceSpan}
use featherlane_ai.Telemetry.Limits.{TelemetryError}
use featherlane_ai.Telemetry.Correlation.{
  attr_eval_run_id, attr_invocation_id, attr_scenario_id, attr_external_run_id, attr_run_terminal,
  attr_terminal_state, legacy_run_id, legacy_invocation_id, legacy_scenario_id,
  legacy_terminal_state, CorrelationCandidate, extend, string_attribute, parse_typed_id,
  extract_correlation, extract_span_correlation, parsed,
}
use featherlane_ai.Telemetry.Correlation.Reading.{
  IsText, HasNoText, IsText-cases, no_text, text_inj, text_of, ends_iff,
}
use featherlane_ai.Telemetry.Correlation.Merging.{lookup-extend}

some_inj : {s t : String} → (let v : Option String = some s in v ≡ some t) → s ≡ t
some_inj h = cc

or_else_iff :
    (o p : Option String) (A B : String → Type 0)
    → ((s : String) → (o ≡ some s) ↔ A s)
    → ((s : String) → (p ≡ some s) ↔ B s)
    → (s : String) → (or_else o p ≡ some s) ↔ (A s ⊎ ((t : String) → ¬ A t) × B s)
or_else_iff none p A B a b s = (
  λ h. inr ((λ t k. cc ((a t).1 k)), (b s).0 h),
  λ h. elim h [ inl k ↦ cc ((a s).1 k) | inr k ↦ (b s).1 k.1 ],
)
or_else_iff (some o) p A B a b s = (
  λ h. inl ((a s).0 h),
  λ h. elim h [ inl k ↦ (a s).1 k | inr k ↦ absurd (k.0 o ((a o).0 refl)) ],
)

module _ {num : Numbers} where
  -- What a map of attributes gives each key.
  module _ (at : String → Option (Value num)) where
    -- A text that counts: one that is not empty.
    abbrev pub Says : String → String → Type 0
    Says key s = IsText (at key) s × ¬ (s ≡ "")

  module _ (parse_str : String → Option Uuid) (at : String → Option (Value num)) where
    -- A canonical text goes before a legacy one, even where it is no identifier.
    pub data Identifies (canonical legacy : String)
        : Result TelemetryError (Option Uuid) → Type 0 where
      unnamed :
          HasNoText (at canonical) → HasNoText (at legacy) → Identifies canonical legacy (ok none)
      named :
          (s : String)
          → IsText (at canonical) s
          → Identifies canonical legacy (parsed canonical (parse_str s))
      named_before :
          (s : String)
          → HasNoText (at canonical)
          → IsText (at legacy) s
          → Identifies canonical legacy (parsed legacy (parse_str s))

    abbrev pub IdentifiesRun : Result TelemetryError (Option Uuid) → Type 0
    IdentifiesRun = Identifies attr_eval_run_id legacy_run_id

    abbrev pub IdentifiesInvocation : Result TelemetryError (Option Uuid) → Type 0
    IdentifiesInvocation = Identifies attr_invocation_id legacy_invocation_id

    abbrev pub IdentifiesScenario : Result TelemetryError (Option Uuid) → Type 0
    IdentifiesScenario = Identifies attr_scenario_id legacy_scenario_id

    pub record Candidate (c : CorrelationCandidate) : Type 0 where
      run : IdentifiesRun (ok c.eval_run_id)
      invocation : IdentifiesInvocation (ok c.invocation_id)
      scenario : IdentifiesScenario (ok c.scenario_id)
      external : (s : String) → (c.external_run_id ≡ some s) ↔ Says at attr_external_run_id s
      state :
          (s : String)
          → (c.terminal_state ≡ some s) ↔ (
              Says at attr_terminal_state s
              ⊎ ((t : String) → ¬ Says at attr_terminal_state t) × Says at legacy_terminal_state s)
      ends : (c.terminal ≡ true) ↔ (at attr_run_terminal ≡ some (bool true))

    abbrev pub Correlates : Result TelemetryError CorrelationCandidate → Type 0
    Correlates (ok c) = Candidate c
    Correlates (err e) =
        IdentifiesRun (err e) ⊎ IdentifiesInvocation (err e) ⊎ IdentifiesScenario (err e)

  module _ (attributes : Attributes num) where
    abbrev at_key : String → Option (Value num)
    at_key k = lookup k attributes

    parse_typed_id-Identifies :
        (parse_str : String → Option Uuid) (canonical legacy : String)
        → Identifies parse_str at_key canonical legacy
            (parse_typed_id parse_str attributes canonical legacy)
    unfolding parse_typed_id
    parse_typed_id-Identifies parse_str canonical legacy = elim (IsText-cases (at_key canonical)) [
      | inr (s, h) ↦ rw (text_of (at_key canonical) s h) (named s h)
      | inl silent ↦ elim (IsText-cases (at_key legacy)) [
        | inr (s, h) ↦
            rw (no_text (at_key canonical) silent, text_of (at_key legacy) s h)
              (named_before s silent h)
        | inl quiet ↦
            rw (no_text (at_key canonical) silent, no_text (at_key legacy) quiet)
              (unnamed silent quiet)
      ]
    ]

    string_attribute_iff :
        (key s : String) → (string_attribute attributes key ≡ some s) ↔ Says at_key key s
    unfolding string_attribute
    string_attribute_iff key s = elim (IsText-cases (at_key key)) [
      | inl silent ↦ rw (no_text (at_key key) silent) ((λ h. cc), λ h. absurd (silent s h.0))
      | inr (t, h) ↦ rw (text_of (at_key key) t h) (elim (Bool-cases (is_blank t)) [
        | inl blank ↦
            rw blank
              ((λ e. cc), λ e. absurd (e.1 (text_inj (sym e.0 ∙ h) ∙ (is_blank_iff t).0 blank)))
        | inr filled ↦ rw filled (
          λ e.
              let p = some_inj e in
              (
                subst (IsText (at_key key)) p h,
                λ q. false-ne_true ((is_blank_iff t).1 (p ∙ q)) filled,
              ),
          λ e. ap some (text_inj (sym h ∙ e.0)),
        )
      ])
    ]

    extract_correlation-Correlates :
        (parse_str : String → Option Uuid)
        → Correlates parse_str at_key (extract_correlation parse_str attributes)
    unfolding extract_correlation
    extract_correlation-Correlates parse_str =
        go (parse_typed_id parse_str attributes attr_eval_run_id legacy_run_id)
          (parse_typed_id parse_str attributes attr_invocation_id legacy_invocation_id)
          (parse_typed_id parse_str attributes attr_scenario_id legacy_scenario_id)
          (parse_typed_id-Identifies parse_str attr_eval_run_id legacy_run_id)
          (parse_typed_id-Identifies parse_str attr_invocation_id legacy_invocation_id)
          (parse_typed_id-Identifies parse_str attr_scenario_id legacy_scenario_id)
      where
        go :
            (r i s : Result TelemetryError (Option Uuid))
            → IdentifiesRun parse_str at_key r
            → IdentifiesInvocation parse_str at_key i
            → IdentifiesScenario parse_str at_key s
            → Correlates parse_str at_key (
                r >>= λ run. i >>= λ invocation. s >>= λ scenario. ok (record {
                  eval_run_id = run;
                  invocation_id = invocation;
                  scenario_id = scenario;
                  external_run_id = string_attribute attributes attr_external_run_id;
                  terminal =
                      unwrap_or (and_then (lookup attr_run_terminal attributes) as_bool) false;
                  terminal_state =
                      or_else
                        (string_attribute attributes attr_terminal_state)
                        (string_attribute attributes legacy_terminal_state);
                }))
        go (err e) i s a b c = inl a
        go (ok r) (err e) s a b c = inr (inl b)
        go (ok r) (ok i) (err e) a b c = inr (inr c)
        go (ok r) (ok i) (ok s) a b c = record {
          run = a;
          invocation = b;
          scenario = c;
          external = string_attribute_iff attr_external_run_id;
          state =
              or_else_iff _ _ _ _ (string_attribute_iff attr_terminal_state)
                (string_attribute_iff legacy_terminal_state);
          ends = ends_iff (at_key attr_run_terminal);
        }

  -- The value of a key for a span: its own, or else that of its resource.
  abbrev pub scoped : TraceSpan num → String → Option (Value num)
  scoped span key = or_else (lookup key span.attributes) (lookup key span.resource_attributes)

  -- The correlation of a span is what its attributes say, its own before those of its resource, and a
  -- canonical key before a legacy one: each identifier is the one that its text parses to, and is
  -- absent only where neither key has a text; the external run and the terminal state are the texts
  -- that are not empty; the run ends only where the attribute is true. It fails only where the text of
  -- one of the three identifiers does not parse, with the key that the text was under.
  pub extract_span_correlation-Correlates :
      (parse_str : String → Option Uuid) (span : TraceSpan num)
      → Correlates parse_str (scoped span) (extract_span_correlation parse_str span)
  unfolding extract_span_correlation
  extract_span_correlation-Correlates parse_str span =
      let attributes = extend span.resource_attributes span.attributes in
      subst (λ at. Correlates parse_str at (extract_correlation parse_str attributes))
        (fun_ext (λ key. lookup-extend key span.resource_attributes span.attributes))
        (extract_correlation-Correlates attributes parse_str)
