-- ===== src/Evaluator/Assertion/Laws.antt =====
-- What an assertion demands, and that `evaluate_assertion` decides it.
use featherlane_ai.Prelude.{
  ℕ, ◌≤◌, ◌<◌, ◌≡◌, refl, ap, ◌↔◌, ◌≢◌, ◌⊎◌, inl, inr, ◌∙◌, Bool, true, false, ◌&&◌, Option, none,
  some, List, [], ◌∷◌, String, str_eq, str_eq_iff, All, Any, any, any_iff, keep_empty_iff,
  is_empty-map, length-map, keep_some_iff, Counts, Counts-unique, length-keep-Counts, length,
  is_empty, is_none, is_some_and, Bool-cases, false-ne_true, ltb, ltb→lt, lt→ltb, leb, leb→le,
  le→leb, and-eq_true, and_intro, or_iff, arith,
}
use featherlane_ai.Json.{Numbers, Value, string}
use featherlane_ai.Domain.Ids.{OffsetDateTime}
use featherlane_ai.Domain.Events.{
  EventMatcher, RuleAssertion, exists_before, absent, max_count, terminal_state, NormalizedEvent,
  EvidenceBundle,
}
use featherlane_ai.Evaluator.Matching.{event_matches, matching}
use featherlane_ai.Evaluator.Matching.Laws.{Selects, event_matches_iff}
use featherlane_ai.Evaluator.Assertion.{
  AssertionOutcome, passed, failed, not_observable, state_attribute, state_matches, is_text, ids,
  latest, before, before_outcome, terminal_outcome, evaluate_assertion,
}

ended_iff :
    (o : Option String) (s : String) → (is_some_and o (λ t. str_eq t s) ≡ true) ↔ (o ≡ some s)
ended_iff none s = (λ h. cc, λ h. cc)
ended_iff (some t) s = (λ h. ap some ((str_eq_iff t s).0 h), λ h. (str_eq_iff t s).1 (cc))

module _ {num : Numbers} where
  -- The run ended in the state, by its own account or by an attribute of an event.
  abbrev pub Reaches : String → EvidenceBundle num → Type 0
  Reaches state evidence =
      (evidence.terminal_state ≡ some state)
      ⊎ Any (λ event. state_attribute event ≡ some (string state)) evidence.events

  module _ (trigger : NormalizedEvent num) (evidence : EvidenceBundle num) where
    -- What the assertion demands at the trigger.
    abbrev pub Holds : RuleAssertion num → Type 0
    Holds (exists_before matcher) =
        Any (λ event. (event.sequence < trigger.sequence) × Selects matcher event) evidence.events
    Holds (absent matcher) = All (λ event. ¬ Selects matcher event) evidence.events
    Holds (max_count matcher count) =
        (n : ℕ) × Counts (Selects matcher) evidence.events n × (n ≤ count)
    Holds (terminal_state state) = (trigger.ended_at ≢ none) × Reaches state evidence

    -- Whether the evidence can tell.
    abbrev pub Observable : RuleAssertion num → Type 0
    Observable (terminal_state state) = trigger.ended_at ≢ none
    Observable _ = Unit

    abbrev pub Decides : RuleAssertion num → AssertionOutcome → Type 0
    Decides assertion (passed found) = Holds assertion
    Decides assertion (failed message found) = Observable assertion × ¬ Holds assertion
    Decides assertion (not_observable message) = ¬ Observable assertion

  abbrev earlier : NormalizedEvent num → EventMatcher num → NormalizedEvent num → Bool
  earlier trigger matcher event = ltb event.sequence trigger.sequence && event_matches event matcher

  pub earlier_iff :
      (trigger : NormalizedEvent num) (matcher : EventMatcher num) (event : NormalizedEvent num)
      → ((ltb event.sequence trigger.sequence && event_matches event matcher) ≡ true)
        ↔ ((event.sequence < trigger.sequence) × Selects matcher event)
  earlier_iff trigger matcher event = (
    λ h.
        let (a, b) =
          and-eq_true (ltb event.sequence trigger.sequence) (event_matches event matcher) h in
        (ltb→lt _ _ a, (event_matches_iff event matcher).0 b),
    λ h. and_intro _ _ (lt→ltb _ _ h.0) ((event_matches_iff event matcher).1 h.1),
  )

  is_text_iff : (o : Option (Value num)) (s : String) → (is_text o s ≡ true) ↔ (o ≡ some (string s))
  is_text_iff none s = (λ h. cc, λ h. cc)
  is_text_iff (some (string t)) s =
      (λ h. ap (λ u. some (string u)) ((str_eq_iff t s).0 h), λ h. (str_eq_iff t s).1 (cc))
  is_text_iff (some _) s = (λ h. cc, λ h. cc)

  pub state_matches_iff :
      (state : String) (evidence : EvidenceBundle num)
      → (state_matches state evidence ≡ true) ↔ Reaches state evidence
  unfolding state_matches
  state_matches_iff state evidence =
      or_iff (is_some_and evidence.terminal_state (λ t. str_eq t state))
        (any (λ event. is_text (state_attribute event) state) evidence.events)
        (ended_iff evidence.terminal_state state)
        (any_iff (λ event. is_text (state_attribute event) state)
          (λ event. is_text_iff (state_attribute event) state) evidence.events)

  abbrev event_id : NormalizedEvent num → ℕ
  event_id event = event.id

  latest-none : (xs : List (NormalizedEvent num)) → is_empty xs ≡ is_none (latest xs)
  unfolding latest
  latest-none [] = refl
  latest-none (x ∷ xs) = refl

  before-Decides :
      (trigger : NormalizedEvent num) (evidence : EvidenceBundle num) (matcher : EventMatcher num)
      (o : Option (NormalizedEvent num))
      → latest (before trigger matcher evidence.events) ≡ o
      → Decides trigger evidence (exists_before matcher) (before_outcome matcher trigger o)
  unfolding before_outcome
  before-Decides trigger evidence matcher o e = go o e
    where
      found : List (NormalizedEvent num)
      found = before trigger matcher evidence.events

      spec :
          (is_empty found ≡ false)
          ↔ Any
              (λ event. (event.sequence < trigger.sequence) × Selects matcher event)
              evidence.events
      spec =
          keep_some_iff
            (λ event. ltb event.sequence trigger.sequence && event_matches event matcher)
            (earlier_iff trigger matcher) evidence.events

      go :
          (o : Option (NormalizedEvent num))
          → latest found ≡ o
          → Decides trigger evidence (exists_before matcher) (before_outcome matcher trigger o)
      go none e = (tt, λ h. false-ne_true (latest-none found ∙ ap is_none e) (spec.1 h))
      go (some event) e = spec.0 (latest-none found ∙ ap is_none e)

  absent-Decides :
      (trigger : NormalizedEvent num) (evidence : EvidenceBundle num) (matcher : EventMatcher num)
      → Decides trigger evidence
          (absent matcher)
          (evaluate_assertion (absent matcher) trigger evidence)
  unfolding evaluate_assertion
  absent-Decides trigger evidence matcher =
      let empty = is_empty-map event_id (matching matcher evidence.events) in
      let spec =
        keep_empty_iff (λ event. event_matches event matcher)
          (λ event. event_matches_iff event matcher) evidence.events in
      elim (Bool-cases (is_empty (ids (matching matcher evidence.events)))) [
        | inl none' ↦ rw none' (spec.0 (rw empty at none'))
        | inr some' ↦ rw some' (tt, λ h. false-ne_true (spec.1 h) (rw empty at some'))
      ]

  max_count-Decides :
      (trigger : NormalizedEvent num) (evidence : EvidenceBundle num) (matcher : EventMatcher num)
      (count : ℕ)
      → Decides trigger evidence
          (max_count matcher count)
          (evaluate_assertion (max_count matcher count) trigger evidence)
  unfolding evaluate_assertion
  max_count-Decides trigger evidence matcher count =
      let found =
        length-keep-Counts (λ event. event_matches event matcher)
          (λ event. event_matches_iff event matcher) evidence.events in
      let size = length-map event_id (matching matcher evidence.events) in
      elim (Bool-cases (leb (length (ids (matching matcher evidence.events))) count)) [
        | inl fits ↦ rw fits (_, found, omega (arith, leb→le _ _ fits, size))
        | inr over ↦ rw over (
          tt,
          λ h. false-ne_true (le→leb _ _ (omega (arith, h.2, size, Counts-unique found h.1))) over,
        )
      ]

  terminal-Decides :
      (trigger : NormalizedEvent num) (evidence : EvidenceBundle num) (state : String)
      (o : Option OffsetDateTime)
      → trigger.ended_at ≡ o
      → Decides trigger evidence (terminal_state state) (terminal_outcome state trigger evidence o)
  unfolding terminal_outcome
  terminal-Decides trigger evidence state none e = λ h. h e
  terminal-Decides trigger evidence state (some t) e =
      let ended : trigger.ended_at ≢ none = λ d. cc in
      let spec = state_matches_iff state evidence in
      elim (Bool-cases (state_matches state evidence)) [
        | inl yes' ↦ rw yes' (ended, spec.0 yes')
        | inr no' ↦ rw no' (ended, λ h. false-ne_true (spec.1 h.1) no')
      ]

  -- An assertion passes exactly when what it demands holds, fails exactly when the evidence can tell
  -- and it does not hold, and is not observable exactly when the evidence cannot tell: for a terminal
  -- state, when the trigger has not ended.
  pub evaluate_assertion-Decides :
      (assertion : RuleAssertion num) (trigger : NormalizedEvent num)
      (evidence : EvidenceBundle num)
      → Decides trigger evidence assertion (evaluate_assertion assertion trigger evidence)
  unfolding evaluate_assertion
  evaluate_assertion-Decides (exists_before matcher) trigger evidence =
      before-Decides trigger evidence matcher _ refl
  evaluate_assertion-Decides (absent matcher) trigger evidence =
      absent-Decides trigger evidence matcher
  evaluate_assertion-Decides (max_count matcher count) trigger evidence =
      max_count-Decides trigger evidence matcher count
  evaluate_assertion-Decides (terminal_state state) trigger evidence =
      terminal-Decides trigger evidence state trigger.ended_at refl
