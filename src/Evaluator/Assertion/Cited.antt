-- ===== src/Evaluator/Assertion/Cited.antt =====
-- The events that the outcome of an assertion cites.
use featherlane_ai.Prelude.{
  ◌≤◌, ◌<◌, ◌≡◌, refl, subst, inl, inr, Bool, Option, none, some, List, [], ◌∷◌, String, All,
  All-keep, All-of_map, All-keep_iff, is_empty, Bool-cases, if◌then◌else◌, arith, ltb, leb, leb→le,
  ◌&&◌, length, some_inj, All-of_In,
}
use featherlane_ai.Json.{Numbers}
use featherlane_ai.Domain.Ids.{EventId, OffsetDateTime}
use featherlane_ai.Domain.Events.{
  EventMatcher, RuleAssertion, exists_before, absent, max_count, terminal_state, NormalizedEvent,
  EvidenceBundle,
}
use featherlane_ai.Evaluator.Matching.{event_matches, matching}
use featherlane_ai.Evaluator.Matching.Laws.{Selects}
use featherlane_ai.Evaluator.Assertion.{
  AssertionOutcome, passed, failed, not_observable, ids, state_matches, latest, latest_from, before,
  before_outcome, terminal_outcome, evaluate_assertion,
}
use featherlane_ai.Evaluator.Assertion.Laws.{earlier_iff}

abbrev pub Found : (EventId → Type 0) → AssertionOutcome → Type 0
Found P (passed found) = All P found
Found P (failed message found) = All P found
Found P (not_observable message) = Unit

module _ {num : Numbers} where
  latest_from-All :
      (P : NormalizedEvent num → Type 0) (best : NormalizedEvent num)
      (es : List (NormalizedEvent num))
      → P best
      → All P es
      → P (latest_from best es)
  unfolding latest_from
  latest_from-All P best [] p h = p
  latest_from-All P best (e ∷ es) p h = elim (Bool-cases (leb best.sequence e.sequence)) [
    | inl up ↦ rw up (latest_from-All P e es h.0 h.1)
    | inr stay ↦ rw stay (latest_from-All P best es p h.1)
  ]

  latest-All :
      (P : NormalizedEvent num → Type 0) (xs : List (NormalizedEvent num)) (e : NormalizedEvent num)
      → All P xs
      → latest xs ≡ some e
      → P e
  unfolding latest
  latest-All P [] e h d = cc
  latest-All P (x ∷ xs) e h d = subst P (some_inj d) (latest_from-All P x xs h.0 h.1)

  abbrev later : NormalizedEvent num → NormalizedEvent num → NormalizedEvent num
  later best e = if leb best.sequence e.sequence then e else best

  later-ge :
      (best e : NormalizedEvent num)
      → (best.sequence ≤ (later best e).sequence) × (e.sequence ≤ (later best e).sequence)
  later-ge best e = elim (Bool-cases (leb best.sequence e.sequence)) [
    | inl up ↦ rw up (leb→le _ _ up, omega arith)
    | inr stay ↦ rw stay (omega arith, ground arith)
  ]

  latest_from-ge :
      (best : NormalizedEvent num) (es : List (NormalizedEvent num))
      → (best.sequence ≤ (latest_from best es).sequence)
        × All (λ e. e.sequence ≤ (latest_from best es).sequence) es
  unfolding latest_from
  latest_from-ge best [] = (omega arith, tt)
  latest_from-ge best (e ∷ es) =
      let (old, new) = later-ge best e in
      let (a, b) = latest_from-ge (later best e) es in
      (omega (arith, old, a), (omega (arith, new, a), b))

  latest-ge :
      (xs : List (NormalizedEvent num)) (e : NormalizedEvent num)
      → latest xs ≡ some e
      → All (λ x. x.sequence ≤ e.sequence) xs
  unfolding latest
  latest-ge [] e d = tt
  latest-ge (x ∷ xs) e d =
      subst (λ (y : NormalizedEvent num). All (λ x. x.sequence ≤ y.sequence) (x ∷ xs)) (some_inj d)
        (latest_from-ge x xs)

  module _ (P : EventId → Type 0) (trigger : NormalizedEvent num) (evidence : EvidenceBundle num)
      (sourced : All (λ event. P event.id) evidence.events) (own : P trigger.id) where
    before-Found :
        (matcher : EventMatcher num) (o : Option (NormalizedEvent num))
        → latest (before trigger matcher evidence.events) ≡ o
        → Found P (before_outcome matcher trigger o)
    unfolding before_outcome
    before-Found matcher none e = tt
    before-Found matcher (some event) e = (
      latest-All (λ event. P event.id) (before trigger matcher evidence.events) event
          (All-keep (λ event. P event.id) _ evidence.events sourced) e,
      tt,
    )

    terminal-Found :
        (state : String) (o : Option OffsetDateTime)
        → Found P (terminal_outcome state trigger evidence o)
    unfolding terminal_outcome
    terminal-Found state none = tt
    terminal-Found state (some t) = elim (Bool-cases (state_matches state evidence)) [
      | inl reached ↦ rw reached (own, tt)
      | inr missed ↦ rw missed tt
    ]

    matching-Found : (matcher : EventMatcher num) → All P (ids (matching matcher evidence.events))
    matching-Found matcher =
        All-of_map P (λ event. event.id) (matching matcher evidence.events)
          (All-keep (λ event. P event.id) (λ event. event_matches event matcher) evidence.events
            sourced)

    -- An outcome cites the trigger and events of the evidence alone.
    pub evaluate_assertion-Found :
        (assertion : RuleAssertion num) → Found P (evaluate_assertion assertion trigger evidence)
    unfolding evaluate_assertion
    evaluate_assertion-Found (exists_before matcher) = before-Found matcher _ refl
    evaluate_assertion-Found (absent matcher) =
        elim (Bool-cases (is_empty (ids (matching matcher evidence.events)))) [
          | inl free ↦ rw free tt
          | inr some' ↦ rw some' (matching-Found matcher)
        ]
    evaluate_assertion-Found (max_count matcher count) =
        elim (Bool-cases (leb (length (ids (matching matcher evidence.events))) count)) [
          | inl fits ↦ rw fits (matching-Found matcher)
          | inr over ↦ rw over (matching-Found matcher)
        ]
    evaluate_assertion-Found (terminal_state state) = terminal-Found state trigger.ended_at

  -- What `exists_before` cites: an event that the matcher selects, before the trigger, and no later
  -- than any other such event.
  abbrev pub IsLatestBefore :
      NormalizedEvent num
      → EventMatcher num
      → List (NormalizedEvent num)
      → NormalizedEvent num
      → Type 0
  IsLatestBefore trigger matcher events event =
      (event.sequence < trigger.sequence)
      × Selects matcher event
      × All
          (λ other.
            (other.sequence < trigger.sequence) × Selects matcher other
            → other.sequence ≤ event.sequence)
          events

  before-latest :
      (matcher : EventMatcher num) (trigger : NormalizedEvent num) (evidence : EvidenceBundle num)
      (o : Option (NormalizedEvent num)) (found : List EventId)
      → latest (before trigger matcher evidence.events) ≡ o
      → before_outcome matcher trigger o ≡ passed found
      → (event : NormalizedEvent num) × (found ≡ event.id ∷ [])
        × IsLatestBefore trigger matcher evidence.events event
  unfolding before_outcome
  before-latest matcher trigger evidence none found e d = cc
  before-latest matcher trigger evidence (some event) found e d =
      let (low, fits) =
        latest-All IsEarlier (before trigger matcher evidence.events) event
          ((All-keep_iff test IsEarlier (earlier_iff trigger matcher) evidence.events).1
            (All-of_In (λ x. IsEarlier x → IsEarlier x) evidence.events (λ a m p. p)))
          e in
      let others =
        (All-keep_iff test (λ other. other.sequence ≤ event.sequence) (earlier_iff trigger matcher)
            evidence.events).0
          (latest-ge (before trigger matcher evidence.events) event e) in
      (event, (cc), (low, fits, others))
    where
      test : NormalizedEvent num → Bool
      test x = ltb x.sequence trigger.sequence && event_matches x matcher

      IsEarlier : NormalizedEvent num → Type 0
      IsEarlier x = (x.sequence < trigger.sequence) × Selects matcher x

  -- Where `exists_before` passes, it cites exactly one event: one that the matcher selects, before the
  -- trigger in the sequence, and no other such event is later.
  pub exists_before_latest :
      (matcher : EventMatcher num) (trigger : NormalizedEvent num) (evidence : EvidenceBundle num)
      (found : List EventId)
      → evaluate_assertion (exists_before matcher) trigger evidence ≡ passed found
      → (event : NormalizedEvent num) × (found ≡ event.id ∷ [])
        × IsLatestBefore trigger matcher evidence.events event
  unfolding evaluate_assertion
  exists_before_latest matcher trigger evidence found d =
      before-latest matcher trigger evidence _ found refl d
