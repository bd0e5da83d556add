-- ===== src/Evaluator/Rule/Citations.antt =====
-- The events that a result cites.
use featherlane_ai.Prelude.{
  inl, inr, Option, List, [], ◌∷◌, ◌++◌, map, String, same, All, All-keep, All-append, All-image,
  All-dedup-sort, In, IsStrict, dedup-sort-IsStrict, is_empty, Bool-cases, sort, dedup,
}
use featherlane_ai.Json.{Numbers, Value}
use featherlane_ai.Domain.Ids.{EventId, RuleResultId}
use featherlane_ai.Domain.Events.{
  RuleAssertion, CompiledRule, NormalizedEvent, EvidenceBundle, TraceQualityStatus-discrete,
  insufficient,
}
use featherlane_ai.Evaluator.Matching.{event_matches, matching}
use featherlane_ai.Evaluator.Assertion.{
  AssertionOutcome, passed, failed, not_observable, evaluate_assertion,
}
use featherlane_ai.Evaluator.Assertion.Cited.{Found, evaluate_assertion-Found}
use featherlane_ai.Evaluator.Rule.{
  result, missing_evidence_result, Progress, continues, returns, ◌>>=◌, cite, finish,
  check_assertions, check_triggers, missing, evaluate_rule,
}

module _ {num : Numbers} (from_str : String → Option (Value num)) where
  module _ (rule : CompiledRule num) (id : RuleResultId) (evidence : EvidenceBundle num) where
    -- The id of an event of the evidence.
    abbrev pub IsSourced : EventId → Type 0
    IsSourced i = In i (map (λ event. event.id) evidence.events)

    abbrev pub IsCited : List EventId → Type 0
    IsCited found = IsStrict found × All IsSourced found

    abbrev Cites : Progress → Type 0
    Cites (continues cited) = All IsSourced cited
    Cites (returns r) = IsCited r.evidence_event_ids

    bind-Cites :
        (m : Progress) (k : List EventId → Progress)
        → Cites m
        → ((cited : List EventId) → All IsSourced cited → Cites (k cited))
        → Cites (m >>= k)
    bind-Cites (continues cited) k h f = f cited h
    bind-Cites (returns r) k h f = h

    dedup-IsCited : (cited : List EventId) → All IsSourced cited → IsCited (dedup (sort cited))
    dedup-IsCited cited h = (dedup-sort-IsStrict cited, All-dedup-sort IsSourced cited h)

    cite-Cites :
        (cited : List EventId) (o : AssertionOutcome)
        → All IsSourced cited
        → Found IsSourced o
        → Cites (cite from_str rule id evidence cited o)
    unfolding cite result missing_evidence_result
    cite-Cites cited (passed found) h k = All-append IsSourced cited found h k
    cite-Cites cited (failed message found) h k =
        dedup-IsCited (cited ++ found) (All-append IsSourced cited found h k)
    cite-Cites cited (not_observable message) h k = (tt, tt)

    sourced : All (λ event. IsSourced event.id) evidence.events
    sourced = All-image (λ event. event.id) evidence.events

    outcome-IsSourced :
        (assertion : RuleAssertion num) (trigger : NormalizedEvent num)
        → IsSourced trigger.id
        → Found IsSourced (evaluate_assertion assertion trigger evidence)
    outcome-IsSourced assertion trigger h =
        evaluate_assertion-Found IsSourced trigger evidence sourced h assertion

    check_assertions-Cites :
        (trigger : NormalizedEvent num) (assertions : List (RuleAssertion num))
        (cited : List EventId)
        → IsSourced trigger.id
        → All IsSourced cited
        → Cites (check_assertions from_str rule id evidence trigger assertions cited)
    unfolding check_assertions
    check_assertions-Cites trigger [] cited t h = h
    check_assertions-Cites trigger (assertion ∷ assertions) cited t h =
        bind-Cites
          (cite from_str rule id evidence cited (evaluate_assertion assertion trigger evidence))
          (check_assertions from_str rule id evidence trigger assertions)
          (cite-Cites cited _ h (outcome-IsSourced assertion trigger t))
          (λ more k. check_assertions-Cites trigger assertions more t k)

    check_triggers-Cites :
        (triggers : List (NormalizedEvent num)) (cited : List EventId)
        → All (λ event. IsSourced event.id) triggers
        → All IsSourced cited
        → Cites (check_triggers from_str rule id evidence triggers cited)
    unfolding check_triggers
    check_triggers-Cites [] cited t h = h
    check_triggers-Cites (trigger ∷ triggers) cited t h =
        bind-Cites
          (check_assertions from_str rule id evidence trigger rule.assertions
            (cited ++ trigger.id ∷ []))
          (check_triggers from_str rule id evidence triggers)
          (check_assertions-Cites trigger rule.assertions _ t.0
            (All-append IsSourced cited (trigger.id ∷ []) h (t.0, tt)))
          (λ more k. check_triggers-Cites triggers more t.1 k)

    finish-IsCited :
        (o : Progress) → Cites o → IsCited (finish from_str rule id evidence o).evidence_event_ids
    unfolding finish result
    finish-IsCited (continues cited) h = dedup-IsCited cited h
    finish-IsCited (returns r) h = h

    -- Whatever the verdict, the events that a result cites are events of the evidence, in strictly
    -- rising order of their ids, so none is cited twice.
    pub evaluate_rule-IsCited : IsCited (evaluate_rule from_str rule id evidence).evidence_event_ids
    unfolding evaluate_rule result missing_evidence_result
    evaluate_rule-IsCited =
        elim (Bool-cases (same TraceQualityStatus-discrete evidence.trace_quality insufficient)) [
          | inl low ↦ rw low (tt, tt)
          | inr fine ↦ elim (Bool-cases (is_empty (missing from_str rule id evidence))) [
            | inr gap ↦ rw (fine, gap) (tt, tt)
            | inl whole ↦ elim (Bool-cases (is_empty (matching rule.trigger evidence.events))) [
              | inl quiet ↦ rw (fine, whole, quiet) (tt, tt)
              | inr active ↦
                  rw (fine, whole, active)
                    (finish-IsCited _ (
                      check_triggers-Cites (matching rule.trigger evidence.events) []
                        (All-keep (λ event. IsSourced event.id)
                          (λ event. event_matches event rule.trigger) evidence.events sourced)
                        tt))
            ]
          ]
        ]
