-- ===== src/Evaluator/Rule/Header.antt =====
-- A result carries the rule that it is about.
use featherlane_ai.Prelude.{
  ◌≡◌, refl, inl, inr, Option, List, [], ◌∷◌, ◌++◌, String, same, is_empty, Bool-cases,
}
use featherlane_ai.Json.{Numbers, Value}
use featherlane_ai.Domain.Ids.{EventId, RuleResultId}
use featherlane_ai.Domain.Events.{
  RuleAssertion, CompiledRule, NormalizedEvent, EvidenceBundle, TraceQualityStatus-discrete,
  insufficient, RuleResult,
}
use featherlane_ai.Evaluator.Matching.{matching}
use featherlane_ai.Evaluator.Assertion.{
  AssertionOutcome, passed, failed, not_observable, evaluate_assertion,
}
use featherlane_ai.Evaluator.Rule.{
  result, missing_evidence_result, Progress, continues, returns, ◌>>=◌, cite, finish,
  check_assertions, check_triggers, missing, evaluate_rule,
}

module _ {num : Numbers} (from_str : String → Option (Value num)) where
  module _ (rule : CompiledRule num) (id : RuleResultId) (evidence : EvidenceBundle num) where
    abbrev pub IsAbout : RuleResult → Type 0
    IsAbout r = (r.id ≡ id) × (r.rule_id ≡ rule.id) × (r.severity ≡ rule.severity)

    abbrev Reports : Progress → Type 0
    Reports (continues cited) = Unit
    Reports (returns r) = IsAbout r

    bind-Reports :
        (m : Progress) (k : List EventId → Progress)
        → Reports m
        → ((cited : List EventId) → Reports (k cited))
        → Reports (m >>= k)
    bind-Reports (continues cited) k h f = f cited
    bind-Reports (returns r) k h f = h

    cite-Reports :
        (cited : List EventId) (o : AssertionOutcome)
        → Reports (cite from_str rule id evidence cited o)
    unfolding cite result missing_evidence_result
    cite-Reports cited (passed found) = tt
    cite-Reports cited (failed message found) = (refl, refl, refl)
    cite-Reports cited (not_observable message) = (refl, refl, refl)

    check_assertions-Reports :
        (trigger : NormalizedEvent num) (assertions : List (RuleAssertion num))
        (cited : List EventId)
        → Reports (check_assertions from_str rule id evidence trigger assertions cited)
    unfolding check_assertions
    check_assertions-Reports trigger [] cited = tt
    check_assertions-Reports trigger (assertion ∷ assertions) cited =
        bind-Reports
          (cite from_str rule id evidence cited (evaluate_assertion assertion trigger evidence))
          (check_assertions from_str rule id evidence trigger assertions)
          (cite-Reports cited (evaluate_assertion assertion trigger evidence))
          (check_assertions-Reports trigger assertions)

    check_triggers-Reports :
        (triggers : List (NormalizedEvent num)) (cited : List EventId)
        → Reports (check_triggers from_str rule id evidence triggers cited)
    unfolding check_triggers
    check_triggers-Reports [] cited = tt
    check_triggers-Reports (trigger ∷ triggers) cited =
        bind-Reports
          (check_assertions from_str rule id evidence trigger rule.assertions
            (cited ++ trigger.id ∷ []))
          (check_triggers from_str rule id evidence triggers)
          (check_assertions-Reports trigger rule.assertions _) (check_triggers-Reports triggers)

    finish-IsAbout : (o : Progress) → Reports o → IsAbout (finish from_str rule id evidence o)
    unfolding finish result
    finish-IsAbout (continues cited) h = (refl, refl, refl)
    finish-IsAbout (returns r) h = h

    pub evaluate_rule-IsAbout : IsAbout (evaluate_rule from_str rule id evidence)
    unfolding evaluate_rule result missing_evidence_result
    evaluate_rule-IsAbout =
        elim (Bool-cases (same TraceQualityStatus-discrete evidence.trace_quality insufficient)) [
          | inl low ↦ rw low (refl, refl, refl)
          | inr fine ↦ elim (Bool-cases (is_empty (missing from_str rule id evidence))) [
            | inr gap ↦ rw (fine, gap) (refl, refl, refl)
            | inl whole ↦ elim (Bool-cases (is_empty (matching rule.trigger evidence.events))) [
              | inl quiet ↦ rw (fine, whole, quiet) (refl, refl, refl)
              | inr active ↦
                  rw (fine, whole, active)
                    (finish-IsAbout _
                      (check_triggers-Reports (matching rule.trigger evidence.events) []))
            ]
          ]
        ]
