-- ===== src/Evaluator/Rule/Failing.antt =====
-- When a rule fails.
use featherlane_ai.Prelude.{
  ◌≡◌, refl, ◌⊎◌, inl, inr, Option, List, [], ◌∷◌, ◌++◌, String, same, Any, Any-keep, is_empty,
  Bool-cases,
}
use featherlane_ai.Json.{Numbers, Value}
use featherlane_ai.Domain.Ids.{EventId, RuleResultId}
use featherlane_ai.Domain.Events.{
  MissingEvidencePolicy, RuleAssertion, CompiledRule, NormalizedEvent, EvidenceBundle,
  TraceQualityStatus-discrete, insufficient, fail,
}
use featherlane_ai.Evaluator.Matching.{event_matches, matching}
use featherlane_ai.Evaluator.Matching.Laws.{Selects, event_matches_iff}
use featherlane_ai.Evaluator.Assertion.{
  AssertionOutcome, passed, failed, not_observable, evaluate_assertion,
}
use featherlane_ai.Evaluator.Assertion.Laws.{Holds, Observable, Decides, evaluate_assertion-Decides}
use featherlane_ai.Evaluator.Rule.{
  missing_status, result, missing_evidence_result, Progress, continues, returns, ◌>>=◌, cite,
  finish, check_assertions, check_triggers, missing, evaluate_rule,
}

missing_status-fail :
    (p : MissingEvidencePolicy) → missing_status p ≡ fail → p ≡ MissingEvidencePolicy.fail
missing_status-fail MissingEvidencePolicy.fail e = refl
missing_status-fail _ e = cc

module _ {num : Numbers} (from_str : String → Option (Value num)) where
  module _ (rule : CompiledRule num) (id : RuleResultId) (evidence : EvidenceBundle num) where
    -- The assertion is refuted by evidence that can tell.
    abbrev pub Violates : NormalizedEvent num → RuleAssertion num → Type 0
    Violates trigger assertion =
        Observable trigger evidence assertion × ¬ Holds trigger evidence assertion

    abbrev Excuse : Type 0
    Excuse = rule.on_missing_evidence ≡ MissingEvidencePolicy.fail

    -- A part of the loops that returned a failure had a reason in `P`, or the rule's policy.
    abbrev Justified : Type 0 → Progress → Type 0
    Justified P (continues cited) = Unit
    Justified P (returns r) = r.status ≡ fail → Excuse ⊎ P

    bind-Justified :
        (P Q : Type 0) (m : Progress) (k : List EventId → Progress)
        → Justified P m
        → ((cited : List EventId) → Justified Q (k cited))
        → Justified (P ⊎ Q) (m >>= k)
    bind-Justified P Q (returns r) k h f = λ e. elim (h e) [ inl x ↦ inl x | inr p ↦ inr (inl p) ]
    bind-Justified P Q (continues cited) k h f = go (k cited) (f cited)
      where
        go : (o : Progress) → Justified Q o → Justified (P ⊎ Q) o
        go (continues more) q = tt
        go (returns r) q = λ e. elim (q e) [ inl x ↦ inl x | inr p ↦ inr (inr p) ]

    cite-Justified :
        (trigger : NormalizedEvent num) (assertion : RuleAssertion num) (cited : List EventId)
        (o : AssertionOutcome)
        → Decides trigger evidence assertion o
        → Justified (Violates trigger assertion) (cite from_str rule id evidence cited o)
    unfolding cite result missing_evidence_result
    cite-Justified trigger assertion cited (passed found) d = tt
    cite-Justified trigger assertion cited (failed message found) d = λ e. inr d
    cite-Justified trigger assertion cited (not_observable message) d =
        λ e. inl (missing_status-fail rule.on_missing_evidence e)

    check_assertions-Justified :
        (trigger : NormalizedEvent num) (assertions : List (RuleAssertion num))
        (cited : List EventId)
        → Justified
            (Any (Violates trigger) assertions)
            (check_assertions from_str rule id evidence trigger assertions cited)
    unfolding check_assertions
    check_assertions-Justified trigger [] cited = tt
    check_assertions-Justified trigger (assertion ∷ assertions) cited =
        bind-Justified _ _
          (cite from_str rule id evidence cited (evaluate_assertion assertion trigger evidence))
          (check_assertions from_str rule id evidence trigger assertions)
          (cite-Justified trigger assertion cited _
            (evaluate_assertion-Decides assertion trigger evidence))
          (check_assertions-Justified trigger assertions)

    check_triggers-Justified :
        (triggers : List (NormalizedEvent num)) (cited : List EventId)
        → Justified
            (Any (λ trigger. Any (Violates trigger) rule.assertions) triggers)
            (check_triggers from_str rule id evidence triggers cited)
    unfolding check_triggers
    check_triggers-Justified [] cited = tt
    check_triggers-Justified (trigger ∷ triggers) cited =
        bind-Justified _ _
          (check_assertions from_str rule id evidence trigger rule.assertions
            (cited ++ trigger.id ∷ []))
          (check_triggers from_str rule id evidence triggers)
          (check_assertions-Justified trigger rule.assertions _) (check_triggers-Justified triggers)

    finish-Justified :
        (P : Type 0) (o : Progress)
        → Justified P o
        → (finish from_str rule id evidence o).status ≡ fail
        → Excuse ⊎ P
    unfolding finish result
    finish-Justified P (continues cited) h e = cc
    finish-Justified P (returns r) h e = h e

    missing-Excuse : (text : String) → (missing_evidence_result rule id text).status ≡ fail → Excuse
    unfolding missing_evidence_result result
    missing-Excuse text e = missing_status-fail rule.on_missing_evidence e

    -- A rule fails only for a reason: its policy counts missing evidence as a failure, or some event
    -- that its trigger selects violates one of its assertions, on evidence that can tell.
    pub evaluate_rule-fail :
        (evaluate_rule from_str rule id evidence).status ≡ fail
        → (rule.on_missing_evidence ≡ MissingEvidencePolicy.fail)
          ⊎ Any
              (λ event. Selects rule.trigger event × Any (Violates event) rule.assertions)
              evidence.events
    unfolding evaluate_rule result
    evaluate_rule-fail =
        elim (Bool-cases (same TraceQualityStatus-discrete evidence.trace_quality insufficient)) [
          | inl low ↦ rw low (λ e. inl (missing-Excuse _ e))
          | inr fine ↦ elim (Bool-cases (is_empty (missing from_str rule id evidence))) [
            | inr gap ↦ rw (fine, gap) (λ e. inl (missing-Excuse _ e))
            | inl whole ↦ elim (Bool-cases (is_empty (matching rule.trigger evidence.events))) [
              | inl quiet ↦ rw (fine, whole, quiet) (λ e. cc)
              | inr active ↦
                  rw (fine, whole, active)
                    (λ e. from_triggers (
                      finish-Justified _ _
                        (check_triggers-Justified (matching rule.trigger evidence.events) []) e))
            ]
          ]
        ]
      where
        from_triggers :
            Excuse
              ⊎ Any
                  (λ trigger. Any (Violates trigger) rule.assertions)
                  (matching rule.trigger evidence.events)
            → Excuse
              ⊎ Any
                  (λ event. Selects rule.trigger event × Any (Violates event) rule.assertions)
                  evidence.events
        from_triggers (inl x) = inl x
        from_triggers (inr a) = inr (
            Any-keep (λ event. event_matches event rule.trigger)
              (λ trigger. Any (Violates trigger) rule.assertions)
              (λ event. event_matches_iff event rule.trigger) evidence.events a)
