-- ===== src/Evaluator/Rule/Passing.antt =====
-- When a rule passes.
use featherlane_ai.Prelude.{
  ◌≡◌, refl, ◌↔◌, ◌≢◌, inl, inr, true, Option, List, [], ◌∷◌, ◌++◌, String, same, same-eq, same-ne,
  All, All-map, All-keep_iff, keep_empty_iff, keep-not-is_empty_iff, is_empty, Bool-cases,
  false-ne_true, iff_trans,
}
use featherlane_ai.Json.{Numbers, Value}
use featherlane_ai.Domain.Ids.{EventId, RuleResultId}
use featherlane_ai.Domain.Events.{
  MissingEvidencePolicy, RuleAssertion, CompiledRule, NormalizedEvent, EvidenceBundle,
  TraceQualityStatus-discrete, insufficient, pass,
}
use featherlane_ai.Evaluator.Matching.{event_matches, matching}
use featherlane_ai.Evaluator.Matching.Laws.{Selects, event_matches_iff}
use featherlane_ai.Evaluator.Assertion.{
  AssertionOutcome, passed, failed, not_observable, evaluate_assertion,
}
use featherlane_ai.Evaluator.Assertion.Laws.{Holds, Decides, evaluate_assertion-Decides}
use featherlane_ai.Evaluator.Requirement.{has_required_evidence}
use featherlane_ai.Evaluator.Rule.{
  missing_status, result, missing_evidence_result, Progress, continues, returns, ◌>>=◌, cite,
  finish, check_assertions, check_triggers, missing, evaluate_rule,
}
use featherlane_ai.Evaluator.Rule.Undecided.{Upholds, Holds-Observable}

pub missing_status-ne_pass : (p : MissingEvidencePolicy) → missing_status p ≢ pass
missing_status-ne_pass MissingEvidencePolicy.not_observable = λ e. cc
missing_status-ne_pass _ = λ e. cc

module _ {num : Numbers} (from_str : String → Option (Value num)) where
  module _ (rule : CompiledRule num) (evidence : EvidenceBundle num) where
    -- What a rule demands of the evidence.
    pub record Conforms : Type 0 where
      pub sufficient : evidence.trace_quality ≢ insufficient
      pub observed :
          All
            (λ requirement. has_required_evidence from_str requirement evidence ≡ true)
            rule.evidence_required
      pub upheld :
          All (λ event. Selects rule.trigger event → Upholds rule evidence event) evidence.events

  module _ (rule : CompiledRule num) (id : RuleResultId) (evidence : EvidenceBundle num) where
    -- A part of the loops went on exactly because `P` held.
    abbrev Reflects : Type 0 → Progress → Type 0
    Reflects P (continues cited) = P
    Reflects P (returns r) = (r.status ≢ pass) × ¬ P

    bind-Reflects :
        (P Q : Type 0) (m : Progress) (k : List EventId → Progress)
        → Reflects P m
        → ((cited : List EventId) → Reflects Q (k cited))
        → Reflects (P × Q) (m >>= k)
    bind-Reflects P Q (returns r) k (h, n) f = (h, λ pq. n pq.0)
    bind-Reflects P Q (continues cited) k p f = go (k cited) (f cited)
      where
        go : (o : Progress) → Reflects Q o → Reflects (P × Q) o
        go (continues more) q = (p, q)
        go (returns r) (h, n) = (h, λ pq. n pq.1)

    cite-Reflects :
        (trigger : NormalizedEvent num) (assertion : RuleAssertion num) (cited : List EventId)
        (o : AssertionOutcome)
        → Decides trigger evidence assertion o
        → Reflects (Holds trigger evidence assertion) (cite from_str rule id evidence cited o)
    unfolding cite result missing_evidence_result
    cite-Reflects trigger assertion cited (passed found) d = d
    cite-Reflects trigger assertion cited (failed message found) d = ((λ e. cc), d.1)
    cite-Reflects trigger assertion cited (not_observable message) d = (
      missing_status-ne_pass rule.on_missing_evidence,
      λ h. d (Holds-Observable trigger evidence assertion h),
    )

    check_assertions-Reflects :
        (trigger : NormalizedEvent num) (assertions : List (RuleAssertion num))
        (cited : List EventId)
        → Reflects
            (All (Holds trigger evidence) assertions)
            (check_assertions from_str rule id evidence trigger assertions cited)
    unfolding check_assertions
    check_assertions-Reflects trigger [] cited = tt
    check_assertions-Reflects trigger (assertion ∷ assertions) cited =
        bind-Reflects _ _
          (cite from_str rule id evidence cited (evaluate_assertion assertion trigger evidence))
          (check_assertions from_str rule id evidence trigger assertions)
          (cite-Reflects trigger assertion cited _
            (evaluate_assertion-Decides assertion trigger evidence))
          (check_assertions-Reflects trigger assertions)

    check_triggers-Reflects :
        (triggers : List (NormalizedEvent num)) (cited : List EventId)
        → Reflects
            (All (Upholds rule evidence) triggers)
            (check_triggers from_str rule id evidence triggers cited)
    unfolding check_triggers
    check_triggers-Reflects [] cited = tt
    check_triggers-Reflects (trigger ∷ triggers) cited =
        bind-Reflects _ _
          (check_assertions from_str rule id evidence trigger rule.assertions
            (cited ++ trigger.id ∷ []))
          (check_triggers from_str rule id evidence triggers)
          (check_assertions-Reflects trigger rule.assertions _) (check_triggers-Reflects triggers)

    finish-Reflects :
        {P : Type 0} (o : Progress)
        → Reflects P o
        → ((finish from_str rule id evidence o).status ≡ pass) ↔ P
    unfolding finish result
    finish-Reflects (continues cited) p = ((λ _. p), λ _. refl)
    finish-Reflects (returns r) (h, n) = ((λ e. absurd (h e)), λ p. absurd (n p))

    triggers-upheld :
        All (Upholds rule evidence) (matching rule.trigger evidence.events)
        ↔ All (λ event. Selects rule.trigger event → Upholds rule evidence event) evidence.events
    triggers-upheld =
        All-keep_iff (λ event. event_matches event rule.trigger) (Upholds rule evidence)
          (λ event. event_matches_iff event rule.trigger) evidence.events

    untriggered :
        is_empty (matching rule.trigger evidence.events) ≡ true
        → All (λ event. Selects rule.trigger event → Upholds rule evidence event) evidence.events
    untriggered e =
        All-map (λ event h s. absurd (h s)) evidence.events
          ((keep_empty_iff (λ event. event_matches event rule.trigger)
              (λ event. event_matches_iff event rule.trigger) evidence.events).0
            e)

    observed_iff :
        (is_empty (missing from_str rule id evidence) ≡ true)
        ↔ All
            (λ requirement. has_required_evidence from_str requirement evidence ≡ true)
            rule.evidence_required
    observed_iff =
        keep-not-is_empty_iff (λ requirement. has_required_evidence from_str requirement evidence)
          rule.evidence_required

    missing-fails : (text : String) → ¬ ((missing_evidence_result rule id text).status ≡ pass)
    unfolding missing_evidence_result result
    missing-fails text = missing_status-ne_pass rule.on_missing_evidence

    checked_iff :
        ((finish from_str rule id evidence (
            check_triggers from_str rule id evidence
              (matching rule.trigger evidence.events)
              [])).status
          ≡ pass)
        ↔ All (λ event. Selects rule.trigger event → Upholds rule evidence event) evidence.events
    checked_iff =
        iff_trans
          (finish-Reflects
            (check_triggers from_str rule id evidence (matching rule.trigger evidence.events) [])
            (check_triggers-Reflects (matching rule.trigger evidence.events) []))
          triggers-upheld

    -- A rule passes exactly when the evidence conforms to it: the trace is not insufficient, all
    -- required evidence was observed, and every event that the trigger selects upholds all assertions.
    pub evaluate_rule-pass_iff :
        ((evaluate_rule from_str rule id evidence).status ≡ pass) ↔ Conforms rule evidence
    unfolding evaluate_rule result
    evaluate_rule-pass_iff =
        elim (Bool-cases (same TraceQualityStatus-discrete evidence.trace_quality insufficient)) [
          | inl low ↦ rw low (
            λ e. absurd (missing-fails _ e),
            λ c. absurd (c.sufficient (same-eq TraceQualityStatus-discrete _ _ low)),
          )
          | inr fine ↦
              let enough =
                same-ne TraceQualityStatus-discrete evidence.trace_quality insufficient fine in
              elim (Bool-cases (is_empty (missing from_str rule id evidence))) [
                | inr gap ↦
                    rw (fine, gap)
                      (
                        λ e. absurd (missing-fails _ e),
                        λ c. false-ne_true (observed_iff.1 c.observed) gap,
                      )
                | inl whole ↦
                    let seen = observed_iff.0 whole in
                    elim (Bool-cases (is_empty (matching rule.trigger evidence.events))) [
                      | inl quiet ↦
                          rw (fine, whole, quiet)
                            (
                              λ _. record {
                                sufficient = enough;
                                observed = seen;
                                upheld = untriggered quiet;
                              },
                              λ _. refl,
                            )
                      | inr active ↦
                          rw (fine, whole, active)
                            (
                              λ e. record {
                                sufficient = enough;
                                observed = seen;
                                upheld = checked_iff.0 e;
                              },
                              λ c. checked_iff.1 c.upheld,
                            )
                    ]
              ]
        ]
