-- ===== src/Evaluator/Rule/Missing.antt =====
-- What becomes of missing evidence.
use featherlane_ai.Prelude.{
  ◌≡◌, refl, ◌↔◌, ◌≢◌, inl, inr, true, Option, List, [], String, same, same-eq, same-ne, All,
  keep-not-is_empty_iff, is_empty, Bool-cases, false-ne_true,
}
use featherlane_ai.Json.{Numbers, Value}
use featherlane_ai.Domain.Ids.{EventId, RuleResultId}
use featherlane_ai.Domain.Events.{
  CompiledRule, EvidenceBundle, TraceQualityStatus-discrete, insufficient, RuleResult, pass, fail,
}
use featherlane_ai.Evaluator.Matching.{event_matches, matching}
use featherlane_ai.Evaluator.Matching.Laws.{Selects, event_matches_iff}
use featherlane_ai.Evaluator.Requirement.{has_required_evidence}
use featherlane_ai.Evaluator.Rule.{
  result, missing_evidence_result, Progress, continues, returns, finish, check_triggers, missing,
  evaluate_rule,
}
use featherlane_ai.Evaluator.Rule.Undecided.{
  Names, missing_status-Names, Leads, Leads-is_empty, Leads-keep_iff, IsOpenAt, Upholds,
  IsUndecided, Splits, check_triggers-Splits,
}

module _ {num : Numbers} (from_str : String → Option (Value num)) where
  module _ (rule : CompiledRule num) (id : RuleResultId) (evidence : EvidenceBundle num) where
    -- What a result says of missing evidence `Q`.
    abbrev Told : Type 0 → RuleResult → Type 0
    Told Q r =
        (Q → Names rule.on_missing_evidence r.status × (r.evidence_event_ids ≡ []))
        × (r.status ≢ pass → r.status ≢ fail → Q)

    Told-map : (P Q : Type 0) (r : RuleResult) → (P → Q) → (Q → P) → Told P r → Told Q r
    Told-map P Q r f g h = ((λ q. h.0 (g q)), λ a b. f (h.1 a b))

    missing-Told : (Q : Type 0) (text : String) → Q → Told Q (missing_evidence_result rule id text)
    unfolding missing_evidence_result result
    missing-Told Q text q = ((λ _. (missing_status-Names rule.on_missing_evidence, refl)), λ a b. q)

    pass-Told :
        (Q : Type 0) (text : String) (cited : List EventId)
        → ¬ Q
        → Told Q (result rule id pass text cited)
    unfolding result
    pass-Told Q text cited n = ((λ q. absurd (n q)), λ a b. absurd (a refl))

    finish-Told :
        (P Q : Type 0) (o : Progress)
        → Splits from_str rule id evidence P Q o
        → Told Q (finish from_str rule id evidence o)
    unfolding finish
    finish-Told P Q (continues cited) h = pass-Told Q _ _ h.1
    finish-Told P Q (returns r) (inl x) = ((λ _. (x.1, x.2)), λ a b. x.0)
    finish-Told P Q (returns r) (inr x) = ((λ q. absurd (x.2 q)), λ a b. absurd (b x.0))

    -- The loops come to an open assertion.
    abbrev Open : Type 0
    Open =
        Leads (λ event. Selects rule.trigger event → Upholds rule evidence event)
          (λ event. Selects rule.trigger event × IsOpenAt rule evidence event) evidence.events

    open_iff :
        Leads
          (Upholds rule evidence)
          (IsOpenAt rule evidence)
          (matching rule.trigger evidence.events)
        ↔ Open
    open_iff =
        Leads-keep_iff (λ event. event_matches event rule.trigger) (Selects rule.trigger)
          (Upholds rule evidence) (IsOpenAt rule evidence)
          (λ event. event_matches_iff event rule.trigger) evidence.events

    triggers-Told : Told Open (
        finish from_str rule id evidence
          (check_triggers from_str rule id evidence (matching rule.trigger evidence.events) []))
    triggers-Told =
        let progress =
          check_triggers from_str rule id evidence (matching rule.trigger evidence.events) [] in
        Told-map
          (Leads (Upholds rule evidence) (IsOpenAt rule evidence)
            (matching rule.trigger evidence.events))
          Open (finish from_str rule id evidence progress) open_iff.0 open_iff.1
          (finish-Told _ _ progress (
            check_triggers-Splits from_str rule id evidence (matching rule.trigger evidence.events)
              []))

    observed_iff :
        (is_empty (missing from_str rule id evidence) ≡ true)
        ↔ All
            (λ requirement. has_required_evidence from_str requirement evidence ≡ true)
            rule.evidence_required
    observed_iff =
        keep-not-is_empty_iff (λ requirement. has_required_evidence from_str requirement evidence)
          rule.evidence_required

    -- On a trace of use with all the required evidence, only the loops can miss some.
    observed-Told :
        (r : RuleResult)
        → evidence.trace_quality ≢ insufficient
        → is_empty (missing from_str rule id evidence) ≡ true
        → Told Open r
        → Told (IsUndecided from_str rule evidence) r
    observed-Told r fine whole =
        Told-map Open (IsUndecided from_str rule evidence) r (λ o. inr (inr o))
          (λ m. elim m [
            | inl low ↦ absurd (fine low)
            | inr (inl gap) ↦ absurd (gap (observed_iff.0 whole))
            | inr (inr o) ↦ o
          ])

    -- Evidence is missing when the trace is insufficient, when a required piece was not observed, or
    -- when the loops come to an assertion that the evidence cannot decide, of an event that the
    -- trigger selects, before one that does not hold. Then the status is the one that the rule's
    -- policy names, and no event is cited. A status other than pass and fail means that evidence is
    -- missing.
    pub evaluate_rule-missing :
        (IsUndecided from_str rule evidence
          → Names rule.on_missing_evidence (evaluate_rule from_str rule id evidence).status
            × ((evaluate_rule from_str rule id evidence).evidence_event_ids ≡ []))
        × ((evaluate_rule from_str rule id evidence).status ≢ pass
            → (evaluate_rule from_str rule id evidence).status ≢ fail
            → IsUndecided from_str rule evidence)
    unfolding evaluate_rule
    evaluate_rule-missing =
        elim (Bool-cases (same TraceQualityStatus-discrete evidence.trace_quality insufficient)) [
          | inl low ↦ rw low (
              missing-Told (IsUndecided from_str rule evidence) _
                (inl (same-eq TraceQualityStatus-discrete _ _ low)))
          | inr fine ↦
              let of_use = same-ne TraceQualityStatus-discrete evidence.trace_quality _ fine in
              elim (Bool-cases (is_empty (missing from_str rule id evidence))) [
                | inr gap ↦
                    rw (fine, gap)
                      (missing-Told (IsUndecided from_str rule evidence) _
                        (inr (inl (λ all. false-ne_true (observed_iff.1 all) gap))))
                | inl whole ↦ elim (Bool-cases (is_empty (matching rule.trigger evidence.events))) [
                  | inl quiet ↦
                      let untriggered =
                        result rule id pass "rule was not triggered by this invocation" [] in
                      rw (fine, whole, quiet)
                        (observed-Told untriggered of_use whole
                          (pass-Told Open _ _ (λ o. Leads-is_empty _ _ _ quiet (open_iff.1 o))))
                  | inr active ↦
                      let progress =
                        check_triggers from_str rule id evidence
                          (matching rule.trigger evidence.events) [] in
                      rw (fine, whole, active)
                        (observed-Told (finish from_str rule id evidence progress) of_use whole
                          triggers-Told)
                ]
              ]
        ]
