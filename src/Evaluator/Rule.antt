-- ===== src/Evaluator/Rule.antt =====
-- crates/governance-evaluator/src/lib.rs: `evaluate_rule`.
pub mod Passing
pub mod Failing
pub mod Undecided
pub mod Missing
pub mod Citations
pub mod Header
use featherlane_ai.Prelude.{
  not, Option, List, [], ◌∷◌, ◌++◌, String, same, if◌then◌else◌, is_empty, all, keep, sort, dedup,
}
use featherlane_ai.Text.{join}
use featherlane_ai.Json.{Numbers, Value}
use featherlane_ai.Domain.Ids.{EventId, RuleResultId}
use featherlane_ai.Domain.Events.{
  MissingEvidencePolicy, RuleAssertion, CompiledRule, NormalizedEvent, EvidenceBundle,
  TraceQualityStatus-discrete, insufficient, RuleStatus, pass, fail, RuleResult,
}
use featherlane_ai.Evaluator.Matching.{matching}
use featherlane_ai.Evaluator.Assertion.{
  AssertionOutcome, passed, failed, not_observable, evaluate_assertion, ◌+++◌,
}
use featherlane_ai.Evaluator.Requirement.{has_required_evidence}

-- `RuleStatus::Fail` and the others, by policy.
abbrev pub missing_status : MissingEvidencePolicy → RuleStatus
missing_status MissingEvidencePolicy.not_observable = RuleStatus.not_observable
missing_status MissingEvidencePolicy.fail = RuleStatus.fail
missing_status MissingEvidencePolicy.error = RuleStatus.error

module _ {num : Numbers} where
  unfoldable pub result :
      CompiledRule num → RuleResultId → RuleStatus → String → List EventId → RuleResult
  result rule id status message evidence_event_ids = record {
    id = id;
    rule_id = rule.id;
    severity = rule.severity;
    status = status;
    message = message;
    evidence_event_ids = evidence_event_ids;
  }

  unfoldable pub missing_evidence_result : CompiledRule num → RuleResultId → String → RuleResult
  unfolding result
  missing_evidence_result rule id message =
      result rule id (missing_status rule.on_missing_evidence) message []

-- What a part of the loops leaves: the ids cited so far, or the result returned early.
pub data Progress : Type 0 where
  continues : List EventId → Progress
  returns : RuleResult → Progress

infixl 5 ◌>>=◌
abbrev pub ◌>>=◌ : Progress → (List EventId → Progress) → Progress
continues cited >>= k = k cited
returns r >>= k = returns r

module _ {num : Numbers} (from_str : String → Option (Value num)) where
  module _ (rule : CompiledRule num) (id : RuleResultId) (evidence : EvidenceBundle num) where
    -- The `match` on the outcome of one assertion.
    unfoldable pub cite : List EventId → AssertionOutcome → Progress
    cite cited (passed found) = continues (cited ++ found)
    cite cited (failed message found) =
        returns (result rule id fail message (dedup (sort (cited ++ found))))
    cite cited (not_observable message) = returns (missing_evidence_result rule id message)

    -- The inner loop.
    unfoldable pub check_assertions :
        NormalizedEvent num → List (RuleAssertion num) → List EventId → Progress
    unfolding cite
    check_assertions trigger [] cited = continues cited
    check_assertions trigger (assertion ∷ assertions) cited = do
      more ← cite cited (evaluate_assertion assertion trigger evidence)
      check_assertions trigger assertions more

    -- The outer loop.
    unfoldable pub check_triggers : List (NormalizedEvent num) → List EventId → Progress
    unfolding check_assertions
    check_triggers [] cited = continues cited
    check_triggers (trigger ∷ triggers) cited = do
      more ← check_assertions trigger rule.assertions (cited ++ trigger.id ∷ [])
      check_triggers triggers more

    unfoldable pub finish : Progress → RuleResult
    finish (continues cited) =
        result rule id pass "all deterministic assertions passed" (dedup (sort cited))
    finish (returns r) = r

    abbrev missing : List String
    missing =
        keep (λ requirement. not (has_required_evidence from_str requirement evidence))
          rule.evidence_required

    unfoldable pub evaluate_rule : RuleResult
    unfolding check_triggers finish
    evaluate_rule =
        if same TraceQualityStatus-discrete evidence.trace_quality insufficient
        then missing_evidence_result rule id "trace quality is insufficient for this rule"
        else if not (is_empty missing)
        then missing_evidence_result rule id
            ("required evidence was not observed: " +++ join ", " missing)
        else if is_empty (matching rule.trigger evidence.events)
        then result rule id pass "rule was not triggered by this invocation" []
        else finish (check_triggers (matching rule.trigger evidence.events) [])
