-- ===== src/Evaluator/Tests.antt =====
-- Runs of the evaluator: a refund that needs an approval before it.
use featherlane_ai.Prelude.{
  ◌≢◌, ℕ, ◌≡◌, refl, ◌↔◌, ◌⊎◌, true, Option, none, some, List, [], ◌∷◌, String, All, Any, ◌==◌,
  ==_iff, leb, ◌+◌,
}
use featherlane_ai.Json.{Numbers, Value, null, string, lookup}
use featherlane_ai.Domain.Ids.{EventId}
use featherlane_ai.Domain.Events.{
  RuleStatus, Severity, critical, advisory, MissingEvidencePolicy, EventType, tool_call,
  human_approval_decision, EventMatcher, exists_before, terminal_state, CompiledRule,
  NormalizedEvent, EvidenceBundle, TraceQualityStatus, complete, insufficient, ActorType,
  RuleStatus-discrete, TraceQualityStatus-discrete, EventType-discrete, pass, fail, RunVerdict,
  EvaluationSummary,
}
use featherlane_ai.Evaluator.Matching.{event_matches, numeric_ok, attributes_ok}
use featherlane_ai.Evaluator.Matching.Laws.{Selects, event_matches_iff}
use featherlane_ai.Evaluator.Assertion.{
  passed, evaluate_assertion, before_outcome, terminal_outcome, state_matches, state_attribute,
  latest, latest_from,
}
use featherlane_ai.Evaluator.Assertion.Laws.{Decides, evaluate_assertion-Decides}
use featherlane_ai.Evaluator.Assertion.Cited.{IsLatestBefore, exists_before_latest}
use featherlane_ai.Evaluator.Rule.{
  evaluate_rule, check_triggers, check_assertions, cite, finish, result, missing_evidence_result,
}
use featherlane_ai.Evaluator.Rule.Passing.{Conforms, evaluate_rule-pass_iff}
use featherlane_ai.Evaluator.Rule.Failing.{Violates, evaluate_rule-fail}
use featherlane_ai.Evaluator.Rule.Undecided.{Names, IsUndecided}
use featherlane_ai.Evaluator.Rule.Missing.{evaluate_rule-missing}
use featherlane_ai.Evaluator.Rule.Citations.{IsCited, evaluate_rule-IsCited}
use featherlane_ai.Evaluator.Pack.{
  evaluate_pack, summarize, evaluate_rules, verdict_of, blocking_failure,
}
use featherlane_ai.Text.{trim}
use featherlane_ai.Evaluator.Requirement.{has_required_evidence, requirement_observed}
use featherlane_ai.Evaluator.Pack.Verdict.{Blocks, Verdict, evaluate_pack-Verdict}
use featherlane_ai.Evaluator.Pack.Conformance.{evaluate_pack-pass, evaluate_pack_conforms}

-- Integers alone, read as they are.
abbrev naturals : Numbers
naturals = record {
  Number = ℕ;
  F64 = ℕ;
  number_eq = λ m n. m == n;
  number_eq_iff = ==_iff;
  as_f64 = some;
  f64_le = leb;
}

abbrev parse : String → Option (Value naturals)
parse text = none

abbrev event : EventId → EventType → String → NormalizedEvent naturals
event id event_type name = record {
  schema_version = "governance.event.v1";
  organization_id = 1;
  eval_run_id = 2;
  invocation_id = 3;
  scenario_id = 4;
  trace_id = "trace";
  id = id;
  parent_event_id = none;
  linked_event_ids = [];
  sequence = id;
  started_at = id;
  ended_at = some id;
  actor = record { actor_type = ActorType.agent; id = "agent" };
  event_type = event_type;
  name = name;
  input = null;
  output = null;
  attributes = ("amount", string "20") ∷ [];
  source_span_id = none;
  redacted = true;
}

abbrev evidence : List (NormalizedEvent naturals) → TraceQualityStatus → EvidenceBundle naturals
evidence events quality = record {
  schema_version = "governance.evidence.v1";
  organization_id = 1;
  eval_run_id = 2;
  invocation_id = 3;
  invocation_ids = 3 ∷ [];
  scenario_id = 4;
  target_version = "v1";
  policy_content_sha256 = "sha";
  trace_ids = "trace" ∷ [];
  completion_reason = none;
  terminal_state = some "done";
  events = events;
  side_effects = [];
  trace_quality = quality;
  trace_defects = [];
  finalized_at = none;
  evidence_sha256 = "sha";
}

abbrev matcher : EventType → String → EventMatcher naturals
matcher event_type name = record {
  event_type = event_type;
  name = some name;
  attribute_equals = [];
  numeric_argument = none;
}

abbrev approval : EventMatcher naturals
approval = matcher human_approval_decision "approval"

abbrev rule : Severity → CompiledRule naturals
rule severity = record {
  id = "refund";
  version = 1;
  obligation_key = "R-1";
  severity = severity;
  trigger = matcher tool_call "refund";
  assertions = exists_before approval ∷ terminal_state "done" ∷ [];
  evidence_required = "terminal_state" ∷ [];
  on_missing_evidence = MissingEvidencePolicy.not_observable;
}

abbrev refund : NormalizedEvent naturals
refund = event 2 tool_call "refund"

-- Approved before the refund, refunded without approval, and a trace of no use.
abbrev good : EvidenceBundle naturals
good = evidence (event 1 human_approval_decision "approval" ∷ refund ∷ []) complete

abbrev bad : EvidenceBundle naturals
bad = evidence (refund ∷ event 3 human_approval_decision "approval" ∷ []) complete

abbrev poor : EvidenceBundle naturals
poor = evidence [] insufficient

abbrev numbered : ℕ → ℕ
numbered n = 100 + n

event_matches_iff_example :
    (event_matches refund (matcher tool_call "refund") ≡ true)
    ↔ Selects (matcher tool_call "refund") refund
event_matches_iff_example = event_matches_iff refund (matcher tool_call "refund")

evaluate_assertion-Decides_example :
    Decides refund bad
      (exists_before approval)
      (evaluate_assertion (exists_before approval) refund bad)
evaluate_assertion-Decides_example = evaluate_assertion-Decides (exists_before approval) refund bad

evaluator : Unit {0}
unfolding evaluate_pack summarize evaluate_rules verdict_of blocking_failure evaluate_rule
    check_triggers check_assertions cite finish result missing_evidence_result evaluate_assertion
    before_outcome terminal_outcome state_matches state_attribute latest latest_from lookup
    event_matches numeric_ok attributes_ok has_required_evidence requirement_observed trim
    RuleStatus-discrete TraceQualityStatus-discrete EventType-discrete
evaluator = tt

abbrev verdict : Severity → EvidenceBundle naturals → RunVerdict
verdict severity seen = (evaluate_pack parse numbered 9 (rule severity ∷ []) seen).verdict

verdicts :
    (verdict critical bad ≡ RunVerdict.fail)
    × (verdict advisory bad ≡ RunVerdict.pass)
    × (verdict critical poor ≡ RunVerdict.inconclusive)
unfolding evaluator
verdicts = (refl, refl, refl)

good_passes : verdict critical good ≡ RunVerdict.pass
unfolding evaluator
good_passes = refl

bad_fails : (evaluate_rule parse (rule critical) 7 bad).status ≡ fail
unfolding evaluator
bad_fails = refl

cited : evaluate_assertion (exists_before approval) refund good ≡ passed (1 ∷ [])
unfolding evaluator
cited = refl

exists_before_latest_example :
    (event : NormalizedEvent naturals) × ((1 ∷ []) ≡ event.id ∷ [])
    × IsLatestBefore refund approval good.events event
exists_before_latest_example = exists_before_latest approval refund good (1 ∷ []) cited

evaluate_rule-pass_iff_example :
    ((evaluate_rule parse (rule critical) 7 good).status ≡ pass)
    ↔ Conforms parse (rule critical) good
evaluate_rule-pass_iff_example = evaluate_rule-pass_iff parse (rule critical) 7 good

evaluate_rule-fail_example :
    (MissingEvidencePolicy.not_observable ≡ MissingEvidencePolicy.fail)
    ⊎ Any
        (λ event.
          Selects (rule critical).trigger event
          × Any (Violates parse (rule critical) 7 bad event) (rule critical).assertions)
        bad.events
evaluate_rule-fail_example = evaluate_rule-fail parse (rule critical) 7 bad bad_fails

-- Approved, but the refund has not ended, so that the state it ends in is not known.
abbrev unended : EvidenceBundle naturals
unended =
    evidence (event 1 human_approval_decision "approval" ∷ record refund { ended_at = none } ∷ [])
      complete

unended_test : (evaluate_rule parse (rule critical) 7 unended).status ≡ RuleStatus.not_observable
unfolding evaluator
unended_test = refl

evaluate_rule-missing_example :
    (IsUndecided parse (rule critical) unended
      → Names
          (rule critical).on_missing_evidence
          (evaluate_rule parse (rule critical) 7 unended).status
        × ((evaluate_rule parse (rule critical) 7 unended).evidence_event_ids ≡ []))
    × ((evaluate_rule parse (rule critical) 7 unended).status ≢ pass
        → (evaluate_rule parse (rule critical) 7 unended).status ≢ fail
        → IsUndecided parse (rule critical) unended)
evaluate_rule-missing_example = evaluate_rule-missing parse (rule critical) 7 unended

evaluate_rule-IsCited_example :
    IsCited parse
      (rule critical)
      7
      good
      (evaluate_rule parse (rule critical) 7 good).evidence_event_ids
evaluate_rule-IsCited_example = evaluate_rule-IsCited parse (rule critical) 7 good

evaluate_pack-Verdict_example :
    Verdict
      (evaluate_pack parse numbered 9 (rule critical ∷ []) bad).results
      (evaluate_pack parse numbered 9 (rule critical ∷ []) bad).verdict
evaluate_pack-Verdict_example = evaluate_pack-Verdict parse numbered 9 (rule critical ∷ []) bad

abbrev both : EvaluationSummary
both = evaluate_pack parse numbered 9 (rule critical ∷ rule advisory ∷ []) good

evaluate_pack-pass_example :
    All (λ r. Blocks r.severity → Conforms parse r good) (rule critical ∷ [])
evaluate_pack-pass_example =
    evaluate_pack-pass parse good numbered 9 (rule critical ∷ []) good_passes

good_conforms : Conforms parse (rule critical) good
unfolding evaluator
good_conforms = (evaluate_rule-pass_iff parse (rule critical) 7 good).0 refl

evaluate_pack_conforms_example :
    (evaluate_pack parse numbered 9 (rule critical ∷ []) good).verdict ≡ RunVerdict.pass
evaluate_pack_conforms_example =
    evaluate_pack_conforms parse good numbered 9 (rule critical ∷ []) (good_conforms, tt)
