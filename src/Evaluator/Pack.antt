-- ===== src/Evaluator/Pack.antt =====
-- crates/governance-evaluator/src/lib.rs: `evaluate_pack`.
pub mod Verdict
pub mod Conformance
use featherlane_ai.Prelude.{
  ℕ, suc, ◌+◌, ◌-◌, Bool, true, false, ◌&&◌, Option, List, [], ◌∷◌, String, same, if◌then◌else◌,
  ltb, length, any, keep,
}
use featherlane_ai.Json.{Numbers, Value}
use featherlane_ai.Domain.Ids.{EvalRunId, RuleResultId}
use featherlane_ai.Domain.Events.{
  Severity, critical, high, CompiledRule, EvidenceBundle, RuleStatus, RuleStatus-discrete, pass,
  fail, RuleResult, RunVerdict, EvaluationSummary,
}
use featherlane_ai.Evaluator.Rule.{evaluate_rule}

module _ {num : Numbers} (from_str : String → Option (Value num)) where
  -- The results in the order of the rules; `fresh` gives the id of the n-th.
  unfoldable pub evaluate_rules :
      (ℕ → RuleResultId) → ℕ → List (CompiledRule num) → EvidenceBundle num → List RuleResult
  evaluate_rules fresh n [] evidence = []
  evaluate_rules fresh n (rule ∷ rules) evidence =
      evaluate_rule from_str rule (fresh n) evidence ∷ evaluate_rules fresh (suc n) rules evidence

abbrev pub is_blocking : Severity → Bool
is_blocking critical = true
is_blocking high = true
is_blocking _ = false

abbrev has_status : RuleStatus → RuleResult → Bool
has_status status r = same RuleStatus-discrete r.status status

unfoldable pub blocking_failure : RuleResult → Bool
blocking_failure r = has_status fail r && is_blocking r.severity

unfoldable pub verdict_of : Bool → ℕ → RunVerdict
verdict_of blocking inconclusive =
    if blocking
    then RunVerdict.fail
    else if ltb 0 inconclusive
    then RunVerdict.inconclusive
    else RunVerdict.pass

unfoldable pub summarize : EvalRunId → List RuleResult → EvaluationSummary
unfolding verdict_of blocking_failure
summarize run results =
    let passed : ℕ = length (keep (has_status pass) results) in
    let failed : ℕ = length (keep (has_status fail) results) in
    let inconclusive : ℕ = length results - (passed + failed) in
    record {
      eval_run_id = run;
      verdict = verdict_of (any blocking_failure results) inconclusive;
      results = results;
      passed = passed;
      failed = failed;
      inconclusive = inconclusive;
    }

unfoldable pub evaluate_pack :
    {num : Numbers}
    → (String → Option (Value num))
    → (ℕ → RuleResultId)
    → EvalRunId
    → List (CompiledRule num)
    → EvidenceBundle num
    → EvaluationSummary
unfolding summarize evaluate_rules
evaluate_pack from_str fresh run rules evidence =
    summarize run (evaluate_rules from_str fresh 0 rules evidence)
