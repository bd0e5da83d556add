-- ===== src/Application/Evaluation.antt =====
-- crates/governance-application/src/evaluation_runs.rs: `EvaluateFinalizedRun`, which evaluates the
-- evidence of a run and completes it.
pub mod Stages
pub mod Recovery
use Prim.Native.String.{◌++◌ as str_append}
use featherlane_ai.Prelude.{
  ℕ, not, Option, none, some, List, String, str_eq, any, keep, is_empty, same, if◌then◌else◌,
}
use featherlane_ai.Json.{Numbers, Value}
use featherlane_ai.Domain.Ids.{OrganizationId, EvalRunId, RuleResultId, OffsetDateTime}
use featherlane_ai.Domain.Events.{CompiledRule, PolicyPack, EvidenceBundle, EvaluationSummary}
use featherlane_ai.Domain.Run.{
  EvaluationRun, EvaluationRunState-discrete, evaluating, completed, transition_to,
}
use featherlane_ai.Evaluator.Pack.{evaluate_pack}
use featherlane_ai.Persistence.{get_run, get_bundle, get_pack}
use featherlane_ai.Persistence.Evaluations.{get_summary, save_summary}
use featherlane_ai.Application.Ports.{conflict}
use featherlane_ai.Application.Calls.{Service, call, pure, fail, found, ◌>>=◌, settled_run}
use featherlane_ai.Application.Finalization.{persist_run_update}

module _ {num : Numbers} where
  -- The rules of the pack that the run asks for, or all of them.
  unfoldable pub selected_rules : List String → List (CompiledRule num) → List (CompiledRule num)
  selected_rules rule_ids rules =
      if is_empty rule_ids
      then rules
      else keep (λ rule. any (λ id. str_eq id rule.id) rule_ids) rules

-- `saved_at` is the time of the saving, and `fresh` gives the identifiers of the results.
module _ {num : Numbers} (from_str : String → Option (Value num)) (display : ℕ → String)
    (organization_id : OrganizationId) (eval_run_id : EvalRunId) (now saved_at : OffsetDateTime)
    (fresh : ℕ → RuleResultId) where
  unfoldable pub load : Service num EvaluationRun
  load = do row ← call (get_run organization_id eval_run_id); found (display eval_run_id) row

  -- The last steps of both paths.
  unfoldable pub complete : EvaluationSummary → EvaluationRun → Service num EvaluationSummary
  complete summary run = do
    finished ←
        settled_run (transition_to (record run { verdict = some summary.verdict }) completed now)
    _ ← persist_run_update display finished run.state run.updated_at
    pure summary

  -- The summary is stored, and an earlier call may have been cut off after that.
  abbrev pub resume : EvaluationSummary → EvaluationRun → Service num EvaluationSummary
  resume summary run =
      if same EvaluationRunState-discrete run.state evaluating
      then complete summary run
      else pure summary

  abbrev pub judge : EvaluationRun → PolicyPack num → EvidenceBundle num → EvaluationSummary
  judge run pack bundle =
      evaluate_pack from_str fresh eval_run_id (selected_rules run.rule_ids pack.rules) bundle

  unfoldable pub save_and_complete : EvaluationSummary → Service num EvaluationSummary
  save_and_complete summary = do
    _ ← call (save_summary organization_id summary saved_at)
    run ← load
    complete summary run

  unfoldable pub first_evaluation : EvaluationRun → Service num EvaluationSummary
  first_evaluation run = do
    evidence ← call (get_bundle organization_id eval_run_id)
    bundle ← found (str_append "evidence for " (display eval_run_id)) evidence
    stored_pack ← call (get_pack organization_id run.policy_pack_id)
    pack ← found (display run.policy_pack_id) stored_pack
    if not (str_eq pack.content_sha256 run.policy_content_sha256)
        then fail (conflict "pinned policy content changed")
        else save_and_complete (judge run pack bundle)

  abbrev pub evaluate_with :
      Option EvaluationSummary → EvaluationRun → Service num EvaluationSummary
  evaluate_with (some summary) run = resume summary run
  evaluate_with none run = first_evaluation run

  unfoldable pub evaluate_run : Service num EvaluationSummary
  evaluate_run = do
    stored ← call (get_summary organization_id eval_run_id)
    run ← load
    evaluate_with stored run
