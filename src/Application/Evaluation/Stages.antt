-- ===== src/Application/Evaluation/Stages.antt =====
-- The stages that an evaluation passes.
use featherlane_ai.Prelude.{ℕ, ◌≡◌, refl, ◌⊎◌, false, Option, none, some, List, String, same}
use featherlane_ai.Json.{Numbers, Value}
use featherlane_ai.Domain.Ids.{OrganizationId, EvalRunId, RuleResultId, OffsetDateTime}
use featherlane_ai.Domain.Events.{PolicyPack, EvidenceBundle, EvaluationSummary}
use featherlane_ai.Domain.Run.{
  EvaluationRun, EvaluationRunState, EvaluationRunState-discrete, evaluating, completed, Outcome,
  transition_to, allowed, enter,
}
use featherlane_ai.Evaluator.Pack.{evaluate_pack}
use featherlane_ai.Persistence.{Database}
use featherlane_ai.Application.Finalization.Stages.{At}
use featherlane_ai.Application.Evaluation.{selected_rules}

pub begin_completed :
    (run : EvaluationRun) (now : OffsetDateTime)
    → run.state ≡ evaluating
    → transition_to run completed now
      ≡ Outcome.ok (record run { state = completed; updated_at = now; completed_at = some now })
unfolding transition_to allowed enter EvaluationRunState-discrete
begin_completed run now e = rw e refl

pub is_evaluating :
    (state : EvaluationRunState)
    → state ≡ completed
    → same EvaluationRunState-discrete state evaluating ≡ false
unfolding EvaluationRunState-discrete
is_evaluating state e = rw e refl

-- The pack, the evidence and the rules that the run is pinned to.
module _ {num : Numbers} (from_str : String → Option (Value num)) (display : ℕ → String)
    (organization_id : OrganizationId) (eval_run_id : EvalRunId) (pack : PolicyPack num)
    (bundle : EvidenceBundle num) (rule_ids : List String) where
  -- The summary is what the evaluator says of the pinned rules and the stored evidence.
  abbrev pub Judges : EvaluationSummary → Type 0
  Judges summary =
      (fresh : ℕ → RuleResultId) × (summary
        ≡ evaluate_pack from_str fresh eval_run_id (selected_rules rule_ids pack.rules) bundle)

  abbrev pub AtRow : EvaluationRun → Database num → Type 0
  AtRow = At organization_id eval_run_id

  -- A run that is to be evaluated: it has no summary yet, or has not taken it over.
  pub data IsPending (db : Database num) : Type 0 where
    unjudged :
        (row : EvaluationRun)
        → AtRow row db
        → row.state ≡ evaluating
        → row.rule_ids ≡ rule_ids
        → db.summaries organization_id eval_run_id ≡ none
        → db.bundles organization_id eval_run_id ≡ some bundle
        → db.packs organization_id row.policy_pack_id ≡ some pack
        → pack.content_sha256 ≡ row.policy_content_sha256
        → IsPending db
    judged :
        (row : EvaluationRun) (summary : EvaluationSummary)
        → AtRow row db
        → row.state ≡ evaluating
        → db.summaries organization_id eval_run_id ≡ some summary
        → Judges summary
        → IsPending db

  -- The run is completed with the verdict of its summary.
  abbrev pub IsJudged : EvaluationSummary → Database num → Type 0
  IsJudged summary db =
      (row : EvaluationRun) × AtRow row db
      × (row.state ≡ completed)
      × (row.verdict ≡ some summary.verdict)
      × (db.summaries organization_id eval_run_id ≡ some summary)
      × Judges summary

  abbrev pub Held : Database num → Type 0
  Held db = IsPending db ⊎ ((summary : EvaluationSummary) × IsJudged summary db)
