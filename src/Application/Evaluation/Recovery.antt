-- ===== src/Application/Evaluation/Recovery.antt =====
-- An evaluation that fails on the way is taken up by the next one.
use featherlane_ai.Prelude.{ℕ, Option, some, List, String}
use featherlane_ai.Json.{Numbers, Value}
use featherlane_ai.Domain.Ids.{OrganizationId, EvalRunId, RuleResultId, OffsetDateTime}
use featherlane_ai.Domain.Events.{PolicyPack, EvidenceBundle, EvaluationSummary}
use featherlane_ai.Domain.Run.{EvaluationRun}
use featherlane_ai.Persistence.{Database}
use featherlane_ai.Persistence.Evaluations.{with_summary}
use featherlane_ai.Application.Calls.{Service}
use featherlane_ai.Application.Finalization.Stages.{At}
use featherlane_ai.Application.Evaluation.{evaluate_run}
use featherlane_ai.Application.Evaluation.Stages.{Judges, IsPending, IsJudged, Held}

-- What the service reads besides the database: the two times, and the identifiers of the results.
abbrev pub Reading : Type 0
Reading = OffsetDateTime × OffsetDateTime × (ℕ → RuleResultId)

abbrev pub service :
    {num : Numbers}
    → (String → Option (Value num))
    → (ℕ → String)
    → OrganizationId
    → EvalRunId
    → Reading
    → Service num EvaluationSummary
service from_str display organization_id eval_run_id (now, saved_at, fresh) =
    evaluate_run from_str display organization_id eval_run_id now saved_at fresh

-- The pack, the evidence and the rules that the run is pinned to.
module _ {num : Numbers} (from_str : String → Option (Value num)) (display : ℕ → String)
    (organization_id : OrganizationId) (eval_run_id : EvalRunId) (pack : PolicyPack num)
    (bundle : EvidenceBundle num) (rule_ids : List String) where
  abbrev Row : EvaluationRun → Database num → Type 0
  Row = At organization_id eval_run_id

  abbrev J : EvaluationSummary → Type 0
  J = Judges from_str display organization_id eval_run_id pack bundle rule_ids

  abbrev Pending : Database num → Type 0
  Pending = IsPending from_str display organization_id eval_run_id pack bundle rule_ids

  abbrev pub Judged : EvaluationSummary → Database num → Type 0
  Judged = IsJudged from_str display organization_id eval_run_id pack bundle rule_ids

  abbrev H : Database num → Type 0
  H = Held from_str display organization_id eval_run_id pack bundle rule_ids

  module _ (now saved_at : OffsetDateTime) (fresh : ℕ → RuleResultId) where
    -- The row after its summary is saved.
    abbrev with_verdict : EvaluationSummary → EvaluationRun → EvaluationRun
    with_verdict summary row = record row {
      verdict = some summary.verdict;
      completed_at = some saved_at;
      updated_at = saved_at;
    }

    abbrev saved : EvaluationSummary → EvaluationRun → Database num → Database num
    saved summary row db = with_summary organization_id summary (with_verdict summary row) db

  abbrev pub evaluate : Reading → Service num EvaluationSummary
  evaluate = service from_str display organization_id eval_run_id
