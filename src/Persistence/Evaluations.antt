-- ===== src/Persistence/Evaluations.antt =====
-- crates/governance-persistence/src/live_evaluations.rs: the summary of a run, which is a column of its
-- row.
use featherlane_ai.Prelude.{
  ◌==◌, Bool, true, false, ◌&&◌, Option, none, some, List, [], ◌∷◌, str_eq, same, if◌then◌else◌,
  Result, ok, err,
}
use featherlane_ai.Json.{Numbers}
use featherlane_ai.Domain.Ids.{OrganizationId, EvalRunId, EventId, OffsetDateTime}
use featherlane_ai.Domain.Events.{
  Severity, RuleStatus-discrete, RuleResult, RunVerdict, EvaluationSummary,
}
use featherlane_ai.Domain.Run.{EvaluationRun, completed as run_completed, explicit_ci}
use featherlane_ai.Persistence.{Database, put}
use featherlane_ai.Application.Ports.{ApplicationError, conflict}

-- The row of a run that has none, as it stands for a run from before runs were stored.
abbrev pub legacy_row : OrganizationId → EvaluationSummary → OffsetDateTime → EvaluationRun
legacy_row organization_id summary now = record {
  id = summary.eval_run_id;
  organization_id = organization_id;
  target_id = "unknown";
  target_version = "legacy";
  policy_pack_id = 0;
  policy_pack_key = "unknown";
  policy_pack_version = 0;
  policy_content_sha256 = "legacy";
  scenario_id = summary.eval_run_id;
  rule_ids = [];
  boundary_kind = explicit_ci;
  external_run_id = none;
  primary_invocation_id = summary.eval_run_id;
  state = run_completed;
  completion_reason = none;
  terminal_state = none;
  verdict = some summary.verdict;
  trace_quality = none;
  evidence_sha256 = none;
  span_count = 0;
  trace_count = 0;
  event_count = 0;
  created_at = now;
  updated_at = now;
  last_seen_at = none;
  settle_until = none;
  hard_deadline_at = now;
  finalized_at = some now;
  completed_at = some now;
}

unfoldable pub Severity-discrete : Discrete Severity
Severity-discrete = hlevel

unfoldable pub RunVerdict-discrete : Discrete RunVerdict
RunVerdict-discrete = hlevel

abbrev pub ids_eq : List EventId → List EventId → Bool
ids_eq [] [] = true
ids_eq (i ∷ is) (j ∷ js) = (i == j) && ids_eq is js
ids_eq _ _ = false

-- The derived equality of results.
abbrev pub result_eq : RuleResult → RuleResult → Bool
result_eq r s =
    (r.id == s.id)
    && (str_eq r.rule_id s.rule_id
        && (same Severity-discrete r.severity s.severity
            && (same RuleStatus-discrete r.status s.status
                && (str_eq r.message s.message
                    && ids_eq r.evidence_event_ids s.evidence_event_ids))))

abbrev pub results_eq : List RuleResult → List RuleResult → Bool
results_eq [] [] = true
results_eq (r ∷ rs) (s ∷ ss) = result_eq r s && results_eq rs ss
results_eq _ _ = false

-- The derived equality of summaries.
abbrev pub summary_eq : EvaluationSummary → EvaluationSummary → Bool
summary_eq a b =
    (a.eval_run_id == b.eval_run_id)
    && (same RunVerdict-discrete a.verdict b.verdict
        && (results_eq a.results b.results
            && ((a.passed == b.passed)
                && ((a.failed == b.failed) && (a.inconclusive == b.inconclusive)))))

module _ {num : Numbers} where
  abbrev pub get_summary :
      OrganizationId
      → EvalRunId
      → Database num
      → Result ApplicationError (Option EvaluationSummary) × Database num
  get_summary organization_id eval_run_id db = (ok (db.summaries organization_id eval_run_id), db)

  abbrev pub with_summary :
      OrganizationId → EvaluationSummary → EvaluationRun → Database num → Database num
  with_summary organization_id summary row db = record db {
    runs = put db.runs organization_id summary.eval_run_id (some row);
    summaries = put db.summaries organization_id summary.eval_run_id (some summary);
  }

  abbrev pub save_beside :
      OrganizationId
      → EvaluationSummary
      → OffsetDateTime
      → Option EvaluationRun
      → Option EvaluationSummary
      → Database num
      → Result ApplicationError (Unit {0}) × Database num
  save_beside organization_id summary now none stored db =
      (ok tt, with_summary organization_id summary (legacy_row organization_id summary now) db)
  save_beside organization_id summary now (some row) (some stored) db =
      if summary_eq stored summary
      then (ok tt, db)
      else (err (conflict "run already has a different evaluation summary"), db)
  save_beside organization_id summary now (some row) none db = (
    ok tt,
    with_summary organization_id summary
        (record row { verdict = some summary.verdict; completed_at = some now; updated_at = now })
        db,
  )

  -- `save_summary`. The rows of the single results, which
  -- nothing reads here, are left out.
  unfoldable pub save_summary :
      OrganizationId
      → EvaluationSummary
      → OffsetDateTime
      → Database num
      → Result ApplicationError (Unit {0}) × Database num
  save_summary organization_id summary now db =
      save_beside organization_id summary now (db.runs organization_id summary.eval_run_id)
        (db.summaries organization_id summary.eval_run_id) db
