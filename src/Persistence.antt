-- ===== src/Persistence.antt =====
-- crates/governance-persistence/src/evaluation_runs.rs: what its queries and statements do to the
-- tables of runs, evidence, jobs and spans.
pub mod Evaluations
use featherlane_ai.Prelude.{
  ℕ, ◌==◌, leb, min, max, Bool, true, false, not, ◌&&◌, Option, none, some, List, [], ◌∷◌, map,
  str_eq, keep, same, if◌then◌else◌, Result, ok, err,
}
use featherlane_ai.Json.{Numbers}
use featherlane_ai.Domain.Ids.{OrganizationId, PolicyPackId, EvalRunId, OffsetDateTime}
use featherlane_ai.Domain.Events.{EvidenceBundle, PolicyPack, EvaluationSummary}
use featherlane_ai.Domain.Run.{EvaluationRun, EvaluationRunState, EvaluationRunState-discrete}
use featherlane_ai.Telemetry.{TraceSpan}
use featherlane_ai.Application.Ports.{ApplicationError, conflict, DurableJob}

-- The status of a job: "pending", "running", "completed" and "failed".
pub data JobStatus : Type 0 where
  pending running completed failed : JobStatus

pub record JobRow : Type 0 where
  pub job : DurableJob
  pub status : JobStatus

-- A row of `ingested_spans`, which is late or is listed.
pub record SpanRow (num : Numbers) : Type 0 where
  pub organization_id : OrganizationId
  pub eval_run_id : Option EvalRunId
  pub late_after_finalize : Bool
  pub span : TraceSpan num

-- The tables. A run, its evidence and its summary, which is a column of the run, stand under the keys
-- that the queries filter by.
pub record Database (num : Numbers) : Type 0 where
  pub runs : OrganizationId → EvalRunId → Option EvaluationRun
  pub bundles : OrganizationId → EvalRunId → Option (EvidenceBundle num)
  pub summaries : OrganizationId → EvalRunId → Option EvaluationSummary
  pub packs : OrganizationId → PolicyPackId → Option (PolicyPack num)
  pub jobs : List JobRow
  pub spans : List (SpanRow num)

abbrev pub put : {A : Type 0} → (ℕ → ℕ → A) → ℕ → ℕ → A → ℕ → ℕ → A
put table i j row i' j' = if (i == i') && (j == j') then row else table i' j'

abbrev pub i64_max : ℕ
i64_max = 9223372036854775807

-- The columns that `update_run` sets.
abbrev pub with_columns : EvaluationRun → EvaluationRun → EvaluationRun
with_columns run row = record row {
  state = run.state;
  completion_reason = run.completion_reason;
  terminal_state = run.terminal_state;
  verdict = run.verdict;
  settle_until = run.settle_until;
  hard_deadline_at = run.hard_deadline_at;
  last_seen_at = run.last_seen_at;
  finalized_at = run.finalized_at;
  updated_at = run.updated_at;
  span_count = min run.span_count i64_max;
  trace_count = min run.trace_count i64_max;
  event_count = min run.event_count i64_max;
  trace_quality = run.trace_quality;
  evidence_sha256 = run.evidence_sha256;
  completed_at = run.completed_at;
}

abbrev pub is_active_job : JobStatus → Bool
is_active_job pending = true
is_active_job running = true
is_active_job completed = false
is_active_job failed = false

-- The job that waits or runs under the same key.
abbrev pub is_same_job : DurableJob → JobRow → Bool
is_same_job job row =
    (row.job.organization_id == job.organization_id)
    && (str_eq row.job.kind job.kind
        && (str_eq row.job.dedupe_key job.dedupe_key && is_active_job row.status))

abbrev pub is_expected : EvaluationRunState → OffsetDateTime → EvaluationRun → Bool
is_expected state updated_at row =
    same EvaluationRunState-discrete row.state state && (row.updated_at == updated_at)

abbrev pub postpone : DurableJob → JobRow → JobRow
postpone job row = record row {
  job = record row.job { available_at = max row.job.available_at job.available_at };
}

-- The first job under the key is put off, or there is none and the job is added.
unfoldable pub enqueue_job : DurableJob → List JobRow → List JobRow
enqueue_job job [] = record { job = job; status = pending } ∷ []
enqueue_job job (row ∷ rows) =
    let rest = enqueue_job job rows in
    if is_same_job job row then postpone job row ∷ rows else row ∷ rest

module _ {num : Numbers} where
  abbrev pub get_run :
      OrganizationId
      → EvalRunId
      → Database num
      → Result ApplicationError (Option EvaluationRun) × Database num
  get_run organization_id eval_run_id db = (ok (db.runs organization_id eval_run_id), db)

  abbrev pub update_row :
      EvaluationRun
      → EvaluationRunState
      → OffsetDateTime
      → Option EvaluationRun
      → Database num
      → Result ApplicationError Bool × Database num
  update_row run state updated_at none db = (ok false, db)
  update_row run state updated_at (some row) db =
      if is_expected state updated_at row
      then (
        ok true,
        record db { runs = put db.runs run.organization_id run.id (some (with_columns run row)) },
      )
      else (ok false, db)

  -- `update_run`, whose answer is whether it changed a row.
  unfoldable pub update_run :
      EvaluationRun
      → EvaluationRunState
      → OffsetDateTime
      → Database num
      → Result ApplicationError Bool × Database num
  update_run run state updated_at db =
      update_row run state updated_at (db.runs run.organization_id run.id) db

  abbrev pub get_bundle :
      OrganizationId
      → EvalRunId
      → Database num
      → Result ApplicationError (Option (EvidenceBundle num)) × Database num
  get_bundle organization_id eval_run_id db = (ok (db.bundles organization_id eval_run_id), db)

  abbrev pub insert_beside :
      EvidenceBundle num
      → Option (EvidenceBundle num)
      → Database num
      → Result ApplicationError (Unit {0}) × Database num
  insert_beside bundle (some existing) db =
      if str_eq existing.evidence_sha256 bundle.evidence_sha256
      then (ok tt, db)
      else (err (conflict "run already has different immutable evidence"), db)
  insert_beside bundle none db = (
    ok tt,
    record db { bundles = put db.bundles bundle.organization_id bundle.eval_run_id (some bundle) },
  )

  unfoldable pub insert_bundle :
      EvidenceBundle num → Database num → Result ApplicationError (Unit {0}) × Database num
  insert_bundle bundle db =
      insert_beside bundle (db.bundles bundle.organization_id bundle.eval_run_id) db

  abbrev pub enqueue : DurableJob → Database num → Result ApplicationError (Unit {0}) × Database num
  enqueue job db = (ok tt, record db { jobs = enqueue_job job db.jobs })

  abbrev pub is_listed : OrganizationId → EvalRunId → SpanRow num → Bool
  is_listed organization_id eval_run_id row =
      (row.organization_id == organization_id)
      && (elim row.eval_run_id [ none ↦ false | some i ↦ i == eval_run_id ]
          && not row.late_after_finalize)

  -- `order_by_asc` of the start, where rows of the same start keep their order.
  abbrev pub insert_by_start : TraceSpan num → List (TraceSpan num) → List (TraceSpan num)
  insert_by_start span [] = span ∷ []
  insert_by_start span (s ∷ rest) =
      let placed = insert_by_start span rest in
      if leb span.started_at s.started_at then span ∷ s ∷ rest else s ∷ placed

  abbrev pub by_start : List (TraceSpan num) → List (TraceSpan num)
  by_start [] = []
  by_start (span ∷ rest) = insert_by_start span (by_start rest)

  abbrev pub listed_spans : OrganizationId → EvalRunId → Database num → List (TraceSpan num)
  listed_spans organization_id eval_run_id db =
      by_start (map (λ row. row.span) (keep (is_listed organization_id eval_run_id) db.spans))

  abbrev pub list_spans :
      OrganizationId
      → EvalRunId
      → Database num
      → Result ApplicationError (List (TraceSpan num)) × Database num
  list_spans organization_id eval_run_id db = (ok (listed_spans organization_id eval_run_id db), db)

  abbrev pub get_pack :
      OrganizationId
      → PolicyPackId
      → Database num
      → Result ApplicationError (Option (PolicyPack num)) × Database num
  get_pack organization_id id db = (ok (db.packs organization_id id), db)
