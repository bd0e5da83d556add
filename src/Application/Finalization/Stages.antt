-- ===== src/Application/Finalization/Stages.antt =====
-- The stages that a finalization passes, and each of its steps from one to the next.
use featherlane_ai.Prelude.{
  ℕ, ◌≤◌, ==_iff, ◌≡◌, refl, inl, inr, ◌⊎◌, true, none, some, List, [], ◌∷◌, String, str_eq_iff,
  same_iff, Any, Bool-cases, ok,
}
use featherlane_ai.Json.{Numbers}
use featherlane_ai.Domain.Ids.{OrganizationId, EvalRunId, OffsetDateTime}
use featherlane_ai.Domain.Events.{EvidenceBundle}
use featherlane_ai.Domain.Run.{
  EvaluationRun, EvaluationRunState, EvaluationRunState-discrete, settling, finalizing, evaluating,
  Outcome, enter, transition_to, allowed,
}
use featherlane_ai.Persistence.{
  Database, JobRow, JobStatus, put, with_columns, update_run, is_same_job, enqueue_job,
}
use featherlane_ai.Application.Ports.{DurableJob}
use featherlane_ai.Application.Calls.Faults.{Triple, call-Triple}
use featherlane_ai.Application.Finalization.{persist_run_update}

pub begin_finalizing :
    (run : EvaluationRun) (now : OffsetDateTime)
    → run.state ≡ settling
    → transition_to run finalizing now
      ≡ Outcome.ok (record run { state = finalizing; updated_at = now })
unfolding transition_to allowed enter EvaluationRunState-discrete
begin_finalizing run now e = rw e refl

pub begin_evaluating :
    (run : EvaluationRun) (now : OffsetDateTime)
    → run.state ≡ finalizing
    → transition_to run evaluating now
      ≡ Outcome.ok (record run { state = evaluating; updated_at = now })
unfolding transition_to allowed enter EvaluationRunState-discrete
begin_evaluating run now e = rw e refl

-- The job is among those that wait or run.
abbrev pub IsQueued : DurableJob → List JobRow → Type 0
IsQueued job = Any (λ row. is_same_job job row ≡ true)

job_matches :
    (job : DurableJob) → is_same_job job (record { job = job; status = JobStatus.pending }) ≡ true
job_matches job =
    rw
      (
        (==_iff job.organization_id job.organization_id).1 refl,
        (str_eq_iff job.kind job.kind).1 refl,
        (str_eq_iff job.dedupe_key job.dedupe_key).1 refl,
      )
      refl

pub enqueue_job-IsQueued :
    (job : DurableJob) (rows : List JobRow) → IsQueued job (enqueue_job job rows)
unfolding enqueue_job
enqueue_job-IsQueued job [] = inl (job_matches job)
enqueue_job-IsQueued job (row ∷ rows) = elim (Bool-cases (is_same_job job row)) [
  | inl e ↦ rw e (inl e)
  | inr ne ↦ rw ne (inr (enqueue_job-IsQueued job rows))
]

pub put-same : {A : Type 0} (table : ℕ → ℕ → A) (i j : ℕ) (row : A) → put table i j row i j ≡ row
put-same table i j row = rw ((==_iff i i).1 refl, (==_iff j j).1 refl) refl

-- The time until which the run settles is over at an instant.
abbrev pub IsDue : OffsetDateTime → EvaluationRun → Type 0
IsDue from row = (deadline : OffsetDateTime) → row.settle_until ≡ some deadline → deadline ≤ from

module _ {num : Numbers} (organization_id : OrganizationId) (eval_run_id : EvalRunId) where
  -- The run, under its keys.
  abbrev pub At : EvaluationRun → Database num → Type 0
  At row db =
      (db.runs organization_id eval_run_id ≡ some row)
      × (row.organization_id ≡ organization_id)
      × (row.id ≡ eval_run_id)

  abbrev pub updated : EvaluationRun → EvaluationRun → Database num → Database num
  updated run row db = record db {
    runs = put db.runs organization_id eval_run_id (some (with_columns run row));
  }

  pub updated-At :
      (run row : EvaluationRun) (db : Database num)
      → At row db
      → At (with_columns run row) (updated run row db)
  updated-At run row db (_, o, i) = (put-same db.runs organization_id eval_run_id _, o, i)

  pub expected-update :
      (run row : EvaluationRun) (db : Database num)
      → At row db
      → run.organization_id ≡ organization_id
      → run.id ≡ eval_run_id
      → update_run run row.state row.updated_at db ≡ (ok true, updated run row db)
  unfolding update_run
  expected-update run row db (at, _, _) o i =
      rw
        (
          o,
          i,
          at,
          (same_iff EvaluationRunState-discrete row.state row.state).1 refl,
          (==_iff row.updated_at row.updated_at).1 refl,
        )
        refl

  -- The run has left its finalization with this evidence.
  abbrev pub Handed : EvidenceBundle num → Database num → Type 0
  Handed bundle db =
      (row : EvaluationRun) × At row db
      × (row.state ≡ evaluating)
      × (row.evidence_sha256 ≡ some bundle.evidence_sha256)
      × (row.trace_quality ≡ some bundle.trace_quality)
      × (db.bundles organization_id eval_run_id ≡ some bundle)

  -- A run that is to be finalized.
  pub data IsOpen (from : OffsetDateTime) (db : Database num) : Type 0 where
    due :
        (row : EvaluationRun)
        → At row db
        → row.state ≡ settling
        → IsDue from row
        → db.bundles organization_id eval_run_id ≡ none
        → IsOpen from db
    closing :
        (row : EvaluationRun)
        → At row db
        → row.state ≡ finalizing
        → db.bundles organization_id eval_run_id ≡ none
        → IsOpen from db
    stored :
        (row : EvaluationRun) (bundle : EvidenceBundle num)
        → At row db
        → row.state ≡ finalizing
        → db.bundles organization_id eval_run_id ≡ some bundle
        → IsOpen from db

  -- What is true before and after each call of a finalization.
  abbrev pub Held : OffsetDateTime → Database num → Type 0
  Held from db = IsOpen from db ⊎ ((bundle : EvidenceBundle num) × Handed bundle db)

  pub persist-Triple :
      (display : ℕ → String) (H : Database num → Type 0) (Done : Unit {0} → Database num → Type 0)
      (run row : EvaluationRun) (state : EvaluationRunState) (updated_at : OffsetDateTime)
      (db : Database num)
      → At row db
      → run.organization_id ≡ organization_id
      → run.id ≡ eval_run_id
      → (state ≡ row.state) × (updated_at ≡ row.updated_at)
      → H db
      → H (updated run row db)
      → Done tt (updated run row db)
      → Triple H Done (persist_run_update display run state updated_at) db
  unfolding persist_run_update
  persist-Triple display H Done run row state updated_at db at o i (s, u) h h' d =
      call-Triple H Done (update_run run state updated_at) _ db (updated run row db) true
        (rw (s, u) (expected-update run row db at o i)) h h' (λ faults. (d, λ e. e))
