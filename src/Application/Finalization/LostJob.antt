-- ===== src/Application/Finalization/LostJob.antt =====
-- A finalization that fails between the update of the run and the job for its evaluation.
use featherlane_ai.Prelude.{
  ◌≡◌, refl, sym, ap, subst, ◌∙◌, Option, none, some, List, [], ◌∷◌, String, length, Result, ok,
  err,
}
use featherlane_ai.Json.{Numbers}
use featherlane_ai.Domain.Ids.{OrganizationId, EvalRunId, OffsetDateTime}
use featherlane_ai.Domain.Events.{EvidenceBundle}
use featherlane_ai.Domain.Run.{EvaluationRun, finalizing, evaluating}
use featherlane_ai.Telemetry.Normalization.{Libraries}
use featherlane_ai.Telemetry.Finalization.{CanonicalEvidence, finalize_observed_spans}
use featherlane_ai.Persistence.{Database, with_columns, put, get_bundle, listed_spans}
use featherlane_ai.Application.Ports.{ApplicationError}
use featherlane_ai.Application.Calls.{Fault, fine, down, World, Service, call, continue, ◌>>=◌}
use featherlane_ai.Application.Calls.Attempts.{Attempt, attempt, attempts}
use featherlane_ai.Application.Finalization.{
  persist_run_update, with_evidence, hand_over, load_run, close_run, observed_bundle,
  finalize_evidence_of, first_finalization, finalize_with, finalize_run,
}
use featherlane_ai.Application.Finalization.Stages.{
  begin_evaluating, At, updated, updated-At, expected-update, put-same, Handed,
}
use featherlane_ai.Application.Finalization.Recovery.{insert_new, is_closing}
use featherlane_ai.Application.Finalization.Attempts.{service, stays-Handed}

module _ {num : Numbers} {Bytes : Type 0} (to_vec : CanonicalEvidence num → Result String Bytes)
    (into_bytes : String → Bytes) (digest : Bytes → String) (libraries : Libraries num)
    (organization_id : OrganizationId) (eval_run_id : EvalRunId) (now : OffsetDateTime)
    (e : ApplicationError) where
  abbrev pub finalize : OffsetDateTime → Service num (EvidenceBundle num)
  finalize = service to_vec into_bytes digest libraries organization_id eval_run_id

  hand_over-crash :
      (bundle : EvidenceBundle num) (run row : EvaluationRun) (db : Database num)
      → At organization_id eval_run_id row db
      → (run.organization_id ≡ organization_id) × (run.id ≡ eval_run_id) × (run.state ≡ finalizing)
      → (hand_over to_vec into_bytes digest libraries organization_id eval_run_id now bundle run
          row.state row.updated_at
          (record { database = db; faults = fine ∷ down e ∷ [] }))
        ≡ (
          err e,
          record {
            database =
                updated organization_id eval_run_id
                  (record run { state = evaluating; updated_at = now })
                  row
                  db;
            faults = [];
          },
        )
  unfolding hand_over persist_run_update call
  hand_over-crash bundle run row db at (o, i, s) =
      let handed = record run { state = evaluating; updated_at = now } in
      rw (begin_evaluating run now s)
        (rw (expected-update organization_id eval_run_id handed row db at o i) refl)

  abbrev closed_bundle : EvaluationRun → Database num → EvidenceBundle num
  closed_bundle row db =
      observed_bundle to_vec into_bytes digest libraries organization_id eval_run_id now row
        (listed_spans organization_id eval_run_id db)

  abbrev handed_row : EvaluationRun → Database num → EvaluationRun
  handed_row row db = record (with_evidence (closed_bundle row db) row) {
    span_count = length (listed_spans organization_id eval_run_id db);
    finalized_at = some now;
    state = evaluating;
    updated_at = now;
  }

  abbrev with_bundle : EvaluationRun → Database num → Database num
  with_bundle row db = record db {
    bundles = put db.bundles organization_id eval_run_id (some (closed_bundle row db));
  }

  abbrev crashed : EvaluationRun → Database num → Database num
  crashed row db = updated organization_id eval_run_id (handed_row row db) row (with_bundle row db)

  evidence-crash :
      (row : EvaluationRun) (db : Database num)
      → At organization_id eval_run_id row db
      → row.state ≡ finalizing
      → db.bundles organization_id eval_run_id ≡ none
      → (finalize_evidence_of to_vec into_bytes digest libraries organization_id eval_run_id now row
          (record { database = db; faults = fine ∷ fine ∷ fine ∷ down e ∷ [] }))
        ≡ (err e, record { database = crashed row db; faults = [] })
  unfolding finalize_evidence_of call finalize_observed_spans
  evidence-crash row db at s none_yet =
      rw
        (insert_new to_vec into_bytes digest libraries organization_id eval_run_id now now
          (closed_bundle row db) db refl refl none_yet)
        (hand_over-crash (closed_bundle row db)
          (record (with_evidence (closed_bundle row db) row) {
            span_count = length (listed_spans organization_id eval_run_id db);
            finalized_at = some now;
          })
          row (with_bundle row db) at (at.1, at.2, s))

  -- The calls of the finalization of a run in `Finalizing`, where the last one fails.
  abbrev pub crash : List Fault
  crash = fine ∷ fine ∷ fine ∷ fine ∷ fine ∷ down e ∷ []

  loads :
      (row : EvaluationRun) (db : Database num) (faults : List Fault)
      → At organization_id eval_run_id row db
      → load_run to_vec into_bytes digest libraries organization_id eval_run_id now
          (record { database = db; faults = fine ∷ faults })
        ≡ (ok row, record { database = db; faults = faults })
  unfolding load_run call
  loads row db faults at = rw at.0 refl

  nothing_stored :
      (db : Database num) (faults : List Fault)
      → db.bundles organization_id eval_run_id ≡ none
      → call
          (get_bundle organization_id eval_run_id)
          (record { database = db; faults = fine ∷ faults })
        ≡ (ok none, record { database = db; faults = faults })
  unfolding call
  nothing_stored db faults e = rw e refl

  stays_closed :
      (row : EvaluationRun) (w : World num)
      → row.state ≡ finalizing
      → close_run to_vec into_bytes digest libraries organization_id eval_run_id now row w
        ≡ (ok row, w)
  unfolding close_run
  stays_closed row w s =
      let (other, this) =
        is_closing to_vec into_bytes digest libraries organization_id eval_run_id now now row.state
          s in
      rw (other, this) refl

  attempt-crash :
      (row : EvaluationRun) (db : Database num)
      → At organization_id eval_run_id row db
      → row.state ≡ finalizing
      → db.bundles organization_id eval_run_id ≡ none
      → attempt finalize (now, crash) db
        ≡ (err e, record { database = crashed row db; faults = [] })
  unfolding finalize_run first_finalization
  attempt-crash row db at s none_yet =
      let next : Option (EvidenceBundle num) → EvaluationRun → Service num (EvidenceBundle num) =
        finalize_with to_vec into_bytes digest libraries organization_id eval_run_id now in
      ap
        (continue (λ found_bundle.
          load_run to_vec into_bytes digest libraries organization_id eval_run_id now
          >>= next found_bundle))
        (nothing_stored db _ none_yet)
      ∙ ap (continue (next none)) (loads row db _ at)
      ∙ ap
          (continue (
            finalize_evidence_of to_vec into_bytes digest libraries organization_id eval_run_id
              now))
          (stays_closed row _ s)
      ∙ evidence-crash row db at s none_yet

  crashed-Handed :
      (row : EvaluationRun) (db : Database num)
      → At organization_id eval_run_id row db
      → Handed organization_id eval_run_id (closed_bundle row db) (crashed row db)
  crashed-Handed row db at = (
    with_columns (handed_row row db) row,
    updated-At organization_id eval_run_id (handed_row row db) row (with_bundle row db) at,
    refl,
    refl,
    refl,
    put-same db.bundles organization_id eval_run_id (some (closed_bundle row db)),
  )

  -- Where the finalization of a run in `Finalizing`, for which no evidence is stored, fails only in
  -- its last call, the one that queues the evaluation, the run is to be evaluated, and no later attempt, however many there are, queues a job.
  pub finalize_run-loses_job :
      (row : EvaluationRun) (db : Database num) (later : List (Attempt OffsetDateTime))
      → At organization_id eval_run_id row db
      → row.state ≡ finalizing
      → db.bundles organization_id eval_run_id ≡ none
      → let left = attempts finalize later (attempt finalize (now, crash) db).1.database in
        (left.jobs ≡ db.jobs)
        × ((bundle : EvidenceBundle num) × Handed organization_id eval_run_id bundle left)
  finalize_run-loses_job row db later at s none_yet =
      let bundle = closed_bundle row db in
      let handed = crashed-Handed row db at in
      let end =
        ap (λ out. attempts finalize later out.1.database) (attempt-crash row db at s none_yet)
        ∙ stays-Handed to_vec into_bytes digest libraries organization_id eval_run_id bundle later
            (crashed row db) handed in
      (
        ap (λ d. d.jobs) end,
        (bundle, subst (Handed organization_id eval_run_id bundle) (sym end) handed),
      )
