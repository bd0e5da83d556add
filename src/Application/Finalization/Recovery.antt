-- ===== src/Application/Finalization/Recovery.antt =====
-- A finalization that fails on the way is taken up by the next one.
use featherlane_ai.Prelude.{
  ◌≤◌, ltb, ◌≡◌, refl, inl, inr, true, false, Option, none, some, String, same, same_iff,
  is_some_and, Result, ok, arith,
}
use featherlane_ai.Json.{Numbers}
use featherlane_ai.Domain.Ids.{OrganizationId, EvalRunId, OffsetDateTime}
use featherlane_ai.Domain.Events.{EvidenceBundle}
use featherlane_ai.Domain.Run.{
  EvaluationRun, EvaluationRunState, EvaluationRunState-discrete, settling, finalizing, evaluating,
}
use featherlane_ai.Telemetry.Normalization.{Libraries}
use featherlane_ai.Telemetry.Finalization.{CanonicalEvidence, finalize_observed_spans}
use featherlane_ai.Persistence.{
  Database, with_columns, put, get_run, get_bundle, insert_bundle, enqueue, enqueue_job, list_spans,
  listed_spans,
}
use featherlane_ai.Application.Ports.{DurableJob}
use featherlane_ai.Application.Calls.{Service, found}
use featherlane_ai.Application.Calls.Faults.{Triple, call-Triple, chain-Triple}
use featherlane_ai.Application.Finalization.{
  persist_run_update, with_evidence, evaluate_job, hand_over, load_run, close_run, observed_bundle,
  finalize_evidence_of, first_finalization, finalize_with, finalize_run,
}
use featherlane_ai.Application.Finalization.Stages.{
  begin_finalizing, begin_evaluating, IsQueued, enqueue_job-IsQueued, At, updated, updated-At,
  Handed, IsDue, IsOpen, due, closing, stored, Held, persist-Triple, put-same,
}

module _ {num : Numbers} {Bytes : Type 0} (to_vec : CanonicalEvidence num → Result String Bytes)
    (into_bytes : String → Bytes) (digest : Bytes → String) (libraries : Libraries num)
    (organization_id : OrganizationId) (eval_run_id : EvalRunId) (from now : OffsetDateTime) where
  abbrev pub job : DurableJob
  job = evaluate_job to_vec into_bytes digest libraries organization_id eval_run_id now

  -- The evidence is stored, the run is to be evaluated, and a job to do so waits.
  abbrev pub IsFinal : EvidenceBundle num → Database num → Type 0
  IsFinal bundle db = Handed organization_id eval_run_id bundle db × IsQueued job db.jobs

  abbrev H : Database num → Type 0
  H = Held organization_id eval_run_id from

  abbrev AtRow : EvaluationRun → Database num → Type 0
  AtRow = At organization_id eval_run_id

  hand_over-Triple :
      (bundle : EvidenceBundle num) (run row : EvaluationRun) (state : EvaluationRunState)
      (updated_at : OffsetDateTime) (db : Database num)
      → AtRow row db
      → (run.organization_id ≡ organization_id) × (run.id ≡ eval_run_id) × (run.state ≡ finalizing)
      → (run.evidence_sha256 ≡ some bundle.evidence_sha256)
        × (run.trace_quality ≡ some bundle.trace_quality)
      → (state ≡ row.state) × (updated_at ≡ row.updated_at)
      → db.bundles organization_id eval_run_id ≡ some bundle
      → H db
      → Triple H IsFinal
          (hand_over to_vec into_bytes digest libraries organization_id eval_run_id now bundle run
            state updated_at)
          db
  unfolding hand_over
  hand_over-Triple bundle run row state updated_at db at (o, i, s) (sha, q) expected held h =
      let handed = record run { state = evaluating; updated_at = now } in
      let after = updated organization_id eval_run_id handed row db in
      let done : Handed organization_id eval_run_id bundle after = (
        with_columns handed row,
        updated-At organization_id eval_run_id handed row db at,
        refl,
        sha,
        q,
        held,
      ) in
      rw (begin_evaluating run now s) (
        chain-Triple H IsFinal (λ _ d. Handed organization_id eval_run_id bundle d)
          (persist_run_update libraries.display handed state updated_at) _ db
          (persist-Triple organization_id eval_run_id libraries.display H _ handed row state
            updated_at db at o i expected h (inr (bundle, done)) done)
          (λ _ d handed_over.
            call-Triple H IsFinal (enqueue job) _ d (record d { jobs = enqueue_job job d.jobs }) tt
              refl (inr (bundle, handed_over)) (inr (bundle, handed_over))
              (λ faults. ((handed_over, enqueue_job-IsQueued job d.jobs), λ e. e))))

  abbrev Row : EvaluationRun → Type 0
  Row run =
      (run.organization_id ≡ organization_id) × (run.id ≡ eval_run_id) × (run.state ≡ finalizing)

  -- A run in `Finalizing` without evidence.
  abbrev Closing : EvaluationRun → Database num → Type 0
  Closing run db =
      Row run
      × (db.bundles organization_id eval_run_id ≡ none)
      × ((row : EvaluationRun) × AtRow row db
          × (row.state ≡ finalizing)
          × (run.state ≡ row.state)
          × (run.updated_at ≡ row.updated_at))

  Closing-held : (run : EvaluationRun) (db : Database num) → Closing run db → H db
  Closing-held run db (_, none_yet, (row, at, s, _, _)) = inl (closing row at s none_yet)

  pub insert_new :
      (bundle : EvidenceBundle num) (db : Database num)
      → bundle.organization_id ≡ organization_id
      → bundle.eval_run_id ≡ eval_run_id
      → db.bundles organization_id eval_run_id ≡ none
      → insert_bundle bundle db
        ≡ (ok tt, record db { bundles = put db.bundles organization_id eval_run_id (some bundle) })
  unfolding insert_bundle
  insert_new bundle db o i e = rw (o, i, e) refl

  finalize_evidence_of-Triple :
      (run : EvaluationRun) (db : Database num)
      → Closing run db
      → Triple H IsFinal
          (finalize_evidence_of to_vec into_bytes digest libraries organization_id eval_run_id now
            run)
          db
  unfolding finalize_evidence_of finalize_observed_spans
  finalize_evidence_of-Triple run db c =
      let ((o, i, s), none_yet, (row, at, rs, es, eu)) = c in
      let spans = listed_spans organization_id eval_run_id db in
      let bundle =
        observed_bundle to_vec into_bytes digest libraries organization_id eval_run_id now run
          spans in
      let after = record db {
        bundles = put db.bundles organization_id eval_run_id (some bundle);
      } in
      let there = put-same db.bundles organization_id eval_run_id (some bundle) in
      let held : H after = inl (stored row bundle at rs there) in
      call-Triple H IsFinal (list_spans organization_id eval_run_id) _ db db spans refl
        (Closing-held run db c) (Closing-held run db c)
        (call-Triple H IsFinal (insert_bundle bundle) _ db after tt
          (insert_new bundle db refl refl none_yet) (Closing-held run db c) held
          (hand_over-Triple bundle _ row run.state run.updated_at after at (o, i, s) (refl, refl)
            (es, eu) there held))

  is_over :
      (until : Option OffsetDateTime)
      → ((deadline : OffsetDateTime) → until ≡ some deadline → deadline ≤ from)
      → from ≤ now
      → is_some_and until (λ deadline. ltb now deadline) ≡ false
  is_over none h le = refl
  is_over (some deadline) h le = let d = h deadline refl in ground (arith, d, le)

  close_due :
      (row : EvaluationRun) (db : Database num)
      → AtRow row db
      → row.state ≡ settling
      → IsDue from row
      → from ≤ now
      → db.bundles organization_id eval_run_id ≡ none
      → Triple H Closing
          (close_run to_vec into_bytes digest libraries organization_id eval_run_id now row)
          db
  unfolding close_run
  close_due row db at s is_due le none_yet =
      let closed = record row { state = finalizing; updated_at = now } in
      let after = updated organization_id eval_run_id closed row db in
      let there = updated-At organization_id eval_run_id closed row db at in
      let c : Closing closed after =
        ((at.1, at.2, refl), none_yet, (with_columns closed row, there, refl, refl, refl)) in
      rw
        (
          (same_iff EvaluationRunState-discrete row.state settling).1 s,
          is_over row.settle_until is_due le,
          begin_finalizing row now s,
        )
        (chain-Triple H Closing (λ _ d. Closing closed d)
          (persist_run_update libraries.display closed row.state row.updated_at) _ db
          (persist-Triple organization_id eval_run_id libraries.display H _ closed row row.state
            row.updated_at db at at.1 at.2 (refl, refl) (inl (due row at s is_due none_yet))
            (Closing-held closed after c) c)
          (λ _ d still faults. (still, λ e. e)))

  pub is_closing :
      (state : EvaluationRunState)
      → state ≡ finalizing
      → (same EvaluationRunState-discrete state settling ≡ false)
        × (same EvaluationRunState-discrete state finalizing ≡ true)
  unfolding EvaluationRunState-discrete
  is_closing state e = rw e (refl, refl)

  close-Closing :
      (row : EvaluationRun) (db : Database num)
      → Closing row db
      → Triple H Closing
          (close_run to_vec into_bytes digest libraries organization_id eval_run_id now row)
          db
  unfolding close_run
  close-Closing row db c faults =
      let (other, this) = is_closing row.state c.0.2 in rw (other, this) (c, λ e. e)

  abbrev Open : Database num → Type 0
  Open = IsOpen organization_id eval_run_id from

  first_finalization-Triple :
      (row : EvaluationRun) (db : Database num)
      → Triple H Closing
          (close_run to_vec into_bytes digest libraries organization_id eval_run_id now row)
          db
      → Triple H IsFinal
          (first_finalization to_vec into_bytes digest libraries organization_id eval_run_id now
            row)
          db
  unfolding first_finalization
  first_finalization-Triple row db closes =
      chain-Triple H IsFinal Closing
        (close_run to_vec into_bytes digest libraries organization_id eval_run_id now row) _ db
        closes finalize_evidence_of-Triple

  pub load_run-Triple :
      (K : Database num → Type 0) (bundle : Option (EvidenceBundle num)) (row : EvaluationRun)
      (db : Database num) (Done : EvidenceBundle num → Database num → Type 0)
      → AtRow row db
      → db.bundles organization_id eval_run_id ≡ bundle
      → K db
      → Triple K Done
          (finalize_with to_vec into_bytes digest libraries organization_id eval_run_id now bundle
            row)
          db
      → Triple K Done
          (finalize_run to_vec into_bytes digest libraries organization_id eval_run_id now)
          db
  unfolding finalize_run load_run
  load_run-Triple K bundle row db Done at e h rest =
      let next : EvaluationRun → Service num (EvidenceBundle num) =
        finalize_with to_vec into_bytes digest libraries organization_id eval_run_id now bundle in
      let Mid : EvaluationRun → Database num → Type 0 = λ r d. Triple K Done (next r) d in
      call-Triple K Done (get_bundle organization_id eval_run_id) _ db db bundle (rw e refl) h h (
        chain-Triple K Done Mid
          (load_run to_vec into_bytes digest libraries organization_id eval_run_id now) next db
          (call-Triple K Mid (get_run organization_id eval_run_id)
            (found (libraries.display eval_run_id)) db db (some row) (rw at.0 refl) h h
            (λ faults. (rest, λ q. q)))
          (λ r d t. t))

  -- Whatever calls of it fail, the finalization of an open run gives final evidence, or leaves the
  -- run open or handed over.
  pub finalize_run-Open :
      (db : Database num)
      → from ≤ now
      → Open db
      → Triple H IsFinal
          (finalize_run to_vec into_bytes digest libraries organization_id eval_run_id now)
          db
  finalize_run-Open db le (due row at s is_due e) =
      load_run-Triple H none row db IsFinal at e (inl (due row at s is_due e))
        (first_finalization-Triple row db (close_due row db at s is_due le e))
  finalize_run-Open db le (closing row at s e) =
      load_run-Triple H none row db IsFinal at e (inl (closing row at s e)) (
        first_finalization-Triple row db
          (close-Closing row db ((at.1, at.2, s), e, (row, at, s, refl, refl))))
  finalize_run-Open db le (stored row bundle at s e) =
      load_run-Triple H (some bundle) row db IsFinal at e (inl (stored row bundle at s e)) (
        rw (is_closing row.state s).1 (
          hand_over-Triple bundle
            (record (with_evidence bundle row) { finalized_at = bundle.finalized_at }) row row.state
            row.updated_at db at (at.1, at.2, s) (refl, refl) (refl, refl) e
            (inl (stored row bundle at s e))))
