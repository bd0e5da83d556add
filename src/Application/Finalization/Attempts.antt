-- ===== src/Application/Finalization/Attempts.antt =====
-- Finalization that is attempted again and again.
use featherlane_ai.Prelude.{
  ◌≤◌, same, false, ◌≡◌, refl, sym, subst, inl, inr, some, List, [], String, All, Result,
}
use featherlane_ai.Json.{Numbers}
use featherlane_ai.Domain.Ids.{OrganizationId, EvalRunId, OffsetDateTime}
use featherlane_ai.Domain.Events.{EvidenceBundle}
use featherlane_ai.Domain.Run.{
  EvaluationRunState, EvaluationRunState-discrete, finalizing, evaluating,
}
use featherlane_ai.Telemetry.Normalization.{Libraries}
use featherlane_ai.Telemetry.Finalization.{CanonicalEvidence}
use featherlane_ai.Persistence.{Database}
use featherlane_ai.Application.Calls.{Service}
use featherlane_ai.Application.Calls.Faults.{Triple, widen-Triple}
use featherlane_ai.Application.Calls.Attempts.{
  Attempt, attempt, attempts, Succeeds, attempts-same, attempt-Succeeds,
}
use featherlane_ai.Application.Finalization.{finalize_run}
use featherlane_ai.Application.Finalization.Stages.{Handed, IsOpen, Held}
use featherlane_ai.Application.Finalization.Recovery.{finalize_run-Open, load_run-Triple}

module _ {num : Numbers} {Bytes : Type 0} (to_vec : CanonicalEvidence num → Result String Bytes)
    (into_bytes : String → Bytes) (digest : Bytes → String) (libraries : Libraries num)
    (organization_id : OrganizationId) (eval_run_id : EvalRunId) where
  abbrev pub service : OffsetDateTime → Service num (EvidenceBundle num)
  service now = finalize_run to_vec into_bytes digest libraries organization_id eval_run_id now

  is_handed :
      (state : EvaluationRunState)
      → state ≡ evaluating
      → same EvaluationRunState-discrete state finalizing ≡ false
  unfolding EvaluationRunState-discrete
  is_handed state e = rw e refl

  -- A run that was handed over stays tries it is.
  pub Handed-Triple :
      (now : OffsetDateTime) (bundle : EvidenceBundle num) (db : Database num)
      → Handed organization_id eval_run_id bundle db
      → Triple
          (λ d. d ≡ db)
          (λ c d. (c ≡ bundle) × (d ≡ db))
          (finalize_run to_vec into_bytes digest libraries organization_id eval_run_id now)
          db
  Handed-Triple now bundle db (row, at, s, sha, q, e) =
      load_run-Triple to_vec into_bytes digest libraries organization_id eval_run_id now now
        (λ d. d ≡ db) (some bundle) row db (λ c d. (c ≡ bundle) × (d ≡ db)) at e refl
        (rw (is_handed row.state s) (λ faults. ((refl, refl), λ q. q)))

  -- No attempt to finalize a run that was handed over changes anything.
  pub stays-Handed :
      (bundle : EvidenceBundle num) (later : List (Attempt OffsetDateTime)) (db : Database num)
      → Handed organization_id eval_run_id bundle db
      → attempts service later db ≡ db
  stays-Handed bundle later db h =
      attempts-same service db
        (λ now.
          widen-Triple (λ _ e. e) (λ _ _ kept. kept.1) (service now) db
            (Handed-Triple now bundle db h))
        later

  Held-Triple :
      (from now : OffsetDateTime) (db : Database num)
      → from ≤ now
      → Held organization_id eval_run_id from db
      → Triple
          (Held organization_id eval_run_id from)
          (Handed organization_id eval_run_id)
          (service now)
          db
  Held-Triple from now db le (inl pending_run) =
      widen-Triple (λ _ h. h) (λ _ _ final. final.0) (service now) db
        (finalize_run-Open to_vec into_bytes digest libraries organization_id eval_run_id from now
          db le pending_run)
  Held-Triple from now db le (inr (bundle, handed)) =
      widen-Triple
        (λ d e. inr (bundle, subst (Handed organization_id eval_run_id bundle) (sym e) handed))
        (λ c d (q, e).
          subst (λ b. Handed organization_id eval_run_id b d) (sym q)
            (subst (Handed organization_id eval_run_id bundle) (sym e) handed))
        (service now) db (Handed-Triple now bundle db handed)

  -- However many attempts to finalize an open run fail, and wherever they are cut off, the next one
  -- whose calls do not fail succeeds: it returns the evidence that is stored, and the run, which
  -- records its digest and its quality, is to be evaluated.
  pub finalize_run-recovers :
      (from last : OffsetDateTime) (earlier : List (Attempt OffsetDateTime)) (db : Database num)
      → All (λ a. from ≤ a.0) earlier
      → from ≤ last
      → IsOpen organization_id eval_run_id from db
      → Succeeds service
          (Handed organization_id eval_run_id)
          (attempt service (last, []) (attempts service earlier db))
  finalize_run-recovers from last earlier db late le pending_run =
      attempt-Succeeds service (λ now. from ≤ now) (Held organization_id eval_run_id from)
        (Handed organization_id eval_run_id) (λ bundle d h. inr (bundle, h)) (Held-Triple from) last
        earlier db late le (inl pending_run)
