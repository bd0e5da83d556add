-- ===== src/Application/Finalization.antt =====
-- crates/governance-application/src/evaluation_runs.rs: `FinalizeEvaluationRun`, which closes the
-- evidence of a run and hands the run over to its evaluation.
pub mod Stages
pub mod Recovery
pub mod Attempts
pub mod LostJob
use Prim.Native.String.{◌++◌ as str_append}
use featherlane_ai.Prelude.{
  ℕ, ltb, Bool, true, false, not, Option, none, some, List, [], ◌∷◌, ◌++◌, map, String, same,
  length, is_some_and, if◌then◌else◌, Result,
}
use featherlane_ai.Json.{Numbers, Attributes}
use featherlane_ai.Domain.Ids.{OrganizationId, EvalRunId, OffsetDateTime}
use featherlane_ai.Domain.Events.{EvidenceBundle}
use featherlane_ai.Domain.Run.{
  EvaluationRun, EvaluationRunState, EvaluationRunState-discrete, settling, finalizing, evaluating,
  state_debug, transition_to,
}
use featherlane_ai.Telemetry.{TraceSpan}
use featherlane_ai.Telemetry.Redaction.{RedactionPolicy}
use featherlane_ai.Telemetry.Defaults.{default_policy, with_allowed_attributes}
use featherlane_ai.Telemetry.Normalization.{Libraries}
use featherlane_ai.Telemetry.Finalization.{CanonicalEvidence, finalize_observed_spans}
use featherlane_ai.Persistence.{get_run, update_run, get_bundle, insert_bundle, enqueue, list_spans}
use featherlane_ai.Application.Ports.{conflict, DurableJob}
use featherlane_ai.Application.Calls.{Service, call, pure, fail, found, ◌>>=◌, settled_run}

module _ {num : Numbers} where
  abbrev pub keys : Attributes num → List String
  keys = map (λ entry. entry.0)

  abbrev pub all_keys : List (TraceSpan num) → List String
  all_keys [] = []
  all_keys (span ∷ spans) = keys span.attributes ++ keys span.resource_attributes ++ all_keys spans

  -- Every attribute of the spans is allowed: they were filtered when they were received.
  abbrev pub finalization_redaction : List (TraceSpan num) → RedactionPolicy
  finalization_redaction spans = with_allowed_attributes default_policy (all_keys spans)

  abbrev pub changed_concurrently : String → Bool → Service num (Unit {0})
  changed_concurrently what true = pure tt
  changed_concurrently what false = fail (conflict what)

  unfoldable pub persist_run_update :
      (ℕ → String) → EvaluationRun → EvaluationRunState → OffsetDateTime → Service num (Unit {0})
  persist_run_update display run expected_state expected_updated_at = do
    changed ← call (update_run run expected_state expected_updated_at)
    changed_concurrently
        (str_append "evaluation run " (str_append (display run.id) " changed concurrently")) changed

  -- The run with what its evidence says.
  abbrev pub with_evidence : EvidenceBundle num → EvaluationRun → EvaluationRun
  with_evidence bundle run = record run {
    trace_count = length bundle.trace_ids;
    event_count = length bundle.events;
    trace_quality = some bundle.trace_quality;
    evidence_sha256 = some bundle.evidence_sha256;
  }

module _ {num : Numbers} {Bytes : Type 0} (to_vec : CanonicalEvidence num → Result String Bytes)
    (into_bytes : String → Bytes) (digest : Bytes → String) (libraries : Libraries num)
    (organization_id : OrganizationId) (eval_run_id : EvalRunId) (now : OffsetDateTime) where
  open libraries use {display}

  abbrev pub evaluate_job : DurableJob
  evaluate_job = record {
    organization_id = organization_id;
    eval_run_id = eval_run_id;
    kind = "evaluate_evidence";
    dedupe_key = str_append "evaluate:" (display eval_run_id);
    available_at = now;
  }

  -- The last steps of both paths: the run with its evidence is to be evaluated.
  unfoldable pub hand_over :
      EvidenceBundle num
      → EvaluationRun
      → EvaluationRunState
      → OffsetDateTime
      → Service num (EvidenceBundle num)
  hand_over bundle run expected_state expected_updated_at = do
    handed ← settled_run (transition_to run evaluating now)
    _ ← persist_run_update display handed expected_state expected_updated_at
    _ ← call (enqueue evaluate_job)
    pure bundle

  unfoldable pub load_run : Service num EvaluationRun
  load_run = do row ← call (get_run organization_id eval_run_id); found (display eval_run_id) row

  -- The evidence is stored, and an earlier call may have been cut off after that.
  abbrev pub recover_run : EvidenceBundle num → EvaluationRun → Service num (EvidenceBundle num)
  recover_run bundle run =
      if same EvaluationRunState-discrete run.state finalizing
      then hand_over bundle
          (record (with_evidence bundle run) { finalized_at = bundle.finalized_at }) run.state
          run.updated_at
      else pure bundle

  -- From `Settling` to `Finalizing`, where the run is not there yet.
  unfoldable pub close_run : EvaluationRun → Service num EvaluationRun
  close_run run =
      if same EvaluationRunState-discrete run.state settling
      then (if is_some_and run.settle_until (λ deadline. ltb now deadline)
          then fail (conflict "run is still settling")
          else (do
            closed ← settled_run (transition_to run finalizing now)
            _ ← persist_run_update display closed run.state run.updated_at
            pure closed))
      else if not (same EvaluationRunState-discrete run.state finalizing)
      then fail (conflict (str_append "run cannot finalize from " (state_debug run.state)))
      else pure run

  abbrev pub observed_bundle : EvaluationRun → List (TraceSpan num) → EvidenceBundle num
  observed_bundle run spans =
      finalize_observed_spans to_vec into_bytes digest libraries
        (record {
          organization_id = organization_id;
          eval_run_id = eval_run_id;
          invocation_id = run.primary_invocation_id;
          scenario_id = run.scenario_id;
        })
        (record {
          target_version = run.target_version;
          policy_content_sha256 = run.policy_content_sha256;
          completion_reason = run.completion_reason;
          terminal_state = run.terminal_state;
          finalized_at = now;
        })
        spans [] (finalization_redaction spans)

  unfoldable pub finalize_evidence_of : EvaluationRun → Service num (EvidenceBundle num)
  finalize_evidence_of run = do
    spans ← call (list_spans organization_id eval_run_id)
    _ ← call (insert_bundle (observed_bundle run spans))
    hand_over (observed_bundle run spans)
        (record (with_evidence (observed_bundle run spans) run) {
          span_count = length spans;
          finalized_at = some now;
        })
        run.state run.updated_at

  unfoldable pub first_finalization : EvaluationRun → Service num (EvidenceBundle num)
  first_finalization run = do closed ← close_run run; finalize_evidence_of closed

  abbrev pub finalize_with :
      Option (EvidenceBundle num) → EvaluationRun → Service num (EvidenceBundle num)
  finalize_with (some bundle) run = recover_run bundle run
  finalize_with none run = first_finalization run

  unfoldable pub finalize_run : Service num (EvidenceBundle num)
  finalize_run = do
    stored ← call (get_bundle organization_id eval_run_id)
    run ← load_run
    finalize_with stored run
