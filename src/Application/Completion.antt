-- ===== src/Application/Completion.antt =====
-- crates/governance-application/src/evaluation_runs.rs: `CompleteEvaluationRun` and
-- `CancelEvaluationRun`; and apps/governance-worker/src/main.rs: the timeout of a run.
pub mod Recovery
pub mod LostJob
use Prim.Native.String.{◌++◌ as str_append}
use featherlane_ai.Prelude.{
  ℕ, ◌+◌, ◌*◌, min, ◌||◌, Option, some, String, unwrap_or, same, if◌then◌else◌,
}
use featherlane_ai.Json.{Numbers}
use featherlane_ai.Domain.Ids.{OrganizationId, EvalRunId, OffsetDateTime}
use featherlane_ai.Domain.Events.{CompletionReason}
use featherlane_ai.Domain.Run.{
  EvaluationRun, EvaluationRunState-discrete, created, collecting, cancelled, transition_to,
  begin_settling,
}
use featherlane_ai.Persistence.{get_run, enqueue}
use featherlane_ai.Application.Ports.{DurableJob}
use featherlane_ai.Application.Calls.{Service, call, pure, found, ◌>>=◌, settled_run}
use featherlane_ai.Application.Finalization.{persist_run_update}

pub record CompletionRequest : Type 0 where
  pub organization_id : OrganizationId
  pub eval_run_id : EvalRunId
  pub reason : CompletionReason
  pub terminal_state : Option String
  pub settle_seconds : ℕ

-- At most 300 seconds from now, in nanoseconds.
abbrev pub settle_end : CompletionRequest → OffsetDateTime → OffsetDateTime
settle_end request now = now + min request.settle_seconds 300 * 1000000000

abbrev pub finalize_job : (ℕ → String) → EvaluationRun → OffsetDateTime → DurableJob
finalize_job display run now = record {
  organization_id = run.organization_id;
  eval_run_id = run.id;
  kind = "finalize_evaluation_run";
  dedupe_key = str_append "finalize:" (display run.id);
  available_at = unwrap_or run.settle_until now;
}

-- The request of a timeout.
abbrev pub timed_out : OrganizationId → EvalRunId → CompletionReason → CompletionRequest
timed_out organization_id eval_run_id reason = record {
  organization_id = organization_id;
  eval_run_id = eval_run_id;
  reason = reason;
  terminal_state = some "timed_out";
  settle_seconds = 0;
}

module _ {num : Numbers} (display : ℕ → String) where
  unfoldable pub fetch_run : OrganizationId → EvalRunId → Service num EvaluationRun
  fetch_run organization_id eval_run_id = do
    row ← call (get_run organization_id eval_run_id)
    found (display eval_run_id) row

  unfoldable pub schedule :
      EvaluationRun → EvaluationRun → OffsetDateTime → Service num EvaluationRun
  schedule before run now = do
    _ ← persist_run_update display run before.state before.updated_at
    _ ← call (enqueue (finalize_job display run now))
    pure run

  unfoldable pub settle_run :
      CompletionRequest → OffsetDateTime → EvaluationRun → Service num EvaluationRun
  settle_run request now before = do
    run ←
        settled_run
          (begin_settling before request.reason request.terminal_state (settle_end request now) now)
    schedule before run now

  unfoldable pub complete_run : CompletionRequest → OffsetDateTime → Service num EvaluationRun
  complete_run request now = do
    before ← fetch_run request.organization_id request.eval_run_id
    settle_run request now before

  unfoldable pub cancel_run :
      OrganizationId → EvalRunId → OffsetDateTime → Service num EvaluationRun
  cancel_run organization_id eval_run_id now = do
    before ← fetch_run organization_id eval_run_id
    run ← settled_run (transition_to before cancelled now)
    _ ← persist_run_update display run before.state before.updated_at
    pure run

  -- What a timeout does with the run.
  unfoldable pub time_out :
      OrganizationId
      → EvalRunId
      → CompletionReason
      → OffsetDateTime
      → EvaluationRun
      → Service num (Unit {0})
  time_out organization_id eval_run_id reason now run =
      if same EvaluationRunState-discrete run.state created
        || same EvaluationRunState-discrete run.state collecting
      then (do _ ← complete_run (timed_out organization_id eval_run_id reason) now; pure tt)
      else pure tt

  -- `process_timeout`, whose outcome is that its job is complete.
  unfoldable pub process_timeout :
      OrganizationId → EvalRunId → CompletionReason → OffsetDateTime → Service num (Unit {0})
  process_timeout organization_id eval_run_id reason now = do
    run ← fetch_run organization_id eval_run_id
    time_out organization_id eval_run_id reason now run
