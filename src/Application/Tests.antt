-- ===== src/Application/Tests.antt =====
-- Runs whose services are cut off.
use featherlane_ai.Prelude.{
  ℕ, ◌==◌, ==_iff, leb, ◌≡◌, refl, inr, none, some, List, [], ◌∷◌, String, length, Result, ok,
  arith, ◌&&◌, if◌then◌else◌,
}
use featherlane_ai.Json.{Numbers}
use featherlane_ai.Domain.Events.{
  EvidenceBundle, PolicyPack, EvaluationSummary, approved, insufficient, explicit, max_duration,
}
use featherlane_ai.Domain.Run.{
  EvaluationRun, collecting, settling, finalizing, evaluating, agent_task,
}
use featherlane_ai.Telemetry.Normalization.{Libraries}
use featherlane_ai.Telemetry.Finalization.{CanonicalEvidence}
use featherlane_ai.Persistence.{Database}
use featherlane_ai.Application.Ports.{ApplicationError, repository}
use featherlane_ai.Application.Calls.{Service, fine, down, lost}
use featherlane_ai.Application.Calls.Attempts.{Attempt, attempt, attempts, Succeeds}
use featherlane_ai.Application.Finalization.Stages.{At, Handed, closing}
use featherlane_ai.Application.Finalization.Attempts.{service, finalize_run-recovers}
use featherlane_ai.Application.Finalization.LostJob.{crash, finalize_run-loses_job}
use featherlane_ai.Application.Completion.{CompletionRequest, complete_run}
use featherlane_ai.Application.Completion.LostJob
use featherlane_ai.Application.Evaluation.Recovery.{Reading}
use featherlane_ai.Application.Evaluation.Recovery

abbrev counting : Numbers
counting = record {
  Number = ℕ;
  F64 = ℕ;
  number_eq = λ m n. m == n;
  number_eq_iff = ==_iff;
  as_f64 = some;
  f64_le = leb;
}

abbrev libraries : Libraries counting
libraries = record {
  parse_str = λ s. none;
  new_v5 = λ o s. 1;
  display = λ i. "run";
  from_str = λ s. none;
}

abbrev run : EvaluationRun
run = record {
  id = 2;
  organization_id = 1;
  target_id = "agent";
  target_version = "1";
  policy_pack_id = 3;
  policy_pack_key = "refunds";
  policy_pack_version = 1;
  policy_content_sha256 = "sha";
  scenario_id = 4;
  rule_ids = [];
  boundary_kind = agent_task;
  external_run_id = none;
  primary_invocation_id = 5;
  state = finalizing;
  completion_reason = none;
  terminal_state = none;
  verdict = none;
  trace_quality = none;
  evidence_sha256 = none;
  span_count = 0;
  trace_count = 0;
  event_count = 0;
  created_at = 1;
  updated_at = 6;
  last_seen_at = none;
  settle_until = some 5;
  hard_deadline_at = 100;
  finalized_at = none;
  completed_at = none;
}

abbrev tables : Database counting
tables = record {
  runs = λ o i. if (o == 1) && (i == 2) then some run else none;
  bundles = λ o i. none;
  summaries = λ o i. none;
  packs = λ o i. none;
  jobs = [];
  spans = [];
}

abbrev to_vec : CanonicalEvidence counting → Result String ℕ
to_vec evidence = ok (length evidence.events)

abbrev broken : ApplicationError
broken = repository "connection reset"

-- The first attempt stores nothing, the second loses the answer of the insertion.
abbrev earlier : List (Attempt ℕ)
earlier = (6, fine ∷ down broken ∷ []) ∷ (7, fine ∷ fine ∷ fine ∷ lost broken ∷ []) ∷ []

abbrev finalize : ℕ → Service counting (EvidenceBundle counting)
finalize = service to_vec (λ s. 0) (λ n. "sha") libraries 1 2

finalize_run-recovers_example :
    Succeeds finalize (Handed 1 2) (attempt finalize (8, []) (attempts finalize earlier tables))
finalize_run-recovers_example =
    finalize_run-recovers to_vec (λ s. 0) (λ n. "sha") libraries 1 2 5 8 earlier tables
      (omega arith, (omega arith, tt)) (omega arith) (closing run (refl, refl, refl) refl refl)

finalize_run-loses_job_example :
    let left =
      attempts finalize
        ((9, []) ∷ [])
        (attempt finalize
          (8, crash to_vec (λ s. 0) (λ n. "sha") libraries 1 2 8 broken)
          tables).1.database in
    (left.jobs ≡ []) × ((bundle : EvidenceBundle counting) × Handed 1 2 bundle left)
finalize_run-loses_job_example =
    finalize_run-loses_job to_vec (λ s. 0) (λ n. "sha") libraries 1 2 8 broken run tables
      ((9, []) ∷ []) (refl, refl, refl) refl refl

abbrev empty_pack : PolicyPack counting
empty_pack = record {
  id = 3;
  organization_id = 1;
  key = "refunds";
  version = 1;
  title = "Refunds";
  status = approved;
  content_sha256 = "sha";
  published_at = none;
  rules = [];
}

abbrev evidence : EvidenceBundle counting
evidence = record {
  schema_version = "1.1";
  organization_id = 1;
  eval_run_id = 2;
  invocation_id = 5;
  invocation_ids = 5 ∷ [];
  scenario_id = 4;
  target_version = "1";
  policy_content_sha256 = "sha";
  trace_ids = [];
  completion_reason = none;
  terminal_state = none;
  events = [];
  side_effects = [];
  trace_quality = insufficient;
  trace_defects = [];
  finalized_at = none;
  evidence_sha256 = "sha";
}

abbrev handed_tables : Database counting
handed_tables = record tables {
  runs = λ o i. if (o == 1) && (i == 2) then some (record run { state = evaluating }) else none;
  bundles = λ o i. some evidence;
  packs = λ o i. some empty_pack;
}

abbrev reading : Reading
reading = (9, 8, λ n. n)

-- The answer to the saving of the summary is lost.
abbrev cut_off : List (Attempt Reading)
cut_off = (reading, fine ∷ fine ∷ fine ∷ fine ∷ lost broken ∷ []) ∷ []

abbrev evaluate : Reading → Service counting EvaluationSummary
evaluate = Recovery.service (λ s. none) (λ i. "run") 1 2

abbrev running : EvaluationRun
running = record run { state = collecting }

abbrev collecting_tables : Database counting
collecting_tables = record tables {
  runs = λ o i. if (o == 1) && (i == 2) then some running else none;
}

abbrev request : CompletionRequest
request = record {
  organization_id = 1;
  eval_run_id = 2;
  reason = explicit;
  terminal_state = some "done";
  settle_seconds = 10;
}

abbrev complete : ℕ → Service counting EvaluationRun
complete = complete_run (λ i. "run") request

abbrev time : ℕ → Service counting (Unit {0})
time = LostJob.timeout (λ i. "run") 1 2 max_duration

process_timeout-loses_job_example :
    let left =
      attempts time
        ((9, []) ∷ [])
        (attempt time (8, LostJob.crash broken) collecting_tables).1.database in
    (left.jobs ≡ []) × ((r : EvaluationRun) × At 1 2 r left × (r.state ≡ settling))
process_timeout-loses_job_example =
    LostJob.process_timeout-loses_job (λ i. "run") 1 2 max_duration 8 broken running
      collecting_tables ((9, []) ∷ []) (refl, refl, refl) (inr refl, refl)
