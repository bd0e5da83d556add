-- ===== src/Application/Ports.antt =====
-- crates/governance-application/src/lib.rs and evaluation_runs.rs: the errors of the services, and
-- the jobs that they queue.
use featherlane_ai.Prelude.{String}
use featherlane_ai.Domain.Ids.{OrganizationId, EvalRunId, OffsetDateTime}

pub data ApplicationError : Type 0 where
  repository not_found forbidden invalid_request : String → ApplicationError
  conflict unavailable target_transport : String → ApplicationError
  target_timeout target_contract : String → ApplicationError

pub record DurableJob : Type 0 where
  pub organization_id : OrganizationId
  pub eval_run_id : EvalRunId
  pub kind : String
  pub dedupe_key : String
  pub available_at : OffsetDateTime
