-- ===== src/Telemetry.antt =====
-- crates/governance-telemetry/src/lib.rs: spans, their limits, redaction and trace quality.
pub mod Redaction
pub mod Limits
pub mod Correlation
pub mod Inference
pub mod Causal
pub mod Normalization
pub mod Finalization
pub mod Quality
pub mod Defaults
mod Tests
use featherlane_ai.Prelude.{Option, List, String}
use featherlane_ai.Json.{Numbers, Attributes}
use featherlane_ai.Domain.Ids.{OrganizationId, EvalRunId, InvocationId, ScenarioId, OffsetDateTime}

pub record SpanLink : Type 0 where
  pub trace_id : String
  pub span_id : String

pub record TraceSpan (num : Numbers) : Type 0 where
  pub trace_id : String
  pub span_id : String
  pub parent_span_id : Option String
  pub links : List SpanLink
  pub name : String
  pub started_at : OffsetDateTime
  pub ended_at : Option OffsetDateTime
  pub attributes : Attributes num
  pub resource_attributes : Attributes num
  pub instrumentation_scope : Option String
  pub status : Option String

pub record NormalizationContext : Type 0 where
  pub organization_id : OrganizationId
  pub eval_run_id : EvalRunId
  pub invocation_id : InvocationId
  pub scenario_id : ScenarioId
