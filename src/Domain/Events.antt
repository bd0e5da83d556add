-- ===== src/Domain/Events.antt =====
-- crates/governance-domain/src/lib.rs: events, rules, evidence and results.
use featherlane_ai.Prelude.{ℕ, Bool, Option, List, [], ◌∷◌, String, find, str_eq}
use featherlane_ai.Json.{Numbers, Value, Attributes}
use featherlane_ai.Domain.Ids.{
  OrganizationId, SourceId, ObligationId, PolicyPackId, ScenarioId, EvalRunId, InvocationId,
  EventId, RuleResultId, OffsetDateTime,
}

pub data SourceType : Type 0 where
  primary_law official_guidance standard company_policy expert_interpretation : SourceType

pub data ReviewStatus : Type 0 where
  draft approved disabled rejected : ReviewStatus

pub data SourceConfidence : Type 0 where
  official_verified snapshot_official_provenance : SourceConfidence
  snapshot_unverified_provenance quarantined : SourceConfidence

pub record SourceLocator : Type 0 where
  pub page : Option ℕ
  pub page_end : Option ℕ
  pub section : Option String
  pub paragraph_start : Option ℕ
  pub paragraph_end : Option ℕ
  pub source_url : Option String
  pub excerpt_sha256 : String

pub record ReviewerApproval : Type 0 where
  pub status : ReviewStatus
  pub reviewer_id : String
  pub reviewed_at : OffsetDateTime

pub record Source : Type 0 where
  pub id : SourceId
  pub organization_id : OrganizationId
  pub source_type : SourceType
  pub title : String
  pub jurisdiction : String
  pub effective_from : Option OffsetDateTime
  pub content_sha256 : String
  pub confidence : SourceConfidence

pub record Obligation (num : Numbers) : Type 0 where
  pub id : ObligationId
  pub organization_id : OrganizationId
  pub source_id : SourceId
  pub key : String
  pub statement : String
  pub locator : SourceLocator
  pub applicability : Value num
  pub exceptions : List String
  pub required_evidence : List String
  pub review : Option ReviewerApproval

pub data Severity : Type 0 where
  critical high medium advisory : Severity

pub data MissingEvidencePolicy : Type 0 where
  not_observable fail error : MissingEvidencePolicy

pub data EventType : Type 0 where
  scenario_input agent_start model_call model_result tool_call tool_result : EventType
  retrieval handoff guardrail_decision human_approval_request : EventType
  human_approval_decision final_output side_effect retry error timeout : EventType
  cancellation unclassified : EventType

pub record NumericArgumentMatcher (num : Numbers) : Type 0 where
  pub path : String
  pub greater_than : num.F64

pub record EventMatcher (num : Numbers) : Type 0 where
  pub event_type : EventType
  pub name : Option String
  pub attribute_equals : Attributes num
  pub numeric_argument : Option (NumericArgumentMatcher num)

pub data RuleAssertion (num : Numbers) : Type 0 where
  exists_before : EventMatcher num → RuleAssertion num
  absent : EventMatcher num → RuleAssertion num
  max_count : EventMatcher num → ℕ → RuleAssertion num
  terminal_state : String → RuleAssertion num

pub record CompiledRule (num : Numbers) : Type 0 where
  pub id : String
  pub version : ℕ
  pub obligation_key : String
  pub severity : Severity
  pub trigger : EventMatcher num
  pub assertions : List (RuleAssertion num)
  pub evidence_required : List String
  pub on_missing_evidence : MissingEvidencePolicy

pub record PolicyPack (num : Numbers) : Type 0 where
  pub id : PolicyPackId
  pub organization_id : OrganizationId
  pub key : String
  pub version : ℕ
  pub title : String
  pub status : ReviewStatus
  pub content_sha256 : String
  pub published_at : Option OffsetDateTime
  pub rules : List (CompiledRule num)

pub record PolicyBundle (num : Numbers) : Type 0 where
  pub pack : PolicyPack num
  pub sources : List Source
  pub obligations : List (Obligation num)

pub data ActorType : Type 0 where
  user agent model tool human system : ActorType

pub record Actor : Type 0 where
  pub actor_type : ActorType
  pub id : String

pub record ObservedEvent (num : Numbers) : Type 0 where
  pub event_type : EventType
  pub name : String
  pub actor : Actor
  pub input : Value num
  pub output : Value num
  pub attributes : Attributes num

pub record NormalizedEvent (num : Numbers) : Type 0 where
  pub schema_version : String
  pub organization_id : OrganizationId
  pub eval_run_id : EvalRunId
  pub invocation_id : InvocationId
  pub scenario_id : ScenarioId
  pub trace_id : String
  pub id : EventId
  pub parent_event_id : Option EventId
  pub linked_event_ids : List EventId
  pub sequence : ℕ
  pub started_at : OffsetDateTime
  pub ended_at : Option OffsetDateTime
  pub actor : Actor
  pub event_type : EventType
  pub name : String
  pub input : Value num
  pub output : Value num
  pub attributes : Attributes num
  pub source_span_id : Option String
  pub redacted : Bool

pub data TraceQualityStatus : Type 0 where
  complete degraded insufficient : TraceQualityStatus

pub record TraceDefect : Type 0 where
  pub code : String
  pub message : String
  pub blocking : Bool

-- crates/governance-domain/src/evaluation_run.rs
pub data CompletionReason : Type 0 where
  explicit terminal_event target_terminal_response idle_timeout max_duration : CompletionReason

pub record EvidenceBundle (num : Numbers) : Type 0 where
  pub schema_version : String
  pub organization_id : OrganizationId
  pub eval_run_id : EvalRunId
  pub invocation_id : InvocationId
  pub invocation_ids : List InvocationId
  pub scenario_id : ScenarioId
  pub target_version : String
  pub policy_content_sha256 : String
  pub trace_ids : List String
  pub completion_reason : Option CompletionReason
  pub terminal_state : Option String
  pub events : List (NormalizedEvent num)
  pub side_effects : List (Value num)
  pub trace_quality : TraceQualityStatus
  pub trace_defects : List TraceDefect
  pub finalized_at : Option OffsetDateTime
  pub evidence_sha256 : String

pub data RuleStatus : Type 0 where
  pass fail uncertain not_observable error : RuleStatus

pub record RuleResult : Type 0 where
  pub id : RuleResultId
  pub rule_id : String
  pub severity : Severity
  pub status : RuleStatus
  pub message : String
  pub evidence_event_ids : List EventId

pub data RunVerdict : Type 0 where
  pass fail inconclusive : RunVerdict

pub record EvaluationSummary : Type 0 where
  pub eval_run_id : EvalRunId
  pub verdict : RunVerdict
  pub results : List RuleResult
  pub passed : ℕ
  pub failed : ℕ
  pub inconclusive : ℕ

pub data DomainError : Type 0 where
  evidence_incomplete : String → DomainError
  invalid_transition : String → DomainError
  unapproved_policy_pack : DomainError
  invalid_value : String → DomainError

unfoldable pub EventType-discrete : Discrete EventType
EventType-discrete = hlevel

unfoldable pub ReviewStatus-discrete : Discrete ReviewStatus
ReviewStatus-discrete = hlevel

unfoldable pub RuleStatus-discrete : Discrete RuleStatus
RuleStatus-discrete = hlevel

unfoldable pub CompletionReason-discrete : Discrete CompletionReason
CompletionReason-discrete = hlevel

unfoldable pub TraceQualityStatus-discrete : Discrete TraceQualityStatus
TraceQualityStatus-discrete = hlevel

-- The `snake_case` name that serde gives each variant.
unfoldable pub event_type_name : EventType → String
event_type_name scenario_input = "scenario_input"
event_type_name agent_start = "agent_start"
event_type_name model_call = "model_call"
event_type_name model_result = "model_result"
event_type_name tool_call = "tool_call"
event_type_name tool_result = "tool_result"
event_type_name retrieval = "retrieval"
event_type_name handoff = "handoff"
event_type_name guardrail_decision = "guardrail_decision"
event_type_name human_approval_request = "human_approval_request"
event_type_name human_approval_decision = "human_approval_decision"
event_type_name final_output = "final_output"
event_type_name side_effect = "side_effect"
event_type_name retry = "retry"
event_type_name EventType.error = "error"
event_type_name timeout = "timeout"
event_type_name cancellation = "cancellation"
event_type_name unclassified = "unclassified"

abbrev pub all_event_types : List EventType
all_event_types =
    scenario_input ∷ agent_start ∷ model_call ∷ model_result ∷ tool_call ∷ tool_result ∷ retrieval
    ∷ handoff ∷ guardrail_decision ∷ human_approval_request ∷ human_approval_decision ∷ final_output
    ∷ side_effect ∷ retry ∷ EventType.error ∷ timeout ∷ cancellation ∷ unclassified ∷ []

-- `serde_json::from_value::<EventType>` of a text.
unfoldable pub event_type_of_name : String → Option EventType
unfolding event_type_name
event_type_of_name s = find (λ t. str_eq (event_type_name t) s) all_event_types
