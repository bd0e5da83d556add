-- ===== src/Domain/Import.antt =====
-- crates/governance-domain/src/policy_import.rs: a policy import, its states and its readiness.
pub mod Status
pub mod Readiness
use featherlane_ai.Prelude.{
  ℕ, Bool, true, false, not, ◌&&◌, Option, List, [], ◌∷◌, ◌++◌, String, str_eq, same, ltb, ◌==◌,
  is_empty, is_some_and, all, keep, if◌then◌else◌,
}
use featherlane_ai.Text.{is_blank}
use featherlane_ai.Json.{Numbers, Value}
use featherlane_ai.Domain.Ids.{
  OrganizationId, SourceId, PolicyPackId, PolicyImportId, PolicySourceId, PolicyCandidateId,
  SourceSubscriptionId, SourceIngestionItemId, PolicyImportTransformationId, OffsetDateTime,
}
use featherlane_ai.Domain.Events.{EventMatcher, RuleAssertion, Severity, SourceLocator, SourceType}

pub data PolicyImportStatus : Type 0 where
  uploading queued parsing extracting review_required : PolicyImportStatus
  ready_to_compile compiled needs_ocr failed_retryable failed_terminal : PolicyImportStatus

unfoldable pub PolicyImportStatus-discrete : Discrete PolicyImportStatus
PolicyImportStatus-discrete = hlevel

-- The pairs of the `matches!`.
unfoldable pub can_transition_to : PolicyImportStatus → PolicyImportStatus → Bool
can_transition_to uploading queued = true
can_transition_to failed_retryable queued = true
can_transition_to needs_ocr queued = true
can_transition_to uploading failed_retryable = true
can_transition_to uploading failed_terminal = true
can_transition_to queued parsing = true
can_transition_to queued failed_retryable = true
can_transition_to queued failed_terminal = true
can_transition_to parsing extracting = true
can_transition_to parsing needs_ocr = true
can_transition_to parsing failed_retryable = true
can_transition_to parsing failed_terminal = true
can_transition_to extracting review_required = true
can_transition_to extracting failed_retryable = true
can_transition_to extracting failed_terminal = true
can_transition_to review_required ready_to_compile = true
can_transition_to ready_to_compile review_required = true
can_transition_to ready_to_compile compiled = true
can_transition_to _ _ = false

unfoldable pub is_active : PolicyImportStatus → Bool
is_active uploading = true
is_active queued = true
is_active parsing = true
is_active extracting = true
is_active _ = false

pub data PolicyInputKind : Type 0 where
  file pasted_text url google_drive microsoft_graph notion : PolicyInputKind

pub data PolicyCandidateOrigin : Type 0 where
  model human : PolicyCandidateOrigin

pub data PolicyCandidateStatus : Type 0 where
  pending approved rejected : PolicyCandidateStatus

unfoldable pub PolicyCandidateStatus-discrete : Discrete PolicyCandidateStatus
PolicyCandidateStatus-discrete = hlevel

pub data RuleMappingStatus : Type 0 where
  ready manual_required unsupported : RuleMappingStatus

unfoldable pub RuleMappingStatus-discrete : Discrete RuleMappingStatus
RuleMappingStatus-discrete = hlevel

pub data SourceVerificationStatus : Type 0 where
  pending verified rejected : SourceVerificationStatus

unfoldable pub SourceVerificationStatus-discrete : Discrete SourceVerificationStatus
SourceVerificationStatus-discrete = hlevel

pub record PolicyImportCoverage : Type 0 where
  pub total_chunks : ℕ
  pub processed_chunks : ℕ
  pub failed_chunks : List String
  pub duplicate_candidates : ℕ
  pub warnings : List String

unfoldable pub is_complete : PolicyImportCoverage → Bool
is_complete c =
    ltb 0 c.total_chunks && c.total_chunks == c.processed_chunks && is_empty c.failed_chunks

pub record PolicyImport : Type 0 where
  pub id : PolicyImportId
  pub organization_id : OrganizationId
  pub policy_source_id : PolicySourceId
  pub revision : ℕ
  pub supersedes_import_id : Option PolicyImportId
  pub status : PolicyImportStatus
  pub input_kind : PolicyInputKind
  pub source_type : SourceType
  pub title : String
  pub jurisdiction : String
  pub effective_from : Option OffsetDateTime
  pub source_url : Option String
  pub original_filename : Option String
  pub declared_mime_type : Option String
  pub detected_mime_type : String
  pub byte_length : ℕ
  pub content_sha256 : String
  pub raw_object_key : String
  pub processing_object_key : String
  pub processing_content_sha256 : String
  pub processing_mime_type : String
  pub active_transformation_id : Option PolicyImportTransformationId
  pub ingestion_item_id : Option SourceIngestionItemId
  pub source_subscription_id : Option SourceSubscriptionId
  pub external_revision : Option String
  pub external_modified_at : Option OffsetDateTime
  pub normalized_object_key : Option String
  pub parser_kind : Option String
  pub parser_version : Option String
  pub model_provider : Option String
  pub model_name : Option String
  pub prompt_version : Option String
  pub page_count : Option ℕ
  pub coverage : PolicyImportCoverage
  pub candidate_count : ℕ
  pub verification_status : SourceVerificationStatus
  pub verified_by : Option String
  pub verified_at : Option OffsetDateTime
  pub verification_notes : Option String
  pub failure_code : Option String
  pub failure_detail : Option String
  pub idempotency_key : Option String
  pub compiled_source_id : Option SourceId
  pub compiled_policy_pack_id : Option PolicyPackId
  pub created_at : OffsetDateTime
  pub updated_at : OffsetDateTime
  pub completed_at : Option OffsetDateTime

pub record RuleSuggestion (num : Numbers) : Type 0 where
  pub trigger : EventMatcher num
  pub assertions : List (RuleAssertion num)
  pub evidence_required : List String

pub record CandidateReview : Type 0 where
  pub reviewer_id : String
  pub notes : String
  pub reviewed_at : OffsetDateTime

-- `model_confidence` is a 32-bit float, held here in the wider float type; nothing here reads it.
pub record PolicyCandidate (num : Numbers) : Type 0 where
  pub id : PolicyCandidateId
  pub organization_id : OrganizationId
  pub policy_import_id : PolicyImportId
  pub position : ℕ
  pub origin : PolicyCandidateOrigin
  pub fingerprint : String
  pub key : String
  pub statement : String
  pub locator : SourceLocator
  pub source_excerpt : String
  pub applicability : Value num
  pub exceptions : List String
  pub required_evidence : List String
  pub suggested_severity : Severity
  pub suggested_rule : Option (RuleSuggestion num)
  pub mapping_status : RuleMappingStatus
  pub model_confidence : Option num.F64
  pub model_payload_sha256 : Option String
  pub status : PolicyCandidateStatus
  pub review : Option CandidateReview
  pub created_at : OffsetDateTime
  pub updated_at : OffsetDateTime

pub record PolicyImportReadiness : Type 0 where
  pub source_verified : Bool
  pub coverage_complete : Bool
  pub all_candidates_disposed : Bool
  pub has_approved_candidate : Bool
  pub approved_mappings_ready : Bool
  pub blockers : List String

abbrev pub has_candidate_status :
    {num : Numbers} → PolicyCandidateStatus → PolicyCandidate num → Bool
has_candidate_status status c = same PolicyCandidateStatus-discrete c.status status

-- An approved candidate that can be compiled.
unfoldable pub mapping_ready : {num : Numbers} → PolicyCandidate num → Bool
mapping_ready c =
    same RuleMappingStatus-discrete c.mapping_status ready
    && is_some_and c.suggested_rule (λ rule. not (is_empty rule.assertions))
    && not (is_blank c.locator.excerpt_sha256)

-- One `if !gate { blockers.push(..) }`.
abbrev pub blocker : Bool → String → List String
blocker gate text = if gate then [] else text ∷ []

abbrev pub no_approved : String
no_approved = "at least one candidate must be approved"

unfoldable pub blockers_of : Bool → Bool → Bool → Bool → Bool → List String
blockers_of verified' complete disposed approved' ready' =
    blocker verified' "source verification is required"
    ++ (blocker complete "all source chunks must be processed"
        ++ (blocker disposed "every candidate must be approved or rejected"
            ++ (blocker approved' no_approved
                ++ blocker ready' "every approved candidate needs a supported deterministic rule")))

unfoldable pub calculate :
    {num : Numbers} → PolicyImport → List (PolicyCandidate num) → PolicyImportReadiness
unfolding is_complete mapping_ready blockers_of
calculate import' candidates =
    let source_verified =
      same SourceVerificationStatus-discrete import'.verification_status verified in
    let coverage_complete = is_complete import'.coverage in
    let all_candidates_disposed =
      not (is_empty candidates)
      && all (λ c. not (has_candidate_status PolicyCandidateStatus.pending c)) candidates in
    let approved' = keep (has_candidate_status approved) candidates in
    let has_approved_candidate = not (is_empty approved') in
    let approved_mappings_ready = all mapping_ready approved' in
    record {
      source_verified = source_verified;
      coverage_complete = coverage_complete;
      all_candidates_disposed = all_candidates_disposed;
      has_approved_candidate = has_approved_candidate;
      approved_mappings_ready = approved_mappings_ready;
      blockers =
          blockers_of source_verified coverage_complete all_candidates_disposed
            has_approved_candidate approved_mappings_ready;
    }

unfoldable pub is_ready : PolicyImportReadiness → Bool
is_ready r = is_empty r.blockers

unfoldable pub review_complete : PolicyImportReadiness → Bool
review_complete r =
    r.source_verified && r.coverage_complete && r.all_candidates_disposed
    && r.approved_mappings_ready

unfoldable pub review_blockers : PolicyImportReadiness → List String
review_blockers r = keep (λ b. not (str_eq b no_approved)) r.blockers
