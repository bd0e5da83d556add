-- ===== src/Domain/Tests.antt =====
-- Runs of the contracts: an evaluation run and a policy import.
use featherlane_ai.Prelude.{
  ◌<◌, All, arith, ℕ, ◌≡◌, refl, ◌↔◌, ◌≢◌, true, false, none, some, List, [], ◌∷◌, Any, In, ◌==◌,
  ==_iff, leb,
}
use featherlane_ai.Json.{Numbers, null}
use featherlane_ai.Domain.Events.{
  explicit, terminal_event, CompletionReason-discrete, company_policy, critical, tool_call,
  EventMatcher, absent,
}
use featherlane_ai.Domain.Run.{
  explicit_ci, EvaluationRunState, EvaluationRunState-discrete, created, collecting, settling,
  cancelled, EvaluationRun, is_terminal, accepts_spans, transition_to, allowed, enter, resettle,
  signalled, begin_settling,
}
use featherlane_ai.Domain.Run.Lifecycle.{Transition, transition_to-Transition}
use featherlane_ai.Domain.Run.Settling.{Settling, begin_settling-Settling}
use featherlane_ai.Domain.Run.History.{
  Call, moves, signals, run, run-terminal, IsSound, run-IsSound, Signalled, run-Signalled,
}
use featherlane_ai.Domain.Import.{
  PolicyImportStatus, PolicyImport, PolicyCandidate, PolicyCandidateStatus, file, ready, model,
  verified, approved, calculate, is_ready, review_complete, review_blockers, can_transition_to,
  blockers_of, mapping_ready, is_complete, PolicyCandidateStatus-discrete,
  RuleMappingStatus-discrete, SourceVerificationStatus-discrete,
}
use featherlane_ai.Domain.Collection.{Members, collection_readiness, collection_is_ready}
use featherlane_ai.Domain.Collection.Readiness.{
  total_approved, HasApproved, collection_is_ready-IsReviewed,
}
use featherlane_ai.Domain.Import.Status.{Trail, here, next, Trail-review}
use featherlane_ai.Domain.Import.Readiness.{IsReviewed, is_ready-IsReviewed}

abbrev fresh_run : EvaluationRunState → EvaluationRun
fresh_run state = record {
  id = 1;
  organization_id = 2;
  target_id = "target";
  target_version = "v1";
  policy_pack_id = 3;
  policy_pack_key = "refund";
  policy_pack_version = 1;
  policy_content_sha256 = "sha";
  scenario_id = 4;
  rule_ids = [];
  boundary_kind = explicit_ci;
  external_run_id = none;
  primary_invocation_id = 5;
  state = state;
  completion_reason = none;
  terminal_state = none;
  verdict = none;
  trace_quality = none;
  evidence_sha256 = none;
  span_count = 0;
  trace_count = 0;
  event_count = 0;
  created_at = 10;
  updated_at = 10;
  last_seen_at = none;
  settle_until = none;
  hard_deadline_at = 100;
  finalized_at = none;
  completed_at = none;
}

abbrev calls : List Call
calls =
    moves collecting 11
    ∷ signals explicit (some "done") 200 12
    ∷ signals terminal_event none 300 13
    ∷ []

runs : Unit {0}
unfolding run begin_settling signalled resettle transition_to allowed enter is_terminal
    accepts_spans EvaluationRunState-discrete CompletionReason-discrete
runs = tt

-- The window is cut at the deadline, and the second signal is refused.
settles :
    ((run (fresh_run created) calls).state ≡ settling)
    × ((run (fresh_run created) calls).settle_until ≡ some 100)
    × ((run (fresh_run created) calls).completion_reason ≡ some explicit)
unfolding runs
settles = (refl, refl, refl)

transition_to-Transition_example :
    Transition (fresh_run created) collecting 11 (transition_to (fresh_run created) collecting 11)
transition_to-Transition_example = transition_to-Transition (fresh_run created) collecting 11

begin_settling-Settling_example :
    Settling
      (fresh_run created)
      explicit
      none
      200
      12
      (begin_settling (fresh_run created) explicit none 200 12)
begin_settling-Settling_example = begin_settling-Settling (fresh_run created) explicit none 200 12

is_over : is_terminal (fresh_run cancelled).state ≡ true
unfolding runs
is_over = refl

run-terminal_example : run (fresh_run cancelled) calls ≡ fresh_run cancelled
run-terminal_example = run-terminal (fresh_run cancelled) calls is_over

fresh_run-IsSound : IsSound (fresh_run created)
fresh_run-IsSound = record { stamped = λ e. cc; unstamped = λ _. refl; window = λ t e. cc }

run-IsSound_example : IsSound (run (fresh_run created) calls)
run-IsSound_example = run-IsSound (fresh_run created) calls fresh_run-IsSound

abbrev signalled_run : EvaluationRun
signalled_run = record (fresh_run settling) {
  completion_reason = some explicit;
  terminal_state = some "done";
}

run-Signalled_example : Signalled explicit (some "done") (run signalled_run calls)
run-Signalled_example = run-Signalled explicit (some "done") signalled_run calls (refl, refl)

-- Integers alone, read as they are.
abbrev integers : Numbers
integers = record {
  Number = ℕ;
  F64 = ℕ;
  number_eq = λ m n. m == n;
  number_eq_iff = ==_iff;
  as_f64 = some;
  f64_le = leb;
}

abbrev upload : PolicyImport
upload = record {
  id = 1;
  organization_id = 2;
  policy_source_id = 3;
  revision = 1;
  supersedes_import_id = none;
  status = PolicyImportStatus.review_required;
  input_kind = file;
  source_type = company_policy;
  title = "Refunds";
  jurisdiction = "US";
  effective_from = none;
  source_url = none;
  original_filename = none;
  declared_mime_type = none;
  detected_mime_type = "text/plain";
  byte_length = 10;
  content_sha256 = "sha";
  raw_object_key = "raw";
  processing_object_key = "raw";
  processing_content_sha256 = "sha";
  processing_mime_type = "text/plain";
  active_transformation_id = none;
  ingestion_item_id = none;
  source_subscription_id = none;
  external_revision = none;
  external_modified_at = none;
  normalized_object_key = none;
  parser_kind = none;
  parser_version = none;
  model_provider = none;
  model_name = none;
  prompt_version = none;
  page_count = none;
  coverage = record {
    total_chunks = 1;
    processed_chunks = 1;
    failed_chunks = [];
    duplicate_candidates = 0;
    warnings = [];
  };
  candidate_count = 1;
  verification_status = verified;
  verified_by = none;
  verified_at = none;
  verification_notes = none;
  failure_code = none;
  failure_detail = none;
  idempotency_key = none;
  compiled_source_id = none;
  compiled_policy_pack_id = none;
  created_at = 1;
  updated_at = 1;
  completed_at = none;
}

abbrev tool : EventMatcher integers
tool = record {
  event_type = tool_call;
  name = none;
  attribute_equals = [];
  numeric_argument = none;
}

abbrev candidate : PolicyCandidateStatus → PolicyCandidate integers
candidate status = record {
  id = 1;
  organization_id = 2;
  policy_import_id = 1;
  position = 0;
  origin = model;
  fingerprint = "f";
  key = "R-1";
  statement = "approve refunds";
  locator = record {
    page = none;
    page_end = none;
    section = none;
    paragraph_start = none;
    paragraph_end = none;
    source_url = none;
    excerpt_sha256 = "sha";
  };
  source_excerpt = "approve refunds";
  applicability = null;
  exceptions = [];
  required_evidence = [];
  suggested_severity = critical;
  suggested_rule =
      some (record { trigger = tool; assertions = absent tool ∷ []; evidence_required = [] });
  mapping_status = ready;
  model_confidence = none;
  model_payload_sha256 = none;
  status = status;
  review = none;
  created_at = 1;
  updated_at = 1;
}

abbrev accepted : List (PolicyCandidate integers)
accepted = candidate approved ∷ []

abbrev refused : List (PolicyCandidate integers)
refused = candidate PolicyCandidateStatus.rejected ∷ []

-- With every candidate rejected the review is complete, and there is nothing to compile.
readiness_tests :
    (is_ready (calculate upload accepted) ≡ true)
    × (review_complete (calculate upload refused) ≡ true)
    × (review_blockers (calculate upload refused) ≡ [])
    × (is_ready (calculate upload refused) ≡ false)
unfolding calculate is_ready review_complete review_blockers blockers_of mapping_ready is_complete
    PolicyCandidateStatus-discrete RuleMappingStatus-discrete SourceVerificationStatus-discrete
readiness_tests = (refl, refl, refl, refl)

is_ready-IsReviewed_example :
    (is_ready (calculate upload accepted) ≡ true)
    ↔ (IsReviewed upload accepted × Any (λ c. c.status ≡ approved) accepted)
is_ready-IsReviewed_example = is_ready-IsReviewed upload accepted

trail :
    Trail PolicyImportStatus.extracting
      (PolicyImportStatus.review_required ∷ PolicyImportStatus.ready_to_compile
        ∷ PolicyImportStatus.compiled ∷ [])
      PolicyImportStatus.compiled
unfolding can_transition_to
trail = next refl (next refl (next refl here))

Trail-review_example : In PolicyImportStatus.review_required (
    PolicyImportStatus.review_required ∷ PolicyImportStatus.ready_to_compile
    ∷ PolicyImportStatus.compiled ∷ [])
Trail-review_example = Trail-review trail ((λ e. cc), (λ e. cc), λ e. cc)

abbrev members : Members integers
members = (upload, accepted) ∷ (upload, refused) ∷ []

few : total_approved members < 4294967296
unfolding PolicyCandidateStatus-discrete
few = omega arith

collection_is_ready-IsReviewed_example :
    (collection_is_ready (collection_readiness members) ≡ true)
    ↔ ((members ≢ []) × All (λ m. IsReviewed m.0 m.1) members × Any HasApproved members)
collection_is_ready-IsReviewed_example = collection_is_ready-IsReviewed members few
