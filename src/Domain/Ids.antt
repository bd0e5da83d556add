-- ===== src/Domain/Ids.antt =====
-- The identifiers of crates/governance-domain/src/lib.rs, 128-bit UUIDs read as numbers, and the
-- instants of the `time` crate, in nanoseconds.
use featherlane_ai.Prelude.{ℕ}

abbrev pub Uuid : Type 0
Uuid = ℕ

abbrev pub OrganizationId : Type 0
OrganizationId = Uuid

abbrev pub SourceId : Type 0
SourceId = Uuid

abbrev pub ObligationId : Type 0
ObligationId = Uuid

abbrev pub PolicyPackId : Type 0
PolicyPackId = Uuid

abbrev pub ScenarioId : Type 0
ScenarioId = Uuid

abbrev pub EvalRunId : Type 0
EvalRunId = Uuid

abbrev pub InvocationId : Type 0
InvocationId = Uuid

abbrev pub EventId : Type 0
EventId = Uuid

abbrev pub RuleResultId : Type 0
RuleResultId = Uuid

abbrev pub PolicyImportId : Type 0
PolicyImportId = Uuid

abbrev pub PolicySourceId : Type 0
PolicySourceId = Uuid

abbrev pub PolicyCandidateId : Type 0
PolicyCandidateId = Uuid

abbrev pub PolicyCollectionId : Type 0
PolicyCollectionId = Uuid

abbrev pub SourceSubscriptionId : Type 0
SourceSubscriptionId = Uuid

abbrev pub SourceIngestionItemId : Type 0
SourceIngestionItemId = Uuid

abbrev pub PolicyImportTransformationId : Type 0
PolicyImportTransformationId = Uuid

abbrev pub OffsetDateTime : Type 0
OffsetDateTime = ℕ
