-- ===== src/Lib.antt =====
-- Featherlane AI governance: a model of its decision logic, written from the Rust crates.
--
-- The program judges runs of AI agents against policies. A client imports a policy document; its
-- candidate obligations are reviewed (policy imports, collections) and compiled into a pack of rules
-- (policy compiler). While an agent runs, its spans and observations are received, bounded and
-- redacted (telemetry), and an evaluation run moves through its lifecycle until its evidence is
-- final. The evaluator then decides each rule of the pack on the evidence and gives the run a
-- verdict. The modules follow these parts:
--
-- - Domain.Ids, Domain.Events: crates/governance-domain/src/lib.rs, the records and enums that the
--   other crates share. A struct is a record with the source's field names, an enum a data type with
--   the source's variants in snake_case. An identifier is its 128-bit UUID as a number, an instant a
--   number of nanoseconds.
-- - Domain.Run: crates/governance-domain/src/evaluation_run.rs. `transition_to` and `begin_settling`
--   borrow the run mutably: here they return an `Outcome`, which holds the run after the call also
--   where the call failed. `Domain.Run.History` runs any list of such calls.
-- - Domain.Import: crates/governance-domain/src/policy_import.rs, the states of an import and
--   `PolicyImportReadiness`.
-- - Domain.Collection: crates/governance-domain/src/policy_collection.rs. Its `calculate` is
--   `collection_readiness`, its `is_ready` is `collection_is_ready`, and `can_transition_to` of an
--   ingestion item is `item_can_transition_to`. A count is a u32 and wraps around at 2^32.
-- - Policy: crates/governance-policy/src/lib.rs. `Policy.Bundle` says what a bundle is,
--   `Policy.Building` what is built and `Policy.Importable` which requests are accepted.
-- - Evaluator: crates/governance-evaluator/src/lib.rs, all of it. `Matching` is `event_matches`,
--   `Assertion` is `evaluate_assertion`, `Requirement` is `has_required_evidence`, `Rule` is
--   `evaluate_rule` with the early returns of its loops as `Progress`, and `Pack` is `evaluate_pack`.
-- - Telemetry: crates/governance-telemetry/src/lib.rs. `Limits` is `TelemetryLimits`, `Redaction` is
--   `RedactionPolicy` and `normalize_observations`, `Correlation` is `extract_span_correlation`,
--   `Inference` is `infer_event_type` and `infer_actor_type`, and `Quality` is `assess_trace_quality`.
--   `Causal` is `causal_order`: its vectors `indegree` and `outgoing` are functions of the index, its
--   sets the lists of what was inserted, and `ready` the ordered list of its keys. `Normalization` is
--   `normalize_spans_with_defects`, and `Finalization` is `finalize_evidence` and
--   `finalize_observed_spans`, where what is hashed is a record.
-- - Ingestion: crates/governance-ingestion/src/chunking.rs. The variables of `chunk_document` are a
--   record `Chunking`; a round of its loop gives a `Round`, which continues or breaks with them.
-- - Persistence: crates/governance-persistence/src/evaluation_runs.rs and live_evaluations.rs,
--   the queries and statements of a run as functions of the tables. A JSON column holds the value
--   itself; the rows of single events and results, which no service here reads, are left out.
-- - Application: crates/governance-application/src/evaluation_runs.rs. `Completion` is
--   `CompleteEvaluationRun`, `CancelEvaluationRun` and the timeout of
--   apps/governance-worker/src/main.rs, `Finalization` is `FinalizeEvaluationRun`, and `Evaluation` is
--   `EvaluateFinalizedRun`. A service passes a `World` along: the tables, and the faults of the
--   calls to come. A call fails before it takes effect, or its answer is lost, or it is fine;
--   where a service ends with an error the tables stay as they are then, so that a crash is a
--   call that fails. `Calls.Attempts` calls a service again and again. The calls of two services
--   do not interleave.
-- - Json, Text, Prelude: JSON values, the operations of Rust's `str` that the program calls, and
--   shared lemmas. A map is its list of entries in the order of iteration.
--
-- Parameters stand for what is not in the repository: the numbers of serde_json and the floats
-- that they are read as (`Numbers`), `serde_json::from_str` and `to_vec`, `Uuid::parse_str` and
-- `Uuid::new_v5`, SHA-256, the bytes of a text, the display of an identifier, the clock, and
-- fresh identifiers, of which the n-th drawn is `fresh n`. Loops are structural recursion on
-- their list. Only the pieces of a text, the digits of a number, and the queue of `causal_order`
-- run on fuel: a round for each character of the text, one more than the number, and a round for
-- each span, which empties the queue. Sizes of collections are unbounded numbers but for the
-- counters that the source narrows to u32 or i64 and for `saturating_add` on usize, which is read
-- as 64 bits; the sequence number of an inline observation is at most 1000.
--
-- The equality of the numbers of `Numbers` is the identity, so that 0.0 and -0.0, which serde_json
-- calls equal, are one number here. The pieces of a text (`pieces`, `take_chars`, `drop_chars`) stand
-- for Rust's `chunks` of a slice.
--
-- Not modelled: the web client, the HTTP servers, object storage, connectors, configuration, and
-- the queries and asynchronous services other than those above, which are I/O; the creation of
-- runs and the ingestion of telemetry batches; the extraction of obligations, targets, the corpus
-- and reports.
pub mod Application
pub mod Domain
pub mod Evaluator
pub mod Ingestion
pub mod Json
pub mod Persistence
pub mod Policy
pub mod Prelude
pub mod Telemetry
pub mod Text
