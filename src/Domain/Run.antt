-- ===== src/Domain/Run.antt =====
-- crates/governance-domain/src/evaluation_run.rs: the lifecycle of an evaluation run.
pub mod Lifecycle
pub mod Settling
pub mod History
use Prim.Native.String.{◌++◌ as str_append}
use featherlane_ai.Prelude.{
  ℕ, min, Bool, true, false, not, ◌||◌, Option, none, some, List, String, same, str_eq,
  if◌then◌else◌,
}
use featherlane_ai.Domain.Ids.{
  OrganizationId, PolicyPackId, ScenarioId, EvalRunId, InvocationId, OffsetDateTime,
}
use featherlane_ai.Domain.Events.{
  CompletionReason, CompletionReason-discrete, RunVerdict, TraceQualityStatus, DomainError,
  invalid_transition,
}

pub data RunBoundaryKind : Type 0 where
  workflow_execution agent_task voice_call explicit_ci : RunBoundaryKind

pub data EvaluationRunState : Type 0 where
  created collecting settling finalizing : EvaluationRunState
  evaluating completed cancelled failed : EvaluationRunState

unfoldable pub EvaluationRunState-discrete : Discrete EvaluationRunState
EvaluationRunState-discrete = hlevel

unfoldable pub is_terminal : EvaluationRunState → Bool
is_terminal completed = true
is_terminal cancelled = true
is_terminal failed = true
is_terminal _ = false

unfoldable pub accepts_spans : EvaluationRunState → Bool
accepts_spans created = true
accepts_spans collecting = true
accepts_spans settling = true
accepts_spans _ = false

-- `{:?}` of a state.
unfoldable pub state_debug : EvaluationRunState → String
state_debug created = "Created"
state_debug collecting = "Collecting"
state_debug settling = "Settling"
state_debug finalizing = "Finalizing"
state_debug evaluating = "Evaluating"
state_debug completed = "Completed"
state_debug cancelled = "Cancelled"
state_debug failed = "Failed"

pub record EvaluationRun : Type 0 where
  pub id : EvalRunId
  pub organization_id : OrganizationId
  pub target_id : String
  pub target_version : String
  pub policy_pack_id : PolicyPackId
  pub policy_pack_key : String
  pub policy_pack_version : ℕ
  pub policy_content_sha256 : String
  pub scenario_id : ScenarioId
  pub rule_ids : List String
  pub boundary_kind : RunBoundaryKind
  pub external_run_id : Option String
  pub primary_invocation_id : InvocationId
  pub state : EvaluationRunState
  pub completion_reason : Option CompletionReason
  pub terminal_state : Option String
  pub verdict : Option RunVerdict
  pub trace_quality : Option TraceQualityStatus
  pub evidence_sha256 : Option String
  pub span_count : ℕ
  pub trace_count : ℕ
  pub event_count : ℕ
  pub created_at : OffsetDateTime
  pub updated_at : OffsetDateTime
  pub last_seen_at : Option OffsetDateTime
  pub settle_until : Option OffsetDateTime
  pub hard_deadline_at : OffsetDateTime
  pub finalized_at : Option OffsetDateTime
  pub completed_at : Option OffsetDateTime

-- What a method that borrows the run mutably leaves: the run, and `Ok(())` or the error.
pub data Outcome : Type 0 where
  ok : EvaluationRun → Outcome
  err : DomainError → EvaluationRun → Outcome

abbrev pub after : Outcome → EvaluationRun
after (ok r) = r
after (err e r) = r

infixl 5 ◌>>=◌
abbrev ◌>>=◌ : Outcome → (EvaluationRun → Outcome) → Outcome
ok r >>= k = k r
err e r >>= k = err e r

-- The pairs of the `matches!`, and the escape to `Cancelled` and `Failed`.
unfoldable pub allowed : EvaluationRunState → EvaluationRunState → Bool
allowed created collecting = true
allowed created settling = true
allowed collecting settling = true
allowed settling finalizing = true
allowed finalizing evaluating = true
allowed evaluating completed = true
allowed s cancelled = not (is_terminal s)
allowed s failed = not (is_terminal s)
allowed _ _ = false

unfoldable pub enter : EvaluationRun → EvaluationRunState → OffsetDateTime → EvaluationRun
enter r next now = elim (same EvaluationRunState-discrete next completed) [
  | true ↦ record r { state = next; updated_at = now; completed_at = some now }
  | false ↦ record r { state = next; updated_at = now }
]

unfoldable pub transition_to : EvaluationRun → EvaluationRunState → OffsetDateTime → Outcome
unfolding allowed enter EvaluationRunState-discrete is_terminal
transition_to r next now =
    if same EvaluationRunState-discrete r.state next
    then ok r
    else if allowed r.state next
    then ok (enter r next now)
    else err
        (invalid_transition
          (str_append (str_append (state_debug r.state) " -> ") (state_debug next)))
        r

-- `!=` on the two optional terminal states.
abbrev pub same_text : Option String → Option String → Bool
same_text none none = true
same_text (some s) (some t) = str_eq s t
same_text _ _ = false

-- A completion signal after one that was recorded.
unfoldable pub resettle :
    EvaluationRun
    → CompletionReason
    → CompletionReason
    → Option String
    → OffsetDateTime
    → OffsetDateTime
    → Outcome
resettle r previous reason terminal until now =
    if not (same CompletionReason-discrete previous reason)
      || not (same_text r.terminal_state terminal)
    then err (invalid_transition "conflicting completion signal") r
    else if same EvaluationRunState-discrete r.state settling
    then ok (record r { settle_until = some (min until r.hard_deadline_at); updated_at = now })
    else ok r

-- `if let Some(previous) = self.completion_reason`, and what follows it.
unfoldable pub signalled :
    EvaluationRun
    → Option CompletionReason
    → CompletionReason
    → Option String
    → OffsetDateTime
    → OffsetDateTime
    → Outcome
unfolding resettle
signalled r (some previous) reason terminal until now =
    resettle r previous reason terminal until now
signalled r none reason terminal until now = do
  s ← transition_to r settling now
  ok (record s {
    completion_reason = some reason;
    terminal_state = terminal;
    settle_until = some (min until s.hard_deadline_at);
  })

unfoldable pub begin_settling :
    EvaluationRun → CompletionReason → Option String → OffsetDateTime → OffsetDateTime → Outcome
unfolding signalled
begin_settling r reason terminal until now =
    signalled r r.completion_reason reason terminal until now
