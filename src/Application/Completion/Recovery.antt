-- ===== src/Application/Completion/Recovery.antt =====
-- A completion that fails on the way is taken up by the next one.
use featherlane_ai.Prelude.{ℕ, ◌≤◌, ◌≡◌, refl, inl, inr, ◌⊎◌, none, some, String, min}
use featherlane_ai.Json.{Numbers}
use featherlane_ai.Domain.Ids.{OffsetDateTime}
use featherlane_ai.Domain.Run.{
  EvaluationRun, EvaluationRunState-discrete, created, collecting, settling, Outcome, allowed,
  enter, transition_to, signalled, begin_settling,
}
use featherlane_ai.Persistence.{Database}
use featherlane_ai.Application.Finalization.Stages.{IsQueued, At}
use featherlane_ai.Application.Completion.{CompletionRequest, settle_end, finalize_job}

-- The run has not ended and no completion was signalled.
abbrev pub IsRunning : EvaluationRun → Type 0
IsRunning row = ((row.state ≡ created) ⊎ (row.state ≡ collecting)) × (row.completion_reason ≡ none)

module _ (request : CompletionRequest) where
  -- The run settles, for the reason and with the state of the request.
  abbrev pub IsSettlingFor : EvaluationRun → Type 0
  IsSettlingFor row =
      (row.state ≡ settling)
      × (row.completion_reason ≡ some request.reason)
      × (row.terminal_state ≡ request.terminal_state)

  unfoldable pub settled : EvaluationRun → OffsetDateTime → EvaluationRun
  settled row now = record row {
    state = settling;
    updated_at = now;
    completion_reason = some request.reason;
    terminal_state = request.terminal_state;
    settle_until = some (min (settle_end request now) row.hard_deadline_at);
  }

  pub begins :
      (row : EvaluationRun) (now : OffsetDateTime)
      → IsRunning row
      → begin_settling row request.reason request.terminal_state (settle_end request now) now
        ≡ Outcome.ok (settled row now)
  unfolding begin_settling signalled transition_to allowed enter EvaluationRunState-discrete settled
  begins row now (inl s, c) = rw (c, s) refl
  begins row now (inr s, c) = rw (c, s) refl

  unfoldable renewed : EvaluationRun → OffsetDateTime → EvaluationRun
  renewed row now = record row {
    settle_until = some (min (settle_end request now) row.hard_deadline_at);
    updated_at = now;
  }

module _ {num : Numbers} (display : ℕ → String) (request : CompletionRequest) where
  abbrev Row : EvaluationRun → Database num → Type 0
  Row = At request.organization_id request.eval_run_id

  abbrev pub Held : Database num → Type 0
  Held db = (row : EvaluationRun) × Row row db × (IsRunning row ⊎ IsSettlingFor request row)

  -- The run settles, until its deadline at most, and a job to finalize it waits, whatever its time.
  abbrev pub IsScheduled : EvaluationRun → Database num → Type 0
  IsScheduled run db =
      (row : EvaluationRun) × (until : OffsetDateTime) × Row row db
      × IsSettlingFor request row
      × (row.settle_until ≡ some until)
      × (until ≤ row.hard_deadline_at)
      × IsQueued (finalize_job display run 0) db.jobs
