-- ===== src/Application/Completion/LostJob.antt =====
-- A timeout that fails between the update of the run and the job for its finalization.
use featherlane_ai.Prelude.{
  ℕ, ◌≡◌, refl, sym, ap, subst, ◌∙◌, inl, inr, ◌⊎◌, true, false, some, List, [], ◌∷◌, ◌||◌, String,
  same, ok, err,
}
use featherlane_ai.Json.{Numbers}
use featherlane_ai.Domain.Ids.{OrganizationId, EvalRunId, OffsetDateTime}
use featherlane_ai.Domain.Events.{CompletionReason}
use featherlane_ai.Domain.Run.{
  EvaluationRun, EvaluationRunState, EvaluationRunState-discrete, created, collecting, settling,
}
use featherlane_ai.Persistence.{Database, with_columns, get_run}
use featherlane_ai.Application.Ports.{ApplicationError}
use featherlane_ai.Application.Calls.{Fault, fine, down, Service, call, continue, pure, found}
use featherlane_ai.Application.Calls.Faults.{Triple, call-Triple, chain-Triple}
use featherlane_ai.Application.Calls.Attempts.{Attempt, attempt, attempts, attempts-same}
use featherlane_ai.Application.Finalization.{persist_run_update}
use featherlane_ai.Application.Finalization.Stages.{At, updated, updated-At, expected-update}
use featherlane_ai.Application.Completion.{
  CompletionRequest, timed_out, fetch_run, schedule, settle_run, complete_run, time_out,
  process_timeout,
}
use featherlane_ai.Application.Completion.Recovery.{IsRunning, begins, settled}

is_running :
    (state : EvaluationRunState)
    → (state ≡ created) ⊎ (state ≡ collecting)
    → (same EvaluationRunState-discrete state created
        || same EvaluationRunState-discrete state collecting)
      ≡ true
unfolding EvaluationRunState-discrete
is_running state (inl e) = rw e refl
is_running state (inr e) = rw e refl

is_not_running :
    (state : EvaluationRunState)
    → state ≡ settling
    → (same EvaluationRunState-discrete state created
        || same EvaluationRunState-discrete state collecting)
      ≡ false
unfolding EvaluationRunState-discrete
is_not_running state e = rw e refl

-- The calls of a timeout, where the last one fails.
abbrev pub crash : ApplicationError → List Fault
crash e = fine ∷ fine ∷ fine ∷ down e ∷ []

is_settled :
    (request : CompletionRequest) (row : EvaluationRun) (now : OffsetDateTime)
    → (settled request row now).state ≡ settling
unfolding settled
is_settled request row now = refl

module _ {num : Numbers} (display : ℕ → String) (organization_id : OrganizationId)
    (eval_run_id : EvalRunId) (reason : CompletionReason) where
  abbrev pub timeout : OffsetDateTime → Service num (Unit {0})
  timeout = process_timeout display organization_id eval_run_id reason

  loads :
      (row : EvaluationRun) (db : Database num) (faults : List Fault)
      → At organization_id eval_run_id row db
      → fetch_run display organization_id eval_run_id
          (record { database = db; faults = fine ∷ faults })
        ≡ (ok row, record { database = db; faults = faults })
  unfolding fetch_run call
  loads row db faults at = rw at.0 refl

  settles-same :
      (row : EvaluationRun) (db : Database num) (now : OffsetDateTime)
      → At organization_id eval_run_id row db
      → row.state ≡ settling
      → Triple (λ d. d ≡ db) (λ _ d. d ≡ db) (timeout now) db
  unfolding process_timeout fetch_run time_out
  settles-same row db now at s =
      let next : EvaluationRun → Service num (Unit {0}) =
        time_out display organization_id eval_run_id reason now in
      let Mid : EvaluationRun → Database num → Type 0 =
        λ r d. Triple (λ d'. d' ≡ db) (λ _ d'. d' ≡ db) (next r) d in
      chain-Triple (λ d. d ≡ db) (λ _ d. d ≡ db) Mid (fetch_run display organization_id eval_run_id)
        next db
        (call-Triple (λ d. d ≡ db) Mid (get_run organization_id eval_run_id)
          (found (display eval_run_id)) db db (some row) (rw at.0 refl) refl refl
          (λ faults. (rw (is_not_running row.state s) (λ fs. (refl, λ q. q)), λ q. q)))
        (λ r d t. t)

  module _ (now : OffsetDateTime) (e : ApplicationError) where
    abbrev settles : EvaluationRun → Database num → Database num
    settles row db =
        updated organization_id eval_run_id
          (settled (timed_out organization_id eval_run_id reason) row now) row db

    schedule-crash :
        (row : EvaluationRun) (db : Database num)
        → At organization_id eval_run_id row db
        → schedule display row
            (settled (timed_out organization_id eval_run_id reason) row now)
            now
            (record { database = db; faults = fine ∷ down e ∷ [] })
          ≡ (err e, record { database = settles row db; faults = [] })
    unfolding schedule persist_run_update call settled
    schedule-crash row db at =
        rw
          (expected-update organization_id eval_run_id
            (settled (timed_out organization_id eval_run_id reason) row now) row db at at.1 at.2)
          refl

    complete-crash :
        (row : EvaluationRun) (db : Database num)
        → At organization_id eval_run_id row db
        → IsRunning row
        → complete_run display
            (timed_out organization_id eval_run_id reason)
            now
            (record { database = db; faults = fine ∷ fine ∷ down e ∷ [] })
          ≡ (err e, record { database = settles row db; faults = [] })
    unfolding complete_run settle_run
    complete-crash row db at running =
        ap (continue (settle_run display (timed_out organization_id eval_run_id reason) now))
          (loads row db _ at)
        ∙ rw (begins (timed_out organization_id eval_run_id reason) row now running)
            (schedule-crash row db at)

    timeout-crash :
        (row : EvaluationRun) (db : Database num)
        → At organization_id eval_run_id row db
        → IsRunning row
        → attempt timeout (now, crash e) db
          ≡ (err e, record { database = settles row db; faults = [] })
    unfolding process_timeout time_out
    timeout-crash row db at running =
        ap (continue (time_out display organization_id eval_run_id reason now)) (loads row db _ at)
        ∙ rw (is_running row.state running.0)
            (ap (continue (λ _. pure tt)) (complete-crash row db at running))

    settles-At :
        (row : EvaluationRun) (db : Database num)
        → At organization_id eval_run_id row db
        → At organization_id eval_run_id
            (with_columns (settled (timed_out organization_id eval_run_id reason) row now) row)
            (settles row db)
    settles-At row db at =
        updated-At organization_id eval_run_id
          (settled (timed_out organization_id eval_run_id reason) row now) row db at

    -- Where the timeout of a running run fails only in its last call, the one that queues the
    -- finalization, the run settles, and no later timeout, however many there are, queues a job.
    pub process_timeout-loses_job :
        (row : EvaluationRun) (db : Database num) (later : List (Attempt OffsetDateTime))
        → At organization_id eval_run_id row db
        → IsRunning row
        → let left = attempts timeout later (attempt timeout (now, crash e) db).1.database in
          (left.jobs ≡ db.jobs)
          × ((r : EvaluationRun) × At organization_id eval_run_id r left × (r.state ≡ settling))
    process_timeout-loses_job row db later at running =
        let r = with_columns (settled (timed_out organization_id eval_run_id reason) row now) row in
        let there = settles-At row db at in
        let end =
          ap (λ out. attempts timeout later out.1.database) (timeout-crash row db at running)
          ∙ attempts-same timeout (settles row db)
              (λ now'.
                settles-same r (settles row db) now' there
                  (is_settled (timed_out organization_id eval_run_id reason) row now))
              later in
        (
          ap (λ d. d.jobs) end,
          (
            r,
            subst (At organization_id eval_run_id r) (sym end) there,
            is_settled (timed_out organization_id eval_run_id reason) row now,
          ),
        )
