-- ===== src/Domain/Run/Settling.antt =====
-- `EvaluationRun::begin_settling` on every branch.
use featherlane_ai.Prelude.{
  min, ◌≡◌, refl, ap, subst, ◌≢◌, ◌⊎◌, inl, inr, true, false, Option, none, some, String,
  str_eq_iff, same, same-eq, same-ne, false-ne_true, Bool-cases,
}
use featherlane_ai.Domain.Ids.{OffsetDateTime}
use featherlane_ai.Domain.Events.{CompletionReason, CompletionReason-discrete, invalid_transition}
use featherlane_ai.Domain.Run.{
  EvaluationRunState-discrete, settling, EvaluationRun, Outcome, ok, err, transition_to,
  begin_settling, resettle, signalled, same_text, ◌>>=◌,
}
use featherlane_ai.Domain.Run.Lifecycle.{Transition, transition_to-Transition}

same_text-eq : (s t : Option String) → same_text s t ≡ true → s ≡ t
same_text-eq none none h = refl
same_text-eq (some s) (some t) h = ap some ((str_eq_iff s t).0 h)
same_text-eq _ _ h = cc

same_text_self : (s : Option String) → same_text s s ≡ true
same_text_self none = refl
same_text_self (some s) = (str_eq_iff s s).1 refl

same_text-ne : (s t : Option String) → same_text s t ≡ false → s ≢ t
same_text-ne s t h e = false-ne_true (subst (λ u. same_text s u ≡ true) e (same_text_self s)) h

-- The record of a first signal, on top of the move to `settling`.
abbrev pub recorded :
    EvaluationRun → CompletionReason → Option String → OffsetDateTime → EvaluationRun
recorded s reason terminal until = record s {
  completion_reason = some reason;
  terminal_state = terminal;
  settle_until = some (min until s.hard_deadline_at);
}

module _ (r : EvaluationRun) (reason : CompletionReason) (terminal : Option String)
    (until now : OffsetDateTime) where
  -- The same signal as the one on record.
  abbrev pub IsRepeat : Type 0
  IsRepeat = (r.completion_reason ≡ some reason) × (r.terminal_state ≡ terminal)

  -- A signal that differs from the one on record.
  abbrev pub IsConflict : Type 0
  IsConflict =
      (previous : CompletionReason) × (r.completion_reason ≡ some previous)
      × ((previous ≢ reason) ⊎ (r.terminal_state ≢ terminal))

  abbrev pub Settling : Outcome → Type 0
  Settling (ok q) =
      ((r.completion_reason ≡ none)
        × ((s : EvaluationRun) × Transition r settling now (ok s)
            × (q ≡ recorded s reason terminal until)))
      ⊎ (IsRepeat
          × (((r.state ≡ settling)
                × (q ≡ record r {
                  settle_until = some (min until r.hard_deadline_at);
                  updated_at = now;
                }))
              ⊎ ((r.state ≢ settling) × (q ≡ r))))
  Settling (err e q) =
      (q ≡ r)
      × ((IsConflict × (e ≡ invalid_transition "conflicting completion signal"))
          ⊎ ((r.completion_reason ≡ none) × Transition r settling now (err e q)))

  resettle-Settling :
      (previous : CompletionReason)
      → r.completion_reason ≡ some previous
      → Settling (resettle r previous reason terminal until now)
  unfolding resettle
  resettle-Settling previous e =
      elim (Bool-cases (same CompletionReason-discrete previous reason)) [
        | inr other ↦
            rw (other, resettle)
              (refl, inl ((previous, e, inl (same-ne CompletionReason-discrete _ _ other)), refl))
        | inl hit ↦
            let d = same-eq CompletionReason-discrete previous reason hit in
            elim (Bool-cases (same_text r.terminal_state terminal)) [
              | inr other ↦
                  rw (hit, other, resettle)
                    (refl, inl ((previous, e, inr (same_text-ne _ _ other)), refl))
              | inl text ↦
                  let again : IsRepeat =
                    (subst (λ p. r.completion_reason ≡ some p) d e, same_text-eq _ _ text) in
                  elim (Bool-cases (same EvaluationRunState-discrete r.state settling)) [
                    | inl here ↦
                        rw (hit, text, here, resettle)
                          (inr (again, inl (same-eq EvaluationRunState-discrete _ _ here, refl)))
                    | inr gone ↦
                        rw (hit, text, gone, resettle)
                          (inr (again, inr (same-ne EvaluationRunState-discrete _ _ gone, refl)))
                  ]
            ]
      ]

  first-Settling :
      (o : Outcome)
      → r.completion_reason ≡ none
      → Transition r settling now o
      → Settling (o >>= λ s. ok (recorded s reason terminal until))
  first-Settling (ok s) e t = inl (e, (s, t, refl))
  first-Settling (err x q) e t = (t.2, inr (e, t))

  signalled-Settling :
      (o : Option CompletionReason)
      → r.completion_reason ≡ o
      → Settling (signalled r o reason terminal until now)
  unfolding signalled
  signalled-Settling (some previous) e = resettle-Settling previous e
  signalled-Settling none e =
      first-Settling (transition_to r settling now) e (transition_to-Transition r settling now)

  -- Every branch of a completion signal. The first one moves the run to `settling` and is recorded,
  -- unless the lifecycle refuses the move. The same signal again only renews the settle window, and
  -- that only while the run is settling. A different signal is an error. An error changes nothing.
  pub begin_settling-Settling : Settling (begin_settling r reason terminal until now)
  unfolding begin_settling
  begin_settling-Settling = signalled-Settling r.completion_reason refl
