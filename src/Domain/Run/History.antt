-- ===== src/Domain/Run/History.antt =====
-- Any history of transitions and completion signals on one run, failed calls included.
use featherlane_ai.Prelude.{
  ℕ, min, ◌≤◌, ◌≡◌, refl, sym, subst, ◌∙◌, ap, ◌≢◌, ◌⊎◌, inl, inr, true, Option, none, some, List,
  [], ◌∷◌, String, arith, ◌↔◌,
}
use featherlane_ai.Domain.Ids.{OffsetDateTime}
use featherlane_ai.Domain.Events.{CompletionReason}
use featherlane_ai.Domain.Run.{
  EvaluationRunState, created, collecting, settling, completed, cancelled, failed, EvaluationRun,
  Outcome, ok, err, after, is_terminal, accepts_spans, transition_to, begin_settling,
}
use featherlane_ai.Domain.Run.Lifecycle.{
  IsOpen, Moves, Moves-IsOpen, Moves-rank, Entered, Transition, transition_to-Transition, rank,
}
use featherlane_ai.Domain.Run.Settling.{Settling, begin_settling-Settling, recorded}

-- One call of a client: a transition, or a completion signal.
pub data Call : Type 0 where
  moves : EvaluationRunState → OffsetDateTime → Call
  signals : CompletionReason → Option String → OffsetDateTime → OffsetDateTime → Call

abbrev pub apply : EvaluationRun → Call → EvaluationRun
apply r (moves next now) = after (transition_to r next now)
apply r (signals reason terminal until now) = after (begin_settling r reason terminal until now)

unfoldable pub run : EvaluationRun → List Call → EvaluationRun
run r [] = r
run r (c ∷ cs) = run (apply r c) cs

abbrev Stepped : EvaluationRun → EvaluationRunState → OffsetDateTime → EvaluationRun → Type 0
Stepped r next now q = (q ≡ r) ⊎ (Moves r.state next × Entered r next now q)

-- What one call can do to a run.
data Change (r q : EvaluationRun) : Type 0 where
  moved : (next : EvaluationRunState) (now : OffsetDateTime) → Stepped r next now q → Change r q
  begun :
      (s : EvaluationRun) (reason : CompletionReason) (terminal : Option String)
      (until now : OffsetDateTime)
      → r.completion_reason ≡ none
      → IsOpen r.state
      → Stepped r settling now s
      → q ≡ recorded s reason terminal until
      → Change r q
  renewed :
      (until now : OffsetDateTime)
      → r.state ≡ settling
      → q ≡ record r { settle_until = some (min until r.hard_deadline_at); updated_at = now }
      → Change r q

Stepped-of :
    (r : EvaluationRun) (next : EvaluationRunState) (now : OffsetDateTime) (o : Outcome)
    → Transition r next now o
    → Stepped r next now (after o)
Stepped-of r next now (ok q) (inl (_, e)) = inl e
Stepped-of r next now (ok q) (inr (_, m, e)) = inr (m, e)
Stepped-of r next now (err x q) (_, _, e, _) = inl e

settling-IsOpen : {s : EvaluationRunState} → s ≡ settling → IsOpen s
settling-IsOpen e = (λ d. cc, λ d. cc, λ d. cc)

signal-IsOpen :
    (r s : EvaluationRun) (now : OffsetDateTime) → Transition r settling now (ok s) → IsOpen r.state
signal-IsOpen r s now (inl (e, _)) = settling-IsOpen e
signal-IsOpen r s now (inr (_, m, _)) = Moves-IsOpen m

signals-Change :
    (r : EvaluationRun) (reason : CompletionReason) (terminal : Option String)
    (until now : OffsetDateTime) (o : Outcome)
    → Settling r reason terminal until now o
    → Change r (after o)
signals-Change r reason terminal until now (ok q) (inl (e, (s, t, d))) =
    begun s reason terminal until now e (signal-IsOpen r s now t)
      (Stepped-of r settling now (ok s) t) d
signals-Change r reason terminal until now (ok q) (inr (_, inl (here, e))) =
    renewed until now here e
signals-Change r reason terminal until now (ok q) (inr (_, inr (_, e))) = moved settling now (inl e)
signals-Change r reason terminal until now (err x q) (e, _) = moved settling now (inl e)

apply-Change : (r : EvaluationRun) (c : Call) → Change r (apply r c)
apply-Change r (moves next now) =
    moved next now
      (Stepped-of r next now (transition_to r next now) (transition_to-Transition r next now))
apply-Change r (signals reason terminal until now) =
    signals-Change r reason terminal until now (begin_settling r reason terminal until now)
      (begin_settling-Settling r reason terminal until now)

-- A property that every call keeps holds after any history.
run_keeps :
    (P : EvaluationRun → Type 0)
    → ((r q : EvaluationRun) → Change r q → P r → P q)
    → (r : EvaluationRun) (cs : List Call) → P r
    → P (run r cs)
unfolding run
run_keeps P step r [] p = p
run_keeps P step r (c ∷ cs) p =
    run_keeps P step (apply r c) cs (step r (apply r c) (apply-Change r c) p)

Change-closed : (r q : EvaluationRun) → ¬ IsOpen r.state → Change r q → q ≡ r
Change-closed r q h (moved next now (inl e)) = e
Change-closed r q h (moved next now (inr (m, _))) = absurd (h (Moves-IsOpen m))
Change-closed r q h (begun s reason terminal until now _ open' _ _) = absurd (h open')
Change-closed r q h (renewed until now e _) = absurd (h (settling-IsOpen e))

terminal_closed : (s : EvaluationRunState) → is_terminal s ≡ true → ¬ IsOpen s
unfolding is_terminal
terminal_closed completed e (h, _, _) = h refl
terminal_closed cancelled e (_, h, _) = h refl
terminal_closed failed e (_, _, h) = h refl
terminal_closed _ e _ = cc

-- A run that has ended is frozen: no history of calls changes any of its fields.
pub run-terminal : (r : EvaluationRun) (cs : List Call) → is_terminal r.state ≡ true → run r cs ≡ r
run-terminal r cs e = run_keeps (λ q. q ≡ r) step r cs refl
  where
    step : (p q : EvaluationRun) → Change p q → p ≡ r → q ≡ r
    step p q c d =
        Change-closed p q
          (subst (λ s. ¬ IsOpen s) (sym (ap (λ x. x.state) d)) (terminal_closed r.state e)) c
        ∙ d

Stepped-rank :
    (r q : EvaluationRun) (next : EvaluationRunState) (now : OffsetDateTime)
    → Stepped r next now q
    → rank r.state ≤ rank q.state
Stepped-rank r q next now (inl e) = rw e (omega arith)
Stepped-rank r q next now (inr (m, inl (_, e))) = rw e (Moves-rank m)
Stepped-rank r q next now (inr (m, inr (_, e))) = rw e (Moves-rank m)

Change-rank : (r q : EvaluationRun) → Change r q → rank r.state ≤ rank q.state
Change-rank r q (moved next now t) = Stepped-rank r q next now t
Change-rank r q (begun s reason terminal until now _ _ t e) = rw e (Stepped-rank r s settling now t)
Change-rank r q (renewed until now _ e) = rw e (omega arith)

accepts_iff : (s : EvaluationRunState) → (accepts_spans s ≡ true) ↔ (rank s ≤ 2)
unfolding accepts_spans
accepts_iff created = (λ h. omega arith, λ h. refl)
accepts_iff collecting = (λ h. omega arith, λ h. refl)
accepts_iff settling = (λ h. omega arith, λ h. refl)
accepts_iff _ = (λ h. cc, λ h. absurd (omega arith))

-- Once a run has stopped accepting spans, no history of calls makes it accept them again.
run-accepts_spans :
    (r : EvaluationRun) (cs : List Call)
    → accepts_spans (run r cs).state ≡ true
    → accepts_spans r.state ≡ true
run-accepts_spans r cs h =
    let low = (accepts_iff (run r cs).state).0 h in
    let mono : rank r.state ≤ rank (run r cs).state =
      run_keeps (λ q. rank r.state ≤ rank q.state) step r cs (omega arith) in
    (accepts_iff r.state).1 (omega arith)
  where
    step :
        (p q : EvaluationRun)
        → Change p q
        → rank r.state ≤ rank p.state
        → rank r.state ≤ rank q.state
    step p q c m = omega (arith, Change-rank p q c)

-- Completion is stamped once it happens and not before, and the settle window ends by the deadline.
pub record IsSound (r : EvaluationRun) : Type 0 where
  pub stamped : (r.state ≡ completed) → r.completed_at ≢ none
  pub unstamped : (r.state ≢ completed) → r.completed_at ≡ none
  pub window : (t : OffsetDateTime) → r.settle_until ≡ some t → t ≤ r.hard_deadline_at

Moves-ne_completed : {s t : EvaluationRunState} → Moves s t → s ≢ completed
Moves-ne_completed m = (Moves-IsOpen m).0

Stepped-IsSound :
    (r q : EvaluationRun) (next : EvaluationRunState) (now : OffsetDateTime)
    → Stepped r next now q
    → IsSound r
    → IsSound q
Stepped-IsSound r q next now (inl e) v = subst IsSound (sym e) v
Stepped-IsSound r q next now (inr (m, inl (d, e))) v =
    subst IsSound (sym e)
      (record { stamped = λ _ x. cc; unstamped = λ f. absurd (f d); window = v.window })
Stepped-IsSound r q next now (inr (m, inr (d, e))) v = subst IsSound (sym e) (record {
  stamped = λ f. absurd (d f);
  unstamped = λ _. v.unstamped (Moves-ne_completed m);
  window = v.window;
})

min-le_right : (a b t : ℕ) → some (min a b) ≡ some t → t ≤ b
min-le_right a b t e = ground arith

Change-IsSound : (r q : EvaluationRun) → Change r q → IsSound r → IsSound q
Change-IsSound r q (moved next now t) v = Stepped-IsSound r q next now t v
Change-IsSound r q (begun s reason terminal until now _ _ t e) v =
    let w = Stepped-IsSound r s settling now t v in
    subst IsSound (sym e) (record {
      stamped = w.stamped;
      unstamped = w.unstamped;
      window = λ x d. min-le_right until s.hard_deadline_at x d;
    })
Change-IsSound r q (renewed until now _ e) v = subst IsSound (sym e) (record {
  stamped = v.stamped;
  unstamped = v.unstamped;
  window = λ x d. min-le_right until r.hard_deadline_at x d;
})

-- Every history keeps a sound run sound: `completed_at` is set in the state `completed` and in no
-- other, and the settle window never reaches past the hard deadline.
pub run-IsSound : (r : EvaluationRun) (cs : List Call) → IsSound r → IsSound (run r cs)
run-IsSound r cs v = run_keeps IsSound Change-IsSound r cs v

-- The completion signal on record.
abbrev pub Signalled : CompletionReason → Option String → EvaluationRun → Type 0
Signalled reason terminal r = (r.completion_reason ≡ some reason) × (r.terminal_state ≡ terminal)

Stepped-Signalled :
    (reason : CompletionReason) (terminal : Option String) (r q : EvaluationRun)
    (next : EvaluationRunState) (now : OffsetDateTime)
    → Stepped r next now q
    → Signalled reason terminal r
    → Signalled reason terminal q
Stepped-Signalled reason terminal r q next now (inl e) h =
    subst (Signalled reason terminal) (sym e) h
Stepped-Signalled reason terminal r q next now (inr (_, inl (_, e))) h =
    subst (Signalled reason terminal) (sym e) h
Stepped-Signalled reason terminal r q next now (inr (_, inr (_, e))) h =
    subst (Signalled reason terminal) (sym e) h

Change-Signalled :
    (reason : CompletionReason) (terminal : Option String) (r q : EvaluationRun)
    → Change r q
    → Signalled reason terminal r
    → Signalled reason terminal q
Change-Signalled reason terminal r q (moved next now t) h =
    Stepped-Signalled reason terminal r q next now t h
Change-Signalled reason terminal r q (begun _ _ _ _ _ e _ _ _) h = absurd (cc (sym e ∙ h.0))
Change-Signalled reason terminal r q (renewed _ _ _ e) h =
    subst (Signalled reason terminal) (sym e) h

-- The first completion signal wins: once a reason is on record, no history of calls changes it or
-- the terminal state that came with it.
pub run-Signalled :
    (reason : CompletionReason) (terminal : Option String) (r : EvaluationRun) (cs : List Call)
    → Signalled reason terminal r
    → Signalled reason terminal (run r cs)
run-Signalled reason terminal r cs h =
    run_keeps (Signalled reason terminal) (Change-Signalled reason terminal) r cs h
