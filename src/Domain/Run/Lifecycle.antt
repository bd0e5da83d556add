-- ===== src/Domain/Run/Lifecycle.antt =====
-- `EvaluationRun::transition_to` against the lifecycle as a relation.
use featherlane_ai.Prelude.{
  ℕ, ◌≤◌, ◌≡◌, refl, sym, subst, ◌≢◌, ◌⊎◌, inl, inr, true, false, some, String, same, same-eq,
  same-ne, false-ne_true, Bool-cases, arith,
}
use featherlane_ai.Domain.Ids.{OffsetDateTime}
use featherlane_ai.Domain.Events.{invalid_transition}
use featherlane_ai.Domain.Run.{
  EvaluationRunState, EvaluationRunState-discrete, created, collecting, settling, finalizing,
  evaluating, completed, cancelled, failed, EvaluationRun, Outcome, ok, err, after, is_terminal,
  allowed, enter, transition_to,
}

-- A run that has not ended.
abbrev pub IsOpen : EvaluationRunState → Type 0
IsOpen s = (s ≢ completed) × (s ≢ cancelled) × (s ≢ failed)

-- The documented lifecycle.
pub data Moves : EvaluationRunState → EvaluationRunState → Type 0 where
  first_span : Moves created collecting
  early_signal : Moves created settling
  signal : Moves collecting settling
  settled : Moves settling finalizing
  finalized : Moves finalizing evaluating
  evaluated : Moves evaluating completed
  cancel : {s : EvaluationRunState} → IsOpen s → Moves s cancelled
  fail : {s : EvaluationRunState} → IsOpen s → Moves s failed

IsOpen-of : (s : EvaluationRunState) → is_terminal s ≡ false → IsOpen s
unfolding is_terminal
IsOpen-of completed h = cc
IsOpen-of cancelled h = cc
IsOpen-of failed h = cc
IsOpen-of _ h = (λ e. cc, λ e. cc, λ e. cc)

not_terminal : (s : EvaluationRunState) → IsOpen s → is_terminal s ≡ false
unfolding is_terminal
not_terminal completed (h, _, _) = absurd (h refl)
not_terminal cancelled (_, h, _) = absurd (h refl)
not_terminal failed (_, _, h) = absurd (h refl)
not_terminal _ h = refl

allowed_sound : (s t : EvaluationRunState) → allowed s t ≡ true → Moves s t
unfolding allowed is_terminal
allowed_sound created collecting h = first_span
allowed_sound created settling h = early_signal
allowed_sound collecting settling h = signal
allowed_sound settling finalizing h = settled
allowed_sound finalizing evaluating h = finalized
allowed_sound evaluating completed h = evaluated
allowed_sound completed cancelled h = cc
allowed_sound completed failed h = cc
allowed_sound cancelled cancelled h = cc
allowed_sound cancelled failed h = cc
allowed_sound failed cancelled h = cc
allowed_sound failed failed h = cc
allowed_sound s cancelled h = cancel (IsOpen-of s refl)
allowed_sound s failed h = fail (IsOpen-of s refl)
allowed_sound _ _ h = cc

allowed_open :
    (s : EvaluationRunState) → IsOpen s → (allowed s cancelled ≡ true) × (allowed s failed ≡ true)
unfolding allowed is_terminal
allowed_open completed (h, _, _) = absurd (h refl)
allowed_open cancelled (_, h, _) = absurd (h refl)
allowed_open failed (_, _, h) = absurd (h refl)
allowed_open _ h = (refl, refl)

allowed_complete : {s t : EvaluationRunState} → Moves s t → allowed s t ≡ true
unfolding allowed
allowed_complete first_span = refl
allowed_complete early_signal = refl
allowed_complete signal = refl
allowed_complete settled = refl
allowed_complete finalized = refl
allowed_complete evaluated = refl
allowed_complete (cancel {s = s} h) = (allowed_open s h).0
allowed_complete (fail {s = s} h) = (allowed_open s h).1

-- The run in its next state: the clock is taken over, and the end is stamped on completion.
abbrev pub Entered : EvaluationRun → EvaluationRunState → OffsetDateTime → EvaluationRun → Type 0
Entered r next now q =
    ((next ≡ completed)
      × (q ≡ record r { state = next; updated_at = now; completed_at = some now }))
    ⊎ ((next ≢ completed) × (q ≡ record r { state = next; updated_at = now }))

abbrev pub Transition : EvaluationRun → EvaluationRunState → OffsetDateTime → Outcome → Type 0
Transition r next now (ok q) =
    ((r.state ≡ next) × (q ≡ r)) ⊎ ((r.state ≢ next) × Moves r.state next × Entered r next now q)
Transition r next now (err e q) =
    (r.state ≢ next)
    × ¬ Moves r.state next
    × (q ≡ r)
    × ((text : String) × (e ≡ invalid_transition text))

enter-Entered :
    (r : EvaluationRun) (next : EvaluationRunState) (now : OffsetDateTime)
    → Entered r next now (enter r next now)
unfolding enter EvaluationRunState-discrete
enter-Entered r completed now = inl (refl, refl)
enter-Entered r _ now = inr (λ e. cc, refl)

-- A transition succeeds exactly when the run is in the next state already, which changes nothing, or
-- the lifecycle has the move: then the state and the clock change, `completed_at` on completion
-- alone, and every other field stays. Any other transition is an error that leaves the run as it was.
pub transition_to-Transition :
    (r : EvaluationRun) (next : EvaluationRunState) (now : OffsetDateTime)
    → Transition r next now (transition_to r next now)
unfolding transition_to
transition_to-Transition r next now =
    elim (Bool-cases (same EvaluationRunState-discrete r.state next)) [
      | inl here ↦
          rw (here, transition_to) (inl (same-eq EvaluationRunState-discrete _ _ here, refl))
      | inr other ↦
          let apart = same-ne EvaluationRunState-discrete r.state next other in
          elim (Bool-cases (allowed r.state next)) [
            | inl fits ↦
                rw (other, fits, transition_to)
                  (inr (apart, allowed_sound _ _ fits, enter-Entered r next now))
            | inr refused ↦
                rw (other, refused, transition_to)
                  (apart, (λ m. false-ne_true (allowed_complete m) refused), refl, (_, refl))
          ]
    ]

-- How far a state is along the lifecycle.
abbrev pub rank : EvaluationRunState → ℕ
rank created = 0
rank collecting = 1
rank settling = 2
rank finalizing = 3
rank evaluating = 4
rank _ = 5

rank_le : (s : EvaluationRunState) → rank s ≤ 5
rank_le created = omega arith
rank_le _ = omega arith

pub Moves-rank : {s t : EvaluationRunState} → Moves s t → rank s ≤ rank t
Moves-rank first_span = omega arith
Moves-rank early_signal = omega arith
Moves-rank signal = omega arith
Moves-rank settled = omega arith
Moves-rank finalized = omega arith
Moves-rank evaluated = omega arith
Moves-rank (cancel {s = s} h) = rank_le s
Moves-rank (fail {s = s} h) = rank_le s

pub Moves-IsOpen : {s t : EvaluationRunState} → Moves s t → IsOpen s
Moves-IsOpen first_span = (λ e. cc, λ e. cc, λ e. cc)
Moves-IsOpen early_signal = (λ e. cc, λ e. cc, λ e. cc)
Moves-IsOpen signal = (λ e. cc, λ e. cc, λ e. cc)
Moves-IsOpen settled = (λ e. cc, λ e. cc, λ e. cc)
Moves-IsOpen finalized = (λ e. cc, λ e. cc, λ e. cc)
Moves-IsOpen evaluated = (λ e. cc, λ e. cc, λ e. cc)
Moves-IsOpen (cancel h) = h
Moves-IsOpen (fail h) = h

-- What holds of the run and of the run in a next state that the lifecycle allows holds after the
-- call, whether it failed or not.
pub after-transition_to :
    (P : EvaluationRun → Type 0) (r : EvaluationRun) (next : EvaluationRunState)
    (now : OffsetDateTime)
    → P r
    → (Moves r.state next → (q : EvaluationRun) → Entered r next now q → P q)
    → P (after (transition_to r next now))
after-transition_to P r next now p f =
    go (transition_to r next now) (transition_to-Transition r next now)
  where
    go : (o : Outcome) → Transition r next now o → P (after o)
    go (ok q) (inl (_, e)) = subst P (sym e) p
    go (ok q) (inr (_, m, e)) = f m q e
    go (err x q) (_, _, e, _) = subst P (sym e) p
