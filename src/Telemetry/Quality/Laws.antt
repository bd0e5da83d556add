-- ===== src/Telemetry/Quality/Laws.antt =====
-- What the quality of a trace says of its events.
use featherlane_ai.Prelude.{
  ℕ, ◌≤◌, ◌≡◌, refl, sym, ◌∙◌, ◌↔◌, inl, inr, Bool, true, false, not, ◌&&◌, Option, none, some,
  List, [], ◌∷◌, ◌++◌, map, String, same, same_iff, any, any_iff, In, ltb, ◌==◌, ==_iff, is_empty,
  is_none, is_some_and, if◌then◌else◌, All, All-map, Any, Given, Bool-cases, iff_trans,
  not-false_iff, pair_iff, and_iff, arith,
}
use featherlane_ai.Json.{Numbers}
use featherlane_ai.Domain.Ids.{EventId}
use featherlane_ai.Domain.Events.{
  EventType-discrete, final_output, NormalizedEvent, TraceQualityStatus, complete, degraded,
  insufficient, TraceDefect,
}
use featherlane_ai.Telemetry.Quality.{
  quality_from_defects, trace_level_defects, is_orphan, is_negative, all_event_defects,
  assess_trace_quality,
}

abbrev pub blocks : TraceDefect → Bool
blocks d = d.blocking

-- The trace is sound as a whole, and its events one by one.
abbrev sound : Bool → Bool → Bool → Bool
sound empty rooted terminated = not empty && rooted && terminated

quality_of :
    (a r f : Bool) (rest : List TraceDefect)
    → any blocks rest ≡ false
    → (quality_from_defects (trace_level_defects a r f ++ rest)
        ≡ (if sound a r f then (if is_empty rest then complete else degraded) else insufficient))
unfolding quality_from_defects trace_level_defects
quality_of false true true rest h = rw h refl
quality_of true r f rest h = refl
quality_of false false f rest h = refl
quality_of false true false rest h = refl

status_iff :
    (s e : Bool)
    → ((let q : TraceQualityStatus =
            if s then (if e then complete else degraded) else insufficient in
          (q ≡ insufficient))
        ↔ (s ≡ false))
      × ((let q : TraceQualityStatus =
              if s then (if e then complete else degraded) else insufficient in
            (q ≡ complete))
          ↔ ((s ≡ true) × (e ≡ true)))
status_iff true true = (((λ h. cc), λ h. cc), ((λ h. (refl, refl)), λ h. refl))
status_iff true false = (((λ h. cc), λ h. cc), ((λ h. cc), λ h. cc h.1))
status_iff false e = (((λ h. refl), λ h. refl), ((λ h. cc), λ h. cc h.0))

same_side : {A : Type 0} {a b c : A} → a ≡ b → (a ≡ c) ↔ (b ≡ c)
same_side e = ((λ h. sym e ∙ h), λ h. e ∙ h)

false_iff : (b : Bool) {P : Type 0} → (b ≡ true) ↔ P → (b ≡ false) ↔ ¬ P
false_iff true e = ((λ h. cc), λ h. absurd (h (e.0 refl)))
false_iff false e = ((λ _ p. cc (e.1 p)), λ _. refl)

module _ {num : Numbers} (display : EventId → String) where
  pub loop_harmless :
      (ids : List EventId) (es : List (NormalizedEvent num))
      → any blocks (all_event_defects display ids es) ≡ false
  unfolding all_event_defects
  loop_harmless ids [] = refl
  loop_harmless ids (e ∷ es) = elim (Bool-cases (is_orphan display ids e)) [
    | inl o ↦ elim (Bool-cases (is_negative display e)) [
      | inl n ↦ rw (o, n) (loop_harmless ids es)
      | inr n ↦ rw (o, n) (loop_harmless ids es)
    ]
    | inr o ↦ elim (Bool-cases (is_negative display e)) [
      | inl n ↦ rw (o, n) (loop_harmless ids es)
      | inr n ↦ rw (o, n) (loop_harmless ids es)
    ]
  ]

  abbrev IsRegular : List EventId → NormalizedEvent num → Type 0
  IsRegular ids e = (is_orphan display ids e ≡ false) × (is_negative display e ≡ false)

  loop_iff :
      (ids : List EventId) (es : List (NormalizedEvent num))
      → (is_empty (all_event_defects display ids es) ≡ true) ↔ All (IsRegular ids) es
  unfolding all_event_defects
  loop_iff ids [] = ((λ _. tt), λ _. refl)
  loop_iff ids (e ∷ es) = elim (Bool-cases (is_orphan display ids e)) [
    | inl o ↦ rw o ((λ h. cc), λ h. cc h.0.0)
    | inr o ↦ elim (Bool-cases (is_negative display e)) [
      | inl n ↦ rw (o, n) ((λ h. cc), λ h. cc h.0.1)
      | inr n ↦
          rw (o, n) ((λ h. ((refl, refl), (loop_iff ids es).0 h)), λ h. (loop_iff ids es).1 h.1)
    ]
  ]

module _ {num : Numbers} where
  abbrev pub IsRoot : NormalizedEvent num → Type 0
  IsRoot event = event.parent_event_id ≡ none

  abbrev pub IsFinal : NormalizedEvent num → Type 0
  IsFinal event = event.event_type ≡ final_output

  -- Its parent is an event of the trace, and it does not end before it starts.
  abbrev pub IsWellFormed : List (NormalizedEvent num) → NormalizedEvent num → Type 0
  IsWellFormed events event =
      Given event.parent_event_id (λ parent. In parent (map (λ e. e.id) events))
      × Given event.ended_at (λ ended_at. event.started_at ≤ ended_at)

  pub IsRoot-iff : (e : NormalizedEvent num) → (is_none e.parent_event_id ≡ true) ↔ IsRoot e
  IsRoot-iff e = none_iff e.parent_event_id
    where
      none_iff : (o : Option EventId) → (is_none o ≡ true) ↔ (o ≡ none)
      none_iff none = ((λ _. refl), λ _. refl)
      none_iff (some i) = ((λ h. cc), λ h. cc)

  pub IsFinal-iff :
      (e : NormalizedEvent num)
      → (same EventType-discrete e.event_type final_output ≡ true) ↔ IsFinal e
  IsFinal-iff e = same_iff EventType-discrete e.event_type final_output

  sound_iff :
      (es : List (NormalizedEvent num))
      → (sound
            (is_empty es)
            (any (λ e. is_none e.parent_event_id) es)
            (any (λ e. same EventType-discrete e.event_type final_output) es)
          ≡ true)
        ↔ (Any IsRoot es × Any IsFinal es)
  sound_iff [] = ((λ h. cc), λ h. absurd h.0)
  sound_iff (e ∷ es) = and_iff _ _ (any_iff _ IsRoot-iff (e ∷ es)) (any_iff _ IsFinal-iff (e ∷ es))

  IsRegular-iff :
      (display : EventId → String) (events : List (NormalizedEvent num)) (e : NormalizedEvent num)
      → IsRegular display (map (λ x. x.id) events) e ↔ IsWellFormed events e
  IsRegular-iff display events e = pair_iff (orphan_iff e.parent_event_id) (negative_iff e.ended_at)
    where
      orphan_iff :
          (o : Option EventId)
          → (is_some_and o (λ parent. not (any (λ id. id == parent) (map (λ x. x.id) events)))
              ≡ false)
            ↔ Given o (λ parent. In parent (map (λ x. x.id) events))
      orphan_iff none = ((λ _. tt), λ _. refl)
      orphan_iff (some p) =
          iff_trans (not-false_iff _)
            (any_iff (λ id. id == p) (λ id. ==_iff id p) (map (λ x. x.id) events))

      negative_iff :
          (o : Option ℕ)
          → (is_some_and o (λ t. ltb t e.started_at) ≡ false) ↔ Given o (λ t. e.started_at ≤ t)
      negative_iff none = ((λ _. tt), λ _. refl)
      negative_iff (some t) = ground arith

  -- A trace is insufficient exactly when it has no root event or no final output, and complete exactly
  -- when it has both, every parent that an event names is an event of the trace, and no event ends
  -- before it starts. Otherwise it is degraded.
  pub assess_trace_quality-IsWellFormed :
      (display : EventId → String) (events : List (NormalizedEvent num))
      → (((assess_trace_quality display events).0 ≡ insufficient)
          ↔ ¬ (Any IsRoot events × Any IsFinal events))
        × (((assess_trace_quality display events).0 ≡ complete)
            ↔ ((Any IsRoot events × Any IsFinal events) × All (IsWellFormed events) events))
  unfolding assess_trace_quality
  assess_trace_quality-IsWellFormed display events =
      let rest = all_event_defects display (map (λ e. e.id) events) events in
      let whole =
        quality_of (is_empty events) (any (λ e. is_none e.parent_event_id) events)
          (any (λ e. same EventType-discrete e.event_type final_output) events) rest
          (loop_harmless display (map (λ e. e.id) events) events) in
      let s : Bool =
        sound (is_empty events) (any (λ e. is_none e.parent_event_id) events)
          (any (λ e. same EventType-discrete e.event_type final_output) events) in
      let (lost, fine) = status_iff s (is_empty rest) in
      let ids = map (λ e. e.id) events in
      let spec = sound_iff events in
      (
        iff_trans (same_side whole) (iff_trans lost (false_iff s spec)),
        iff_trans (same_side whole) (
            iff_trans fine (
              pair_iff spec (
                iff_trans (loop_iff display ids events) (
                  All-map (λ e. (IsRegular-iff display events e).0) events,
                  All-map (λ e. (IsRegular-iff display events e).1) events,
                )))),
      )
