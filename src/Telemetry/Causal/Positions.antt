-- ===== src/Telemetry/Causal/Positions.antt =====
-- The map from the ids of spans to their positions.
use featherlane_ai.Prelude.{
  ℕ, zero, suc, ◌+◌, ◌<◌, ◌≡◌, refl, sym, ap, subst, ◌∙◌, inl, inr, ◌⊎◌, ◌↔◌, ◌&&◌, Option, none,
  some, List, [], ◌∷◌, String, str_eq, str_eq_iff, All, length, Bool-cases, and_iff, false-ne_true,
  arith,
}
use featherlane_ai.Json.{Numbers}
use featherlane_ai.Telemetry.{TraceSpan}
use featherlane_ai.Telemetry.Causal.{position_from, position}

some_inj : {p q : ℕ} → (let o : Option ℕ = some p in o ≡ some q) → p ≡ q
some_inj h = cc

module _ {num : Numbers} where
  abbrev pub HasIds : String → String → TraceSpan num → Type 0
  HasIds trace_id span_id span = (span.trace_id ≡ trace_id) × (span.span_id ≡ span_id)

  -- The last of the spans with these ids stands at the index.
  abbrev pub StandsAt : String → String → List (TraceSpan num) → ℕ → Type 0
  StandsAt t s [] i = ⊥
  StandsAt t s (x ∷ xs) zero = HasIds t s x × All (λ y. ¬ HasIds t s y) xs
  StandsAt t s (x ∷ xs) (suc i) = StandsAt t s xs i

  pub StandsAt-lt :
      (t s : String) (xs : List (TraceSpan num)) (j : ℕ) → StandsAt t s xs j → j < length xs
  StandsAt-lt t s [] j h = absurd h
  StandsAt-lt t s (x ∷ xs) zero h = omega arith
  StandsAt-lt t s (x ∷ xs) (suc j) h = omega (arith, StandsAt-lt t s xs j h)

  not-StandsAt :
      (t s : String) (xs : List (TraceSpan num)) (j : ℕ)
      → All (λ y. ¬ HasIds t s y) xs
      → ¬ StandsAt t s xs j
  not-StandsAt t s [] j a h = h
  not-StandsAt t s (x ∷ xs) zero a h = a.0 h.0
  not-StandsAt t s (x ∷ xs) (suc j) a h = not-StandsAt t s xs j a.1 h

  pub StandsAt-unique :
      (t s : String) (xs : List (TraceSpan num)) (j k : ℕ)
      → StandsAt t s xs j
      → StandsAt t s xs k
      → j ≡ k
  StandsAt-unique t s [] j k h g = absurd h
  StandsAt-unique t s (x ∷ xs) zero zero h g = refl
  StandsAt-unique t s (x ∷ xs) zero (suc k) h g = absurd (not-StandsAt t s xs k h.1 g)
  StandsAt-unique t s (x ∷ xs) (suc j) zero h g = absurd (not-StandsAt t s xs j g.1 h)
  StandsAt-unique t s (x ∷ xs) (suc j) (suc k) h g = ap suc (StandsAt-unique t s xs j k h g)

  abbrev Found : String → String → List (TraceSpan num) → ℕ → Option ℕ → Type 0
  Found t s xs i o =
      ((o ≡ none) × All (λ y. ¬ HasIds t s y) xs)
      ⊎ ((j : ℕ) × (o ≡ some (i + j)) × StandsAt t s xs j)

  position_from-Found :
      (t s : String) (xs : List (TraceSpan num)) (i : ℕ) → Found t s xs i (position_from i xs t s)
  unfolding position_from
  position_from-Found t s [] i = inl (refl, tt)
  position_from-Found t s (x ∷ xs) i =
      let same =
        and_iff (str_eq x.trace_id t) (str_eq x.span_id s) (str_eq_iff x.trace_id t)
          (str_eq_iff x.span_id s) in
      elim (position_from-Found t s xs (suc i)) [
        | inr (j, e, at) ↦ inr (suc j, rw e (ap some (omega arith)), at)
        | inl (e, nowhere) ↦ elim (Bool-cases (str_eq x.trace_id t && str_eq x.span_id s)) [
          | inl hit ↦ inr (zero, rw (e, hit) (ap some (omega arith)), (same.0 hit, nowhere))
          | inr miss ↦ inl (rw (e, miss) refl, ((λ h. false-ne_true (same.1 h) miss), nowhere))
        ]
      ]

  pub position_iff :
      (spans : List (TraceSpan num)) (t s : String) (p : ℕ)
      → (position spans t s ≡ some p) ↔ StandsAt t s spans p
  position_iff spans t s p = elim (position_from-Found t s spans 0) [
    | inl (e, nowhere) ↦ ((λ h. cc (e, h)), λ h. absurd (not-StandsAt t s spans p nowhere h))
    | inr (j, e, at) ↦
        let f : position_from 0 spans t s ≡ some j = e ∙ ap some (omega arith) in
        (
          λ h. subst (StandsAt t s spans) (some_inj (sym f ∙ h)) at,
          λ h. f ∙ ap some (StandsAt-unique t s spans j p at h),
        )
  ]
