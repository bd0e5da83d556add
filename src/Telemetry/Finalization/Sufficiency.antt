-- ===== src/Telemetry/Finalization/Sufficiency.antt =====
-- When the evidence that `finalize_observed_spans` closes is insufficient.
use featherlane_ai.Prelude.{
  ℕ, suc, ◌<◌, ◌≡◌, refl, sym, subst, inl, inr, ◌⊎◌, ◌↔◌, true, Option, some, List, [], ◌∷◌, ◌++◌,
  map, String, All, Any, length, get_elem?, iff_trans, Result, ok, err, arith, count, Bool-cases,
  ◌==◌, ==_iff, is_some_and, is_some_and,
}
use featherlane_ai.Json.{Numbers, Value}
use featherlane_ai.Domain.Events.{CompletionReason, insufficient, EvidenceBundle}
use featherlane_ai.Telemetry.{TraceSpan, NormalizationContext}
use featherlane_ai.Telemetry.Limits.{TelemetryError}
use featherlane_ai.Telemetry.Redaction.{RedactionPolicy}
use featherlane_ai.Telemetry.Quality.{defect, assess_trace_quality}
use featherlane_ai.Telemetry.Correlation.{CorrelationCandidate}
use featherlane_ai.Telemetry.Causal.{causal_order}
use featherlane_ai.Telemetry.Causal.Laws.{HasCycle, causal_order-blocking}
use featherlane_ai.Telemetry.Normalization.{
  Libraries, correlation_of, correlation_defects, display_error, normalize_ordered,
  normalize_prepared, normalize_spans_with_defects, prepare_span,
}
use featherlane_ai.Telemetry.Normalization.Laws.{some_elem, order_below, in_order, get_elem?-lt}
use featherlane_ai.Telemetry.Finalization.{
  is_forced_reason, final_defects, CanonicalEvidence, FinalizationMetadata, finalize_observed_spans,
}
use featherlane_ai.Telemetry.Finalization.Laws.{
  Counts, Any-append_iff, final_defects-Any, quality-Blocking, Unfinished, assess-Any,
}

ok-ne-err : {E A : Type 0} (c : A) (e : E) → (let r : Result E A = ok c in r ≡ err e) → ⊥
ok-ne-err c e h = cc

correlation-ne-terminal :
    (m : String) → ¬ ((defect "invalid_correlation" m true).code ≡ "missing_terminal")
correlation-ne-terminal m h = cc

module _ {num : Numbers} where
  span_inj : {x y : TraceSpan num} → (let o : Option (TraceSpan num) = some x in o ≡ some y) → x ≡ y
  span_inj h = cc

module _ {num : Numbers} (libraries : Libraries num) (context : NormalizationContext)
    (reason : Option CompletionReason) where
  -- An identifier of the span does not parse.
  abbrev pub Fails : List (TraceSpan num) → TraceSpan num → Type 0
  Fails spans span = (e : TelemetryError) × (correlation_of libraries context spans span ≡ err e)

  failure-Any :
      (spans : List (TraceSpan num)) (r : Result TelemetryError CorrelationCandidate)
      → Any (Counts reason) (correlation_defects r) ↔ ((e : TelemetryError) × (r ≡ err e))
  failure-Any spans (ok c) = (λ h. absurd h, λ h. absurd (ok-ne-err c h.0 h.1))
  failure-Any spans (err e) =
      (λ _. (e, refl), λ _. inl (refl, inr (correlation-ne-terminal (display_error e))))

  abbrev pub FailsAt : List (TraceSpan num) → ℕ → Type 0
  FailsAt spans i = (span : TraceSpan num) × (get_elem? spans i ≡ some span) × Fails spans span

  ordered-Any :
      (spans : List (TraceSpan num)) (index : ℕ) (is : List ℕ)
      → All (λ i. i < length spans) is
      → Any (Counts reason) (normalize_ordered libraries context spans index is).1
        ↔ Any (FailsAt spans) is
  unfolding normalize_ordered
  ordered-Any spans index [] h = (λ k. k, λ k. k)
  ordered-Any spans index (i ∷ is) h =
      let (span, e) = some_elem spans i h.0 in
      let (f, g) = ordered-Any spans (suc index) is h.1 in
      let r = correlation_of libraries context spans span in
      let (u, v) = failure-Any spans r in
      let (a, b) =
        Any-append_iff (Counts reason) (correlation_defects r)
          (normalize_ordered libraries context spans (suc index) is).1 in
      rw (e, normalize_ordered)
        (
          λ k. elim (a k) [ inl x ↦ inl (span, refl, u x) | inr x ↦ inr (f x) ],
          λ k. elim k [
            | inl (s, at, x) ↦ b (inl (v (subst (Fails spans) (span_inj (sym at)) x)))
            | inr x ↦ b (inr (g x))
          ],
        )

  FailsAt-Any :
      (spans : List (TraceSpan num)) (is : List ℕ)
      → ((i : ℕ) → i < length spans → 0 < count i is)
      → Any (FailsAt spans) is ↔ ((i : ℕ) × FailsAt spans i)
  FailsAt-Any spans is whole = (
    some_at is,
    λ h.
        at_some h.0 is (whole h.0 (get_elem?-lt libraries context spans spans h.0 h.1.0 h.1.1)) h.1,
  )
    where
      some_at : (js : List ℕ) → Any (FailsAt spans) js → (i : ℕ) × FailsAt spans i
      some_at [] h = absurd h
      some_at (j ∷ js) (inl f) = (j, f)
      some_at (j ∷ js) (inr r) = some_at js r

      at_some : (i : ℕ) (js : List ℕ) → 0 < count i js → FailsAt spans i → Any (FailsAt spans) js
      at_some i [] h f = absurd (omega (arith, h))
      at_some i (j ∷ js) h f = elim (Bool-cases (j == i)) [
        | inl e ↦ inl (subst (FailsAt spans) (sym ((==_iff j i).0 e)) f)
        | inr ne ↦ inr (at_some i js (ground (arith, ne, h)) f)
      ]

  -- Some span's correlation fails.
  abbrev pub Miscorrelated : List (TraceSpan num) → Type 0
  Miscorrelated spans = (i : ℕ) × FailsAt spans i

  defects-Any :
      (spans : List (TraceSpan num))
      → Any (Counts reason) (normalize_prepared libraries context spans).1
        ↔ (HasCycle spans ⊎ Miscorrelated spans)
  unfolding normalize_prepared
  defects-Any spans =
      let (order, ds) = causal_order spans in
      let (f, g) =
        Any-append_iff (Counts reason) ds (normalize_ordered libraries context spans 0 order).1 in
      let (u, v) = causal_order-blocking spans (Counts reason) (λ d c. c.0) (refl, inr (λ e. cc)) in
      let (a, b) =
        iff_trans (ordered-Any spans 0 order (order_below libraries context spans))
          (FailsAt-Any spans order (in_order libraries context spans)) in
      (
        λ h. elim (f h) [ inl x ↦ inl (u x) | inr x ↦ inr (a x) ],
        λ h. g (elim h [ inl x ↦ inl (v x) | inr x ↦ inr (b x) ]),
      )

module _ {num : Numbers} {Bytes : Type 0} (to_vec : CanonicalEvidence num → Result String Bytes)
    (into_bytes : String → Bytes) (digest : Bytes → String) (libraries : Libraries num)
    (context : NormalizationContext) (metadata : FinalizationMetadata)
    (spans : List (TraceSpan num)) (side_effects : List (Value num))
    (policy : RedactionPolicy) where
  abbrev pub prepared : List (TraceSpan num)
  prepared = map (prepare_span policy) spans

  abbrev pub bundle : EvidenceBundle num
  bundle =
      finalize_observed_spans to_vec into_bytes digest libraries context metadata spans side_effects
        policy

  abbrev pub Lacks : Type 0
  Lacks =
      HasCycle prepared
      ⊎ Miscorrelated libraries context metadata.completion_reason prepared
      ⊎ Unfinished metadata.completion_reason libraries.display bundle.events
      ⊎ (is_some_and metadata.completion_reason is_forced_reason ≡ true)

  -- The evidence of observed spans is insufficient exactly when the spans depend on one another in a
  -- cycle, an identifier of a span does not parse, no event is a root, the run was forced to end, or
  -- no event is final and the completion reason does not stand for one.
  pub finalize_observed_spans-insufficient : (bundle.trace_quality ≡ insufficient) ↔ Lacks
  unfolding finalize_observed_spans normalize_spans_with_defects
  finalize_observed_spans-insufficient =
      let reason = metadata.completion_reason in
      let (events, ds) = normalize_prepared libraries context prepared in
      let more = (assess_trace_quality libraries.display events).1 in
      let (a, b) = quality-Blocking (final_defects reason (ds ++ more)) in
      let (f, g) = final_defects-Any reason (ds ++ more) in
      let (u, v) = Any-append_iff (Counts reason) ds more in
      let (p, q) = defects-Any libraries context reason prepared in
      let (s, t) = assess-Any reason libraries.display events in
      (
        λ h. elim (f (a h)) [
          | inr forced ↦ inr (inr (inr forced))
          | inl k ↦ elim (u k) [
            | inr m ↦ inr (inr (inl (s m)))
            | inl d ↦ elim (p d) [ inl c ↦ inl c | inr m ↦ inr (inl m) ]
          ]
        ],
        λ h. b (
            g (elim h [
              | inl c ↦ inl (v (inl (q (inl c))))
              | inr (inl m) ↦ inl (v (inl (q (inr m))))
              | inr (inr (inl m)) ↦ inl (v (inr (t m)))
              | inr (inr (inr forced)) ↦ inr forced
            ])),
      )
