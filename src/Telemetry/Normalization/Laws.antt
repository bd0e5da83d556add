-- ===== src/Telemetry/Normalization/Laws.antt =====
-- Where the events of the spans stand, and what they say of their parents.
use featherlane_ai.Prelude.{
  ℕ, zero, suc, ◌+◌, ◌<◌, ◌≡◌, ◌≢◌, refl, sym, ap, ◌∙◌, inl, inr, Option, some, List, [], ◌∷◌, map,
  String, str_eq, str_eq_iff, All, Any, any_iff, length, get_elem?, ltb, ◌==◌, ==_iff, Bool-cases,
  and_iff, and_then, arith, count, index_of, sum_below, length-sum_below, sum_below_congr,
}
use featherlane_ai.Json.{Numbers}
use featherlane_ai.Domain.Events.{NormalizedEvent}
use featherlane_ai.Telemetry.{TraceSpan, NormalizationContext}
use featherlane_ai.Telemetry.Redaction.{RedactionPolicy}
use featherlane_ai.Telemetry.Causal.{causal_order}
use featherlane_ai.Telemetry.Causal.Positions.{HasIds, StandsAt}
use featherlane_ai.Telemetry.Causal.Dependence.{NamesParent}
use featherlane_ai.Telemetry.Causal.Laws.{HasCycle, IsCausalOrder, causal_order-IsCausalOrder}
use featherlane_ai.Telemetry.Normalization.{
  Libraries, has_ids, span_to_event, source_event, normalize_span, normalize_ordered,
  normalize_prepared, prepare_span, normalize_spans_with_defects,
}

get_elem?-index_of : (i : ℕ) (xs : List ℕ) → 0 < count i xs → get_elem? xs (index_of i xs) ≡ some i
get_elem?-index_of i [] h = absurd (omega (arith, h))
get_elem?-index_of i (x ∷ xs) h = elim (Bool-cases (x == i)) [
  | inl e ↦ rw e (ap some ((==_iff x i).0 e))
  | inr ne ↦ rw ne (get_elem?-index_of i xs (ground (arith, ne, h)))
]

num_inj : {i j : ℕ} → (let o : Option ℕ = some i in o ≡ some j) → i ≡ j
num_inj h = cc

pub some_elem {ℓ} :
    {A : Type ℓ} (xs : List A) (i : ℕ) → i < length xs → (x : A) × (get_elem? xs i ≡ some x)
some_elem [] i h = absurd (omega (arith, h))
some_elem (x ∷ xs) zero h = (x, refl)
some_elem (x ∷ xs) (suc i) h = some_elem xs i (omega (arith, h))

All-below : (n : ℕ) (xs : List ℕ) → ((i : ℕ) → 0 < count i xs → i < n) → All (λ i. i < n) xs
All-below n [] h = tt
All-below n (x ∷ xs) h = (h x (ground arith), All-below n xs (λ i k. h i (omega (arith, k))))

module _ {num : Numbers} (libraries : Libraries num) (context : NormalizationContext)
    (spans : List (TraceSpan num)) where
  abbrev event : ℕ → TraceSpan num → NormalizedEvent num
  event = normalize_span libraries context spans

  length-normalize_ordered :
      (index : ℕ) (is : List ℕ)
      → All (λ i. i < length spans) is
      → length (normalize_ordered libraries context spans index is).0 ≡ length is
  unfolding normalize_ordered
  length-normalize_ordered index [] h = refl
  length-normalize_ordered index (i ∷ is) h =
      let (span, e) = some_elem spans i h.0 in
      rw (e, normalize_ordered) (ap suc (length-normalize_ordered (suc index) is h.1))

  get_elem?-normalize_ordered :
      (index k i : ℕ) (is : List ℕ) (span : TraceSpan num)
      → All (λ j. j < length spans) is
      → get_elem? is k ≡ some i
      → get_elem? spans i ≡ some span
      → get_elem? (normalize_ordered libraries context spans index is).0 k
        ≡ some (event (index + k) span)
  unfolding normalize_ordered
  get_elem?-normalize_ordered index k i [] span h at e = absurd (cc)
  get_elem?-normalize_ordered index zero i (j ∷ is) span h at e =
      let f : get_elem? spans j ≡ some span = ap (get_elem? spans) (num_inj at) ∙ e in
      rw (f, normalize_ordered) (ap (λ m. some (event m span)) (omega arith))
  get_elem?-normalize_ordered index (suc k) i (j ∷ is) span h at e =
      let (x, f) = some_elem spans j h.0 in
      rw (f, normalize_ordered)
        (get_elem?-normalize_ordered (suc index) k i is span h.1 at e
          ∙ ap (λ m. some (event m span)) (omega arith))

  -- The place of a span in the causal order.
  abbrev pub place : ℕ → ℕ
  place c = index_of c (causal_order spans).0

  order_once : IsCausalOrder spans (causal_order spans)
  order_once = causal_order-IsCausalOrder spans

  pub in_order : (c : ℕ) → c < length spans → 0 < count c (causal_order spans).0
  in_order c h = let o = order_once.all_once c in ground (arith, o, h)

  pub order_below : All (λ i. i < length spans) (causal_order spans).0
  order_below = All-below (length spans) (causal_order spans).0 (λ i h.
      elim (Bool-cases (ltb i (length spans))) [
        | inl lt ↦ ground (arith, lt)
        | inr ge ↦ absurd (let o = order_once.all_once i in ground (arith, o, ge, h))
      ])

  length-order : length (causal_order spans).0 ≡ length spans
  length-order =
      length-sum_below (length spans) (causal_order spans).0 (λ i h.
        elim (Bool-cases (ltb i (length spans))) [
          | inl lt ↦ ground (arith, lt)
          | inr ge ↦ absurd (let o = order_once.all_once i in ground (arith, o, ge, h))
        ])
      ∙ sum_below_congr (length spans) _ (λ _. 1)
          (λ i h. let o = order_once.all_once i in ground (arith, o, h))
      ∙ ones (length spans)
    where
      ones : (n : ℕ) → sum_below n (λ _. 1) ≡ n
      ones zero = refl
      ones (suc n) = omega (arith, ones n)

  pub get_elem?-lt :
      (xs : List (TraceSpan num)) (i : ℕ) (x : TraceSpan num)
      → get_elem? xs i ≡ some x
      → i < length xs
  get_elem?-lt [] i x h = cc
  get_elem?-lt (y ∷ ys) zero x h = omega arith
  get_elem?-lt (y ∷ ys) (suc i) x h = omega (arith, get_elem?-lt ys i x h)

  length-events : length (normalize_prepared libraries context spans).0 ≡ length spans
  unfolding normalize_prepared
  length-events = length-normalize_ordered 0 (causal_order spans).0 order_below ∙ length-order

  event_at :
      (c : ℕ) (span : TraceSpan num)
      → get_elem? spans c ≡ some span
      → get_elem? (normalize_prepared libraries context spans).0 (place c)
        ≡ some (event (place c) span)
  unfolding normalize_prepared
  event_at c span at =
      get_elem?-normalize_ordered 0 (place c) c (causal_order spans).0 span order_below
        (get_elem?-index_of c (causal_order spans).0 (in_order c (get_elem?-lt spans c span at))) at
      ∙ ap (λ m. some (event m span)) (omega arith)

  StandsAt-elem :
      (t s : String) (xs : List (TraceSpan num)) (p : ℕ)
      → StandsAt t s xs p
      → (span : TraceSpan num) × (get_elem? xs p ≡ some span) × HasIds t s span
  StandsAt-elem t s [] p h = absurd h
  StandsAt-elem t s (x ∷ xs) zero h = (x, refl, h.0)
  StandsAt-elem t s (x ∷ xs) (suc p) h = StandsAt-elem t s xs p h

  StandsAt-Any :
      (t s : String) (xs : List (TraceSpan num)) (p : ℕ) → StandsAt t s xs p → Any (HasIds t s) xs
  StandsAt-Any t s [] p h = absurd h
  StandsAt-Any t s (x ∷ xs) zero h = inl h.0
  StandsAt-Any t s (x ∷ xs) (suc p) h = inr (StandsAt-Any t s xs p h)

  span_to_event-known :
      (t s : String) (p : ℕ)
      → StandsAt t s spans p
      → span_to_event libraries context spans t s ≡ some (source_event libraries context spans t s)
  span_to_event-known t s p h =
      rw
        ((any_iff (has_ids t s)
            (λ x.
              and_iff (str_eq x.trace_id t) (str_eq x.span_id s) (str_eq_iff x.trace_id t)
                (str_eq_iff x.span_id s))
            spans).1
          (StandsAt-Any t s spans p h))
        refl

  parent_id :
      (k m p : ℕ) (span parent : TraceSpan num) (named : NamesParent spans span p)
      → HasIds span.trace_id named.0 parent
      → (event k span).parent_event_id ≡ some (event m parent).id
  unfolding normalize_span
  parent_id k m p span parent (x, e, at) (t, s) =
      ap (λ o. and_then o (span_to_event libraries context spans span.trace_id)) e
      ∙ span_to_event-known span.trace_id x p at
      ∙ ap (λ i. some (source_event libraries context spans i x)) (sym t)
      ∙ ap (λ i. some (source_event libraries context spans parent.trace_id i)) (sym s)

  later :
      (k m : ℕ) (span parent : TraceSpan num)
      → m < k
      → (event m parent).sequence < (event k span).sequence
  unfolding normalize_span
  later k m span parent h = omega (arith, h)

  -- What a trace of events says of the spans: one event for each, at its place in the causal order;
  -- and the event of a parent that was received is the parent event, which comes before, unless the
  -- spans depend on one another in a cycle.
  pub record IsCausalTrace (es : List (NormalizedEvent num)) : Type 0 where
    pub one_each : length es ≡ length spans
    pub placed :
        (c : ℕ) (span : TraceSpan num)
        → get_elem? spans c ≡ some span
        → get_elem? es (place c) ≡ some (event (place c) span)
    pub parents :
        (c p : ℕ) (span : TraceSpan num)
        → get_elem? spans c ≡ some span
        → NamesParent spans span p
        → (e f : NormalizedEvent num) × (get_elem? es (place c) ≡ some e)
          × (get_elem? es (place p) ≡ some f)
          × (e.parent_event_id ≡ some f.id)
          × (¬ HasCycle spans → p ≢ c → f.sequence < e.sequence)

  normalize_prepared-IsCausalTrace : IsCausalTrace (normalize_prepared libraries context spans).0
  normalize_prepared-IsCausalTrace = record {
    one_each = length-events;
    placed = event_at;
    parents = λ c p span at named.
        let (parent, found, ids) = StandsAt-elem span.trace_id named.0 spans p named.2 in
        (
          event (place c) span,
          event (place p) parent,
          event_at c span at,
          event_at p parent found,
          parent_id (place c) (place p) p span parent named ids,
          λ acyclic apart.
              later (place c) (place p) span parent
                (order_once.behind acyclic p c (span, at, (inl named, apart))),
        );
  }

-- The events of spans are a causal trace: there is one for each span, at its place in the causal
-- order of the spans; the event of a parent that was received is the parent event, and it comes
-- before, unless the spans depend on one another in a cycle.
pub normalize_spans-IsCausalTrace :
    {num : Numbers} (libraries : Libraries num) (context : NormalizationContext)
    (policy : RedactionPolicy) (spans : List (TraceSpan num))
    → IsCausalTrace libraries context
        (map (prepare_span policy) spans)
        (normalize_spans_with_defects libraries context spans policy).0
unfolding normalize_spans_with_defects
normalize_spans-IsCausalTrace libraries context policy spans =
    normalize_prepared-IsCausalTrace libraries context (map (prepare_span policy) spans)
