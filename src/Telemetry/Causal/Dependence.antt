-- ===== src/Telemetry/Causal/Dependence.antt =====
-- The graph that `causal_order` builds has an edge for each parent and each link of a span.
use featherlane_ai.Prelude.{
  ℕ, zero, suc, ◌+◌, ◌≡◌, ◌≢◌, refl, sym, subst, ◌∙◌, inl, inr, ◌⊎◌, Option, none, some, List, [],
  ◌∷◌, String, Any, length, get_elem?, Option-cases, arith, sum_below_zero,
}
use featherlane_ai.Json.{Numbers}
use featherlane_ai.Domain.Events.{TraceDefect}
use featherlane_ai.Telemetry.{TraceSpan, SpanLink}
use featherlane_ai.Telemetry.Causal.{
  Graph, add_edge, position, add_found_parent, add_parent, add_found_link, add_links, add_spans,
  build_graph,
}
use featherlane_ai.Telemetry.Causal.Edges.{Counts, Counts_iff, add_edge-Counts}
use featherlane_ai.Telemetry.Causal.Positions.{StandsAt, StandsAt-lt, StandsAt-unique, position_iff}

text_inj : {s t : String} → (let o : Option String = some s in o ≡ some t) → s ≡ t
text_inj h = cc

module _ {num : Numbers} where
  span_inj : {x y : TraceSpan num} → (let o : Option (TraceSpan num) = some x in o ≡ some y) → x ≡ y
  span_inj h = cc

  module _ (spans : List (TraceSpan num)) where
    abbrev pub NamesParent : TraceSpan num → ℕ → Type 0
    NamesParent span p =
        (x : String) × (span.parent_span_id ≡ some x) × StandsAt span.trace_id x spans p

    abbrev pub NamesLink : List SpanLink → ℕ → Type 0
    NamesLink links p = Any (λ link. StandsAt link.trace_id link.span_id spans p) links

    -- The span has the span at the index as its parent or among its links.
    abbrev pub Names : TraceSpan num → ℕ → Type 0
    Names span p = NamesParent span p ⊎ NamesLink span.links p

    abbrev Grown : (ℕ → ℕ → Type 0) → ℕ → (ℕ → Type 0) → ℕ → ℕ → Type 0
    Grown E child N p c = E p c ⊎ (c ≡ child) × N p × (p ≢ child)

    abbrev n : ℕ
    n = length spans

    -- An edge to the span that stands for ids.
    add_found :
        (E : ℕ → ℕ → Type 0) (child : ℕ) (g : Graph) (t s : String) (p : ℕ)
        → StandsAt t s spans p
        → Counts n E g
        → Counts n (Grown E child (StandsAt t s spans)) (add_edge p child g)
    add_found E child g t s p at k =
        Counts_iff n _ _ (add_edge p child g)
          (λ q c. (
            λ h. elim h [
              | inl e ↦ inl e
              | inr a ↦ inr (a.1, subst (StandsAt t s spans) (sym a.0) at, (λ e. a.2 (sym a.0 ∙ e)))
            ],
            λ h. elim h [
              | inl e ↦ inl e
              | inr a ↦
                  let same = StandsAt-unique t s spans q p a.1 at in
                  inr (same, a.0, (λ e. a.2 (same ∙ e)))
            ],
          ))
          (add_edge-Counts n p child g E (StandsAt-lt t s spans p at) k)

    -- Nothing is added for ids that no span has.
    add_missing :
        (E : ℕ → ℕ → Type 0) (child : ℕ) (g : Graph) (N : ℕ → Type 0)
        → ((p : ℕ) → ¬ N p)
        → Counts n E g
        → Counts n (Grown E child N) g
    add_missing E child g N nothing k =
        Counts_iff n E _ g
          (λ p c. ((λ h. inl h), λ h. elim h [ inl e ↦ e | inr a ↦ absurd (nothing p a.1) ])) k

    add_found_parent-Counts :
        (E : ℕ → ℕ → Type 0) (child : ℕ) (span : TraceSpan num) (t x : String)
        (s : Graph × List TraceDefect)
        → Counts n E s.0
        → Counts n
            (Grown E child (StandsAt t x spans))
            (add_found_parent spans child span (position spans t x) s).0
    unfolding add_found_parent
    add_found_parent-Counts E child span t x (g, ds) k = elim (Option-cases (position spans t x)) [
      | inl e ↦
          rw (e, add_found_parent)
            (add_missing E child g _ (λ p h. cc (e, (position_iff spans t x p).1 h)) k)
      | inr (p, e) ↦
          rw (e, add_found_parent) (add_found E child g t x p ((position_iff spans t x p).0 e) k)
    ]

    add_found_link-Counts :
        (E : ℕ → ℕ → Type 0) (child : ℕ) (span : TraceSpan num) (t x : String)
        (s : Graph × List TraceDefect)
        → Counts n E s.0
        → Counts n
            (Grown E child (StandsAt t x spans))
            (add_found_link spans child span (position spans t x) s).0
    unfolding add_found_link
    add_found_link-Counts E child span t x (g, ds) k = elim (Option-cases (position spans t x)) [
      | inl e ↦
          rw (e, add_found_link)
            (add_missing E child g _ (λ p h. cc (e, (position_iff spans t x p).1 h)) k)
      | inr (p, e) ↦
          rw (e, add_found_link) (add_found E child g t x p ((position_iff spans t x p).0 e) k)
    ]

    abbrev Parent : String → Option String → ℕ → Type 0
    Parent t o p = (x : String) × (o ≡ some x) × StandsAt t x spans p

    add_parent-Counts :
        (E : ℕ → ℕ → Type 0) (child : ℕ) (span : TraceSpan num) (o : Option String)
        (s : Graph × List TraceDefect)
        → Counts n E s.0
        → Counts n (Grown E child (Parent span.trace_id o)) (add_parent spans child span o s).0
    unfolding add_parent
    add_parent-Counts E child span none s k = add_missing E child s.0 _ (λ p h. cc h.1) k
    add_parent-Counts E child span (some x) s k =
        Counts_iff n _ _ _
          (λ q c. (
            λ h. elim h [ inl e ↦ inl e | inr a ↦ inr (a.0, (x, refl, a.1), a.2) ],
            λ h. elim h [
              | inl e ↦ inl e
              | inr a ↦ inr (
                a.0,
                subst (λ y. StandsAt span.trace_id y spans q) (text_inj (sym a.1.1)) a.1.2,
                a.2,
              )
            ],
          ))
          (add_found_parent-Counts E child span span.trace_id x s k)

    add_links-Counts :
        (E : ℕ → ℕ → Type 0) (child : ℕ) (span : TraceSpan num) (links : List SpanLink)
        (s : Graph × List TraceDefect)
        → Counts n E s.0
        → Counts n (Grown E child (NamesLink links)) (add_links spans child span links s).0
    unfolding add_links
    add_links-Counts E child span [] s k = add_missing E child s.0 _ (λ p h. h) k
    add_links-Counts E child span (link ∷ links) s k =
        let N = StandsAt link.trace_id link.span_id spans in
        let first = add_found_link-Counts E child span link.trace_id link.span_id s k in
        Counts_iff n _ _ _
          (λ q c. (
            λ h. elim h [
              | inl (inl e) ↦ inl e
              | inl (inr a) ↦ inr (a.0, inl a.1, a.2)
              | inr a ↦ inr (a.0, inr a.1, a.2)
            ],
            λ h. elim h [
              | inl e ↦ inl (inl e)
              | inr (e, inl a, f) ↦ inl (inr (e, a, f))
              | inr (e, inr a, f) ↦ inr (e, a, f)
            ],
          ))
          (add_links-Counts (Grown E child N) child span links _ first)

    -- The spans from an index on name the spans that they depend on.
    abbrev From : ℕ → List (TraceSpan num) → ℕ → ℕ → Type 0
    From i [] p c = ⊥
    From i (span ∷ rest) p c = ((c ≡ i) × Names span p × (p ≢ c)) ⊎ From (suc i) rest p c

    add_spans-Counts :
        (E : ℕ → ℕ → Type 0) (i : ℕ) (rest : List (TraceSpan num)) (s : Graph × List TraceDefect)
        → Counts n E s.0
        → Counts n (λ p c. E p c ⊎ From i rest p c) (add_spans spans i rest s).0
    unfolding add_spans
    add_spans-Counts E i [] s k =
        Counts_iff n E _ s.0 (λ p c. ((λ h. inl h), λ h. elim h [ inl e ↦ e | inr a ↦ absurd a ])) k
    add_spans-Counts E i (span ∷ rest) s k =
        let parent = add_parent-Counts E i span span.parent_span_id s k in
        let links = add_links-Counts _ i span span.links _ parent in
        Counts_iff n _ _ _
          (λ q c. (
            λ h. elim h [
              | inl (inl (inl e)) ↦ inl e
              | inl (inl (inr (e, a, f))) ↦ inr (inl (e, inl a, (λ g. f (g ∙ e))))
              | inl (inr (e, a, f)) ↦ inr (inl (e, inr a, (λ g. f (g ∙ e))))
              | inr r ↦ inr (inr r)
            ],
            λ h. elim h [
              | inl e ↦ inl (inl (inl e))
              | inr (inl (e, inl a, f)) ↦ inl (inl (inr (e, a, (λ g. f (g ∙ sym e)))))
              | inr (inl (e, inr a, f)) ↦ inl (inr (e, a, (λ g. f (g ∙ sym e))))
              | inr (inr r) ↦ inr r
            ],
          ))
          (add_spans-Counts
            (Grown (Grown E i (Parent span.trace_id span.parent_span_id)) i (NamesLink span.links))
            (suc i) rest
            (add_links spans i span span.links (add_parent spans i span span.parent_span_id s))
            links)

    abbrev pub DependsAs : TraceSpan num → ℕ → ℕ → Type 0
    DependsAs span p c = Names span p × (p ≢ c)

    -- One span depends on another, which it names.
    abbrev pub Depends : ℕ → ℕ → Type 0
    Depends p c = (span : TraceSpan num) × (get_elem? spans c ≡ some span) × DependsAs span p c

    From-named :
        (i : ℕ) (rest : List (TraceSpan num)) (p c : ℕ)
        → From i rest p c
        → (j : ℕ) × (c ≡ i + j)
          × ((span : TraceSpan num) × (get_elem? rest j ≡ some span) × DependsAs span p c)
    From-named i [] p c h = absurd h
    From-named i (span ∷ rest) p c (inl a) = (zero, omega (arith, a.0), (span, refl, (a.1, a.2)))
    From-named i (span ∷ rest) p c (inr r) =
        let (j, e, d) = From-named (suc i) rest p c r in (suc j, omega (arith, e), d)

    named-From :
        (i : ℕ) (rest : List (TraceSpan num)) (p c j : ℕ) (span : TraceSpan num)
        → c ≡ i + j
        → get_elem? rest j ≡ some span
        → DependsAs span p c
        → From i rest p c
    named-From i [] p c j span e at d = cc
    named-From i (x ∷ rest) p c zero span e at d =
        inl (omega (arith, e), subst (λ s. Names s p) (span_inj (sym at)) d.0, d.1)
    named-From i (x ∷ rest) p c (suc j) span e at d =
        inr (named-From (suc i) rest p c j span (omega (arith, e)) at d)

    pub build_graph-Counts : Counts n Depends (build_graph spans).0
    unfolding build_graph
    build_graph-Counts =
        Counts_iff n (λ p c. ⊥ ⊎ From 0 spans p c) Depends (build_graph spans).0
          (λ p c. (
            λ h. elim h [
              | inl e ↦ absurd e
              | inr f ↦
                  let (j, e, d) = From-named 0 spans p c f in
                  subst
                    (λ k.
                      (span : TraceSpan num) × (get_elem? spans k ≡ some span) × DependsAs span p c)
                    (let back : j ≡ c = omega (arith, e) in back) d
            ],
            λ h. inr (named-From 0 spans p c c h.0 (omega arith) h.1 h.2),
          ))
          (add_spans-Counts (λ p c. ⊥) 0 spans _
            (record {
              once = λ p c. omega arith;
              degree = λ c. sym (sum_below_zero n);
              edges = λ p c. ((λ h. absurd (omega (arith, h))), λ h. absurd h);
            }))
