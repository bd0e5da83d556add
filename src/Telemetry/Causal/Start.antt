-- ===== src/Telemetry/Causal/Start.antt =====
-- The loop of `causal_order` starts with what waits for nothing, and ends.
use featherlane_ai.Prelude.{
  ℕ, zero, suc, ◌+◌, ◌≤◌, ◌<◌, ◌≡◌, refl, ap, ◌∙◌, inl, inr, true, false, some, List, [], ◌∷◌,
  length, get_elem?, Bool-cases, ◌==◌, ==_iff, if◌then◌else◌, arith, count, count-range_from,
  Option-cases, range_from,
}
use featherlane_ai.Json.{Numbers}
use featherlane_ai.Telemetry.{TraceSpan, SpanLink}
use featherlane_ai.Telemetry.Causal.{
  Graph, Sorting, SortKey, insert_key, key_of, initial_ready, ready_order, build_graph,
}
use featherlane_ai.Telemetry.Causal.Keys.{indices, count-insert_key}
use featherlane_ai.Telemetry.Causal.Queue.{Invariant, empty_ready-Invariant}
use featherlane_ai.Telemetry.Causal.Positions.{StandsAt-lt}
use featherlane_ai.Telemetry.Causal.Edges.{Edge, Counts}
use featherlane_ai.Telemetry.Causal.Dependence.{NamesLink, Depends, build_graph-Counts}

module _ {num : Numbers} (spans : List (TraceSpan num)) where
  abbrev pub n : ℕ
  n = length spans

  pub key_of-index : (i : ℕ) → (key_of spans i).3 ≡ i
  unfolding key_of
  key_of-index i = elim (Option-cases (get_elem? spans i)) [
    | inl e ↦ rw (e, key_of) refl
    | inr (span, e) ↦ rw (e, key_of) refl
  ]

  count-initial_ready :
      (indegree : ℕ → ℕ) (is : List ℕ) (ready : List SortKey)
      → ((i : ℕ) → count i is + count i (indices ready) ≤ 1)
      → (i : ℕ)
      → count i (indices (initial_ready spans indegree is ready))
        ≡ (if indegree i == 0 then count i is else 0) + count i (indices ready)
  unfolding initial_ready
  count-initial_ready indegree [] ready once i = ground arith
  count-initial_ready indegree (j ∷ js) ready once i = elim (Bool-cases (indegree j == 0)) [
    | inr held ↦
        rw held
          (count-initial_ready indegree js ready (λ a. omega (arith, once a)) i ∙ skipped held)
    | inl free ↦ rw free (
        count-initial_ready indegree js (insert_key (key_of spans j) ready)
          (λ a. omega (arith, once a, more a)) i
        ∙ taken free)
  ]
    where
      absent : count (key_of spans j).3 (indices ready) ≡ 0
      absent = rw (key_of-index j) (let h = once j in ground (arith, h))

      more :
          (a : ℕ)
          → count a (indices (insert_key (key_of spans j) ready))
            ≡ count a (indices ready) + (if j == a then 1 else 0)
      more a = count-insert_key a (key_of spans j) ready absent ∙ rw (key_of-index j) refl

      skipped :
          indegree j == 0 ≡ false
          → (if indegree i == 0 then count i js else 0) + count i (indices ready)
            ≡ (if indegree i == 0 then (if j == i then 1 else 0) + count i js else 0)
              + count i (indices ready)
      skipped held = elim (Bool-cases (j == i)) [
        | inl e ↦ let q = ap indegree ((==_iff j i).0 e) in ground (arith, held, q)
        | inr ne ↦ ground (arith, ne)
      ]

      taken :
          indegree j == 0 ≡ true
          → (if indegree i == 0 then count i js else 0)
              + count i (indices (insert_key (key_of spans j) ready))
            ≡ (if indegree i == 0 then (if j == i then 1 else 0) + count i js else 0)
              + count i (indices ready)
      taken free = elim (Bool-cases (j == i)) [
        | inl e ↦
            let q = ap indegree ((==_iff j i).0 e) in
            let m = more i in ground (arith, free, q, m, e)
        | inr ne ↦ let m = more i in ground (arith, ne, m)
      ]

  get_elem?-lt :
      (xs : List (TraceSpan num)) (i : ℕ) (x : TraceSpan num)
      → get_elem? xs i ≡ some x
      → i < length xs
  get_elem?-lt [] i x h = cc
  get_elem?-lt (y ∷ ys) zero x h = omega arith
  get_elem?-lt (y ∷ ys) (suc i) x h = omega (arith, get_elem?-lt ys i x h)

  NamesLink-lt : (links : List SpanLink) (p : ℕ) → NamesLink spans links p → p < n
  NamesLink-lt [] p h = absurd h
  NamesLink-lt (link ∷ links) p (inl h) = StandsAt-lt link.trace_id link.span_id spans p h
  NamesLink-lt (link ∷ links) p (inr h) = NamesLink-lt links p h

  pub Depends-lt : (p c : ℕ) → Depends spans p c → (p < n) × (c < n)
  Depends-lt p c (span, at, (inl parent, apart)) =
      (StandsAt-lt span.trace_id parent.0 spans p parent.2, get_elem?-lt spans c span at)
  Depends-lt p c (span, at, (inr link, apart)) =
      (NamesLink-lt span.links p link, get_elem?-lt spans c span at)

  abbrev pub graph : Graph
  graph = (build_graph spans).0

  abbrev pub counts : Counts n (Depends spans) graph
  counts = build_graph-Counts spans

  pub below-Edge : (p c : ℕ) → Edge graph p c → c < n
  below-Edge p c h = (Depends-lt p c ((counts.edges p c).0 h)).1

  abbrev pub Ends : Sorting → Type 0
  Ends = Invariant (key_of spans) key_of-index n graph.outgoing counts.once below-Edge

  -- The loop runs to its end.
  pub ready_order-Ends : Ends (ready_order spans graph) × ((ready_order spans graph).ready ≡ [])
  unfolding ready_order
  ready_order-Ends =
      empty_ready-Invariant (key_of spans) key_of-index n graph.outgoing counts.once below-Edge n _
        (omega arith)
        (record {
          pending = λ i. counts.degree i;
          placed =
              λ i b. let c = start i in let r = count-range_from i 0 n in ground (arith, b, c, r);
          outside =
              λ i b. let c = start i in let r = count-range_from i 0 n in ground (arith, b, c, r);
          causal = λ p c b edge there. absurd (omega (arith, there));
        })
    where
      start :
          (i : ℕ)
          → count i (indices (initial_ready spans graph.indegree (range_from 0 n) []))
            ≡ (if graph.indegree i == 0 then count i (range_from 0 n) else 0) + 0
      start =
          count-initial_ready graph.indegree (range_from 0 n) []
            (λ i. let r = count-range_from i 0 n in ground (arith, r))
