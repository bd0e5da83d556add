-- ===== src/Telemetry/Causal/Defects.antt =====
-- The defects of the graph report no cycle, and block nothing.
use featherlane_ai.Prelude.{
  ℕ, suc, ◌≡◌, refl, inl, inr, ◌↔◌, true, false, none, some, List, [], ◌∷◌, String, All, Any,
  Any-append_right, not-Any, All-append, All-map, length, Bool-cases, ◌==◌, Option, false-ne_true,
}
use featherlane_ai.Json.{Numbers}
use featherlane_ai.Domain.Events.{TraceDefect}
use featherlane_ai.Telemetry.{TraceSpan, SpanLink}
use featherlane_ai.Telemetry.Causal.{
  Graph, build_graph, cycle_defect, add_found_parent, add_parent, add_found_link, add_links,
  add_spans, position, starts_before, append_remaining,
}

module _ {num : Numbers} (spans : List (TraceSpan num)) where
  abbrev pub IsOther : TraceDefect → Type 0
  IsOther d = ¬ (d.code ≡ "causal_cycle") × (d.blocking ≡ false)

  add_found_parent-IsOther :
      (child : ℕ) (span : TraceSpan num) (o : Option ℕ) (s : Graph × List TraceDefect)
      → All IsOther s.1
      → All IsOther (add_found_parent spans child span o s).1
  unfolding add_found_parent
  add_found_parent-IsOther child span none (g, ds) h =
      All-append IsOther ds _ h (((λ e. cc), refl), tt)
  add_found_parent-IsOther child span (some p) (g, ds) h =
      elim (Bool-cases (starts_before spans span p)) [
        | inl e ↦ rw e (All-append IsOther ds _ h (((λ e. cc), refl), tt))
        | inr e ↦ rw e (All-append IsOther ds _ h tt)
      ]

  add_parent-IsOther :
      (child : ℕ) (span : TraceSpan num) (o : Option String) (s : Graph × List TraceDefect)
      → All IsOther s.1
      → All IsOther (add_parent spans child span o s).1
  unfolding add_parent
  add_parent-IsOther child span none s h = h
  add_parent-IsOther child span (some x) s h =
      add_found_parent-IsOther child span (position spans span.trace_id x) s h

  add_found_link-IsOther :
      (child : ℕ) (span : TraceSpan num) (o : Option ℕ) (s : Graph × List TraceDefect)
      → All IsOther s.1
      → All IsOther (add_found_link spans child span o s).1
  unfolding add_found_link
  add_found_link-IsOther child span none (g, ds) h =
      All-append IsOther ds _ h (((λ e. cc), refl), tt)
  add_found_link-IsOther child span (some p) (g, ds) h = h

  add_links-IsOther :
      (child : ℕ) (span : TraceSpan num) (links : List SpanLink) (s : Graph × List TraceDefect)
      → All IsOther s.1
      → All IsOther (add_links spans child span links s).1
  unfolding add_links
  add_links-IsOther child span [] s h = h
  add_links-IsOther child span (link ∷ links) s h =
      add_links-IsOther child span links _
        (add_found_link-IsOther child span (position spans link.trace_id link.span_id) s h)

  add_spans-IsOther :
      (i : ℕ) (rest : List (TraceSpan num)) (s : Graph × List TraceDefect)
      → All IsOther s.1
      → All IsOther (add_spans spans i rest s).1
  unfolding add_spans
  add_spans-IsOther i [] s h = h
  add_spans-IsOther i (span ∷ rest) s h =
      add_spans-IsOther (suc i) rest _
        (add_links-IsOther i span span.links _ (add_parent-IsOther i span span.parent_span_id s h))

  pub build_graph-IsOther : All IsOther (build_graph spans).1
  unfolding build_graph
  build_graph-IsOther = add_spans-IsOther 0 spans _ tt

  -- Of the defects of the order, those that block are those that report a cycle.
  pub append_remaining-blocking :
      (P : TraceDefect → Type 0)
      → ((d : TraceDefect) → P d → d.blocking ≡ true)
      → P cycle_defect
      → (ordered : List ℕ) (ds : List TraceDefect) → All IsOther ds
      → Any P (append_remaining spans ordered ds).1
        ↔ Any (λ d. d.code ≡ "causal_cycle") (append_remaining spans ordered ds).1
  unfolding append_remaining
  append_remaining-blocking P blocking cyclic ordered ds others =
      elim (Bool-cases (length ordered == length spans)) [
        | inl e ↦ rw e (
          λ h.
              absurd
                (not-Any P ds (All-map (λ d o p. false-ne_true (blocking d p) o.1) ds others) h),
          λ h. absurd (not-Any _ ds (All-map (λ d o. o.0) ds others) h),
        )
        | inr ne ↦ rw ne (
          λ _. Any-append_right _ ds (cycle_defect ∷ []) (inl refl),
          λ _. Any-append_right P ds (cycle_defect ∷ []) (inl cyclic),
        )
      ]
