-- ===== src/Telemetry/Causal.antt =====
-- crates/governance-telemetry/src/lib.rs: `causal_order`, which sorts spans behind their parents and
-- links, and by time among those that are ready.
pub mod Keys
pub mod Rounds
pub mod Queue
pub mod Edges
pub mod Positions
pub mod Dependence
pub mod Start
pub mod Defects
pub mod Laws
use Prim.Native.String.{◌++◌ as str_append}
use featherlane_ai.Prelude.{
  ℕ, zero, suc, ◌+◌, ◌-◌, Bool, true, false, not, ◌&&◌, ◌||◌, Option, none, some, List, [], ◌∷◌,
  ◌++◌, String, str_eq, any, keep, length, get_elem?, is_some_and, or_else, ltb, ◌==◌,
  if◌then◌else◌, range_from,
}
use featherlane_ai.Text.{str_lt}
use featherlane_ai.Json.{Numbers}
use featherlane_ai.Domain.Ids.{OffsetDateTime}
use featherlane_ai.Domain.Events.{TraceDefect}
use featherlane_ai.Telemetry.{TraceSpan, SpanLink}
use featherlane_ai.Telemetry.Quality.{defect}

-- A write at an index of a vector, whose elements are a function of the index.
abbrev pub update : {A : Type 0} → (ℕ → A) → ℕ → A → ℕ → A
update f k v i = if i == k then v else f i

-- `indegree` and `outgoing`. A set is the list of what was inserted.
pub record Graph : Type 0 where
  pub indegree : ℕ → ℕ
  pub outgoing : ℕ → List ℕ

abbrev pub contains_index : ℕ → List ℕ → Bool
contains_index i = any (λ j. j == i)

unfoldable pub add_edge : ℕ → ℕ → Graph → Graph
add_edge parent child g =
    if not (parent == child) && not (contains_index child (g.outgoing parent))
    then record {
      indegree = update g.indegree child (g.indegree child + 1);
      outgoing = update g.outgoing parent (child ∷ g.outgoing parent);
    }
    else g

-- The key that `sort_key` gives a span, in the order of tuples.
abbrev pub SortKey : Type 0
SortKey = OffsetDateTime × String × String × ℕ

abbrev pub key_lt : SortKey → SortKey → Bool
key_lt a b =
    ltb a.0 b.0
    || (a.0 == b.0
        && (str_lt a.1 b.1
            || (str_eq a.1 b.1 && (str_lt a.2 b.2 || (str_eq a.2 b.2 && ltb a.3 b.3)))))

abbrev pub key_eq : SortKey → SortKey → Bool
key_eq a b = a.0 == b.0 && (str_eq a.1 b.1 && (str_eq a.2 b.2 && a.3 == b.3))

-- `insert` of a `BTreeSet`.
unfoldable pub insert_key : SortKey → List SortKey → List SortKey
insert_key k [] = k ∷ []
insert_key k (x ∷ xs) =
    let rest = insert_key k xs in
    if key_eq x k then x ∷ xs else if key_lt k x then k ∷ x ∷ xs else x ∷ rest

-- The variables of the loop that empties `ready`.
pub record Sorting : Type 0 where
  pub indegree : ℕ → ℕ
  pub ready : List SortKey
  pub ordered : List ℕ

module _ (key_of : ℕ → SortKey) where
  -- `sort_by_key` of indices.
  unfoldable pub insert_index : ℕ → List ℕ → List ℕ
  insert_index i [] = i ∷ []
  insert_index i (j ∷ js) =
      let rest = insert_index i js in if key_lt (key_of j) (key_of i) then j ∷ rest else i ∷ j ∷ js

  unfoldable pub sort_indices : List ℕ → List ℕ
  unfolding insert_index
  sort_indices [] = []
  sort_indices (i ∷ is) = insert_index i (sort_indices is)

module _ (key_of : ℕ → SortKey) (outgoing : ℕ → List ℕ) where
  -- A round of the loop over the children.
  unfoldable pub release : ℕ → Sorting → Sorting
  unfolding insert_key
  release child s =
      let left = s.indegree child - 1 in
      record s {
        indegree = update s.indegree child left;
        ready = if left == 0 then insert_key (key_of child) s.ready else s.ready;
      }

  unfoldable pub release_all : List ℕ → Sorting → Sorting
  unfolding release
  release_all [] s = s
  release_all (child ∷ children) s = release_all children (release child s)

  unfoldable pub visit : SortKey → List SortKey → Sorting → Sorting
  unfolding release_all
  visit next rest s =
      release_all (outgoing next.3) (record s { ready = rest; ordered = s.ordered ++ next.3 ∷ [] })

  -- `while let Some(next) = ready.pop_first()`.
  unfoldable pub empty_ready : ℕ → Sorting → Sorting
  unfolding visit
  empty_ready zero s = s
  empty_ready (suc fuel) s = elim s.ready [
    | [] ↦ s
    | next ∷ rest ↦ empty_ready fuel (visit next rest s)
  ]

abbrev pub cycle_defect : TraceDefect
cycle_defect = defect "causal_cycle" "span parent/link relationships contain a cycle" true

module _ {num : Numbers} where
  unfoldable pub sort_key : TraceSpan num → ℕ → SortKey
  sort_key span index = (span.started_at, span.trace_id, span.span_id, index)

  -- The map `positions`, where a span replaces an earlier one with the same ids.
  unfoldable pub position_from : ℕ → List (TraceSpan num) → String → String → Option ℕ
  position_from i [] trace_id span_id = none
  position_from i (span ∷ spans) trace_id span_id =
      or_else (position_from (suc i) spans trace_id span_id)
        (if str_eq span.trace_id trace_id && str_eq span.span_id span_id then some i else none)

  module _ (spans : List (TraceSpan num)) where
    abbrev pub position : String → String → Option ℕ
    position = position_from 0 spans

    -- `sort_key(&spans[index], index)`: the index is always that of a span.
    unfoldable pub key_of : ℕ → SortKey
    unfolding sort_key
    key_of index = elim (get_elem? spans index) [
      | some span ↦ sort_key span index
      | none ↦ (0, "", "", index)
    ]

    -- `spans[*parent_index].started_at > span.started_at`.
    abbrev pub starts_before : TraceSpan num → ℕ → Bool
    starts_before span parent =
        is_some_and (get_elem? spans parent) (λ p. ltb span.started_at p.started_at)

    abbrev pub span_defect : String → String → TraceSpan num → List TraceDefect
    span_defect code what span =
        defect code (str_append "span " (str_append span.span_id what)) false ∷ []

    unfoldable pub add_found_parent :
        ℕ → TraceSpan num → Option ℕ → Graph × List TraceDefect → Graph × List TraceDefect
    unfolding add_edge
    add_found_parent child span none (g, defects) =
        (g, defects ++ span_defect "orphan_parent" " references an unknown parent" span)
    add_found_parent child span (some parent) (g, defects) = (
      add_edge parent child g,
      defects
          ++ (if starts_before span parent
              then span_defect "clock_skew" " starts before its parent" span
              else []),
    )

    unfoldable pub add_parent :
        ℕ → TraceSpan num → Option String → Graph × List TraceDefect → Graph × List TraceDefect
    unfolding add_found_parent position_from
    add_parent child span none s = s
    add_parent child span (some parent_span_id) s =
        add_found_parent child span (position span.trace_id parent_span_id) s

    unfoldable pub add_found_link :
        ℕ → TraceSpan num → Option ℕ → Graph × List TraceDefect → Graph × List TraceDefect
    unfolding add_edge
    add_found_link child span none (g, defects) =
        (g, defects ++ span_defect "orphan_link" " references an unknown link" span)
    add_found_link child span (some parent) (g, defects) = (add_edge parent child g, defects)

    unfoldable pub add_links :
        ℕ → TraceSpan num → List SpanLink → Graph × List TraceDefect → Graph × List TraceDefect
    unfolding add_found_link position_from
    add_links child span [] s = s
    add_links child span (link ∷ links) s =
        add_links child span links
          (add_found_link child span (position link.trace_id link.span_id) s)

    -- The loop over the spans from an index on.
    unfoldable pub add_spans :
        ℕ → List (TraceSpan num) → Graph × List TraceDefect → Graph × List TraceDefect
    unfolding add_parent add_links
    add_spans child [] s = s
    add_spans child (span ∷ rest) s =
        add_spans (suc child) rest
          (add_links child span span.links (add_parent child span span.parent_span_id s))

    unfoldable pub build_graph : Graph × List TraceDefect
    unfolding add_spans
    build_graph = add_spans 0 spans (record { indegree = λ _. 0; outgoing = λ _. [] }, [])

    -- The keys of the indices that wait for nothing.
    unfoldable pub initial_ready : (ℕ → ℕ) → List ℕ → List SortKey → List SortKey
    unfolding insert_key key_of
    initial_ready indegree [] ready = ready
    initial_ready indegree (i ∷ is) ready =
        initial_ready indegree is (if indegree i == 0 then insert_key (key_of i) ready else ready)

    -- One round for each span is enough.
    unfoldable pub ready_order : Graph → Sorting
    unfolding initial_ready empty_ready
    ready_order g = empty_ready key_of g.outgoing (length spans) (record {
      indegree = g.indegree;
      ready = initial_ready g.indegree (range_from 0 (length spans)) [];
      ordered = [];
    })

    abbrev pub remaining : List ℕ → List ℕ
    remaining ordered = keep (λ i. not (contains_index i ordered)) (range_from 0 (length spans))

    unfoldable pub append_remaining : List ℕ → List TraceDefect → List ℕ × List TraceDefect
    unfolding sort_indices key_of
    append_remaining ordered defects =
        if not (length ordered == length spans)
        then (ordered ++ sort_indices key_of (remaining ordered), defects ++ cycle_defect ∷ [])
        else (ordered, defects)

    unfoldable pub causal_order : List ℕ × List TraceDefect
    unfolding build_graph ready_order append_remaining
    causal_order = append_remaining (ready_order build_graph.0).ordered build_graph.1
