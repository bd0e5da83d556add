-- ===== src/Telemetry/Causal/Laws.antt =====
-- `causal_order` puts each span behind its parent and its links, or reports a cycle.
use featherlane_ai.Prelude.{
  ℕ, zero, suc, ◌+◌, ◌-◌, ◌≤◌, ◌<◌, ◌≡◌, ◌≢◌, refl, sym, ap, subst, inl, inr, ◌↔◌, true, not, List,
  [], ◌∷◌, ◌++◌, In, Any, Any-append_right, not-Any, All-map, length, Bool-cases, ltb, ◌==◌, ==_iff,
  iff_trans, false-ne_true, if◌then◌else◌, arith, count, count-append, count-range_from, index_of,
  sum_below, sum_below_pos, sum_below-le, range_from, length-sum_below,
}
use featherlane_ai.Json.{Numbers}
use featherlane_ai.Domain.Events.{TraceDefect}
use featherlane_ai.Telemetry.{TraceSpan}
use featherlane_ai.Telemetry.Causal.{
  key_of, contains_index, sort_indices, ready_order, build_graph, remaining, cycle_defect,
  append_remaining, causal_order,
}
use featherlane_ai.Telemetry.Causal.Keys.{
  indices, count-sort_indices, contains_index-count, count-keep,
}
use featherlane_ai.Telemetry.Causal.Start.{Depends-lt, graph, counts, ready_order-Ends}
use featherlane_ai.Telemetry.Causal.Defects.{build_graph-IsOther, append_remaining-blocking}
use featherlane_ai.Telemetry.Causal.Dependence.{Depends}

sum_below_full :
    (n : ℕ) (f : ℕ → ℕ) → ((i : ℕ) → f i ≤ 1) → n ≤ sum_below n f → (i : ℕ) → i < n → f i ≡ 1
sum_below_full zero f small full i h = absurd (omega (arith, h))
sum_below_full (suc n) f small full i h =
    let rest = sum_below-le n f (λ j _. small j) in
    elim (Bool-cases (i == n)) [
      | inl e ↦ rw ((==_iff i n).0 e) (omega (arith, full, rest, small n))
      | inr ne ↦ sum_below_full n f small (omega (arith, full, small n)) i (ground (arith, ne, h))
    ]

sum_below-both :
    (n : ℕ) (f g : ℕ → ℕ) → ((i : ℕ) → i < n → f i + g i ≡ 1) → sum_below n f + sum_below n g ≡ n
sum_below-both zero f g h = omega arith
sum_below-both (suc n) f g h =
    omega (arith, h n (omega arith), sum_below-both n f g (λ i b. h i (omega (arith, b))))

In-iff : (a : ℕ) (xs : List ℕ) → In a xs ↔ (0 < count a xs)
In-iff a [] = ((λ h. absurd h), λ h. absurd (omega (arith, h)))
In-iff a (x ∷ xs) = ground (arith, In-iff a xs)

waits_parts : (k m : ℕ) → 0 < (if k == 0 then m else 0) → (k ≡ 0) × (0 < m)
waits_parts k m h = ground arith

Any-last : {A : Type 0} (P : A → Type 0) (xs : List A) (x : A) → P x → Any P (xs ++ x ∷ [])
Any-last P xs x h = Any-append_right P xs (x ∷ []) (inl h)

module _ {num : Numbers} (spans : List (TraceSpan num)) where
  -- A set of spans each of which depends on one of the set.
  abbrev pub IsCyclic : List ℕ → Type 0
  IsCyclic set = (0 < length set) × ((c : ℕ) → In c set → (p : ℕ) × In p set × Depends spans p c)

  abbrev pub HasCycle : Type 0
  HasCycle = (set : List ℕ) × IsCyclic set

  abbrev pub ReportsCycle : List TraceDefect → Type 0
  ReportsCycle = Any (λ d. d.code ≡ "causal_cycle")

  -- Each span comes once, behind all that it depends on, unless these depend on one another in a
  -- cycle, which is reported.
  pub record IsCausalOrder (r : List ℕ × List TraceDefect) : Type 0 where
    pub all_once : (i : ℕ) → count i r.0 ≡ (if ltb i (length spans) then 1 else 0)
    pub behind : ¬ HasCycle → (p c : ℕ) → Depends spans p c → index_of p r.0 < index_of c r.0
    pub reported : ReportsCycle r.1 ↔ HasCycle

  abbrev IsRanked : List ℕ → Type 0
  IsRanked order = (p c : ℕ) → Depends spans p c → index_of p order < index_of c order

  -- In a cycle, ranks would fall for ever.
  IsRanked-acyclic : (order : List ℕ) → IsRanked order → ¬ HasCycle
  IsRanked-acyclic order ranked (set, (some', next)) = go set refl some'
    where
      fall : (k c : ℕ) → In c set → index_of c order < k → ⊥
      fall zero c m h = absurd (omega (arith, h))
      fall (suc k) c m h = let (p, m', d) = next c m in fall k p m' (omega (arith, h, ranked p c d))

      go : (xs : List ℕ) → set ≡ xs → 0 < length set → ⊥
      go [] e h = absurd (omega (arith, h, ap length e))
      go (x ∷ xs) e h =
          fall (suc (index_of x order)) x (subst (In x) (sym e) (inl refl)) (omega arith)

  abbrev ends : List ℕ
  ends = (ready_order spans (graph spans)).ordered

  ends_once : (i : ℕ) → count i ends ≤ 1
  ends_once i =
      let inv = (ready_order-Ends spans).0 in
      elim (Bool-cases (ltb i (length spans))) [
        | inl lt ↦ let h = inv.placed i (ground (arith, lt)) in ground (arith, h)
        | inr ge ↦ let h = inv.outside i (ground (arith, ge)) in ground (arith, h)
      ]

  ends_inside : (i : ℕ) → 0 < count i ends → i < length spans
  ends_inside i h =
      let inv = (ready_order-Ends spans).0 in
      elim (Bool-cases (ltb i (length spans))) [
        | inl lt ↦ ground (arith, lt)
        | inr ge ↦ absurd (let o = inv.outside i (ground (arith, ge)) in omega (arith, o, h))
      ]

  -- What is left waits for something that is left.
  left_waits :
      (c : ℕ)
      → c < length spans
      → count c ends ≡ 0
      → (p : ℕ) × (p < length spans) × (count p ends ≡ 0) × Depends spans p c
  left_waits c b out =
      let (inv, empty) = ready_order-Ends spans in
      let r = ap (λ q. count c (indices q)) empty in
      let deg : 0 < (ready_order spans (graph spans)).indegree c =
        (let h = inv.placed c b in ground (arith, h, r, out)) in
      let (p, below, w) = sum_below_pos _ _ (subst (λ d. 0 < d) (inv.pending c) deg) in
      let (z, edge) = waits_parts _ _ w in (p, below, z, ((counts spans).edges p c).0 edge)

  left : List ℕ
  left = remaining spans ends

  count-left : (i : ℕ) → count i left ≡ (if ltb i (length spans) then 1 - count i ends else 0)
  unfolding left
  count-left i =
      let k = count-keep i (λ j. not (contains_index j ends)) (range_from 0 (length spans)) in
      let c = contains_index-count i ends in
      let r = count-range_from i 0 (length spans) in
      let o = ends_once i in ground (arith, k, c, r, o)

  left-inside : (i : ℕ) → 0 < count i left → (i < length spans) × (count i ends ≡ 0)
  left-inside i h =
      let c = count-left i in let o = ends_once i in (ground (arith, c, h), ground (arith, c, o, h))

  length-left : length left + length ends ≡ length spans
  length-left = omega (
    arith,
    length-sum_below (length spans) left (λ i h. (left-inside i h).0),
    length-sum_below (length spans) ends ends_inside,
    sum_below-both (length spans) (λ i. count i left) (λ i. count i ends)
        (λ i h. let c = count-left i in let o = ends_once i in ground (arith, c, o, h)),
  )

  left-IsCyclic : length ends ≢ length spans → IsCyclic left
  left-IsCyclic short = (
    omega (arith, short, length-left),
    λ c m.
        let (inside, out) = left-inside c ((In-iff c left).0 m) in
        let (p, below, z, d) = left_waits c inside out in
        let k = count-left p in (p, (In-iff p left).1 (ground (arith, k, below, z)), d),
  )

  ends_full : length ends ≡ length spans → (i : ℕ) → i < length spans → count i ends ≡ 1
  ends_full full =
      sum_below_full (length spans) (λ i. count i ends) ends_once
        (omega (arith, full, length-sum_below (length spans) ends ends_inside))

  -- The whole of the order is there: nothing is left.
  ends-IsRanked : length ends ≡ length spans → IsRanked ends
  ends-IsRanked full p c d =
      let (below_p, below_c) = Depends-lt spans p c d in
      let inv = (ready_order-Ends spans).0 in
      (inv.causal p c below_p (((counts spans).edges p c).1 d)
        (omega (arith, ends_full full c below_c))).1

  extended_once :
      (i : ℕ)
      → count i (ends ++ sort_indices (key_of spans) left) ≡ (if ltb i (length spans) then 1 else 0)
  extended_once i =
      let a = count-append i ends (sort_indices (key_of spans) left) in
      let b = count-sort_indices (key_of spans) i left in
      let c = count-left i in
      let o = ends_once i in
      elim (Bool-cases (ltb i (length spans))) [
        | inl lt ↦ ground (arith, a, b, c, o, lt)
        | inr ge ↦
            let z = (ready_order-Ends spans).0.outside i (ground (arith, ge)) in
            ground (arith, a, b, c, z, ge)
      ]

  -- The order of the spans is causal: it has the index of each span once; each span comes behind its
  -- parent and its links that were received, unless spans depend on one another in a cycle; and a
  -- cycle is reported exactly when there is one.
  pub causal_order-IsCausalOrder : IsCausalOrder (causal_order spans)
  unfolding causal_order append_remaining left
  causal_order-IsCausalOrder = elim (Bool-cases (length ends == length spans)) [
    | inl e ↦
        let full = (==_iff (length ends) (length spans)).0 e in
        let ranked = ends-IsRanked full in
        rw e (record {
          all_once = λ i. elim (Bool-cases (ltb i (length spans))) [
            | inl lt ↦ let o = ends_full full i (ground (arith, lt)) in ground (arith, lt, o)
            | inr ge ↦
                let o = (ready_order-Ends spans).0.outside i (ground (arith, ge)) in
                ground (arith, ge, o)
          ];
          behind = λ _. ranked;
          reported = (
            λ h. absurd (
                not-Any _ (build_graph spans).1
                  (All-map (λ d o. o.0) (build_graph spans).1 (build_graph-IsOther spans)) h),
            λ h. absurd (IsRanked-acyclic ends ranked h),
          );
        })
    | inr ne ↦
        let cyclic = left-IsCyclic (λ e. false-ne_true ((==_iff _ _).1 e) ne) in
        rw ne (record {
          all_once = extended_once;
          behind = λ acyclic. absurd (acyclic (left, cyclic));
          reported =
              ((λ _. (left, cyclic)), λ _. Any-last _ (build_graph spans).1 cycle_defect refl);
        })
  ]

  -- Exactly a cycle among the spans is a blocking defect of their order.
  pub causal_order-blocking :
      (P : TraceDefect → Type 0)
      → ((d : TraceDefect) → P d → d.blocking ≡ true)
      → P cycle_defect
      → Any P (causal_order spans).1 ↔ HasCycle
  unfolding causal_order
  causal_order-blocking P blocking cyclic =
      iff_trans
        (append_remaining-blocking spans P blocking cyclic ends (build_graph spans).1
          (build_graph-IsOther spans))
        causal_order-IsCausalOrder.reported
