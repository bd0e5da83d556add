-- ===== src/Telemetry/Causal/Queue.antt =====
-- The loop that empties `ready` orders every index that waits for nothing, behind its parents.
use featherlane_ai.Prelude.{
  ℕ, zero, suc, ◌+◌, ◌-◌, ◌≤◌, ◌<◌, ◌≡◌, refl, sym, ap, subst, ◌∙◌, inl, inr, ◌⊎◌, List, [], ◌∷◌,
  ◌++◌, ltb, ◌==◌, Bool-cases, if◌then◌else◌, length, length-append, length-map, arith, count,
  count-append, index_of, index_of-append_left, index_of-append_right, index_of-lt, sum_below,
  le-sum_below, sum_below_update, length-le_of_count,
}
use featherlane_ai.Telemetry.Causal.{SortKey, Sorting, visit, empty_ready}
use featherlane_ai.Telemetry.Causal.Keys.{index_of_key, indices}
use featherlane_ai.Telemetry.Causal.Rounds.{freed_by, Released, release_all-Released}

-- How often `i` waits for `p`, which is not in the order yet.
abbrev pub waits : (ℕ → List ℕ) → List ℕ → ℕ → ℕ → ℕ
waits outgoing ordered i p = if count p ordered == 0 then count i (outgoing p) else 0

placed_next :
    (d m r rest o k : ℕ)
    → m ≤ 1
    → m ≤ d
    → r + o ≡ (if d == 0 then 1 else 0)
    → r ≡ k + rest
    → (rest + freed_by m d) + (o + k) ≡ (if d - m == 0 then 1 else 0)
placed_next d m r rest o k a b c e = ground arith

module _ (key_of : ℕ → SortKey) (keyed : (i : ℕ) → (key_of i).3 ≡ i) (n : ℕ) (outgoing : ℕ → List ℕ)
    (once : (p i : ℕ) → count i (outgoing p) ≤ 1)
    (below : (p i : ℕ) → 0 < count i (outgoing p) → i < n) where
  abbrev ready_count : Sorting → ℕ → ℕ
  ready_count s i = count i (indices s.ready)

  pub record Invariant (s : Sorting) : Type 0 where
    pub pending : (i : ℕ) → s.indegree i ≡ sum_below n (waits outgoing s.ordered i)
    pub placed :
        (i : ℕ) → i < n → ready_count s i + count i s.ordered ≡ (if s.indegree i == 0 then 1 else 0)
    pub outside : (i : ℕ) → n ≤ i → ready_count s i + count i s.ordered ≡ 0
    pub causal :
        (p c : ℕ)
        → p < n
        → 0 < count c (outgoing p)
        → 0 < count c s.ordered
        → (0 < count p s.ordered) × (index_of p s.ordered < index_of c s.ordered)

  module _ (s : Sorting) (next : SortKey) (rest : List SortKey) (head : s.ready ≡ next ∷ rest)
      (inv : Invariant s) where
    abbrev k : ℕ
    k = next.3

    ready_parts : (i : ℕ) → ready_count s i ≡ (if k == i then 1 else 0) + count i (indices rest)
    ready_parts i = ap (λ q. count i (indices q)) head

    -- The index that is popped was not popped before.
    k_waits_no_more : (k < n) × (s.indegree k ≡ 0) × (count k s.ordered ≡ 0)
    k_waits_no_more =
        let r = ready_parts k in
        let b : k < n = elim (Bool-cases (ltb k n)) [
          | inl lt ↦ ground (arith, lt)
          | inr ge ↦ absurd (ground (arith, ge, r, inv.outside k))
        ] in
        (b, ground (arith, r, inv.placed k b), ground (arith, r, inv.placed k b))

    multiplicity-le : (i : ℕ) → count i (outgoing k) ≤ s.indegree i
    multiplicity-le i =
        let (b, d, o) = k_waits_no_more in
        let w : waits outgoing s.ordered i k ≡ count i (outgoing k) = ground (arith, o) in
        omega (arith, le-sum_below n (waits outgoing s.ordered i) k b, inv.pending i, w)

    child_absent : (i : ℕ) → 0 < count i (outgoing k) → count i (indices rest) ≡ 0
    child_absent i h =
        let b = below k i h in
        let m = multiplicity-le i in let r = ready_parts i in ground (arith, inv.placed i b)

    abbrev popped : Sorting
    popped = record s { ready = rest; ordered = s.ordered ++ k ∷ [] }

    released :
        Released key_of keyed outgoing (outgoing k) popped (visit key_of outgoing next rest s)
    unfolding visit
    released = release_all-Released key_of keyed outgoing (outgoing k) popped (once k) child_absent

    count-snoc :
        (i : ℕ) → count i (s.ordered ++ k ∷ []) ≡ count i s.ordered + (if k == i then 1 else 0)
    count-snoc i = omega (arith, count-append i s.ordered (k ∷ []))

    pending_next :
        (i : ℕ)
        → s.indegree i - count i (outgoing k) ≡ sum_below n (waits outgoing (s.ordered ++ k ∷ []) i)
    pending_next i =
        let (b, d, o) = k_waits_no_more in
        let after = waits outgoing (s.ordered ++ k ∷ []) i in
        let before = waits outgoing s.ordered i in
        let moved =
          sum_below_update n k after before b
            (λ p h ne. let e = count-snoc p in ground (arith, e, ne)) in
        let gone : after k ≡ 0 = (let e = count-snoc k in ground (arith, e)) in
        let there : before k ≡ count i (outgoing k) = ground (arith, o) in
        omega (arith, moved, gone, there, inv.pending i)

    causal_next :
        (p c : ℕ)
        → p < n
        → 0 < count c (outgoing p)
        → 0 < count c (s.ordered ++ k ∷ [])
        → (0 < count p (s.ordered ++ k ∷ []))
          × (index_of p (s.ordered ++ k ∷ []) < index_of c (s.ordered ++ k ∷ []))
    causal_next p c b edge there = elim (Bool-cases (ltb 0 (count c s.ordered))) [
      | inl old ↦
          let c_in : 0 < count c s.ordered = ground (arith, old) in
          let (p_in, less) = inv.causal p c b edge c_in in
          (
            omega (arith, count-snoc p, p_in),
            omega (
              arith,
              less,
              index_of-append_left p s.ordered (k ∷ []) p_in,
              index_of-append_left c s.ordered (k ∷ []) c_in,
            ),
          )
      | inr new ↦
          let (kb, d, o) = k_waits_no_more in
          let e : k ≡ c = (let f = count-snoc c in ground (arith, f, new, there)) in
          let edge' : 0 < count k (outgoing p) =
            subst (λ i. 0 < count i (outgoing p)) (sym e) edge in
          let w = le-sum_below n (waits outgoing s.ordered k) p b in
          let z = inv.pending k in
          let p_in : 0 < count p s.ordered = ground (arith, w, z, d, edge') in
          (
            omega (arith, count-snoc p, p_in),
            subst (λ i. index_of p (s.ordered ++ k ∷ []) < index_of i (s.ordered ++ k ∷ [])) e
                (omega (
                  arith,
                  index_of-append_left p s.ordered (k ∷ []) p_in,
                  index_of-lt p s.ordered p_in,
                  index_of-append_right k s.ordered (k ∷ []) o,
                )),
          )
    ]

    no_child_outside : (i : ℕ) → n ≤ i → count i (outgoing k) ≡ 0
    no_child_outside i h = elim (Bool-cases (ltb 0 (count i (outgoing k)))) [
      | inl some' ↦ absurd (omega (arith, h, below k i (ground (arith, some'))))
      | inr none' ↦ ground (arith, none')
    ]

    visit-Invariant : Invariant (visit key_of outgoing next rest s)
    visit-Invariant =
        let t = visit key_of outgoing next rest s in
        let order_eq : t.ordered ≡ s.ordered ++ k ∷ [] = released.kept in
        let count_eq : (i : ℕ) → count i t.ordered ≡ count i s.ordered + (if k == i then 1 else 0) =
          λ i. ap (count i) order_eq ∙ count-snoc i in
        record {
          pending = λ i.
              released.freed i
              ∙ pending_next i
              ∙ ap (λ o. sum_below n (waits outgoing o i)) (sym order_eq);
          placed = λ i b.
              subst (λ d. ready_count t i + count i t.ordered ≡ (if d == 0 then 1 else 0))
                (sym (released.freed i))
                (omega (
                  arith,
                  released.added i,
                  count_eq i,
                  placed_next (s.indegree i) (count i (outgoing k)) (ready_count s i)
                      (count i (indices rest)) (count i s.ordered) (if k == i then 1 else 0)
                      (once k i) (multiplicity-le i) (inv.placed i b) (ready_parts i),
                ));
          outside = λ i b.
              (let z = no_child_outside i b in
                let r = released.added i in
                let o = count_eq i in let e = ready_parts i in ground (arith, inv.outside i b));
          causal =
              subst
                (λ o.
                  (p c : ℕ)
                  → p < n
                  → 0 < count c (outgoing p)
                  → 0 < count c o
                  → (0 < count p o) × (index_of p o < index_of c o))
                (sym order_eq) causal_next;
        }

    length-visit : length (visit key_of outgoing next rest s).ordered ≡ suc (length s.ordered)
    length-visit = ap length released.kept ∙ omega (arith, length-append s.ordered (k ∷ []))

  length-placed : (s : Sorting) → Invariant s → length s.ordered + length s.ready ≤ n
  length-placed s inv =
      let all = s.ordered ++ indices s.ready in
      let c = λ (i : ℕ). count-append i s.ordered (indices s.ready) in
      omega (
        arith,
        length-append s.ordered (indices s.ready),
        length-map index_of_key s.ready,
        length-le_of_count n all
            (λ i h. elim (Bool-cases (ltb i n)) [
              | inl lt ↦ ground (arith, lt)
              | inr ge ↦ absurd (ground (arith, ge, h, c i, inv.outside i))
            ])
            (λ i. elim (Bool-cases (ltb i n)) [
              | inl lt ↦ ground (arith, lt, c i, inv.placed i)
              | inr ge ↦ ground (arith, ge, c i, inv.outside i)
            ]),
      )

  List-cases :
      (ks : List SortKey) → (ks ≡ []) ⊎ ((x : SortKey) × (xs : List SortKey) × (ks ≡ x ∷ xs))
  List-cases [] = inl refl
  List-cases (x ∷ xs) = inr (x, xs, refl)

  -- Fuel for the indices that are not in the order yet is enough: the loop ends with nothing ready.
  pub empty_ready-Invariant :
      (fuel : ℕ) (s : Sorting)
      → length s.ordered + fuel ≡ n
      → Invariant s
      → Invariant (empty_ready key_of outgoing fuel s)
        × ((empty_ready key_of outgoing fuel s).ready ≡ [])
  unfolding empty_ready
  empty_ready-Invariant zero s full inv = (
    inv,
    elim (List-cases s.ready) [
      | inl e ↦ e
      | inr (x, xs, e) ↦ absurd (omega (arith, full, length-placed s inv, ap length e))
    ],
  )
  empty_ready-Invariant (suc fuel) s full inv = elim (List-cases s.ready) [
    | inl e ↦ rw (e, empty_ready) (inv, e)
    | inr (x, xs, e) ↦
        rw (e, empty_ready)
          (empty_ready-Invariant fuel (visit key_of outgoing x xs s)
            (omega (arith, full, length-visit s x xs e inv)) (visit-Invariant s x xs e inv))
  ]
