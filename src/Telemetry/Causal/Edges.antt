-- ===== src/Telemetry/Causal/Edges.antt =====
-- What an edge adds to the graph.
use featherlane_ai.Prelude.{
  ℕ, ◌+◌, ◌≤◌, ◌<◌, ◌≡◌, ◌≢◌, refl, sym, subst, inl, inr, ◌⊎◌, ◌↔◌, Bool, true, false, not, ◌&&◌,
  ◌==◌, ==_iff, Bool-cases, if◌then◌else◌, arith, count, sum_below, sum_below_update,
}
use featherlane_ai.Telemetry.Causal.{Graph, contains_index, add_edge}
use featherlane_ai.Telemetry.Causal.Keys.{contains_index-count}

abbrev pub Edge : Graph → ℕ → ℕ → Type 0
Edge g p c = 0 < count c (g.outgoing p)

-- The graph has the edges `E`, each once, between indices below `n`, and counts them.
pub record Counts (n : ℕ) (E : ℕ → ℕ → Type 0) (g : Graph) : Type 0 where
  pub once : (p c : ℕ) → count c (g.outgoing p) ≤ 1
  pub degree : (c : ℕ) → g.indegree c ≡ sum_below n (λ p. count c (g.outgoing p))
  pub edges : (p c : ℕ) → Edge g p c ↔ E p c

pub Counts_iff :
    (n : ℕ) (E F : ℕ → ℕ → Type 0) (g : Graph)
    → ((p c : ℕ) → E p c ↔ F p c)
    → Counts n E g
    → Counts n F g
Counts_iff n E F g e k = record {
  once = k.once;
  degree = k.degree;
  edges = λ p c. ((λ h. (e p c).0 ((k.edges p c).0 h)), λ h. (k.edges p c).1 ((e p c).1 h));
}

module _ (n parent child : ℕ) (g : Graph) where
  is_new : Bool
  is_new = not (parent == child) && not (contains_index child (g.outgoing parent))

  abbrev pub Added : ℕ → ℕ → Type 0
  Added p c = (p ≡ parent) × (c ≡ child) × (parent ≢ child)

  added-outgoing :
      is_new ≡ true
      → (p c : ℕ)
      → count c ((add_edge parent child g).outgoing p)
        ≡ count c (g.outgoing p) + (if p == parent then (if child == c then 1 else 0) else 0)
  unfolding add_edge is_new
  added-outgoing h p c = elim (Bool-cases (p == parent)) [
    | inl e ↦ let q = (==_iff p parent).0 e in rw (h, e, q) (omega arith)
    | inr ne ↦ rw (h, ne) (omega arith)
  ]

  added-indegree :
      is_new ≡ true
      → (c : ℕ)
      → (add_edge parent child g).indegree c ≡ g.indegree c + (if child == c then 1 else 0)
  unfolding add_edge is_new
  added-indegree h c = elim (Bool-cases (child == c)) [
    | inl e ↦ let q = (==_iff child c).0 e in rw (h, q) (ground arith)
    | inr ne ↦ rw h (ground (arith, ne))
  ]

  new-absent : is_new ≡ true → (parent ≢ child) × (count child (g.outgoing parent) ≡ 0)
  unfolding is_new
  new-absent h =
      let e = contains_index-count child (g.outgoing parent) in
      (ground (arith, h), ground (arith, h, e))

  old-present : is_new ≡ false → (parent ≡ child) ⊎ Edge g parent child
  unfolding is_new
  old-present h = elim (Bool-cases (parent == child)) [
    | inl e ↦ inl ((==_iff parent child).0 e)
    | inr ne ↦
        inr (let e = contains_index-count child (g.outgoing parent) in ground (arith, h, ne, e))
  ]

  old-same : is_new ≡ false → add_edge parent child g ≡ g
  unfolding add_edge is_new
  old-same h = rw h refl

  edges-Added :
      is_new ≡ true → (p c : ℕ) → Edge (add_edge parent child g) p c ↔ (Edge g p c ⊎ Added p c)
  edges-Added new p c =
      let out = added-outgoing new in
      let apart = (new-absent new).0 in
      (
        λ h. elim (Bool-cases (p == parent)) [
          | inl e ↦ elim (Bool-cases (child == c)) [
            | inl f ↦ inr ((==_iff p parent).0 e, sym ((==_iff child c).0 f), apart)
            | inr f ↦ inl (let o = out p c in ground (arith, o, f, h))
          ]
          | inr e ↦ inl (let o = out p c in ground (arith, o, e, h))
        ],
        λ h. elim h [
          | inl e ↦ omega (arith, e, out p c)
          | inr a ↦
              subst (λ q. Edge (add_edge parent child g) q c) (sym a.0)
                (subst (λ d. Edge (add_edge parent child g) parent d) (sym a.1)
                  (let o = out parent child in ground (arith, o)))
        ],
      )

  pub add_edge-Counts :
      (E : ℕ → ℕ → Type 0)
      → parent < n
      → Counts n E g
      → Counts n (λ p c. E p c ⊎ Added p c) (add_edge parent child g)
  add_edge-Counts E b k = elim (Bool-cases is_new) [
    | inr old ↦ subst (Counts n (λ p c. E p c ⊎ Added p c)) (sym (old-same old)) (
        Counts_iff n E _ g
          (λ p c. (
            (λ h. inl h),
            λ h. elim h [
              | inl e ↦ e
              | inr a ↦ elim (old-present old) [
                | inl loop ↦ absurd (a.2 loop)
                | inr edge ↦ (k.edges p c).0 (
                    subst (λ q. Edge g q c) (sym a.0) (subst (λ d. Edge g parent d) (sym a.1) edge))
              ]
            ],
          ))
          k)
    | inl new ↦
        let out = added-outgoing new in
        let (apart, fresh) = new-absent new in
        record {
          once = λ p c. elim (Bool-cases (p == parent)) [
            | inl e ↦ elim (Bool-cases (child == c)) [
              | inl f ↦
                  let z : count c (g.outgoing p) ≡ 0 =
                    subst (λ q. count c (g.outgoing q) ≡ 0) (sym ((==_iff p parent).0 e))
                      (subst (λ d. count d (g.outgoing parent) ≡ 0) ((==_iff child c).0 f) fresh) in
                  ground (arith, out p c, z)
              | inr f ↦ ground (arith, out p c, f, k.once p c)
            ]
            | inr e ↦ ground (arith, out p c, e, k.once p c)
          ];
          degree = λ c.
              let moved =
                sum_below_update n parent (λ p. count c ((add_edge parent child g).outgoing p))
                  (λ p. count c (g.outgoing p)) b
                  (λ p _ ne. let o = out p c in ground (arith, o, ne)) in
              let o = out parent c in
              let i = added-indegree new c in
              let d = k.degree c in
              let here : count c ((add_edge parent child g).outgoing parent)
                  ≡ count c (g.outgoing parent) + (if child == c then 1 else 0) =
                ground (arith, o) in
              omega (arith, moved, here, i, d);
          edges = λ p c.
              let e = edges-Added new p c in
              (
                λ h. elim (e.0 h) [ inl old ↦ inl ((k.edges p c).0 old) | inr a ↦ inr a ],
                λ h. elim h [ inl old ↦ e.1 (inl ((k.edges p c).1 old)) | inr a ↦ e.1 (inr a) ],
              );
        }
  ]
