-- ===== src/Telemetry/Causal/Rounds.antt =====
-- A round releases the children of the index that it visits.
use featherlane_ai.Prelude.{
  ℕ, ◌+◌, ◌-◌, ◌≤◌, ◌<◌, ◌≡◌, refl, ap, ◌∙◌, inl, inr, ◌&&◌, List, [], ◌∷◌, ltb, ◌==◌, ==_iff,
  Bool-cases, if◌then◌else◌, arith, count,
}
use featherlane_ai.Telemetry.Causal.{SortKey, Sorting, release, release_all}
use featherlane_ai.Telemetry.Causal.Keys.{indices, count-insert_key}

abbrev pub freed_by : ℕ → ℕ → ℕ
freed_by mult degree = if ltb 0 mult && degree - 1 == 0 then 1 else 0

freed_by_both :
    (a b d e : ℕ) → a + b ≤ 1 → e ≡ d - a → freed_by a d + freed_by b e ≡ freed_by (a + b) d
freed_by_both a b d e h k = ground arith

joined : (r x y z : ℕ) → x + y ≡ z → (r + x) + y ≡ r + z
joined r x y z h = omega (arith, h)

still_absent : (a b d r s : ℕ) → a + b ≤ 1 → 0 < b → r ≡ 0 → s ≡ r + freed_by a d → s ≡ 0
still_absent a b d r s h k e f = ground arith

module _ (key_of : ℕ → SortKey) (keyed : (i : ℕ) → (key_of i).3 ≡ i) (outgoing : ℕ → List ℕ) where
  abbrev pub in_ready : Sorting → ℕ → ℕ
  in_ready s i = count i (indices s.ready)

  pub record Released (cs : List ℕ) (s t : Sorting) : Type 0 where
    pub kept : t.ordered ≡ s.ordered
    pub freed : (i : ℕ) → t.indegree i ≡ s.indegree i - count i cs
    pub added : (i : ℕ) → in_ready t i ≡ in_ready s i + freed_by (count i cs) (s.indegree i)

  in_ready-release :
      (c i : ℕ) (s : Sorting)
      → in_ready s c ≡ 0
      → in_ready (release key_of outgoing c s) i
        ≡ in_ready s i + (if s.indegree c - 1 == 0 then (if c == i then 1 else 0) else 0)
  unfolding release
  in_ready-release c i s h = elim (Bool-cases (s.indegree c - 1 == 0)) [
    | inl free ↦
        rw free (count-insert_key i (key_of c) s.ready (rw (keyed c) h) ∙ rw (keyed c) refl)
    | inr held ↦ rw held (omega arith)
  ]

  release-Released :
      (c : ℕ) (s : Sorting) → in_ready s c ≡ 0 → Released (c ∷ []) s (release key_of outgoing c s)
  unfolding release
  release-Released c s h = record {
    kept = refl;
    freed = λ i. elim (Bool-cases (c == i)) [
      | inl e ↦ let p = (==_iff c i).0 e in rw p (ground arith)
      | inr ne ↦ ground (arith, ne)
    ];
    added = λ i. elim (Bool-cases (c == i)) [
      | inl e ↦
          let p : c ≡ i = (==_iff c i).0 e in
          let q : s.indegree c ≡ s.indegree i = ap s.indegree p in
          ground (arith, in_ready-release c i s h, e, q)
      | inr ne ↦ ground (arith, in_ready-release c i s h, ne)
    ];
  }

  pub release_all-Released :
      (cs : List ℕ) (s : Sorting)
      → ((i : ℕ) → count i cs ≤ 1)
      → ((i : ℕ) → 0 < count i cs → in_ready s i ≡ 0)
      → Released cs s (release_all key_of outgoing cs s)
  unfolding release_all
  release_all-Released [] s once absent = record {
    kept = refl;
    freed = λ i. omega arith;
    added = λ i. omega arith;
  }
  release_all-Released (c ∷ cs) s once absent =
      let t = release key_of outgoing c s in
      let first = release-Released c s (absent c (ground arith)) in
      let apart : (i : ℕ) → count i (c ∷ []) + count i cs ≤ 1 = λ i. omega (arith, once i) in
      let rest =
        release_all-Released cs t (λ i. omega (arith, once i))
          (λ i h.
            still_absent (count i (c ∷ [])) (count i cs) (s.indegree i) _ _ (apart i) h
              (absent i (omega (arith, h))) (first.added i)) in
      record {
        kept = rest.kept ∙ first.kept;
        freed = λ i. omega (arith, rest.freed i, first.freed i);
        added = λ i.
            let both =
              freed_by_both (count i (c ∷ [])) (count i cs) (s.indegree i) (t.indegree i) (apart i)
                (first.freed i) in
            let sum : count i (c ∷ []) + count i cs ≡ count i (c ∷ cs) = omega arith in
            rest.added i
            ∙ ap (λ (r : ℕ). r + freed_by (count i cs) (t.indegree i)) (first.added i)
            ∙ joined (in_ready s i) _ _ _ both
            ∙ ap (λ (m : ℕ). in_ready s i + freed_by m (s.indegree i)) sum;
      }
