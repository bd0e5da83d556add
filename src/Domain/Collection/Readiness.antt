-- ===== src/Domain/Collection/Readiness.antt =====
-- The gates of `PolicyCollectionReadiness`, said of the members.
use featherlane_ai.Prelude.{
  same_iff, ℕ, zero, suc, ◌+◌, ◌<◌, ◌≡◌, refl, ap, sym, ◌∙◌, ◌≢◌, ◌↔◌, ◌⊎◌, inl, inr, Bool, true,
  false, not, List, [], ◌∷◌, ◌++◌, map, lt→ltb, ◌==◌, ==_iff, length, is_empty, is_empty_iff,
  is_empty-map, keep, keep-not-is_empty_iff, keep_some_iff, All, All-map, Any, Bool-cases,
  iff_trans, pair_iff, iff_of_eq, subst, false-ne_true, and-eq_true, and_intro, arith,
}
use mathlib.Core.List.{append_assoc, append-nil}
use featherlane_ai.Json.{Numbers}
use featherlane_ai.Domain.Import.{
  PolicyCandidateStatus-discrete, PolicyImport, PolicyCandidate, has_candidate_status, approved,
  calculate, review_complete,
}
use featherlane_ai.Domain.Import.Readiness.{IsReviewed, review_complete-IsReviewed}
use featherlane_ai.Domain.Collection.{
  initial, PolicyCollectionReadiness, Members, saturated, add_u32, source_blocker, count_review,
  count_rules, count_members, check_rules, collection_readiness, collection_is_ready,
}

add_saturated : (a b : ℕ) → a + b < 4294967296 → add_u32 a (saturated b) ≡ a + b
unfolding add_u32 saturated
add_saturated a b h = ground arith

length_pos_iff : {A : Type 0} (xs : List A) → (0 < length xs) ↔ (is_empty xs ≡ false)
length_pos_iff [] = ((λ h. absurd (omega arith)), λ h. cc)
length_pos_iff (x ∷ xs) = ((λ _. refl), λ _. omega arith)

pos_or : (a b : ℕ) → 0 < a + b → (0 < a) ⊎ (0 < b)
pos_or zero b h = inr (omega arith)
pos_or (suc a) b h = inl (omega arith)

is_empty-append : {A : Type 0} (xs : List A) (y : A) → is_empty (xs ++ y ∷ []) ≡ false
is_empty-append [] y = refl
is_empty-append (x ∷ xs) y = refl

saturated_pos : (n : ℕ) → 0 < n → 0 < saturated n
unfolding saturated
saturated_pos n h = ground arith

check_rules-blockers : (q : PolicyCollectionReadiness) → (check_rules q).blockers ≡ q.blockers
unfolding check_rules
check_rules-blockers q = elim (Bool-cases (q.approved_rule_count == 0)) [
  | inl none' ↦ rw (none', check_rules) refl
  | inr some' ↦ rw (some', check_rules) refl
]

ready_iff :
    (q : PolicyCollectionReadiness)
    → q.collection_blockers ≡ []
    → 0 < q.source_count
    → (collection_is_ready (check_rules q) ≡ true)
      ↔ ((is_empty q.blockers ≡ true) × (0 < q.approved_rule_count))
unfolding collection_is_ready check_rules
ready_iff q e h = elim (Bool-cases (q.approved_rule_count == 0)) [
  | inl none' ↦
      rw (none', check_rules)
        (
          λ k. false-ne_true (and-eq_true _ _ k).1 (is_empty-append q.collection_blockers _),
          λ k. absurd (omega (arith, (==_iff q.approved_rule_count 0).0 none', k.1)),
        )
  | inr some' ↦
      rw (some', check_rules)
        (
          λ k. ((and-eq_true _ _ (and-eq_true _ _ k).0).1, ground (arith, some')),
          λ k.
              and_intro _ _ (and_intro _ _ (lt→ltb 0 q.source_count h) k.0)
                ((is_empty_iff q.collection_blockers).1 e),
        )
]

module _ {num : Numbers} where
  abbrev pub is_reviewed : PolicyImport × List (PolicyCandidate num) → Bool
  is_reviewed member = review_complete (calculate member.0 member.1)

  abbrev pub approved_count : PolicyImport × List (PolicyCandidate num) → ℕ
  approved_count member = length (keep (has_candidate_status approved) member.1)

  abbrev pub total_approved : Members num → ℕ
  total_approved [] = 0
  total_approved (m ∷ ms) = approved_count m + total_approved ms

  -- The members that are not reviewed, in order.
  abbrev pub open_members : Members num → Members num
  open_members = keep (λ m. not (is_reviewed m))

  abbrev step :
      PolicyImport × List (PolicyCandidate num)
      → PolicyCollectionReadiness
      → PolicyCollectionReadiness
  step m r = count_rules m (count_review m r)

  step-reviewed :
      (m : PolicyImport × List (PolicyCandidate num)) (r : PolicyCollectionReadiness)
      → is_reviewed m ≡ true
      → (step m r).blockers ≡ r.blockers
  unfolding count_review count_rules
  step-reviewed m r whole = rw (whole, count_review) refl

  step_open :
      (m : PolicyImport × List (PolicyCandidate num)) (r : PolicyCollectionReadiness)
      → is_reviewed m ≡ false
      → (step m r).blockers ≡ r.blockers ++ source_blocker m ∷ []
  unfolding count_review count_rules
  step_open m r part = rw (part, count_review) refl

  step_rest :
      (m : PolicyImport × List (PolicyCandidate num)) (r : PolicyCollectionReadiness)
      → ((step m r).collection_blockers ≡ r.collection_blockers)
        × ((step m r).source_count ≡ r.source_count)
        × ((step m r).approved_rule_count
            ≡ add_u32 r.approved_rule_count (saturated (approved_count m)))
  unfolding count_review count_rules
  step_rest m r = elim (Bool-cases (is_reviewed m)) [
    | inl whole ↦ rw (whole, count_review) (refl, refl, refl)
    | inr part ↦ rw (part, count_review) (refl, refl, refl)
  ]

  open_members_reviewed :
      (m : PolicyImport × List (PolicyCandidate num)) (ms : Members num)
      → is_reviewed m ≡ true
      → open_members ms ≡ open_members (m ∷ ms)
  open_members_reviewed m ms whole = rw whole refl

  open_members_open :
      (m : PolicyImport × List (PolicyCandidate num)) (ms : Members num)
      → is_reviewed m ≡ false
      → m ∷ open_members ms ≡ open_members (m ∷ ms)
  open_members_open m ms part = rw part refl

  count_members-blockers :
      (r : PolicyCollectionReadiness) (ms : Members num)
      → (count_members r ms).blockers ≡ r.blockers ++ map source_blocker (open_members ms)
  unfolding count_members
  count_members-blockers r [] = sym (append-nil r.blockers)
  count_members-blockers r (m ∷ ms) = elim (Bool-cases (is_reviewed m)) [
    | inl whole ↦
        count_members-blockers (step m r) ms
        ∙ ap (λ bs. bs ++ map source_blocker (open_members ms)) (step-reviewed m r whole)
        ∙ ap (λ xs. r.blockers ++ map source_blocker xs) (open_members_reviewed m ms whole)
    | inr part ↦
        count_members-blockers (step m r) ms
        ∙ ap (λ bs. bs ++ map source_blocker (open_members ms)) (step_open m r part)
        ∙ append_assoc r.blockers (source_blocker m ∷ []) (map source_blocker (open_members ms))
        ∙ ap (λ xs. r.blockers ++ map source_blocker xs) (open_members_open m ms part)
  ]

  count_members-rest :
      (r : PolicyCollectionReadiness) (ms : Members num)
      → ((count_members r ms).collection_blockers ≡ r.collection_blockers)
        × ((count_members r ms).source_count ≡ r.source_count)
  unfolding count_members
  count_members-rest r [] = (refl, refl)
  count_members-rest r (m ∷ ms) =
      let (a, b, _) = step_rest m r in
      let (c, d) = count_members-rest (step m r) ms in (c ∙ a, d ∙ b)

  count_members-total :
      (r : PolicyCollectionReadiness) (ms : Members num)
      → r.approved_rule_count + total_approved ms < 4294967296
      → (count_members r ms).approved_rule_count ≡ r.approved_rule_count + total_approved ms
  unfolding count_members
  count_members-total r [] h = omega arith
  count_members-total r (m ∷ ms) h =
      let (_, _, e) = step_rest m r in
      let added = e ∙ add_saturated r.approved_rule_count (approved_count m) (omega arith) in
      omega (arith, added, count_members-total (step m r) ms (omega (arith, added)))

  approved_iff :
      (c : PolicyCandidate num) → (has_candidate_status approved c ≡ true) ↔ (c.status ≡ approved)
  approved_iff c = same_iff PolicyCandidateStatus-discrete c.status approved

  abbrev pub HasApproved : PolicyImport × List (PolicyCandidate num) → Type 0
  HasApproved m = Any (λ c. c.status ≡ approved) m.1

  approved_count-zero :
      (m : PolicyImport × List (PolicyCandidate num)) → (0 < approved_count m) ↔ HasApproved m
  approved_count-zero m =
      iff_trans (length_pos_iff (keep (has_candidate_status approved) m.1))
        (keep_some_iff (has_candidate_status approved) approved_iff m.1)

  total_iff : (ms : Members num) → (0 < total_approved ms) ↔ Any HasApproved ms
  total_iff [] = ((λ h. absurd (omega arith)), λ h. absurd h)
  total_iff (m ∷ ms) =
      let (a, b) = approved_count-zero m in
      let (c, d) = total_iff ms in
      (
        λ h. elim (pos_or (approved_count m) (total_approved ms) h) [
          | inl p ↦ inl (a p)
          | inr q ↦ inr (c q)
        ],
        λ h. elim h [ inl p ↦ omega (arith, b p) | inr q ↦ omega (arith, d q) ],
      )

  abbrev loop : Members num → PolicyCollectionReadiness
  loop members = count_members (initial members) members

  blockers_iff :
      (members : Members num)
      → (is_empty (map source_blocker (open_members members)) ≡ true)
        ↔ All (λ m. IsReviewed m.0 m.1) members
  blockers_iff members =
      iff_trans (iff_of_eq (is_empty-map source_blocker (open_members members))) (
        iff_trans (keep-not-is_empty_iff is_reviewed members) (
          All-map (λ m e. (review_complete-IsReviewed m.0 m.1).0 e) members,
          All-map (λ m e. (review_complete-IsReviewed m.0 m.1).1 e) members,
        ))

  loop_iff :
      (members : Members num)
      → total_approved members < 4294967296
      → 0 < length members
      → (collection_is_ready (check_rules (loop members)) ≡ true)
        ↔ (All (λ m. IsReviewed m.0 m.1) members × Any HasApproved members)
  loop_iff members h some' =
      let (clear, size) = count_members-rest (initial members) members in
      let approved_total = count_members-total (initial members) members (omega (arith, h)) in
      iff_trans
        (ready_iff (loop members) clear
          (subst (λ n. 0 < n) (sym size) (saturated_pos (length members) some')))
        (pair_iff
          (iff_trans (iff_of_eq (ap is_empty (count_members-blockers (initial members) members)))
            (blockers_iff members))
          (iff_trans
            ((λ k. omega (arith, approved_total, k)), λ k. omega (arith, approved_total, k))
            (total_iff members)))

  -- A collection is ready exactly when it has members, the review of each is complete, and some
  -- candidate of some member is approved, given that fewer than 2^32 candidates are.
  pub collection_is_ready-IsReviewed :
      (members : Members num)
      → total_approved members < 4294967296
      → (collection_is_ready (collection_readiness members) ≡ true)
        ↔ ((members ≢ []) × All (λ m. IsReviewed m.0 m.1) members × Any HasApproved members)
  unfolding collection_readiness collection_is_ready
  collection_is_ready-IsReviewed [] h = ((λ k. cc), λ k. absurd (k.0 refl))
  collection_is_ready-IsReviewed (m ∷ ms) h =
      let (fwd, back) = loop_iff (m ∷ ms) h (omega arith) in
      ((λ k. let (a, b) = fwd k in ((λ e. cc), a, b)), λ k. back (k.1, k.2))

  -- The blockers of a collection are those of its members without a complete review, one each, in
  -- order: the member's id, its title and its own review blockers.
  collection_readiness-blockers :
      (members : Members num)
      → (collection_readiness members).blockers
        ≡ map source_blocker (keep (λ m. not (review_complete (calculate m.0 m.1))) members)
  unfolding collection_readiness
  collection_readiness-blockers [] = refl
  collection_readiness-blockers (m ∷ ms) =
      check_rules-blockers (loop (m ∷ ms)) ∙ count_members-blockers (initial (m ∷ ms)) (m ∷ ms)
