-- ===== src/Domain/Import/Readiness.antt =====
-- The gates of `PolicyImportReadiness`, said of the import and its candidates.
use featherlane_ai.Prelude.{
  ◌<◌, ◌≡◌, refl, ◌≢◌, ◌↔◌, and3_iff, and4_iff, and_iff, not_iff, Bool, true, false, not, ◌&&◌,
  some, List, [], str_eq, same_iff, ltb→lt, lt→ltb, ==_iff, is_empty, All, Any, all, all_iff, keep,
  All-keep_iff, keep_some_iff, is_empty_iff, is_some_and_iff, not-eq_true, not_intro, iff_trans,
  iff_sym,
}
use featherlane_ai.Text.{is_blank_iff}
use featherlane_ai.Json.{Numbers}
use featherlane_ai.Domain.Import.{
  PolicyCandidateStatus, PolicyCandidateStatus-discrete, approved, RuleMappingStatus-discrete,
  ready, SourceVerificationStatus-discrete, verified, PolicyImportCoverage, is_complete,
  PolicyImport, RuleSuggestion, PolicyCandidate, has_candidate_status, mapping_ready, no_approved,
  blockers_of, calculate, is_ready, review_complete, review_blockers,
}

-- Every chunk was processed, and there was one.
abbrev pub IsCovered : PolicyImportCoverage → Type 0
IsCovered c = (0 < c.total_chunks) × (c.total_chunks ≡ c.processed_chunks) × (c.failed_chunks ≡ [])

gates_iff :
    (a b c d e : Bool)
    → (is_empty (blockers_of a b c d e) ≡ true) ↔ ((a && b && c && d && e) ≡ true)
unfolding blockers_of
gates_iff true true true true true = ((λ _. refl), λ _. refl)
gates_iff true true true true false = ((λ h. h), λ h. h)
gates_iff true true true false e = ((λ h. h), λ h. h)
gates_iff true true false d e = ((λ h. h), λ h. h)
gates_iff true false c d e = ((λ h. h), λ h. h)
gates_iff false b c d e = ((λ h. h), λ h. h)

review_iff :
    (a b c d e : Bool)
    → (is_empty (keep (λ t. not (str_eq t no_approved)) (blockers_of a b c d e)) ≡ true)
      ↔ ((a && b && c && e) ≡ true)
unfolding blockers_of
review_iff true true true true true = ((λ _. refl), λ _. refl)
review_iff true true true true false = ((λ h. h), λ h. h)
review_iff true true true false true = ((λ _. refl), λ _. refl)
review_iff true true true false false = ((λ h. h), λ h. h)
review_iff true true false d e = ((λ h. h), λ h. h)
review_iff true false c d e = ((λ h. h), λ h. h)
review_iff false b c d e = ((λ h. h), λ h. h)

ready_iff :
    (a b c d e : Bool) → ((a && b && c && d && e) ≡ true) ↔ (((a && b && c && e) && d) ≡ true)
ready_iff true true true true true = ((λ h. h), λ h. h)
ready_iff true true true true false = ((λ h. h), λ h. h)
ready_iff true true true false true = ((λ h. h), λ h. h)
ready_iff true true true false false = ((λ h. h), λ h. h)
ready_iff true true false d e = ((λ h. h), λ h. h)
ready_iff true false c d e = ((λ h. h), λ h. h)
ready_iff false b c d e = ((λ h. h), λ h. h)

IsCovered-iff : (c : PolicyImportCoverage) → (is_complete c ≡ true) ↔ IsCovered c
unfolding is_complete
IsCovered-iff c =
    and3_iff _ _ _ (ltb→lt 0 c.total_chunks, lt→ltb 0 c.total_chunks)
      (==_iff c.total_chunks c.processed_chunks) (is_empty_iff c.failed_chunks)

module _ {num : Numbers} where
  -- A candidate with a ready mapping, a suggested rule that asserts something and a hashed excerpt.
  abbrev pub IsCompilable : PolicyCandidate num → Type 0
  IsCompilable c =
      (c.mapping_status ≡ ready)
      × ((rule : RuleSuggestion num) × (c.suggested_rule ≡ some rule) × (rule.assertions ≢ []))
      × (c.locator.excerpt_sha256 ≢ "")

  -- The source is verified and covered, every candidate was disposed of, and the approved ones compile.
  abbrev pub IsReviewed : PolicyImport → List (PolicyCandidate num) → Type 0
  IsReviewed import' candidates =
      (import'.verification_status ≡ verified)
      × IsCovered import'.coverage
      × ((candidates ≢ []) × All (λ c. c.status ≢ PolicyCandidateStatus.pending) candidates)
      × All (λ c. c.status ≡ approved → IsCompilable c) candidates

  mapping_ready_iff : (c : PolicyCandidate num) → (mapping_ready c ≡ true) ↔ IsCompilable c
  unfolding mapping_ready
  mapping_ready_iff c =
      and3_iff _ _ _ (same_iff RuleMappingStatus-discrete c.mapping_status ready)
        (is_some_and_iff _ (λ rule. rule.assertions ≢ [])
          (λ rule. not_iff _ (is_empty_iff rule.assertions)) c.suggested_rule)
        (not_iff _ (is_blank_iff c.locator.excerpt_sha256))

  status_iff :
      (s : PolicyCandidateStatus) (c : PolicyCandidate num)
      → (has_candidate_status s c ≡ true) ↔ (c.status ≡ s)
  status_iff s c = same_iff PolicyCandidateStatus-discrete c.status s

  disposed_iff :
      (candidates : List (PolicyCandidate num))
      → ((not (is_empty candidates)
            && all (λ c. not (has_candidate_status PolicyCandidateStatus.pending c)) candidates)
          ≡ true)
        ↔ ((candidates ≢ []) × All (λ c. c.status ≢ PolicyCandidateStatus.pending) candidates)
  disposed_iff candidates =
      and_iff _ _ (not_iff _ (is_empty_iff candidates))
        (all_iff _ (λ c. not_iff _ (status_iff PolicyCandidateStatus.pending c)) candidates)

  IsCompilable-iff :
      (candidates : List (PolicyCandidate num))
      → (all mapping_ready (keep (has_candidate_status approved) candidates) ≡ true)
        ↔ All (λ c. c.status ≡ approved → IsCompilable c) candidates
  IsCompilable-iff candidates =
      iff_trans
        (all_iff mapping_ready mapping_ready_iff (keep (has_candidate_status approved) candidates))
        (All-keep_iff (has_candidate_status approved) IsCompilable (status_iff approved) candidates)

  -- `review_complete` holds exactly when the source is verified, every chunk of it was processed, there
  -- are candidates, none is pending, and every approved one has a ready mapping, a rule that asserts
  -- something and a hashed excerpt.
  pub review_complete-IsReviewed :
      (import' : PolicyImport) (candidates : List (PolicyCandidate num))
      → (review_complete (calculate import' candidates) ≡ true) ↔ IsReviewed import' candidates
  unfolding calculate review_complete
  review_complete-IsReviewed import' candidates =
      and4_iff _ _ _ _
        (same_iff SourceVerificationStatus-discrete import'.verification_status verified)
        (IsCovered-iff import'.coverage) (disposed_iff candidates) (IsCompilable-iff candidates)

  -- `review_blockers` is empty exactly when the review is complete: a missing approval is not a
  -- blocker of the review.
  review_blockers-review_complete :
      (import' : PolicyImport) (candidates : List (PolicyCandidate num))
      → (review_blockers (calculate import' candidates) ≡ [])
        ↔ (review_complete (calculate import' candidates) ≡ true)
  unfolding calculate review_complete review_blockers
  review_blockers-review_complete import' candidates =
      iff_trans (iff_sym (is_empty_iff (review_blockers (calculate import' candidates))))
        (review_iff _ _ _ _ _)

  -- `is_ready` holds exactly when the review is complete and some candidate is approved.
  pub is_ready-IsReviewed :
      (import' : PolicyImport) (candidates : List (PolicyCandidate num))
      → (is_ready (calculate import' candidates) ≡ true)
        ↔ (IsReviewed import' candidates × Any (λ c. c.status ≡ approved) candidates)
  unfolding calculate is_ready review_complete
  is_ready-IsReviewed import' candidates =
      let r = calculate import' candidates in
      iff_trans
        (iff_trans (gates_iff _ _ _ _ _) (
          ready_iff r.source_verified r.coverage_complete r.all_candidates_disposed
            r.has_approved_candidate r.approved_mappings_ready))
        (and_iff _ _ (review_complete-IsReviewed import' candidates) (
          iff_trans (not-eq_true _, not_intro _)
            (keep_some_iff (has_candidate_status approved) (status_iff approved) candidates)))
