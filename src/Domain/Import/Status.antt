-- ===== src/Domain/Import/Status.antt =====
-- The state machine of `PolicyImportStatus`.
use featherlane_ai.Prelude.{◌≡◌, refl, ◌≢◌, ◌⊎◌, inl, inr, true, false, List, [], ◌∷◌, In}
use featherlane_ai.Domain.Import.{
  PolicyImportStatus, uploading, queued, parsing, extracting, review_required, ready_to_compile,
  compiled, needs_ocr, failed_retryable, failed_terminal, can_transition_to,
}

-- A sequence of allowed transitions, with the statuses entered on the way.
pub data Trail : PolicyImportStatus → List PolicyImportStatus → PolicyImportStatus → Type 0 where
  here : {s : PolicyImportStatus} → Trail s [] s
  next :
      {s t u : PolicyImportStatus} {visited : List PolicyImportStatus}
      → can_transition_to s t ≡ true
      → Trail t visited u
      → Trail s (t ∷ visited) u

-- An import that a reviewer has not reached yet.
abbrev pub IsUnreviewed : PolicyImportStatus → Type 0
IsUnreviewed s = (s ≢ review_required) × (s ≢ ready_to_compile) × (s ≢ compiled)

enters_review :
    (s t : PolicyImportStatus)
    → can_transition_to s t ≡ true
    → IsUnreviewed s
    → IsUnreviewed t ⊎ (t ≡ review_required)
unfolding can_transition_to
enters_review s review_required h u = inr refl
enters_review review_required ready_to_compile h u = absurd (u.0 refl)
enters_review ready_to_compile compiled h u = absurd (u.1 refl)
enters_review _ ready_to_compile h u = cc
enters_review _ compiled h u = cc
enters_review _ _ h u = inl ((λ e. cc), (λ e. cc), λ e. cc)

-- An import is compiled only after review: every sequence of allowed transitions from a status before
-- review to `compiled` enters `review_required`.
pub Trail-review :
    {s : PolicyImportStatus} {visited : List PolicyImportStatus}
    → Trail s visited compiled
    → IsUnreviewed s
    → In review_required visited
Trail-review here u = absurd (u.2 refl)
Trail-review (next {s = s} {t = t} h rest) u = go (enters_review s t h u) _ (Trail-review rest)
  where
    go :
        IsUnreviewed t ⊎ (t ≡ review_required)
        → (visited : List PolicyImportStatus) → (IsUnreviewed t → In review_required visited)
        → In review_required (t ∷ visited)
    go (inl v) visited f = inr (f v)
    go (inr e) visited f = inl e

-- No transition leaves the status.
abbrev pub IsFinal : PolicyImportStatus → Type 0
IsFinal s = (t : PolicyImportStatus) → can_transition_to s t ≡ false

from_review : Trail review_required (ready_to_compile ∷ compiled ∷ []) compiled
unfolding can_transition_to
from_review = next refl (next refl here)

from_queued :
    Trail queued
      (parsing ∷ extracting ∷ review_required ∷ ready_to_compile ∷ compiled ∷ [])
      compiled
unfolding can_transition_to
from_queued = next refl (next refl (next refl from_review))

-- `compiled` and `failed_terminal` are final, and they alone: from every other status some sequence
-- of allowed transitions leads to `compiled`.
can_transition_to-final :
    (s : PolicyImportStatus)
    → (((s ≡ compiled) ⊎ (s ≡ failed_terminal)) × IsFinal s)
      ⊎ ((s ≢ compiled)
          × (s ≢ failed_terminal)
          × ((visited : List PolicyImportStatus) × Trail s visited compiled))
unfolding can_transition_to
can_transition_to-final compiled = inl (inl refl, final)
  where
    final : IsFinal compiled
    final queued = refl
    final _ = refl
can_transition_to-final failed_terminal = inl (inr refl, final)
  where
    final : IsFinal failed_terminal
    final queued = refl
    final _ = refl
can_transition_to-final queued = inr ((λ e. cc), (λ e. cc), (_, from_queued))
can_transition_to-final uploading = inr ((λ e. cc), (λ e. cc), (_, next refl from_queued))
can_transition_to-final needs_ocr = inr ((λ e. cc), (λ e. cc), (_, next refl from_queued))
can_transition_to-final failed_retryable = inr ((λ e. cc), (λ e. cc), (_, next refl from_queued))
can_transition_to-final review_required = inr ((λ e. cc), (λ e. cc), (_, from_review))
can_transition_to-final ready_to_compile =
    inr ((λ e. cc), (λ e. cc), (_, next {t = compiled} refl here))
can_transition_to-final extracting = inr ((λ e. cc), (λ e. cc), (_, next refl from_review))
can_transition_to-final parsing =
    inr ((λ e. cc), (λ e. cc), (_, next {t = extracting} refl (next refl from_review)))
