-- ===== src/Policy/Bundle.antt =====
-- What a policy import becomes: the specification of `build_policy_bundle`.
use featherlane_ai.Prelude.{
  ◌≡◌, ◌≢◌, true, Option, none, some, List, [], ◌∷◌, ◌++◌, map, String, All, Any,
}
use featherlane_ai.Text.{trim, to_ascii_lowercase}
use featherlane_ai.Json.{Numbers}
use featherlane_ai.Domain.Ids.{OrganizationId, SourceId, OffsetDateTime}
use featherlane_ai.Domain.Events.{
  draft, approved, ReviewerApproval, Source, Obligation, PolicyBundle,
}
use featherlane_ai.Policy.{ObligationImport, PolicySourceImport, PolicyImportRequest, valid_sha256}
use featherlane_ai.Policy.Keys.{Unique}

-- Two lists of one length, related place by place.
pub data Zip {A B : Type 0} (R : A → B → Type 0) : List A → List B → Type 0 where
  empty : Zip R [] []
  both :
      {a : A} {b : B} {as' : List A} {bs : List B} → R a b → Zip R as' bs → Zip R (a ∷ as') (b ∷ bs)

-- A reviewer and a time make an approval, and neither makes none.
pub data Reviews : Option String → Option OffsetDateTime → Option ReviewerApproval → Type 0 where
  unreviewed : Reviews none none none
  reviewed :
      (reviewer : String) (time : OffsetDateTime)
      → Reviews
          (some reviewer)
          (some time)
          (some (record { status = approved; reviewer_id = reviewer; reviewed_at = time }))

module _ {num : Numbers} where
  -- The obligation says what its import says, for its owner and source.
  pub record Imports (org : OrganizationId) (source : SourceId) (o : ObligationImport num)
      (b : Obligation num) : Type 0 where
    pub hashed : valid_sha256 o.locator.excerpt_sha256 ≡ true
    pub owner : b.organization_id ≡ org
    pub from : b.source_id ≡ source
    pub key : b.key ≡ o.key
    pub statement : b.statement ≡ o.statement
    pub locator :
        b.locator
        ≡ record o.locator { excerpt_sha256 = to_ascii_lowercase o.locator.excerpt_sha256 }
    pub applicability : b.applicability ≡ o.applicability
    pub exceptions : b.exceptions ≡ o.exceptions
    pub required_evidence : b.required_evidence ≡ o.required_evidence
    pub review : Reviews o.reviewer_id o.reviewed_at b.review

  -- The source says what its import says, for its owner.
  pub record Sources (org : OrganizationId) (s : PolicySourceImport num) (b : Source) : Type 0 where
    pub hashed : valid_sha256 s.content_sha256 ≡ true
    pub owner : b.organization_id ≡ org
    pub source_type : b.source_type ≡ s.source_type
    pub title : b.title ≡ s.title
    pub jurisdiction : b.jurisdiction ≡ s.jurisdiction
    pub content : b.content_sha256 ≡ to_ascii_lowercase s.content_sha256
    pub confidence : b.confidence ≡ s.confidence

  -- Every source is filed, with all its obligations under it, in order.
  pub data Files (org : OrganizationId)
      : List (PolicySourceImport num) → List Source → List (Obligation num) → Type 0 where
    done : Files org [] [] []
    file :
        {s : PolicySourceImport num} {ss : List (PolicySourceImport num)} {source : Source}
        {sources : List Source} {obligations more : List (Obligation num)}
        → Sources org s source
        → Zip (Imports org source.id) s.obligations obligations
        → Files org ss sources more
        → Files org (s ∷ ss) (source ∷ sources) (obligations ++ more)

  abbrev pub keys : List (Obligation num) → List String
  keys = map (λ o. o.key)

  -- A draft of the requested rules, over filed sources.
  pub record IsBundle (org : OrganizationId) (request : PolicyImportRequest num)
      (bundle : PolicyBundle num) : Type 0 where
    pub named : trim request.key ≢ ""
    pub unpublished : (bundle.pack.status ≡ draft) × (bundle.pack.published_at ≡ none)
    pub ruled : (bundle.pack.rules ≡ request.rules) × (request.rules ≢ [])
    pub asserting : All (λ rule. rule.assertions ≢ []) request.rules
    pub filed : (request.sources ≢ []) × Files org request.sources bundle.sources bundle.obligations
    pub unique : Unique (keys bundle.obligations)
    pub referenced :
        All (λ rule. Any (λ o. o.key ≡ rule.obligation_key) bundle.obligations) request.rules
