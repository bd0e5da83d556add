-- ===== src/Policy.antt =====
-- crates/governance-policy/src/lib.rs: validation and compilation of imported policies.
pub mod Keys
pub mod Bundle
pub mod Building
pub mod Importable
mod Tests
use Prim.Native.Char.{code}
use Prim.Native.String.{◌++◌ as str_append}
use featherlane_ai.Prelude.{
  ℕ, suc, ◌+◌, Bool, not, ◌&&◌, ◌||◌, Option, none, some, List, [], ◌∷◌, ◌++◌, map, String, str_eq,
  same, ◌==◌, is_empty, any, find, length, if◌then◌else◌, Result, ok, err, ensure, ◌>>=◌, ◌>>◌,
}
use featherlane_ai.Text.{trim, is_blank, is_hex, all_chars, byte_length, to_ascii_lowercase}
use featherlane_ai.Json.{Numbers, Value}
use featherlane_ai.Domain.Ids.{OrganizationId, SourceId, PolicyPackId, OffsetDateTime}
use featherlane_ai.Domain.Events.{
  SourceType, SourceConfidence, SourceLocator, ReviewStatus, ReviewStatus-discrete, draft, approved,
  ReviewerApproval, Source, Obligation, CompiledRule, PolicyPack, PolicyBundle,
}

pub record PolicyDocument (num : Numbers) : Type 0 where
  pub key : String
  pub version : ℕ
  pub title : String
  pub status : ReviewStatus
  pub rules : List (CompiledRule num)

pub data PolicyError : Type 0 where
  invalid_policy : String → PolicyError

pub record ObligationImport (num : Numbers) : Type 0 where
  pub key : String
  pub statement : String
  pub locator : SourceLocator
  pub applicability : Value num
  pub exceptions : List String
  pub required_evidence : List String
  pub reviewer_id : Option String
  pub reviewed_at : Option OffsetDateTime

pub record PolicySourceImport (num : Numbers) : Type 0 where
  pub source_type : SourceType
  pub title : String
  pub jurisdiction : String
  pub content_sha256 : String
  pub confidence : SourceConfidence
  pub obligations : List (ObligationImport num)

pub record PolicyImportRequest (num : Numbers) : Type 0 where
  pub key : String
  pub version : ℕ
  pub title : String
  pub rules : List (CompiledRule num)
  pub sources : List (PolicySourceImport num)

-- A byte of a character outside ASCII is no hexadecimal digit, so the characters stand for the bytes.
unfoldable pub valid_sha256 : String → Bool
valid_sha256 value = byte_length value == 64 && all_chars (λ c. is_hex (code c)) value

-- The two options that are supplied together or not at all.
unfoldable pub review_of :
    Option String → Option OffsetDateTime → Result PolicyError (Option ReviewerApproval)
review_of (some reviewer_id) (some reviewed_at) =
    ok (some (record { status = approved; reviewer_id = reviewer_id; reviewed_at = reviewed_at }))
review_of none none = ok none
review_of _ _ =
    err (invalid_policy "obligation reviewer_id and reviewed_at must be supplied together")

-- A `BTreeSet` of texts, in any order.
unfoldable pub key_set : List String → List String
key_set [] = []
key_set (k ∷ ks) = let rest = key_set ks in if any (λ j. str_eq j k) rest then rest else k ∷ rest

module _ {num : Numbers} where
  unfoldable pub validate_policy_document : PolicyDocument num → Result PolicyError (Unit {0})
  validate_policy_document document = do
    ensure (not (is_blank (trim document.key))) (invalid_policy "policy key cannot be empty")
    ensure (not (is_empty document.rules)) (invalid_policy "policy must contain at least one rule")
    ensure (not (any (λ rule. is_empty rule.assertions) document.rules))
        (invalid_policy "every rule must contain at least one assertion")

  -- `now` is the clock, and `id` the identifier drawn for the pack.
  unfoldable pub compile_policy_document :
      OffsetDateTime
      → PolicyPackId
      → OrganizationId
      → PolicyDocument num
      → String
      → Result PolicyError (PolicyPack num)
  unfolding validate_policy_document
  compile_policy_document now id organization_id document content_sha256 = do
    validate_policy_document document
    ok (record {
      id = id;
      organization_id = organization_id;
      key = document.key;
      version = document.version;
      title = document.title;
      status = document.status;
      content_sha256 = content_sha256;
      published_at = if same ReviewStatus-discrete document.status approved then some now else none;
      rules = document.rules;
    })

  module _ (fresh : ℕ → ℕ) (organization_id : OrganizationId) where
    -- The obligation that is pushed for an import; `n` counts the identifiers drawn so far.
    unfoldable pub import_obligation :
        SourceId → ℕ → ObligationImport num → Result PolicyError (Obligation num)
    unfolding valid_sha256 review_of
    import_obligation source_id n imported = do
      ensure (valid_sha256 imported.locator.excerpt_sha256) (
          invalid_policy
            "every obligation excerpt_sha256 must be a 64-character hexadecimal digest")
      review ← review_of imported.reviewer_id imported.reviewed_at
      ok (record {
        id = fresh n;
        organization_id = organization_id;
        source_id = source_id;
        key = imported.key;
        statement = imported.statement;
        locator = record imported.locator {
          excerpt_sha256 = to_ascii_lowercase imported.locator.excerpt_sha256;
        };
        applicability = imported.applicability;
        exceptions = imported.exceptions;
        required_evidence = imported.required_evidence;
        review = review;
      })

    -- The inner loop: what it pushes.
    unfoldable pub import_obligations :
        SourceId → ℕ → List (ObligationImport num) → Result PolicyError (List (Obligation num))
    unfolding import_obligation
    import_obligations source_id n [] = ok []
    import_obligations source_id n (o ∷ os) = do
      obligation ← import_obligation source_id n o
      rest ← import_obligations source_id (suc n) os
      ok (obligation ∷ rest)

    abbrev source_of : SourceId → PolicySourceImport num → Source
    source_of id imported = record {
      id = id;
      organization_id = organization_id;
      source_type = imported.source_type;
      title = imported.title;
      jurisdiction = imported.jurisdiction;
      effective_from = none;
      content_sha256 = to_ascii_lowercase imported.content_sha256;
      confidence = imported.confidence;
    }

    -- The outer loop: the sources and the obligations that it pushes.
    unfoldable pub import_sources :
        ℕ → List (PolicySourceImport num) → Result PolicyError (List Source × List (Obligation num))
    unfolding import_obligations valid_sha256
    import_sources n [] = ok ([], [])
    import_sources n (s ∷ ss) = do
      ensure (valid_sha256 s.content_sha256)
          (invalid_policy "every source content_sha256 must be a 64-character hexadecimal digest")
      obligations ← import_obligations (fresh n) (suc n) s.obligations
      rest ← import_sources (suc (length obligations + n)) ss
      ok (source_of (fresh n) s ∷ rest.0, obligations ++ rest.1)

module _ {num : Numbers} where
  -- `if let Some(rule)`.
  unfoldable pub missing_rule : Option (CompiledRule num) → Result PolicyError (Unit {0})
  missing_rule none = ok tt
  missing_rule (some rule) = err (
      invalid_policy (
        str_append "rule "
          (str_append rule.id (str_append " references missing obligation " rule.obligation_key))))

  -- The checks on the obligations' keys, after the loops.
  unfoldable pub check_keys :
      List (CompiledRule num) → List (Obligation num) → Result PolicyError (Unit {0})
  unfolding key_set missing_rule
  check_keys rules obligations =
      let obligation_keys = key_set (map (λ o. o.key) obligations) in
      do
        ensure (length obligation_keys == length obligations)
            (invalid_policy "obligation keys must be unique across all imported sources")
        missing_rule
            (find (λ rule. not (any (λ k. str_eq k rule.obligation_key) obligation_keys)) rules)

  -- The document that is compiled: a draft, whatever becomes of it later.
  abbrev pub draft_document : PolicyImportRequest num → PolicyDocument num
  draft_document request = record {
    key = request.key;
    version = request.version;
    title = request.title;
    status = draft;
    rules = request.rules;
  }

-- `map_err`.
abbrev pub canonical_of : {Bytes : Type 0} → Result String Bytes → Result PolicyError Bytes
canonical_of (ok bytes) = ok bytes
canonical_of (err error) = err (invalid_policy error)

-- `to_vec` is `serde_json::to_vec` with its error as text, and `digest` the hexadecimal SHA-256.
module _ {num : Numbers} {Bytes : Type 0} (to_vec : PolicyImportRequest num → Result String Bytes)
    (digest : Bytes → String) where
  unfoldable pub build_policy_bundle :
      (ℕ → ℕ)
      → OffsetDateTime
      → OrganizationId
      → PolicyImportRequest num
      → Result PolicyError (PolicyBundle num)
  unfolding compile_policy_document import_sources check_keys
  build_policy_bundle fresh now organization_id request = do
    ensure (not (is_blank (trim request.key) || is_empty request.rules || is_empty request.sources))
        (invalid_policy "key, at least one rule, and at least one source are required")
    canonical ← canonical_of (to_vec request)
    pack ←
        compile_policy_document now (fresh 0) organization_id (draft_document request)
          (digest canonical)
    imported ← import_sources fresh organization_id 1 request.sources
    check_keys request.rules imported.1
    ok (record { pack = pack; sources = imported.0; obligations = imported.1 })
