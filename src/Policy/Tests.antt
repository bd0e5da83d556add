-- ===== src/Policy/Tests.antt =====
-- A policy import of one source with one obligation.
use featherlane_ai.Prelude.{
  ℕ, ◌+◌, ◌≡◌, refl, true, none, some, [], ◌∷◌, String, ◌==◌, ==_iff, leb, inl, Result, ok,
}
use featherlane_ai.Json.{Numbers, null}
use featherlane_ai.Domain.Events.{
  company_policy, official_verified, critical, MissingEvidencePolicy, tool_call, EventMatcher,
  absent, CompiledRule, PolicyBundle, ReviewStatus-discrete,
}
use featherlane_ai.Policy.{
  ObligationImport, PolicySourceImport, PolicyImportRequest, valid_sha256, review_of, key_set,
  validate_policy_document, compile_policy_document, import_obligation, import_obligations,
  import_sources, missing_rule, check_keys, build_policy_bundle,
}
use featherlane_ai.Text.{all_chars, byte_length, trim}
use featherlane_ai.Policy.Bundle.{IsBundle}
use featherlane_ai.Policy.Building.{build_policy_bundle-IsBundle}
use featherlane_ai.Policy.Importable.{IsImportable, IsImportable-build_policy_bundle}

-- Integers alone, read as they are.
abbrev numerals : Numbers
numerals = record {
  Number = ℕ;
  F64 = ℕ;
  number_eq = λ m n. m == n;
  number_eq_iff = ==_iff;
  as_f64 = some;
  f64_le = leb;
}

abbrev hash : String
hash = "0123456789abcdef0123456789abcdef0123456789abcdef0123456789ABCDEF"

abbrev calls_tool : EventMatcher numerals
calls_tool = record {
  event_type = tool_call;
  name = none;
  attribute_equals = [];
  numeric_argument = none;
}

abbrev refund_rule : CompiledRule numerals
refund_rule = record {
  id = "refund";
  version = 1;
  obligation_key = "R-1";
  severity = critical;
  trigger = calls_tool;
  assertions = absent calls_tool ∷ [];
  evidence_required = [];
  on_missing_evidence = MissingEvidencePolicy.fail;
}

abbrev obligation : ObligationImport numerals
obligation = record {
  key = "R-1";
  statement = "approve refunds";
  locator = record {
    page = none;
    page_end = none;
    section = none;
    paragraph_start = none;
    paragraph_end = none;
    source_url = none;
    excerpt_sha256 = hash;
  };
  applicability = null;
  exceptions = [];
  required_evidence = [];
  reviewer_id = none;
  reviewed_at = none;
}

abbrev source : PolicySourceImport numerals
source = record {
  source_type = company_policy;
  title = "Refunds";
  jurisdiction = "US";
  content_sha256 = hash;
  confidence = official_verified;
  obligations = obligation ∷ [];
}

abbrev request : PolicyImportRequest numerals
request = record {
  key = "refunds";
  version = 1;
  title = "Refunds";
  rules = refund_rule ∷ [];
  sources = source ∷ [];
}

-- A serializer that keeps the key alone, and a digest that is its text.
abbrev to_vec : PolicyImportRequest numerals → Result String String
to_vec r = ok r.key

abbrev digest : String → String
digest text = text

abbrev drawn : ℕ → ℕ
drawn n = 500 + n

policy : Unit {0}
unfolding build_policy_bundle compile_policy_document validate_policy_document import_sources
    import_obligations import_obligation valid_sha256 review_of key_set missing_rule check_keys
    all_chars byte_length trim
policy = tt

valid_hash : valid_sha256 hash ≡ true
unfolding policy
valid_hash = refl

request-IsImportable : IsImportable request
unfolding policy
request-IsImportable = record {
  named = λ e. cc;
  ruled = λ e. cc;
  sourced = λ e. cc;
  asserting = ((λ e. cc), tt);
  importable = ((valid_hash, ((valid_hash, inl (refl, refl)), tt)), tt);
  unique = ((λ m. m), tt);
  referenced = (inl refl, tt);
}

IsImportable-build_policy_bundle_example :
    (bundle : PolicyBundle numerals) × (build_policy_bundle to_vec digest drawn 9 7 request
      ≡ ok bundle)
IsImportable-build_policy_bundle_example =
    IsImportable-build_policy_bundle to_vec digest drawn 9 7 request "refunds" refl
      request-IsImportable

bundles :
    (bundle : PolicyBundle numerals) × (build_policy_bundle to_vec digest drawn 9 7 request
      ≡ ok bundle)
unfolding policy ReviewStatus-discrete
bundles = (_, refl)

build_policy_bundle-IsBundle_example : IsBundle 7 request bundles.0
build_policy_bundle-IsBundle_example =
    build_policy_bundle-IsBundle to_vec digest drawn 9 7 request bundles.0 bundles.1
