-- ===== src/Policy/Building.antt =====
-- `build_policy_bundle` against its specification.
use featherlane_ai.Prelude.{
  ℕ, suc, ◌+◌, ◌≡◌, refl, ap, sym, subst, ◌≢◌, ◌↔◌, ◌⊎◌, inl, inr, Bool, true, false, not, ◌||◌,
  Option, none, some, List, [], ◌∷◌, String, str_eq, All, All-map, Any, any, find-none, is_empty,
  is_empty_iff, length, length-map, ==_iff, not-eq_false, not_iff, or_iff, not-any_iff, Any-of_map,
  ◌==◌, ◌∙◌, Result, ok, bind-ok, ensure-ok, ensure_holds, ok_inj,
}
use featherlane_ai.Text.{trim, is_blank, is_blank_iff}
use featherlane_ai.Json.{Numbers}
use featherlane_ai.Domain.Ids.{OrganizationId, SourceId, PolicyPackId, OffsetDateTime}
use featherlane_ai.Domain.Events.{
  ReviewStatus-discrete, draft, ReviewerApproval, Source, Obligation, CompiledRule, PolicyPack,
  PolicyBundle,
}
use featherlane_ai.Policy.{
  PolicyDocument, ObligationImport, PolicySourceImport, PolicyImportRequest, valid_sha256,
  review_of, key_set, validate_policy_document, compile_policy_document, import_obligation,
  import_obligations, import_sources, check_keys, missing_rule, build_policy_bundle, canonical_of,
  draft_document,
}
use featherlane_ai.Policy.Keys.{Unique, member_iff, In-key_set, length-key_set-Unique}
use featherlane_ai.Policy.Bundle.{
  Zip, empty, both, Reviews, unreviewed, reviewed, Imports, Files, done, file, keys, IsBundle,
}

review_of-Reviews :
    (r : Option String) (t : Option OffsetDateTime) (o : Option ReviewerApproval)
    → review_of r t ≡ ok o
    → Reviews r t o
unfolding review_of
review_of-Reviews (some r) (some t) o h =
    subst (Reviews (some r) (some t)) (ok_inj h) (reviewed r t)
review_of-Reviews none none o h = subst (Reviews none none) (ok_inj h) unreviewed
review_of-Reviews none (some t) o h = cc
review_of-Reviews (some r) none o h = cc

module _ {num : Numbers} (fresh : ℕ → ℕ) (org : OrganizationId) where
  import_obligation-Imports :
      (source : SourceId) (n : ℕ) (o : ObligationImport num) (b : Obligation num)
      → import_obligation fresh org source n o ≡ ok b
      → Imports org source o b
  unfolding import_obligation
  import_obligation-Imports source n o b h =
      let (hashed, h') = ensure-ok (valid_sha256 o.locator.excerpt_sha256) _ _ b h in
      let (review, r, e) = bind-ok (review_of o.reviewer_id o.reviewed_at) _ b h' in
      subst (Imports org source o) (ok_inj e) (record {
        hashed = hashed;
        owner = refl;
        from = refl;
        key = refl;
        statement = refl;
        locator = refl;
        applicability = refl;
        exceptions = refl;
        required_evidence = refl;
        review = review_of-Reviews _ _ review r;
      })

  import_obligations-Zip :
      (source : SourceId) (n : ℕ) (os : List (ObligationImport num)) (bs : List (Obligation num))
      → import_obligations fresh org source n os ≡ ok bs
      → Zip (Imports org source) os bs
  unfolding import_obligations
  import_obligations-Zip source n [] bs h = subst (Zip (Imports org source) []) (ok_inj h) empty
  import_obligations-Zip source n (o ∷ os) bs h =
      let (b, p, h') = bind-ok (import_obligation fresh org source n o) _ bs h in
      let (rest, q, e) = bind-ok (import_obligations fresh org source (suc n) os) _ bs h' in
      subst (Zip (Imports org source) (o ∷ os)) (ok_inj e) (
        both (import_obligation-Imports source n o b p)
          (import_obligations-Zip source (suc n) os rest q))

  pub import_sources-Files :
      (n : ℕ) (ss : List (PolicySourceImport num)) (out : List Source × List (Obligation num))
      → import_sources fresh org n ss ≡ ok out
      → Files org ss out.0 out.1
  unfolding import_sources
  import_sources-Files n [] out h =
      subst (λ (o : List Source × List (Obligation num)). Files org [] o.0 o.1) (ok_inj h) done
  import_sources-Files n (s ∷ ss) out h =
      let (hashed, h1) = ensure-ok (valid_sha256 s.content_sha256) _ _ out h in
      let (obligations, p, h2) =
        bind-ok (import_obligations fresh org (fresh n) (suc n) s.obligations) _ out h1 in
      let (rest, q, e) =
        bind-ok (import_sources fresh org (suc (length obligations + n)) ss) _ out h2 in
      subst (λ (o : List Source × List (Obligation num)). Files org (s ∷ ss) o.0 o.1) (ok_inj e)
        (file
          (record {
            hashed = hashed;
            owner = refl;
            source_type = refl;
            title = refl;
            jurisdiction = refl;
            content = refl;
            confidence = refl;
          })
          (import_obligations-Zip (fresh n) (suc n) s.obligations obligations p)
          (import_sources-Files (suc (length obligations + n)) ss rest q))

module _ {num : Numbers} where
  pub asserting_iff :
      (rules : List (CompiledRule num))
      → (not (any (λ rule. is_empty rule.assertions) rules) ≡ true)
        ↔ All (λ rule. rule.assertions ≢ []) rules
  asserting_iff rules =
      not-any_iff (λ rule. is_empty rule.assertions) (λ rule. is_empty_iff rule.assertions) rules

  pub given_iff :
      (request : PolicyImportRequest num)
      → (not (is_blank (trim request.key) || is_empty request.rules || is_empty request.sources)
          ≡ true)
        ↔ ¬ (((trim request.key ≡ "") ⊎ (request.rules ≡ [])) ⊎ (request.sources ≡ []))
  given_iff request = not_iff _ (
      or_iff _ _ (or_iff _ _ (is_blank_iff (trim request.key)) (is_empty_iff request.rules))
        (is_empty_iff request.sources))

  validate-ok :
      (document : PolicyDocument num)
      → validate_policy_document document ≡ ok tt
      → (document.rules ≢ []) × All (λ rule. rule.assertions ≢ []) document.rules
  unfolding validate_policy_document
  validate-ok document h =
      let (_, h1) = ensure-ok (not (is_blank (trim document.key))) _ _ tt h in
      let (some', h2) = ensure-ok (not (is_empty document.rules)) _ _ tt h1 in
      (
        (not_iff _ (is_empty_iff document.rules)).0 some',
        (asserting_iff document.rules).0 (ensure_holds _ _ h2),
      )

  missing_rule-ok : (o : Option (CompiledRule num)) → missing_rule o ≡ ok tt → o ≡ none
  unfolding missing_rule
  missing_rule-ok none h = refl
  missing_rule-ok (some rule) h = cc

  check_keys-ok :
      (rules : List (CompiledRule num)) (obligations : List (Obligation num))
      → check_keys rules obligations ≡ ok tt
      → Unique (keys obligations)
        × All (λ rule. Any (λ o. o.key ≡ rule.obligation_key) obligations) rules
  unfolding check_keys
  check_keys-ok rules obligations h =
      let ks = keys obligations in
      let (size, h1) = ensure-ok (length (key_set ks) == length obligations) _ _ tt h in
      let sized = (==_iff (length (key_set ks)) (length obligations)).0 size in
      (
        (length-key_set-Unique ks).0 (sized ∙ sym (length-map (λ o. o.key) obligations)),
        All-map found rules (find-none missing rules (missing_rule-ok _ h1)),
      )
    where
      missing : CompiledRule num → Bool
      missing rule = not (any (λ k. str_eq k rule.obligation_key) (key_set (keys obligations)))

      found :
          (rule : CompiledRule num)
          → missing rule ≡ false
          → Any (λ o. o.key ≡ rule.obligation_key) obligations
      found rule h =
          Any-of_map (λ k. k ≡ rule.obligation_key) (λ o. o.key) obligations
            ((In-key_set rule.obligation_key (keys obligations)).0
              ((member_iff rule.obligation_key (key_set (keys obligations))).0 (not-eq_false _ h)))

  compile-ok :
      (now : OffsetDateTime) (id : PolicyPackId) (org : OrganizationId)
      (document : PolicyDocument num) (sha : String) (pack : PolicyPack num)
      → compile_policy_document now id org document sha ≡ ok pack
      → (validate_policy_document document ≡ ok tt)
        × (pack.rules ≡ document.rules)
        × (pack.status ≡ document.status)
        × (pack.content_sha256 ≡ sha)
        × (document.status ≡ draft → pack.published_at ≡ none)
  unfolding compile_policy_document ReviewStatus-discrete
  compile-ok now id org document sha pack h =
      let (_, v, e) = bind-ok (validate_policy_document document) _ pack h in
      let p = sym (ok_inj e) in
      (
        v,
        ap (λ q. q.rules) p,
        ap (λ q. q.status) p,
        ap (λ q. q.content_sha256) p,
        λ d. ap (λ q. q.published_at) p ∙ rw d refl,
      )

module _ {num : Numbers} {Bytes : Type 0} (to_vec : PolicyImportRequest num → Result String Bytes)
    (digest : Bytes → String) (fresh : ℕ → ℕ) (now : OffsetDateTime) (org : OrganizationId) where
  -- A bundle that is built is a draft of the requested rules, unpublished, each rule asserting
  -- something; every source and obligation of the request is filed in order, with a valid digest in
  -- lower case and a review where reviewer and time were supplied; no obligation key comes twice, and
  -- every rule refers to an obligation of the bundle.
  pub build_policy_bundle-IsBundle :
      (request : PolicyImportRequest num) (bundle : PolicyBundle num)
      → build_policy_bundle to_vec digest fresh now org request ≡ ok bundle
      → IsBundle org request bundle
  unfolding build_policy_bundle
  build_policy_bundle-IsBundle request bundle h =
      let (given, h1) =
        ensure-ok
          (not (is_blank (trim request.key) || is_empty request.rules || is_empty request.sources))
          _ _ bundle h in
      let (bytes, _, h2) = bind-ok (canonical_of (to_vec request)) _ bundle h1 in
      let (pack, p, h3) =
        bind-ok (compile_policy_document now (fresh 0) org (draft_document request) (digest bytes))
          _ bundle h2 in
      let (imported, i, h4) = bind-ok (import_sources fresh org 1 request.sources) _ bundle h3 in
      let (_, k, e) = bind-ok (check_keys request.rules imported.1) _ bundle h4 in
      let (v, rules, status, _, published) =
        compile-ok now (fresh 0) org (draft_document request) (digest bytes) pack p in
      let (some', asserting) = validate-ok (draft_document request) v in
      let (unique, referenced) = check_keys-ok request.rules imported.1 k in
      let filled = (given_iff request).0 given in
      subst (IsBundle org request) (ok_inj e) (record {
        named = λ x. filled (inl (inl x));
        unpublished = (status, published refl);
        ruled = (rules, some');
        asserting = asserting;
        filed =
            ((λ x. filled (inr x)), import_sources-Files fresh org 1 request.sources imported i);
        unique = unique;
        referenced = referenced;
      })
