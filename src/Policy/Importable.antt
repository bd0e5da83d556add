-- ===== src/Policy/Importable.antt =====
-- Which requests `build_policy_bundle` accepts.
use featherlane_ai.Prelude.{
  ℕ, suc, ◌+◌, ◌≡◌, refl, ap, sym, subst, ◌∙◌, ◌≢◌, ◌⊎◌, inl, inr, Bool, true, false, not, Option,
  none, some, List, [], ◌∷◌, ◌++◌, map, String, str_eq, All, All-map, In, any, is_empty_iff, length,
  length-map, ==_iff, none-find, not_iff, Result, ok, ok-bind, ok-ensure,
}
use featherlane_ai.Text.{trim, is_blank_iff}
use featherlane_ai.Json.{Numbers}
use featherlane_ai.Domain.Ids.{OrganizationId, SourceId, OffsetDateTime}
use featherlane_ai.Domain.Events.{ReviewerApproval, Source, Obligation, CompiledRule, PolicyBundle}
use featherlane_ai.Policy.{
  ObligationImport, PolicySourceImport, PolicyImportRequest, valid_sha256, review_of, key_set,
  validate_policy_document, compile_policy_document, import_obligation, import_obligations,
  import_sources, check_keys, missing_rule, draft_document, canonical_of, build_policy_bundle,
}
use featherlane_ai.Policy.Keys.{Unique, member_iff, In-key_set, length-key_set-Unique}
use featherlane_ai.Policy.Bundle.{Zip, empty, both, Imports, Files, done, file, keys}
use featherlane_ai.Policy.Building.{import_sources-Files, asserting_iff, given_iff}

-- Reviewer and time are given together or not at all.
abbrev pub IsPaired : Option String → Option OffsetDateTime → Type 0
IsPaired reviewer time =
    ((reviewer ≡ none) × (time ≡ none))
    ⊎ ((r : String) × (t : OffsetDateTime) × (reviewer ≡ some r) × (time ≡ some t))

review_of_paired :
    (r : Option String) (t : Option OffsetDateTime)
    → IsPaired r t
    → (o : Option ReviewerApproval) × (review_of r t ≡ ok o)
unfolding review_of
review_of_paired r t (inl (e, d)) = rw (e, d) (_, refl)
review_of_paired r t (inr (_, _, e, d)) = rw (e, d) (_, refl)

module _ {num : Numbers} where
  abbrev pub IsImportableObligation : ObligationImport num → Type 0
  IsImportableObligation o =
      (valid_sha256 o.locator.excerpt_sha256 ≡ true) × IsPaired o.reviewer_id o.reviewed_at

  abbrev pub IsImportableSource : PolicySourceImport num → Type 0
  IsImportableSource s =
      (valid_sha256 s.content_sha256 ≡ true) × All IsImportableObligation s.obligations

  -- The keys of all obligations, source by source.
  abbrev pub imported_keys : List (PolicySourceImport num) → List String
  imported_keys [] = []
  imported_keys (s ∷ ss) = map (λ o. o.key) s.obligations ++ imported_keys ss

  pub record IsImportable (request : PolicyImportRequest num) : Type 0 where
    pub named : trim request.key ≢ ""
    pub ruled : request.rules ≢ []
    pub sourced : request.sources ≢ []
    pub asserting : All (λ rule. rule.assertions ≢ []) request.rules
    pub importable : All IsImportableSource request.sources
    pub unique : Unique (imported_keys request.sources)
    pub referenced :
        All (λ rule. In rule.obligation_key (imported_keys request.sources)) request.rules

  map-append : (xs ys : List (Obligation num)) → keys (xs ++ ys) ≡ keys xs ++ keys ys
  map-append [] ys = refl
  map-append (x ∷ xs) ys = ap (λ zs. x.key ∷ zs) (map-append xs ys)

  Zip-keys :
      {org : OrganizationId} {source : SourceId} {os : List (ObligationImport num)}
      {bs : List (Obligation num)}
      → Zip (Imports org source) os bs
      → keys bs ≡ map (λ o. o.key) os
  Zip-keys empty = refl
  Zip-keys (both {a = o} {b = b} r z) = rw (r.key, Zip-keys z) refl

  -- Filing loses no key and adds none.
  Files-keys :
      {org : OrganizationId} {ss : List (PolicySourceImport num)} {sources : List Source}
      {obligations : List (Obligation num)}
      → Files org ss sources obligations
      → keys obligations ≡ imported_keys ss
  Files-keys done = refl
  Files-keys (file {obligations = obligations} {more = more} s z f) =
      map-append obligations more ∙ rw (Zip-keys z, Files-keys f) refl

module _ {num : Numbers} (fresh : ℕ → ℕ) (org : OrganizationId) where
  import_obligation_total :
      (source : SourceId) (n : ℕ) (o : ObligationImport num)
      → IsImportableObligation o
      → (b : Obligation num) × (import_obligation fresh org source n o ≡ ok b)
  unfolding import_obligation
  import_obligation_total source n o (hashed, paired) =
      let (review, e) = review_of_paired o.reviewer_id o.reviewed_at paired in
      (_, ok-ensure _ hashed (ok-bind _ e refl))

  import_obligations_total :
      (source : SourceId) (n : ℕ) (os : List (ObligationImport num))
      → All IsImportableObligation os
      → (bs : List (Obligation num)) × (import_obligations fresh org source n os ≡ ok bs)
  unfolding import_obligations
  import_obligations_total source n [] h = (_, refl)
  import_obligations_total source n (o ∷ os) (h, hs) =
      let (b, e) = import_obligation_total source n o h in
      let (bs, d) = import_obligations_total source (suc n) os hs in
      (_, ok-bind _ e (ok-bind _ d refl))

  import_sources_total :
      (n : ℕ) (ss : List (PolicySourceImport num))
      → All IsImportableSource ss
      → (out : List Source × List (Obligation num)) × (import_sources fresh org n ss ≡ ok out)
  unfolding import_sources
  import_sources_total n [] h = (_, refl)
  import_sources_total n (s ∷ ss) ((hashed, os), hs) =
      let (bs, e) = import_obligations_total (fresh n) (suc n) s.obligations os in
      let (rest, d) = import_sources_total (suc (length bs + n)) ss hs in
      (_, ok-ensure _ hashed (ok-bind _ e (ok-bind _ d refl)))

module _ {num : Numbers} where
  validate_total :
      (request : PolicyImportRequest num)
      → IsImportable request
      → validate_policy_document (draft_document request) ≡ ok tt
  unfolding validate_policy_document
  validate_total request h = ok-ensure _ ((not_iff _ (is_blank_iff (trim request.key))).1 h.named) (
      ok-ensure _ ((not_iff _ (is_empty_iff request.rules)).1 h.ruled)
        (rw ((asserting_iff request.rules).1 h.asserting) refl))

  check_keys_total :
      (rules : List (CompiledRule num)) (obligations : List (Obligation num)) (ks : List String)
      → keys obligations ≡ ks
      → Unique ks
      → All (λ rule. In rule.obligation_key ks) rules
      → check_keys rules obligations ≡ ok tt
  unfolding check_keys missing_rule
  check_keys_total rules obligations ks e unique referenced =
      let size = (length-key_set-Unique ks).1 unique in
      ok-ensure _
        ((==_iff (length (key_set (keys obligations))) (length obligations)).1 (
          ap (λ x. length (key_set x)) e
          ∙ size
          ∙ ap length (sym e)
          ∙ length-map (λ o. o.key) obligations))
        (ap missing_rule (none-find missing rules (All-map present rules referenced)))
    where
      missing : CompiledRule num → Bool
      missing rule = not (any (λ k. str_eq k rule.obligation_key) (key_set (keys obligations)))

      present : (rule : CompiledRule num) → In rule.obligation_key ks → missing rule ≡ false
      present rule m =
          rw
            ((member_iff rule.obligation_key (key_set (keys obligations))).1 (
              (In-key_set rule.obligation_key (keys obligations)).1
                (subst (In rule.obligation_key) (sym e) m)))
            refl

module _ {num : Numbers} {Bytes : Type 0} (to_vec : PolicyImportRequest num → Result String Bytes)
    (digest : Bytes → String) (fresh : ℕ → ℕ) (now : OffsetDateTime) (org : OrganizationId) where
  -- A request that serializes is accepted when its key is not blank, it has rules and sources, every
  -- rule asserts something, every digest is valid, reviewer and time come together, no obligation key
  -- comes twice, and every rule refers to an obligation of the request.
  pub IsImportable-build_policy_bundle :
      (request : PolicyImportRequest num) (bytes : Bytes)
      → to_vec request ≡ ok bytes
      → IsImportable request
      → (bundle : PolicyBundle num) × (build_policy_bundle to_vec digest fresh now org request
          ≡ ok bundle)
  unfolding build_policy_bundle compile_policy_document
  IsImportable-build_policy_bundle request bytes e h =
      let (imported, i) = import_sources_total fresh org 1 request.sources h.importable in
      let filed = Files-keys (import_sources-Files fresh org 1 request.sources imported i) in
      (
        _,
        ok-ensure _ ((given_iff request).1 blanks) (
            ok-bind _ (ap canonical_of e) (
              ok-bind _ (ok-bind _ (validate_total request h) refl) (
                ok-bind _ i (
                  ok-bind _
                    (check_keys_total request.rules imported.1 (imported_keys request.sources) filed
                      h.unique h.referenced)
                    refl)))),
      )
    where
      blanks : ¬ (((trim request.key ≡ "") ⊎ (request.rules ≡ [])) ⊎ (request.sources ≡ []))
      blanks (inl (inl x)) = h.named x
      blanks (inl (inr x)) = h.ruled x
      blanks (inr x) = h.sourced x
