-- ===== src/Telemetry/Redaction/Attributes.antt =====
-- What `redact_attributes` keeps and what it reports as removed.
use featherlane_ai.Prelude.{
  ◌≡◌, refl, ap, sym, ◌∙◌, inl, inr, false, none, List, [], ◌∷◌, ◌++◌, map, String, str_eq,
  str_eq_iff, All, keep, Bool, Bool-cases, if◌then◌else◌, ◌↔◌, not, In, any_iff, true,
}
use featherlane_ai.Json.{Numbers, Value, lookup}
use featherlane_ai.Json as Json
use featherlane_ai.Telemetry.{TraceSpan}
use featherlane_ai.Telemetry.Redaction.{
  RedactionPolicy, is_sensitive, drops, redact_attributes, redact_span,
}
use featherlane_ai.Telemetry.Redaction.Values.{IsClean, redact_nested-IsClean, redacted, if_same}

not-not-true : (b : Bool) → not b ≡ false → b ≡ true
not-not-true true e = refl
not-not-true false e = cc

module _ (policy : RedactionPolicy) where
  -- A key that is not dropped is one of the allowed ones, and not sensitive.
  abbrev pub IsAllowed : String → Type 0
  IsAllowed key =
      In key policy.allowed_attributes × (is_sensitive policy.sensitive_key_fragments key ≡ false)

  drops_iff : (key : String) → (drops policy key ≡ false) ↔ IsAllowed key
  drops_iff key =
      let allowed = any_iff (λ t. str_eq t key) (λ t. str_eq_iff t key) policy.allowed_attributes in
      elim (Bool-cases (is_sensitive policy.sensitive_key_fragments key)) [
        | inl hot ↦ rw hot ((λ e. cc), (λ a. cc))
        | inr cold ↦
            rw cold ((λ e. (allowed.0 (not-not-true _ e), refl)), (λ a. ap not (allowed.1 a.0)))
      ]

module _ {num : Numbers} (policy : RedactionPolicy) where
  -- An attribute under an allowed key that is not sensitive, clean at every depth.
  abbrev pub IsPublic : String × Value num → Type 0
  IsPublic kv = (drops policy kv.0 ≡ false) × IsClean policy.sensitive_key_fragments kv.1

  abbrev pub names : Json.Attributes num → List String
  names = map (λ kv. kv.0)

  kept-IsPublic :
      (attributes : Json.Attributes num) → All IsPublic (redact_attributes policy attributes).0
  unfolding redact_attributes
  kept-IsPublic [] = tt
  kept-IsPublic ((key, value) ∷ attributes) = elim (Bool-cases (drops policy key)) [
    | inl dropped ↦ rw dropped (kept-IsPublic attributes)
    | inr held ↦ rw held (
      (held, redact_nested-IsClean policy.sensitive_key_fragments value),
      kept-IsPublic attributes,
    )
  ]

  removed_names :
      (attributes : Json.Attributes num)
      → (redact_attributes policy attributes).1 ≡ keep (drops policy) (names attributes)
  unfolding redact_attributes
  removed_names [] = refl
  removed_names ((key, value) ∷ attributes) = elim (Bool-cases (drops policy key)) [
    | inl dropped ↦ rw dropped (ap (λ ks. key ∷ ks) (removed_names attributes))
    | inr held ↦ rw held (removed_names attributes)
  ]

  -- The attributes that are kept are allowed, not sensitive, and clean at every depth, and the keys
  -- that are returned are exactly those of the others, in order.
  pub redact_attributes-IsPublic :
      (attributes : Json.Attributes num)
      → All IsPublic (redact_attributes policy attributes).0
        × ((redact_attributes policy attributes).1 ≡ keep (drops policy) (names attributes))
  redact_attributes-IsPublic attributes = (kept-IsPublic attributes, removed_names attributes)

  -- Key by key: a key that the policy drops is gone, and every other key has the value that it had,
  -- redacted.
  pub lookup-redact_attributes :
      (key : String) (attributes : Json.Attributes num)
      → lookup key (redact_attributes policy attributes).0 ≡ (
          if drops policy key
          then none
          else redacted policy.sensitive_key_fragments (lookup key attributes))
  unfolding redact_attributes lookup
  lookup-redact_attributes key [] = sym (if_same (drops policy key))
  lookup-redact_attributes key ((j, value) ∷ attributes) = elim (Bool-cases (drops policy j)) [
    | inl dropped ↦ elim (Bool-cases (str_eq j key)) [
      | inl here ↦
          let dropped' = ap (drops policy) (sym ((str_eq_iff j key).0 here)) ∙ dropped in
          rw (dropped, here) (lookup-redact_attributes key attributes ∙ rw dropped' refl)
      | inr there ↦ rw (dropped, there) (lookup-redact_attributes key attributes)
    ]
    | inr held ↦ elim (Bool-cases (str_eq j key)) [
      | inl here ↦
          let held' = ap (drops policy) (sym ((str_eq_iff j key).0 here)) ∙ held in
          rw (held, here, held') refl
      | inr there ↦ rw (held, there) (lookup-redact_attributes key attributes)
    ]
  ]

  kept_names :
      (attributes : Json.Attributes num)
      → names (redact_attributes policy attributes).0
        ≡ keep (λ key. not (drops policy key)) (names attributes)
  unfolding redact_attributes
  kept_names [] = refl
  kept_names ((key, value) ∷ attributes) = elim (Bool-cases (drops policy key)) [
    | inl dropped ↦ rw dropped (kept_names attributes)
    | inr held ↦ rw held (ap (λ ks. key ∷ ks) (kept_names attributes))
  ]

  -- The attributes `after` redaction: no others than the public ones, under all the keys that are
  -- not dropped, in order, each with the value that it had, redacted.
  pub record Redacts (before after : Json.Attributes num) : Type 0 where
    pub public : All IsPublic after
    pub names_left : names after ≡ keep (λ key. not (drops policy key)) (names before)
    pub values_left :
        (key : String)
        → lookup key after ≡ (
            if drops policy key
            then none
            else redacted policy.sensitive_key_fragments (lookup key before))

  pub redact_attributes-Redacts :
      (attributes : Json.Attributes num)
      → Redacts attributes (redact_attributes policy attributes).0
  redact_attributes-Redacts attributes = record {
    public = kept-IsPublic attributes;
    names_left = kept_names attributes;
    values_left = λ key. lookup-redact_attributes key attributes;
  }

  -- A redacted span has public attributes alone, its own and those of its resource. A key is kept
  -- exactly when it is allowed and not sensitive: the keys that are left are those that are not
  -- dropped, in order, each with the value that it had, redacted at every depth, and the keys that
  -- are returned are the dropped ones, of the resource first. Nothing else of the span changes.
  pub redact_span-IsPublic :
      (span : TraceSpan num)
      → All IsPublic (redact_span policy span).0.attributes
        × All IsPublic (redact_span policy span).0.resource_attributes
        × Redacts span.attributes (redact_span policy span).0.attributes
        × Redacts span.resource_attributes (redact_span policy span).0.resource_attributes
        × ((key : String) → (drops policy key ≡ false) ↔ IsAllowed policy key)
        × ((redact_span policy span).1
            ≡ keep (drops policy) (names span.resource_attributes)
              ++ keep (drops policy) (names span.attributes))
        × ((redact_span policy span).0 ≡ record span {
          attributes = (redact_span policy span).0.attributes;
          resource_attributes = (redact_span policy span).0.resource_attributes;
        })
  unfolding redact_span
  redact_span-IsPublic span = (
    kept-IsPublic span.attributes,
    kept-IsPublic span.resource_attributes,
    redact_attributes-Redacts span.attributes,
    redact_attributes-Redacts span.resource_attributes,
    drops_iff policy,
    rw (removed_names span.resource_attributes, removed_names span.attributes) refl,
    refl,
  )
