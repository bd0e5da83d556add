-- ===== src/Telemetry/Redaction/Values.antt =====
-- What `redact_nested` leaves of a value.
use mathlib.Core.Path.{ap₂}
use featherlane_ai.Prelude.{
  ◌≡◌, refl, ap, inl, inr, sym, ◌∙◌, Bool, true, false, Option, none, some, List, String, str_eq,
  str_eq_iff, Bool-cases, if◌then◌else◌,
}
use featherlane_ai.Json.{
  Numbers, Value, null, bool, number, string, array, object, Items, nil, cons, Fields, end, field,
  get, lookup_field,
}
use featherlane_ai.Telemetry.Redaction.{is_sensitive, redact_nested, redact_items, redact_fields}

pub if_same : {A : Type 0} {a : A} (b : Bool) → (if b then a else a) ≡ a
if_same true = refl
if_same false = refl

module _ {num : Numbers} (fragments : List String) where
  -- No sensitive key, at any depth.
  unfoldable mutual
    pub IsClean : Value num → Type 0
    IsClean (object fs) = AreCleanFields fs
    IsClean (array xs) = AreCleanItems xs
    IsClean _ = Unit

    pub AreCleanItems : Items num → Type 0
    AreCleanItems nil = Unit
    AreCleanItems (cons x xs) = IsClean x × AreCleanItems xs

    pub AreCleanFields : Fields num → Type 0
    AreCleanFields end = Unit
    AreCleanFields (field k v fs) =
        (is_sensitive fragments k ≡ false) × IsClean v × AreCleanFields fs

  mutual
    unfolding redact_nested IsClean

    scrubbed_value : (v : Value num) → IsClean (redact_nested fragments v)
    scrubbed_value (object fs) = scrubbed_fields fs
    scrubbed_value (array xs) = scrubbed_items xs
    scrubbed_value null = tt
    scrubbed_value (bool b) = tt
    scrubbed_value (number n) = tt
    scrubbed_value (string s) = tt

    scrubbed_items : (xs : Items num) → AreCleanItems (redact_items fragments xs)
    scrubbed_items nil = tt
    scrubbed_items (cons x xs) = (scrubbed_value x, scrubbed_items xs)

    scrubbed_fields : (fs : Fields num) → AreCleanFields (redact_fields fragments fs)
    scrubbed_fields end = tt
    scrubbed_fields (field k v fs) = elim (Bool-cases (is_sensitive fragments k)) [
      | inl hot ↦ rw hot (scrubbed_fields fs)
      | inr cold ↦ rw cold (cold, scrubbed_value v, scrubbed_fields fs)
    ]

  mutual
    unfolding redact_nested IsClean

    same_value : (v : Value num) → IsClean v → redact_nested fragments v ≡ v
    same_value (object fs) h = ap object (same_fields fs h)
    same_value (array xs) h = ap array (same_items xs h)
    same_value null h = refl
    same_value (bool b) h = refl
    same_value (number n) h = refl
    same_value (string s) h = refl

    same_items : (xs : Items num) → AreCleanItems xs → redact_items fragments xs ≡ xs
    same_items nil h = refl
    same_items (cons x xs) h = ap₂ cons (same_value x h.0) (same_items xs h.1)

    same_fields : (fs : Fields num) → AreCleanFields fs → redact_fields fragments fs ≡ fs
    same_fields end h = refl
    same_fields (field k v fs) h = rw h.0 (ap₂ (field k) (same_value v h.1) (same_fields fs h.2))

  -- After redaction no object at any depth has a sensitive key.
  pub redact_nested-IsClean : (v : Value num) → IsClean (redact_nested fragments v)
  redact_nested-IsClean v = scrubbed_value v

  -- Redaction changes nothing of a value without sensitive keys, so to redact twice is to redact once.
  redact_nested_again :
      (v : Value num)
      → (IsClean v → redact_nested fragments v ≡ v)
        × (redact_nested fragments (redact_nested fragments v) ≡ redact_nested fragments v)
  redact_nested_again v = (same_value v, same_value _ (scrubbed_value v))

  abbrev pub redacted : Option (Value num) → Option (Value num)
  redacted none = none
  redacted (some v) = some (redact_nested fragments v)

  lookup_field-redact :
      (k : String) (fs : Fields num)
      → lookup_field k (redact_fields fragments fs)
        ≡ (if is_sensitive fragments k then none else redacted (lookup_field k fs))
  unfolding redact_nested lookup_field
  lookup_field-redact k end = sym (if_same (is_sensitive fragments k))
  lookup_field-redact k (field j v fs) = elim (Bool-cases (is_sensitive fragments j)) [
    | inl hot ↦ elim (Bool-cases (str_eq j k)) [
      | inl here ↦
          let hot' = ap (is_sensitive fragments) (sym ((str_eq_iff j k).0 here)) ∙ hot in
          rw (hot, here) (lookup_field-redact k fs ∙ rw hot' refl)
      | inr there ↦ rw (hot, there) (lookup_field-redact k fs)
    ]
    | inr cold ↦ elim (Bool-cases (str_eq j k)) [
      | inl here ↦
          let cold' = ap (is_sensitive fragments) (sym ((str_eq_iff j k).0 here)) ∙ cold in
          rw (cold, here, cold') refl
      | inr there ↦ rw (cold, there) (lookup_field-redact k fs)
    ]
  ]

  -- Member by member: a sensitive key finds nothing in the redacted value, and every other key finds
  -- what it found before, redacted.
  pub get-redact_nested :
      (v : Value num) (k : String)
      → get (redact_nested fragments v) k
        ≡ (if is_sensitive fragments k then none else redacted (get v k))
  unfolding redact_nested get
  get-redact_nested (object fs) k = lookup_field-redact k fs
  get-redact_nested (array xs) k = sym (if_same (is_sensitive fragments k))
  get-redact_nested null k = sym (if_same (is_sensitive fragments k))
  get-redact_nested (bool b) k = sym (if_same (is_sensitive fragments k))
  get-redact_nested (number n) k = sym (if_same (is_sensitive fragments k))
  get-redact_nested (string s) k = sym (if_same (is_sensitive fragments k))
