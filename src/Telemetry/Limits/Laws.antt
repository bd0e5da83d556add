-- ===== src/Telemetry/Limits/Laws.antt =====
-- Which spans `validate_span` accepts, and with which error it refuses the others.
use Prim.Native.Char.{code}
use featherlane_ai.Prelude.{
  ℕ, suc, ◌+◌, ◌≤◌, ◌<◌, ◌≡◌, refl, ◌↔◌, Bool, true, false, not, ◌||◌, Option, none, some, List, [],
  ◌∷◌, ◌++◌, String, All, any, is_some_and, Given, ltb, arith, ◌==◌, ==_iff, length, iff_trans,
  Result, ok, err, ensure, ◌>>◌, not-eq_true, not_intro,
}
use featherlane_ai.Text.{all_chars, byte_length, is_hex}
use featherlane_ai.Json.{
  Numbers, Value, null, bool, number, string, array, object, Items, nil, cons, Fields, end, field,
}
use featherlane_ai.Telemetry.{TraceSpan, SpanLink}
use featherlane_ai.Telemetry.Limits.{
  TelemetryLimits, TelemetryError, invalid_trace_id, invalid_span_id, invalid_correlation_id,
  limit_exceeded, item_count, field_count, value_exceeds_limits, items_exceed, fields_exceed,
  is_bad_id, is_bad_link, has_bad_ids, has_long_text, attribute_count, validate_span,
}

-- A disjunction of tests fails exactly when both fail.
nor_iff :
    (a b : Bool) {P Q : Type 0}
    → (not a ≡ true) ↔ P
    → (not b ≡ true) ↔ Q
    → (not (a || b) ≡ true) ↔ (P × Q)
nor_iff true b e f = ((λ h. cc), λ h. e.1 h.0)
nor_iff false b e f = ((λ h. (e.0 refl, f.0 h)), λ h. f.1 h.1)

not-not_iff : (b : Bool) → (not (not b) ≡ true) ↔ (b ≡ true)
not-not_iff true = ((λ h. h), λ h. h)
not-not_iff false = ((λ h. h), λ h. h)

at_most : (a b : ℕ) → (not (ltb a b) ≡ true) ↔ (b ≤ a)
at_most a b = ground arith

module _ {num : Numbers} (limit : ℕ) where
  -- At most 8 levels deep, with at most 128 members at each, and texts and keys within the limit.
  unfoldable mutual
    pub Fits : ℕ → Value num → Type 0
    Fits depth (string s) = (depth ≤ 8) × (byte_length s ≤ limit)
    Fits depth (array xs) = (depth ≤ 8) × ((item_count xs ≤ 128) × ItemsFit (suc depth) xs)
    Fits depth (object fs) = (depth ≤ 8) × ((field_count fs ≤ 128) × FieldsFit (suc depth) fs)
    Fits depth _ = depth ≤ 8

    pub ItemsFit : ℕ → Items num → Type 0
    ItemsFit depth nil = Unit
    ItemsFit depth (cons x xs) = Fits depth x × ItemsFit depth xs

    pub FieldsFit : ℕ → Fields num → Type 0
    FieldsFit depth end = Unit
    FieldsFit depth (field k v fs) = ((byte_length k ≤ limit) × Fits depth v) × FieldsFit depth fs

  mutual
    unfolding value_exceeds_limits Fits

    Fits-iff :
        (depth : ℕ) (v : Value num)
        → (not (value_exceeds_limits limit depth v) ≡ true) ↔ Fits depth v
    Fits-iff depth (string s) = nor_iff _ _ (at_most 8 depth) (at_most limit (byte_length s))
    Fits-iff depth (array xs) =
        nor_iff _ _ (at_most 8 depth)
          (nor_iff _ _ (at_most 128 (item_count xs)) (ItemsFit-iff (suc depth) xs))
    Fits-iff depth (object fs) =
        nor_iff _ _ (at_most 8 depth)
          (nor_iff _ _ (at_most 128 (field_count fs)) (FieldsFit-iff (suc depth) fs))
    Fits-iff depth null = at_most 8 depth
    Fits-iff depth (bool b) = at_most 8 depth
    Fits-iff depth (number n) = at_most 8 depth

    ItemsFit-iff :
        (depth : ℕ) (xs : Items num)
        → (not (items_exceed limit depth xs) ≡ true) ↔ ItemsFit depth xs
    ItemsFit-iff depth nil = ((λ _. tt), λ _. refl)
    ItemsFit-iff depth (cons x xs) = nor_iff _ _ (Fits-iff depth x) (ItemsFit-iff depth xs)

    FieldsFit-iff :
        (depth : ℕ) (fs : Fields num)
        → (not (fields_exceed limit depth fs) ≡ true) ↔ FieldsFit depth fs
    FieldsFit-iff depth end = ((λ _. tt), λ _. refl)
    FieldsFit-iff depth (field k v fs) =
        nor_iff _ _ (nor_iff _ _ (at_most limit (byte_length k)) (Fits-iff depth v))
          (FieldsFit-iff depth fs)

-- Hexadecimal digits, that many, and not all zero.
abbrev pub IsId : ℕ → String → Type 0
IsId size id =
    (byte_length id ≡ size)
    × ((all_chars (λ c. is_hex (code c)) id ≡ true) × (all_chars (λ c. code c == 48) id ≡ false))

IsId-iff : (size : ℕ) (id : String) → (not (is_bad_id size id) ≡ true) ↔ IsId size id
unfolding is_bad_id
IsId-iff size id =
    nor_iff _ _ (iff_trans (not-not_iff _) (==_iff (byte_length id) size))
      (nor_iff _ _ (not-not_iff _) (not-eq_true _, not_intro _))

IsId-parent : (o : Option String) → (not (is_some_and o (is_bad_id 16)) ≡ true) ↔ Given o (IsId 16)
IsId-parent none = ((λ _. tt), λ _. refl)
IsId-parent (some id) = IsId-iff 16 id

link_iff :
    (link : SpanLink)
    → (not (is_bad_link link) ≡ true) ↔ (IsId 32 link.trace_id × IsId 16 link.span_id)
unfolding is_bad_link
link_iff link = nor_iff _ _ (IsId-iff 32 link.trace_id) (IsId-iff 16 link.span_id)

-- No element passes the test, as a condition on each.
none_iff :
    {A : Type 0} (p : A → Bool) (P : A → Type 0)
    → ((a : A) → (not (p a) ≡ true) ↔ P a)
    → (xs : List A) → (not (any p xs) ≡ true) ↔ All P xs
none_iff p P e [] = ((λ _. tt), λ _. refl)
none_iff p P e (x ∷ xs) = nor_iff (p x) (any p xs) (e x) (none_iff p P e xs)

module _ {num : Numbers} (limits : TelemetryLimits) where
  -- The span's identifiers, and those that it refers to.
  abbrev pub HasIds : TraceSpan num → Type 0
  HasIds span =
      IsId 16 span.span_id
      × (Given span.parent_span_id (IsId 16)
          × All (λ link. IsId 32 link.trace_id × IsId 16 link.span_id) span.links)

  abbrev pub IsShort : TraceSpan num → Type 0
  IsShort span =
      (byte_length span.name ≤ limits.max_string_bytes)
      × All
          (λ kv. (byte_length kv.0 ≤ limits.max_string_bytes) × Fits limits.max_string_bytes 0 kv.1)
          (span.attributes ++ span.resource_attributes)

  abbrev pub IsSmall : TraceSpan num → Type 0
  IsSmall span =
      length span.attributes + length span.resource_attributes ≤ limits.max_attributes_per_span

  -- What each outcome says of the span.
  abbrev pub Validates : TraceSpan num → Result TelemetryError (Unit {0}) → Type 0
  Validates span (ok _) = IsId 32 span.trace_id × HasIds span × IsSmall span × IsShort span
  Validates span (err invalid_trace_id) = ¬ IsId 32 span.trace_id
  Validates span (err invalid_span_id) = IsId 32 span.trace_id × ¬ HasIds span
  Validates span (err (limit_exceeded text)) =
      IsId 32 span.trace_id × HasIds span × ¬ (IsSmall span × IsShort span)
  Validates span (err (invalid_correlation_id text)) = ⊥

  ids_iff : (span : TraceSpan num) → (not (has_bad_ids limits span) ≡ true) ↔ HasIds span
  unfolding has_bad_ids
  ids_iff span =
      nor_iff _ _ (IsId-iff 16 span.span_id)
        (nor_iff _ _ (IsId-parent span.parent_span_id) (none_iff is_bad_link _ link_iff span.links))

  IsShort-iff : (span : TraceSpan num) → (not (has_long_text limits span) ≡ true) ↔ IsShort span
  unfolding has_long_text
  IsShort-iff span = nor_iff _ _ (at_most limits.max_string_bytes (byte_length span.name)) (
      none_iff _ _
        (λ kv.
          nor_iff _ _ (at_most limits.max_string_bytes (byte_length kv.0))
            (Fits-iff limits.max_string_bytes 0 kv.1))
        (span.attributes ++ span.resource_attributes))

  IsSmall-iff :
      (span : TraceSpan num)
      → limits.max_attributes_per_span < 18446744073709551615
      → (not (ltb limits.max_attributes_per_span (attribute_count limits span)) ≡ true)
        ↔ IsSmall span
  unfolding attribute_count
  IsSmall-iff span h =
      iff_trans (at_most limits.max_attributes_per_span (attribute_count limits span))
        ((λ k. omega (arith, k, h)), λ k. omega (arith, k, h))

  checks-Validates :
      (span : TraceSpan num) (a b c d : Bool)
      → (a ≡ true) ↔ IsId 32 span.trace_id
      → (b ≡ true) ↔ HasIds span
      → (c ≡ true) ↔ IsSmall span
      → (d ≡ true) ↔ IsShort span
      → Validates span (
          ensure a invalid_trace_id
          >> (ensure b invalid_span_id
              >> (ensure c (limit_exceeded "span attribute count exceeded")
                  >> ensure d (limit_exceeded "span string value exceeded"))))
  checks-Validates span true true true true e f g k = (e.0 refl, f.0 refl, g.0 refl, k.0 refl)
  checks-Validates span true true true false e f g k = (e.0 refl, f.0 refl, λ h. cc (k.1 h.1))
  checks-Validates span true true false d e f g k = (e.0 refl, f.0 refl, λ h. cc (g.1 h.0))
  checks-Validates span true false c d e f g k = (e.0 refl, λ h. cc (f.1 h))
  checks-Validates span false b c d e f g k = λ h. cc (e.1 h)

  -- Every outcome of `validate_span`, for a limit on attributes below the greatest `usize`. A span is
  -- accepted exactly when its identifiers and those it refers to are well formed and not zero, its
  -- attributes are not too many, and its texts and values are within the limits; the trace id is
  -- refused first, then the other identifiers, then the sizes.
  pub validate_span-Validates :
      limits.max_attributes_per_span < 18446744073709551615
      → (span : TraceSpan num) → Validates span (validate_span limits span)
  unfolding validate_span
  validate_span-Validates h span =
      checks-Validates span (not (is_bad_id 32 span.trace_id)) (not (has_bad_ids limits span))
        (not (ltb limits.max_attributes_per_span (attribute_count limits span)))
        (not (has_long_text limits span)) (IsId-iff 32 span.trace_id) (ids_iff span)
        (IsSmall-iff span h) (IsShort-iff span)
