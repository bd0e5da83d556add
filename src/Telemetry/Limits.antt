-- ===== src/Telemetry/Limits.antt =====
-- crates/governance-telemetry/src/lib.rs: `TelemetryLimits` and `value_exceeds_limits`.
pub mod Laws
use Prim.Native.Char.{code}
use featherlane_ai.Prelude.{
  ℕ, suc, ◌+◌, min, Bool, false, not, ◌||◌, ◌++◌, String, any, is_some_and, ltb, ◌==◌, length,
  Result, ensure, ◌>>=◌, ◌>>◌,
}
use featherlane_ai.Text.{all_chars, byte_length, is_hex}
use featherlane_ai.Json.{
  Numbers, Value, null, bool, number, string, array, object, Items, nil, cons, Fields, end, field,
}
use featherlane_ai.Telemetry.{TraceSpan, SpanLink}

pub record TelemetryLimits : Type 0 where
  pub max_spans_per_request : ℕ
  pub max_spans_per_run : ℕ
  pub max_attributes_per_span : ℕ
  pub max_string_bytes : ℕ

abbrev pub default_limits : TelemetryLimits
default_limits = record {
  max_spans_per_request = 10000;
  max_spans_per_run = 100000;
  max_attributes_per_span = 128;
  max_string_bytes = 16384;
}

pub data TelemetryError : Type 0 where
  invalid_trace_id invalid_span_id : TelemetryError
  invalid_correlation_id limit_exceeded : String → TelemetryError

module _ {num : Numbers} where
  abbrev pub item_count : Items num → ℕ
  item_count nil = 0
  item_count (cons x xs) = suc (item_count xs)

  abbrev pub field_count : Fields num → ℕ
  field_count end = 0
  field_count (field k v fs) = suc (field_count fs)

  unfoldable mutual
    pub value_exceeds_limits : ℕ → ℕ → Value num → Bool
    value_exceeds_limits limit depth (string s) = ltb 8 depth || ltb limit (byte_length s)
    value_exceeds_limits limit depth (array xs) =
        ltb 8 depth || (ltb 128 (item_count xs) || items_exceed limit (suc depth) xs)
    value_exceeds_limits limit depth (object fs) =
        ltb 8 depth || (ltb 128 (field_count fs) || fields_exceed limit (suc depth) fs)
    value_exceeds_limits limit depth null = ltb 8 depth
    value_exceeds_limits limit depth (bool b) = ltb 8 depth
    value_exceeds_limits limit depth (number n) = ltb 8 depth

    pub items_exceed : ℕ → ℕ → Items num → Bool
    items_exceed limit depth nil = false
    items_exceed limit depth (cons x xs) =
        value_exceeds_limits limit depth x || items_exceed limit depth xs

    pub fields_exceed : ℕ → ℕ → Fields num → Bool
    fields_exceed limit depth end = false
    fields_exceed limit depth (field k v fs) =
        (ltb limit (byte_length k) || value_exceeds_limits limit depth v)
        || fields_exceed limit depth fs

-- An identifier that is not `size` hexadecimal digits, or all zeros. A byte of a character outside
-- ASCII is neither a digit nor a zero, so the characters stand for the bytes.
unfoldable pub is_bad_id : ℕ → String → Bool
is_bad_id size id =
    not (byte_length id == size)
    || (not (all_chars (λ c. is_hex (code c)) id) || all_chars (λ c. code c == 48) id)

unfoldable pub is_bad_link : SpanLink → Bool
unfolding is_bad_id
is_bad_link link = is_bad_id 32 link.trace_id || is_bad_id 16 link.span_id

module _ {num : Numbers} (limits : TelemetryLimits) where
  unfoldable pub has_bad_ids : TraceSpan num → Bool
  unfolding is_bad_id is_bad_link
  has_bad_ids span =
      is_bad_id 16 span.span_id
      || (is_some_and span.parent_span_id (is_bad_id 16) || any is_bad_link span.links)

  unfoldable pub has_long_text : TraceSpan num → Bool
  unfolding value_exceeds_limits
  has_long_text span =
      ltb limits.max_string_bytes (byte_length span.name)
      || any
          (λ kv.
            ltb limits.max_string_bytes (byte_length kv.0)
            || value_exceeds_limits limits.max_string_bytes 0 kv.1)
          (span.attributes ++ span.resource_attributes)

  -- `saturating_add` on `usize`, of 64 bits.
  unfoldable pub attribute_count : TraceSpan num → ℕ
  attribute_count span =
      min (length span.attributes + length span.resource_attributes) 18446744073709551615

  unfoldable pub validate_span : TraceSpan num → Result TelemetryError (Unit {0})
  unfolding is_bad_id has_bad_ids has_long_text attribute_count
  validate_span span = do
    ensure (not (is_bad_id 32 span.trace_id)) invalid_trace_id
    ensure (not (has_bad_ids span)) invalid_span_id
    ensure (not (ltb limits.max_attributes_per_span (attribute_count span)))
        (limit_exceeded "span attribute count exceeded")
    ensure (not (has_long_text span)) (limit_exceeded "span string value exceeded")
