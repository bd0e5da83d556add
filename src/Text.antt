-- ===== src/Text.antt =====
-- The operations of Rust's `str` that the program calls, by code point.
pub mod Digits
use Prim.Native.Nat.{Ordering}
use Prim.Native.Char.{Char, char, code, IsScalar}
use Prim.Native.String.{◌∷◌, [] as nil, ◌++◌ as str_append, compare}
use mathlib.Core.Logic.{dite}
use native.Mathlib.Decide.{dec_le}
use featherlane_ai.Prelude.{
  ℕ, zero, suc, ◌+◌, ◌-◌, ◌/◌, ◌%◌, ◌≤◌, ◌≡◌, refl, ap, ◌↔◌, Bool, true, false, ◌&&◌, ◌||◌, Option,
  none, some, List, [], ◌∷◌ as list_cons, arith, leb, ◌==◌, if◌then◌else◌, String,
}

-- `char::is_whitespace`: the Unicode property White_Space.
abbrev is_whitespace_code : ℕ → Bool
is_whitespace_code n =
    (leb 9 n && leb n 13)
    || n == 32
    || n == 0x85
    || n == 0xA0
    || n == 0x1680
    || (leb 0x2000 n && leb n 0x200A)
    || n == 0x2028
    || n == 0x2029
    || n == 0x202F
    || n == 0x205F
    || n == 0x3000

unfoldable pub is_whitespace : Char → Bool
is_whitespace c = is_whitespace_code (code c)

-- `char::is_control`: the Unicode category Cc.
unfoldable pub is_control : Char → Bool
is_control c = leb (code c) 31 || (leb 127 (code c) && leb (code c) 159)

abbrev pub is_digit : ℕ → Bool
is_digit n = leb b'0' n && leb n b'9'

abbrev pub is_lower : ℕ → Bool
is_lower n = leb b'a' n && leb n b'z'

abbrev pub is_upper : ℕ → Bool
is_upper n = leb b'A' n && leb n b'Z'

-- `is_ascii_hexdigit`.
abbrev pub is_hex : ℕ → Bool
is_hex n = is_digit n || (leb b'a' n && leb n b'f') || (leb b'A' n && leb n b'F')

abbrev pub is_blank : String → Bool
is_blank nil = true
is_blank (c ∷ s) = false

pub is_blank_iff : (s : String) → (is_blank s ≡ true) ↔ (s ≡ "")
is_blank_iff nil = ((λ _. refl), λ _. refl)
is_blank_iff (c ∷ s) = ((λ h. cc), λ h. cc (ap is_blank h))

-- `str::len`: the bytes of the UTF-8 encoding.
abbrev utf8_width : ℕ → ℕ
utf8_width n = if leb n 0x7F then 1 else if leb n 0x7FF then 2 else if leb n 0xFFFF then 3 else 4

unfoldable pub byte_length : String → ℕ
byte_length nil = 0
byte_length (c ∷ s) = utf8_width (code c) + byte_length s

-- `chars().count()`.
unfoldable pub char_count : String → ℕ
char_count nil = 0
char_count (c ∷ s) = suc (char_count s)

unfoldable pub all_chars : (Char → Bool) → String → Bool
all_chars p nil = true
all_chars p (c ∷ s) = p c && all_chars p s

trim_start : String → String
trim_start nil = nil
trim_start (c ∷ s) = let rest = trim_start s in if is_whitespace c then rest else c ∷ s

trim_end : String → String
trim_end nil = nil
trim_end (c ∷ s) =
    let rest = trim_end s in if is_blank rest && is_whitespace c then nil else c ∷ rest

unfoldable pub trim : String → String
unfolding trim_start trim_end is_whitespace
trim s = trim_end (trim_start s)

-- `strip_prefix`: what is left of the second text behind the first.
unfoldable pub strip_prefix : String → String → Option String
strip_prefix nil s = some s
strip_prefix (p ∷ ps) nil = none
strip_prefix (p ∷ ps) (c ∷ s) =
    let rest = strip_prefix ps s in if code p == code c then rest else none

-- `split_once` at the first occurrence of an ASCII character.
abbrev cons_left : Char → Option (String × String) → Option (String × String)
cons_left c none = none
cons_left c (some (l, r)) = some (c ∷ l, r)

unfoldable pub split_once : ℕ → String → Option (String × String)
split_once at nil = none
split_once at (c ∷ s) =
    let rest = split_once at s in if code c == at then some (nil, s) else cons_left c rest

-- `split` at every occurrence: always at least one part.
abbrev cons_head : Char → List String → List String
cons_head c [] = list_cons (c ∷ nil) []
cons_head c (list_cons p ps) = list_cons (c ∷ p) ps

unfoldable pub split : ℕ → String → List String
split at nil = list_cons nil []
split at (c ∷ s) =
    let rest = split at s in if code c == at then list_cons nil rest else cons_head c rest

-- `contains`, of a text in a text.
unfoldable pub contains : String → String → Bool
unfolding strip_prefix
contains nil part = is_blank part
contains (c ∷ s) part =
    let rest = contains s part in elim (strip_prefix part (c ∷ s)) [ some r ↦ true | none ↦ rest ]

pub IsScalar-of_small : (n : ℕ) → n ≤ 127 → IsScalar n
IsScalar-of_small n h = ground arith

lower_char : Char → Char
unfolding dec_le
lower_char c =
    dite (dec_le (code c) 90)
      (λ h.
        if leb 65 (code c)
        then char (code c + 32) (IsScalar-of_small (code c + 32) (omega arith))
        else c)
      (λ _. c)

upper_char : Char → Char
unfolding dec_le
upper_char c =
    dite (dec_le (code c) 122)
      (λ h.
        if leb 97 (code c)
        then char (code c - 32) (IsScalar-of_small (code c - 32) (omega arith))
        else c)
      (λ _. c)

unfoldable pub to_ascii_lowercase : String → String
unfolding lower_char
to_ascii_lowercase nil = nil
to_ascii_lowercase (c ∷ s) = lower_char c ∷ to_ascii_lowercase s

unfoldable pub to_ascii_uppercase : String → String
unfolding upper_char
to_ascii_uppercase nil = nil
to_ascii_uppercase (c ∷ s) = upper_char c ∷ to_ascii_uppercase s

-- The order of `str`: by bytes, which is the order by code points.
abbrev pub str_lt : String → String → Bool
str_lt a b = elim (compare a b) [ Ordering.lt ↦ true | _ ↦ false ]

-- `join` of a list of texts.
unfoldable pub join : String → List String → String
join sep [] = nil
join sep (list_cons s []) = s
join sep (list_cons s (list_cons t ts)) = str_append s (str_append sep (join sep (list_cons t ts)))

digit : ℕ → Char
digit d = char (48 + d % 10) (IsScalar-of_small (48 + d % 10) (omega arith))

-- The digits of a number before a text; `n + 1` rounds are more than it has digits.
digits_from : ℕ → ℕ → String → String
digits_from zero n acc = acc
digits_from (suc f) n acc =
    let longer = digit (n % 10) ∷ acc in
    let rest = digits_from f (n / 10) longer in if n / 10 == 0 then longer else rest

-- `{}` of an unsigned integer.
unfoldable pub decimal : ℕ → String
unfolding digits_from digit
decimal n = digits_from (suc n) n nil

texts : Unit {0}
unfolding trim split split_once contains to_ascii_lowercase to_ascii_uppercase strip_prefix
    all_chars is_whitespace join decimal
texts = tt

texts_tests :
    (trim " a b " ≡ "a b")
    × (split b'.' "a..b" ≡ list_cons "a" (list_cons "" (list_cons "b" [])))
    × (split_once b'=' "k=v=w" ≡ some ("k", "v=w"))
    × (split_once b'=' "k" ≡ none)
    × (contains "x-api_key-y" "api_key" ≡ true)
    × (contains "x" "api_key" ≡ false)
    × (to_ascii_lowercase "Ab-Z9" ≡ "ab-z9")
    × (to_ascii_uppercase "tool" ≡ "TOOL")
    × (strip_prefix "attribute:" "attribute:x" ≡ some "x")
    × (strip_prefix "ab" "ac" ≡ none)
    × (join ", " (list_cons "a" (list_cons "b" [])) ≡ "a, b")
    × (decimal 0 ≡ "0")
    × (decimal 1042 ≡ "1042")
unfolding texts
texts_tests = (refl, refl, refl, refl, refl, refl, refl, refl, refl, refl, refl, refl, refl)
