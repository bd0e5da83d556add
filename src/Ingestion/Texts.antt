-- ===== src/Ingestion/Texts.antt =====
-- The texts that a chunk is made of: their lengths, and a text in pieces.
use Prim.Native.String.{◌∷◌ as char_cons, [] as nil, ◌++◌ as str_append}
use text.Mathlib.TextLemmas.{nil-append, cons-append}
use featherlane_ai.Prelude.{
  ℕ, zero, suc, ◌+◌, ◌-◌, ◌≤◌, ◌<◌, ◌≡◌, refl, ap, ◌∙◌, String, arith, All, List, [], ◌∷◌, inl, inr,
  Bool-cases,
}
use featherlane_ai.Text.{char_count, decimal, is_blank}
use featherlane_ai.Text.Digits.{char_count-decimal}
use featherlane_ai.Ingestion.{labeled, take_chars, drop_chars, pieces}

pub char_count-append : (s t : String) → char_count (str_append s t) ≡ char_count s + char_count t
unfolding char_count
char_count-append nil t = omega (arith, ap char_count (nil-append t))
char_count-append (char_cons c s) t =
    omega (arith, char_count-append s t, ap char_count (cons-append c s t))

-- The label takes at most 57 characters, for an ordinal of 32 bits.
pub char_count-labeled :
    (ordinal : ℕ) (text : String)
    → ordinal < 4294967296
    → char_count (labeled ordinal text) ≤ 57 + char_count text
unfolding labeled char_count
char_count-labeled ordinal text h =
    let end' : String = "\n</source-segment>\n" in
    let a = char_count-append text end' in
    let b = char_count-append "\">\n" (str_append text end') in
    let c = char_count-append (decimal ordinal) (str_append "\">\n" (str_append text end')) in
    let d =
      char_count-append "<source-segment ordinal=\""
        (str_append (decimal ordinal) (str_append "\">\n" (str_append text end'))) in
    omega (arith, a, b, c, d, char_count-decimal ordinal 9 (omega (arith, h)))

char_count-take_chars : (n : ℕ) (s : String) → char_count (take_chars n s) ≤ n
unfolding take_chars char_count
char_count-take_chars zero s = omega arith
char_count-take_chars (suc n) nil = omega arith
char_count-take_chars (suc n) (char_cons c s) = omega (arith, char_count-take_chars n s)

-- No piece is longer than it may be.
pub pieces-le : (fuel n : ℕ) (s : String) → All (λ p. char_count p ≤ n) (pieces fuel n s)
unfolding pieces
pieces-le zero n s = tt
pieces-le (suc fuel) n s = elim (Bool-cases (is_blank s)) [
  | inl end' ↦ rw end' tt
  | inr more ↦ rw more (char_count-take_chars n s, pieces-le fuel n (drop_chars n s))
]

abbrev pub joined : List String → String
joined [] = nil
joined (p ∷ ps) = str_append p (joined ps)

take_chars-drop_chars : (n : ℕ) (s : String) → str_append (take_chars n s) (drop_chars n s) ≡ s
unfolding take_chars drop_chars
take_chars-drop_chars zero s = nil-append s
take_chars-drop_chars (suc n) nil = nil-append nil
take_chars-drop_chars (suc n) (char_cons c s) =
    cons-append c (take_chars n s) (drop_chars n s) ∙ ap (char_cons c) (take_chars-drop_chars n s)

char_count-drop_chars : (n : ℕ) (s : String) → char_count (drop_chars n s) ≡ char_count s - n
unfolding drop_chars char_count
char_count-drop_chars zero s = omega arith
char_count-drop_chars (suc n) nil = omega arith
char_count-drop_chars (suc n) (char_cons c s) = omega (arith, char_count-drop_chars n s)

-- The pieces of a text, put together, are the text, when a piece has room for a character and there
-- is a round for each character.
pub joined-pieces :
    (fuel n : ℕ) (s : String) → 0 < n → char_count s ≤ fuel → joined (pieces fuel n s) ≡ s
unfolding pieces char_count
joined-pieces zero n nil h enough = refl
joined-pieces (suc fuel) n nil h enough = refl
joined-pieces zero n (char_cons c s) h enough = absurd (omega (arith, enough))
joined-pieces (suc fuel) n (char_cons c s) h enough =
    let t : String = char_cons c s in
    ap (str_append (take_chars n t)) (
      joined-pieces fuel n (drop_chars n t) h (omega (arith, h, enough, char_count-drop_chars n t)))
    ∙ take_chars-drop_chars n t
