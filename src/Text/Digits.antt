-- ===== src/Text/Digits.antt =====
-- How long the decimal digits of a number are.
use Prim.Native.String.{◌∷◌ as char_cons, [] as nil}
use featherlane_ai.Prelude.{
  ℕ, zero, suc, ◌+◌, ◌*◌, ◌/◌, ◌%◌, ◌≤◌, ◌<◌, String, inl, inr, Bool-cases, ◌==◌, arith,
}
use featherlane_ai.Text.{char_count, decimal, digits_from, digit}

abbrev pub pow10 : ℕ → ℕ
pow10 zero = 1
pow10 (suc k) = 10 * pow10 k

digits_from-le :
    (f n k : ℕ) (acc : String)
    → n < pow10 (suc k)
    → char_count (digits_from f n acc) ≤ suc k + char_count acc
unfolding digits_from char_count
digits_from-le zero n k acc h = omega arith
digits_from-le (suc f) n zero acc h = elim (Bool-cases (n / 10 == 0)) [
  | inl end' ↦ rw end' (omega arith)
  | inr more ↦ absurd (ground (arith, more, h))
]
digits_from-le (suc f) n (suc k) acc h = elim (Bool-cases (n / 10 == 0)) [
  | inl end' ↦ rw end' (omega arith)
  | inr more ↦ rw more (
      omega
        (arith, digits_from-le f (n / 10) k (char_cons (digit (n % 10)) acc) (omega (arith, h))))
]

-- A number of fewer than `k + 2` digits.
pub char_count-decimal : (n k : ℕ) → n < pow10 (suc k) → char_count (decimal n) ≤ suc k
unfolding decimal char_count
char_count-decimal n k h = omega (arith, digits_from-le (suc n) n k nil h)
