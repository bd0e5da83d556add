-- ===== src/Prelude/Occurrences.antt =====
-- How often a number stands in a list, sums over a range, and where a number first stands.
use Prim.Native.Nat.{ℕ, zero, suc, ◌+◌, ◌≤◌, ◌<◌}
use mathlib.Core.Path.{◌≡◌, refl, sym}
use mathlib.Core.Logic.{◌≢◌, inl, inr}
use mathlib.Core.List.{List, [], ◌∷◌, ◌++◌}
use native.Mathlib.Omega.{arith}
use featherlane_ai.Prelude.Tests.{◌==◌, ltb, ==_iff, Bool-cases, if◌then◌else◌}
use featherlane_ai.Prelude.Lists.{length}

abbrev pub count : ℕ → List ℕ → ℕ
count a [] = 0
count a (x ∷ xs) = (if x == a then 1 else 0) + count a xs

-- The index at which a number first stands, or the length of the list.
abbrev pub index_of : ℕ → List ℕ → ℕ
index_of a [] = 0
index_of a (x ∷ xs) = if x == a then 0 else suc (index_of a xs)

abbrev pub sum_below : ℕ → (ℕ → ℕ) → ℕ
sum_below zero f = 0
sum_below (suc n) f = f n + sum_below n f

-- The numbers from `i` on, `n` of them.
abbrev pub range_from : ℕ → ℕ → List ℕ
range_from i zero = []
range_from i (suc n) = i ∷ range_from (suc i) n

pub count-append :
    (i : ℕ) (front behind : List ℕ) → count i (front ++ behind) ≡ count i front + count i behind
count-append i [] behind = omega arith
count-append i (j ∷ front) behind = let rest = count-append i front behind in ground (arith, rest)

pub count-range_from :
    (a i n : ℕ) → count a (range_from i n) ≡ (if ltb a i then 0 else if ltb a (i + n) then 1 else 0)
count-range_from a i zero = ground arith
count-range_from a i (suc n) = ground (arith, count-range_from a (suc i) n)

pub index_of-append_left :
    (a : ℕ) (xs ys : List ℕ) → 0 < count a xs → index_of a (xs ++ ys) ≡ index_of a xs
index_of-append_left a [] ys h = absurd (omega (arith, h))
index_of-append_left a (x ∷ xs) ys h = ground (arith, index_of-append_left a xs ys)

pub index_of-append_right :
    (a : ℕ) (xs ys : List ℕ) → count a xs ≡ 0 → index_of a (xs ++ ys) ≡ length xs + index_of a ys
index_of-append_right a [] ys h = omega arith
index_of-append_right a (x ∷ xs) ys h = ground (arith, index_of-append_right a xs ys)

pub index_of-lt : (a : ℕ) (xs : List ℕ) → 0 < count a xs → index_of a xs < length xs
index_of-lt a [] h = absurd (omega (arith, h))
index_of-lt a (x ∷ xs) h = ground (arith, index_of-lt a xs)

pub le-sum_below : (n : ℕ) (f : ℕ → ℕ) (i : ℕ) → i < n → f i ≤ sum_below n f
le-sum_below zero f i h = absurd (omega (arith, h))
le-sum_below (suc n) f i h = elim (Bool-cases (i == n)) [
  | inl e ↦ rw ((==_iff i n).0 e) (omega arith)
  | inr ne ↦ let k : i < n = ground (arith, ne, h) in omega (arith, le-sum_below n f i k)
]

pub sum_below_pos : (n : ℕ) (f : ℕ → ℕ) → 0 < sum_below n f → (i : ℕ) × (i < n) × (0 < f i)
sum_below_pos zero f h = absurd (omega (arith, h))
sum_below_pos (suc n) f h = elim (Bool-cases (ltb 0 (f n))) [
  | inl pos ↦ (n, omega arith, ground (arith, pos))
  | inr none' ↦
      let (i, below, pos) = sum_below_pos n f (ground (arith, none', h)) in
      (i, omega (arith, below), pos)
]

pub sum_below_congr :
    (n : ℕ) (f g : ℕ → ℕ) → ((i : ℕ) → i < n → f i ≡ g i) → sum_below n f ≡ sum_below n g
sum_below_congr zero f g h = refl
sum_below_congr (suc n) f g h =
    omega (arith, h n (omega arith), sum_below_congr n f g (λ i k. h i (omega (arith, k))))

-- Two functions that differ at one place.
pub sum_below_update :
    (n k : ℕ) (f g : ℕ → ℕ)
    → k < n
    → ((i : ℕ) → i < n → i ≢ k → f i ≡ g i)
    → sum_below n f + g k ≡ sum_below n g + f k
sum_below_update zero k f g h same = absurd (omega (arith, h))
sum_below_update (suc n) k f g h same = elim (Bool-cases (k == n)) [
  | inl e ↦
      let p = (==_iff k n).0 e in
      rw p (
        omega
          (arith, sum_below_congr n f g (λ i b. same i (omega (arith, b)) (omega (arith, b, p)))))
  | inr ne ↦
      let b : k < n = ground (arith, ne, h) in
      omega (
        arith,
        same n (omega arith) (omega (arith, b)),
        sum_below_update n k f g b (λ i c. same i (omega (arith, c))),
      )
]

pub sum_below-le : (n : ℕ) (f : ℕ → ℕ) → ((i : ℕ) → i < n → f i ≤ 1) → sum_below n f ≤ n
sum_below-le zero f h = omega arith
sum_below-le (suc n) f h =
    omega (arith, h n (omega arith), sum_below-le n f (λ i k. h i (omega (arith, k))))

pub sum_below_zero : (n : ℕ) → sum_below n (λ _. 0) ≡ 0
sum_below_zero zero = refl
sum_below_zero (suc n) = omega (arith, sum_below_zero n)

-- The elements of a list of numbers below `n`, counted number by number.
pub length-sum_below :
    (n : ℕ) (xs : List ℕ)
    → ((i : ℕ) → 0 < count i xs → i < n)
    → length xs ≡ sum_below n (λ i. count i xs)
length-sum_below n [] h = sym (sum_below_zero n)
length-sum_below n (x ∷ xs) h =
    let inside : x < n = h x (ground arith) in
    let rest = length-sum_below n xs (λ i k. h i (omega (arith, k))) in
    let more =
      sum_below_update n x (λ i. count i (x ∷ xs)) (λ i. count i xs) inside
        (λ i b ne. ground (arith, ne)) in
    let here : count x (x ∷ xs) ≡ suc (count x xs) = ground arith in omega (arith, more, rest, here)

-- A list of numbers below `n`, none twice, has at most `n` of them.
pub length-le_of_count :
    (n : ℕ) (xs : List ℕ)
    → ((i : ℕ) → 0 < count i xs → i < n)
    → ((i : ℕ) → count i xs ≤ 1)
    → length xs ≤ n
length-le_of_count n xs h once =
    omega (arith, length-sum_below n xs h, sum_below-le n (λ i. count i xs) (λ i _. once i))
