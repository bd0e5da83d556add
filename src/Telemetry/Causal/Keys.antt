-- ===== src/Telemetry/Causal/Keys.antt =====
-- The ordered sets and lists that `causal_order` keeps hold what was inserted, each once.
use featherlane_ai.Prelude.{
  ℕ, ◌+◌, ◌≡◌, refl, inl, inr, Bool, true, List, [], ◌∷◌, map, keep, and-eq_true, ltb, ◌==◌, ==_iff,
  Bool-cases, if◌then◌else◌, count, arith,
}
use featherlane_ai.Telemetry.Causal.{
  SortKey, key_lt, key_eq, insert_key, insert_index, sort_indices, contains_index,
}

abbrev pub index_of_key : SortKey → ℕ
index_of_key k = k.3

abbrev pub indices : List SortKey → List ℕ
indices = map index_of_key

key_eq-index : (a b : SortKey) → key_eq a b ≡ true → a.3 ≡ b.3
key_eq-index a b h =
    (==_iff a.3 b.3).0 (and-eq_true _ _ (and-eq_true _ _ (and-eq_true (a.0 == b.0) _ h).1).1).1

-- An index that the set has not is added once.
pub count-insert_key :
    (i : ℕ) (k : SortKey) (xs : List SortKey)
    → count k.3 (indices xs) ≡ 0
    → count i (indices (insert_key k xs)) ≡ count i (indices xs) + (if k.3 == i then 1 else 0)
unfolding insert_key
count-insert_key i k [] h = ground arith
count-insert_key i k (x ∷ xs) h = elim (Bool-cases (key_eq x k)) [
  | inl same ↦ absurd (let e = key_eq-index x k same in ground (arith, h, e))
  | inr other ↦ elim (Bool-cases (key_lt k x)) [
    | inl below ↦ rw (other, below) (omega arith)
    | inr above ↦ rw (other, above) (omega (arith, count-insert_key i k xs (ground (arith, h))))
  ]
]

pub count-insert_index :
    (key_of : ℕ → SortKey) (a i : ℕ) (js : List ℕ)
    → count a (insert_index key_of i js) ≡ (if i == a then 1 else 0) + count a js
unfolding insert_index
count-insert_index key_of a i [] = refl
count-insert_index key_of a i (j ∷ js) = elim (Bool-cases (key_lt (key_of j) (key_of i))) [
  | inl below ↦ rw below (omega (arith, count-insert_index key_of a i js))
  | inr above ↦ rw above refl
]

pub count-sort_indices :
    (key_of : ℕ → SortKey) (a : ℕ) (is : List ℕ) → count a (sort_indices key_of is) ≡ count a is
unfolding sort_indices
count-sort_indices key_of a [] = refl
count-sort_indices key_of a (i ∷ is) =
    omega (
      arith,
      count-insert_index key_of a i (sort_indices key_of is),
      count-sort_indices key_of a is,
    )

pub contains_index-count : (i : ℕ) (xs : List ℕ) → contains_index i xs ≡ ltb 0 (count i xs)
contains_index-count i [] = refl
contains_index-count i (x ∷ xs) = ground (arith, contains_index-count i xs)

pub count-keep :
    (a : ℕ) (p : ℕ → Bool) (xs : List ℕ) → count a (keep p xs) ≡ (if p a then count a xs else 0)
count-keep a p [] = ground arith
count-keep a p (x ∷ xs) = elim (Bool-cases (x == a)) [
  | inl e ↦ let q = (==_iff x a).0 e in rw q (ground (arith, count-keep a p xs))
  | inr ne ↦ elim (Bool-cases (p x)) [
    | inl hit ↦ rw (hit, ne) (ground (arith, count-keep a p xs))
    | inr miss ↦ rw (miss, ne) (ground (arith, count-keep a p xs))
  ]
]
