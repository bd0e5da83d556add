-- ===== src/Prelude/Sorts.antt =====
-- `sort_unstable` and `dedup` on numbers: insertion sort, then adjacent repeats dropped.
use Prim.Native.Nat.{ℕ, ◌<◌, ◌≤◌}
use mathlib.Core.Path.{◌≡◌}
use mathlib.Core.Logic.{◌↔◌, ◌⊎◌}
use mathlib.Core.List.{List, [], ◌∷◌}
use native.Mathlib.Omega.{arith}
use featherlane_ai.Prelude.Tests.{leb, ◌==◌, if◌then◌else◌}
use featherlane_ai.Prelude.Lists.{Any}

abbrev pub In : {A : Type 0} → A → List A → Type 0
In a = Any (λ x. x ≡ a)

insert_sorted : ℕ → List ℕ → List ℕ
insert_sorted a [] = a ∷ []
insert_sorted a (x ∷ xs) = if leb a x then a ∷ x ∷ xs else x ∷ insert_sorted a xs

unfoldable pub sort : List ℕ → List ℕ
unfolding insert_sorted
sort [] = []
sort (x ∷ xs) = insert_sorted x (sort xs)

-- Drops an element that is equal to the one before it.
dedup_from : ℕ → List ℕ → List ℕ
dedup_from a [] = []
dedup_from a (x ∷ xs) = let rest = dedup_from x xs in if a == x then rest else x ∷ rest

unfoldable pub dedup : List ℕ → List ℕ
unfolding dedup_from
dedup [] = []
dedup (x ∷ xs) = x ∷ dedup_from x xs

-- Bounded below and rising, weakly or strictly.
abbrev Rises : ℕ → List ℕ → Type 0
Rises a [] = Unit
Rises a (x ∷ xs) = (a ≤ x) × Rises x xs

abbrev Climbs : ℕ → List ℕ → Type 0
Climbs a [] = Unit
Climbs a (x ∷ xs) = (a < x) × Climbs x xs

abbrev pub IsStrict : List ℕ → Type 0
IsStrict [] = Unit
IsStrict (x ∷ xs) = Climbs x xs

abbrev pub IsSorted : List ℕ → Type 0
IsSorted [] = Unit
IsSorted (x ∷ xs) = Rises x xs

insert_sorted-Rises : (b a : ℕ) (xs : List ℕ) → b ≤ a → Rises b xs → Rises b (insert_sorted a xs)
unfolding insert_sorted
insert_sorted-Rises b a [] h r = (h, tt)
insert_sorted-Rises b a (x ∷ xs) h r = ground (arith, insert_sorted-Rises x a xs)

insert_sorted-IsSorted : (a : ℕ) (xs : List ℕ) → IsSorted xs → IsSorted (insert_sorted a xs)
unfolding insert_sorted
insert_sorted-IsSorted a [] s = tt
insert_sorted-IsSorted a (x ∷ xs) s = ground (arith, insert_sorted-Rises x a xs)

sort-IsSorted : (xs : List ℕ) → IsSorted (sort xs)
unfolding sort
sort-IsSorted [] = tt
sort-IsSorted (x ∷ xs) = insert_sorted-IsSorted x (sort xs) (sort-IsSorted xs)

dedup_from-Climbs : (a : ℕ) (xs : List ℕ) → Rises a xs → Climbs a (dedup_from a xs)
unfolding dedup_from
dedup_from-Climbs a [] r = tt
dedup_from-Climbs a (x ∷ xs) r = ground (arith, dedup_from-Climbs x xs r.1)

dedup-IsStrict : (xs : List ℕ) → IsSorted xs → IsStrict (dedup xs)
unfolding dedup
dedup-IsStrict [] s = tt
dedup-IsStrict (x ∷ xs) s = dedup_from-Climbs x xs s

-- The ids come out in strictly rising order, so each is there once.
pub dedup-sort-IsStrict : (xs : List ℕ) → IsStrict (dedup (sort xs))
dedup-sort-IsStrict xs = dedup-IsStrict (sort xs) (sort-IsSorted xs)

In-insert_sorted : (b a : ℕ) (xs : List ℕ) → In b (insert_sorted a xs) ↔ ((a ≡ b) ⊎ In b xs)
unfolding insert_sorted
In-insert_sorted b a [] = (λ h. h, λ h. h)
In-insert_sorted b a (x ∷ xs) = ground (arith, In-insert_sorted b a xs)

In-sort : (b : ℕ) (xs : List ℕ) → In b (sort xs) ↔ In b xs
unfolding sort
In-sort b [] = (λ h. h, λ h. h)
In-sort b (x ∷ xs) = ground (arith, In-insert_sorted b x (sort xs), In-sort b xs)

In-dedup_from : (b a : ℕ) (xs : List ℕ) → ((a ≡ b) ⊎ In b (dedup_from a xs)) ↔ ((a ≡ b) ⊎ In b xs)
unfolding dedup_from
In-dedup_from b a [] = (λ h. h, λ h. h)
In-dedup_from b a (x ∷ xs) = ground (arith, In-dedup_from b x xs)

In-dedup : (b : ℕ) (xs : List ℕ) → In b (dedup xs) ↔ In b xs
unfolding dedup
In-dedup b [] = (λ h. h, λ h. h)
In-dedup b (x ∷ xs) = In-dedup_from b x xs

pub In-dedup-sort : (b : ℕ) (xs : List ℕ) → In b (dedup (sort xs)) ↔ In b xs
In-dedup-sort b xs = (
  λ h. (In-sort b xs).0 ((In-dedup b (sort xs)).0 h),
  λ h. (In-dedup b (sort xs)).1 ((In-sort b xs).1 h),
)
