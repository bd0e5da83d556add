-- ===== src/Prelude/Members.antt =====
-- Membership in a list, against `All`.
use Prim.Native.Nat.{ℕ}
use mathlib.Core.Path.{refl, subst}
use mathlib.Core.Logic.{inl, inr}
use mathlib.Core.Bool.{Bool}
use mathlib.Core.List.{List, [], ◌∷◌, ◌++◌, map}
use featherlane_ai.Prelude.Tests.{Bool-cases}
use featherlane_ai.Prelude.Lists.{keep, All}
use featherlane_ai.Prelude.Sorts.{In, sort, dedup, In-dedup-sort}
use featherlane_ai.Prelude.Searches.{All-map}

module _ {A : Type 0} (P : A → Type 0) where
  pub All-in : (xs : List A) {a : A} → All P xs → In a xs → P a
  All-in (x ∷ xs) h (inl e) = subst P e h.0
  All-in (x ∷ xs) h (inr m) = All-in xs h.1 m
  All-in [] h m = absurd m

  pub All-of_In : (xs : List A) → ((a : A) → In a xs → P a) → All P xs
  All-of_In [] f = tt
  All-of_In (x ∷ xs) f = (f x (inl refl), All-of_In xs (λ a m. f a (inr m)))

  pub All-append : (xs ys : List A) → All P xs → All P ys → All P (xs ++ ys)
  All-append [] ys h k = k
  All-append (x ∷ xs) ys h k = (h.0, All-append xs ys h.1 k)

  pub All-keep : (p : A → Bool) (xs : List A) → All P xs → All P (keep p xs)
  All-keep p [] h = tt
  All-keep p (x ∷ xs) h = elim (Bool-cases (p x)) [
    | inl hit ↦ rw hit (h.0, All-keep p xs h.1)
    | inr miss ↦ rw miss (All-keep p xs h.1)
  ]

pub All-of_map :
    {A B : Type 0} (P : B → Type 0) (f : A → B) (xs : List A)
    → All (λ x. P (f x)) xs
    → All P (map f xs)
All-of_map P f [] h = tt
All-of_map P f (x ∷ xs) h = (h.0, All-of_map P f xs h.1)

-- Each element's image is among the images.
pub All-image : {A B : Type 0} (f : A → B) (xs : List A) → All (λ x. In (f x) (map f xs)) xs
All-image f [] = tt
All-image f (x ∷ xs) = (inl refl, All-map (λ a m. inr m) xs (All-image f xs))

pub All-dedup-sort : (P : ℕ → Type 0) (xs : List ℕ) → All P xs → All P (dedup (sort xs))
All-dedup-sort P xs h =
    All-of_In P (dedup (sort xs)) (λ a m. All-in P xs h ((In-dedup-sort a xs).0 m))
