-- ===== src/Prelude/Orderings.antt =====
-- `sort_by` and `dedup` of any type: stable insertion sort, then adjacent repeats dropped.
use mathlib.Core.Path.{◌≡◌, sym, subst}
use mathlib.Core.Logic.{◌↔◌, ◌⊎◌, inl, inr}
use mathlib.Core.Bool.{Bool, true}
use mathlib.Core.List.{List, [], ◌∷◌}
use featherlane_ai.Prelude.Tests.{Bool-cases, if◌then◌else◌}
use featherlane_ai.Prelude.Lists.{Any}

module _ {A : Type 0} (before same : A → A → Bool) where
  insert_by : A → List A → List A
  insert_by x [] = x ∷ []
  insert_by x (y ∷ ys) = let rest = insert_by x ys in if before y x then y ∷ rest else x ∷ y ∷ ys

  sort_by : List A → List A
  unfolding insert_by
  sort_by [] = []
  sort_by (x ∷ xs) = insert_by x (sort_by xs)

  dedup_behind : A → List A → List A
  dedup_behind x [] = []
  dedup_behind x (y ∷ ys) = let rest = dedup_behind y ys in if same x y then rest else y ∷ rest

  dedup_by : List A → List A
  unfolding dedup_behind
  dedup_by [] = []
  dedup_by (x ∷ xs) = x ∷ dedup_behind x xs

  unfoldable pub sort_dedup : List A → List A
  unfolding sort_by dedup_by
  sort_dedup xs = dedup_by (sort_by xs)

  module _ (P : A → Type 0) where
    Any-insert_by : (x : A) (xs : List A) → Any P (insert_by x xs) ↔ (P x ⊎ Any P xs)
    unfolding insert_by
    Any-insert_by x [] = (λ h. h, λ h. h)
    Any-insert_by x (y ∷ ys) = elim (Bool-cases (before y x)) [
      | inr b ↦ rw b (λ h. h, λ h. h)
      | inl b ↦
          let (f, g) = Any-insert_by x ys in
          rw b (
            λ h. elim h [
              | inl p ↦ inr (inl p)
              | inr q ↦ elim (f q) [ inl p ↦ inl p | inr r ↦ inr (inr r) ]
            ],
            λ h. elim h [
              | inl p ↦ inr (g (inl p))
              | inr (inl p) ↦ inl p
              | inr (inr r) ↦ inr (g (inr r))
            ],
          )
    ]

    Any-sort_by : (xs : List A) → Any P (sort_by xs) ↔ Any P xs
    unfolding sort_by
    Any-sort_by [] = (λ h. h, λ h. h)
    Any-sort_by (x ∷ xs) =
        let (f, g) = Any-insert_by x (sort_by xs) in
        let (u, v) = Any-sort_by xs in
        (
          λ h. elim (f h) [ inl p ↦ inl p | inr q ↦ inr (u q) ],
          λ h. elim h [ inl p ↦ g (inl p) | inr q ↦ g (inr (v q)) ],
        )

    module _ (same_eq : (a b : A) → same a b ≡ true → a ≡ b) where
      Any-dedup_behind :
          (x : A) (xs : List A) → (P x ⊎ Any P (dedup_behind x xs)) ↔ (P x ⊎ Any P xs)
      unfolding dedup_behind
      Any-dedup_behind x [] = (λ h. h, λ h. h)
      Any-dedup_behind x (y ∷ ys) =
          let (f, g) = Any-dedup_behind y ys in
          elim (Bool-cases (same x y)) [
            | inr b ↦ rw b (
              λ h. elim h [ inl p ↦ inl p | inr q ↦ inr (f q) ],
              λ h. elim h [ inl p ↦ inl p | inr q ↦ inr (g q) ],
            )
            | inl b ↦
                let e = same_eq x y b in
                rw b (
                  λ h. elim h [ inl p ↦ inl p | inr q ↦ inr (f (inr q)) ],
                  λ h. elim h [
                    | inl p ↦ inl p
                    | inr q ↦ elim (g q) [ inl p ↦ inl (subst P (sym e) p) | inr r ↦ inr r ]
                  ],
                )
          ]

      Any-dedup_by : (xs : List A) → Any P (dedup_by xs) ↔ Any P xs
      unfolding dedup_by
      Any-dedup_by [] = (λ h. h, λ h. h)
      Any-dedup_by (x ∷ xs) = Any-dedup_behind x xs

      -- The same elements are left.
      pub Any-sort_dedup : (xs : List A) → Any P (sort_dedup xs) ↔ Any P xs
      unfolding sort_dedup
      Any-sort_dedup xs =
          let (f, g) = Any-dedup_by (sort_by xs) in
          let (u, v) = Any-sort_by xs in (λ h. u (f h), λ h. g (v h))
