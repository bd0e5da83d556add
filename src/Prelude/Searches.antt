-- ===== src/Prelude/Searches.antt =====
-- The Boolean searches of a list against `All` and `Any`.
use Prim.Native.Nat.{ℕ, suc}
use mathlib.Core.Path.{◌≡◌, refl, ap}
use mathlib.Core.Logic.{◌↔◌, inl, inr}
use mathlib.Core.Bool.{Bool, true, false, not}
use mathlib.Core.List.{List, [], ◌∷◌, ◌++◌, map}
use mathlib.Core.Option.{none}
use native.Mathlib.Omega.{arith}
use featherlane_ai.Prelude.Tests.{if◌then◌else◌, Bool-cases, and-eq_true, and_intro, false-ne_true}
use featherlane_ai.Prelude.Lists.{length, any, all, find, keep, is_empty, All, Any}

module _ {ℓ} {A : Type ℓ} {P Q : A → Type 0} where
  pub All-map : ((a : A) → P a → Q a) → (xs : List A) → All P xs → All Q xs
  All-map f [] h = tt
  All-map f (x ∷ xs) (h, hs) = (f x h, All-map f xs hs)

  pub Any-map : ((a : A) → P a → Q a) → (xs : List A) → Any P xs → Any Q xs
  Any-map f [] h = h
  Any-map f (x ∷ xs) (inl h) = inl (f x h)
  Any-map f (x ∷ xs) (inr h) = inr (Any-map f xs h)

module _ {ℓ} {A : Type ℓ} (p : A → Bool) {P : A → Type 0} where
  pub all_iff : ((a : A) → (p a ≡ true) ↔ P a) → (xs : List A) → (all p xs ≡ true) ↔ All P xs
  all_iff e [] = (λ _. tt, λ _. refl)
  all_iff e (x ∷ xs) = (
    λ h. let (a, b) = and-eq_true (p x) (all p xs) h in ((e x).0 a, (all_iff e xs).0 b),
    λ h. and_intro (p x) (all p xs) ((e x).1 h.0) ((all_iff e xs).1 h.1),
  )

  pub any_iff : ((a : A) → (p a ≡ true) ↔ P a) → (xs : List A) → (any p xs ≡ true) ↔ Any P xs
  any_iff e [] = (λ h. cc, λ h. absurd h)
  any_iff e (x ∷ xs) = (
    λ h. elim (Bool-cases (p x)) [
      | inl hit ↦ inl ((e x).0 hit)
      | inr miss ↦ inr ((any_iff e xs).0 (rw miss at h))
    ],
    λ h. elim h [ inl a ↦ rw ((e x).1 a) | inr b ↦ ground (arith, (any_iff e xs).1 b) ],
  )

  pub not-any_iff :
      ((a : A) → (p a ≡ true) ↔ P a) → (xs : List A) → (not (any p xs) ≡ true) ↔ All (λ a. ¬ P a) xs
  not-any_iff e [] = (λ _. tt, λ _. refl)
  not-any_iff e (x ∷ xs) = elim (Bool-cases (p x)) [
    | inl found ↦ rw found (λ h. cc, λ h. absurd (h.0 ((e x).0 found)))
    | inr missed ↦ rw missed (
      λ h. ((λ a. false-ne_true ((e x).1 a) missed), (not-any_iff e xs).0 h),
      λ h. (not-any_iff e xs).1 h.1,
    )
  ]

  -- Nothing is kept exactly when nothing passes the test.
  pub keep_empty_iff :
      ((a : A) → (p a ≡ true) ↔ P a)
      → (xs : List A) → (is_empty (keep p xs) ≡ true) ↔ All (λ a. ¬ P a) xs
  keep_empty_iff e [] = (λ _. tt, λ _. refl)
  keep_empty_iff e (x ∷ xs) = elim (Bool-cases (p x)) [
    | inl hit ↦ rw hit (λ h. cc, λ h. absurd (h.0 ((e x).0 hit)))
    | inr miss ↦ rw miss (
      λ h. ((λ a. false-ne_true ((e x).1 a) miss), (keep_empty_iff e xs).0 h),
      λ h. (keep_empty_iff e xs).1 h.1,
    )
  ]

  -- All that is kept, as a condition on the whole list.
  pub All-keep_iff :
      (Q : A → Type 0)
      → ((a : A) → (p a ≡ true) ↔ P a)
      → (xs : List A) → All Q (keep p xs) ↔ All (λ a. P a → Q a) xs
  All-keep_iff Q e [] = (λ _. tt, λ _. tt)
  All-keep_iff Q e (x ∷ xs) = elim (Bool-cases (p x)) [
    | inl hit ↦ rw hit (
      λ h. ((λ _. h.0), (All-keep_iff Q e xs).0 h.1),
      λ h. (h.0 ((e x).0 hit), (All-keep_iff Q e xs).1 h.1),
    )
    | inr miss ↦ rw miss (
      λ h. ((λ a. false-ne_true ((e x).1 a) miss), (All-keep_iff Q e xs).0 h),
      λ h. (All-keep_iff Q e xs).1 h.1,
    )
  ]

  pub Any-keep :
      (Q : A → Type 0)
      → ((a : A) → (p a ≡ true) ↔ P a)
      → (xs : List A) → Any Q (keep p xs)
      → Any (λ a. P a × Q a) xs
  Any-keep Q e [] h = h
  Any-keep Q e (x ∷ xs) h = go (p x) refl (Any-keep Q e xs) h
    where
      go :
          (b : Bool)
          → p x ≡ b
          → (Any Q (keep p xs) → Any (λ a. P a × Q a) xs)
          → Any Q (if b then x ∷ keep p xs else keep p xs)
          → Any (λ a. P a × Q a) (x ∷ xs)
      go true hit f (inl q) = inl ((e x).0 hit, q)
      go true hit f (inr r) = inr (f r)
      go false miss f r = inr (f r)

  pub keep_some_iff :
      ((a : A) → (p a ≡ true) ↔ P a) → (xs : List A) → (is_empty (keep p xs) ≡ false) ↔ Any P xs
  keep_some_iff e [] = (λ h. cc, λ h. absurd h)
  keep_some_iff e (x ∷ xs) = elim (Bool-cases (p x)) [
    | inl hit ↦ rw hit (λ _. inl ((e x).0 hit), λ _. refl)
    | inr miss ↦ rw miss (
      λ h. inr ((keep_some_iff e xs).0 h),
      λ h. elim h [ inl a ↦ false-ne_true ((e x).1 a) miss | inr b ↦ (keep_some_iff e xs).1 b ],
    )
  ]

pub not-Any {ℓ} : {A : Type ℓ} (P : A → Type 0) (xs : List A) → All (λ a. ¬ P a) xs → ¬ Any P xs
not-Any P [] h a = a
not-Any P (x ∷ xs) h (inl a) = h.0 a
not-Any P (x ∷ xs) h (inr a) = not-Any P xs h.1 a

-- How many elements of a list have a property.
pub data Counts {ℓ} {A : Type ℓ} (P : A → Type 0) : List A → ℕ → Type ℓ where
  none_left : Counts P [] 0
  hit : {x : A} {xs : List A} {n : ℕ} → P x → Counts P xs n → Counts P (x ∷ xs) (suc n)
  miss : {x : A} {xs : List A} {n : ℕ} → ¬ P x → Counts P xs n → Counts P (x ∷ xs) n

module _ {ℓ} {A : Type ℓ} {P : A → Type 0} where
  pub length-keep-Counts :
      (p : A → Bool)
      → ((a : A) → (p a ≡ true) ↔ P a)
      → (xs : List A) → Counts P xs (length (keep p xs))
  length-keep-Counts p e [] = none_left
  length-keep-Counts p e (x ∷ xs) = elim (Bool-cases (p x)) [
    | inl yes' ↦ rw yes' (hit ((e x).0 yes') (length-keep-Counts p e xs))
    | inr no' ↦ rw no' (miss (λ a. false-ne_true ((e x).1 a) no') (length-keep-Counts p e xs))
  ]

  pub Counts-unique : {xs : List A} {m n : ℕ} → Counts P xs m → Counts P xs n → m ≡ n
  Counts-unique none_left none_left = refl
  Counts-unique (hit p c) (hit q d) = ap suc (Counts-unique c d)
  Counts-unique (hit p c) (miss q d) = absurd (q p)
  Counts-unique (miss p c) (hit q d) = absurd (p q)
  Counts-unique (miss p c) (miss q d) = Counts-unique c d

-- A list with nothing to reject: all of it passes.
pub keep-not-is_empty_iff {ℓ} :
    {A : Type ℓ} (p : A → Bool) (xs : List A)
    → (is_empty (keep (λ a. not (p a)) xs) ≡ true) ↔ All (λ a. p a ≡ true) xs
keep-not-is_empty_iff p [] = ((λ _. tt), λ _. refl)
keep-not-is_empty_iff p (x ∷ xs) = elim (Bool-cases (p x)) [
  | inl good ↦
      rw good
        ((λ h. (refl, (keep-not-is_empty_iff p xs).0 h)), λ h. (keep-not-is_empty_iff p xs).1 h.1)
  | inr bad ↦ rw bad ((λ h. cc), λ h. cc h.0)
]

pub is_empty_iff {ℓ} : {A : Type ℓ} (xs : List A) → (is_empty xs ≡ true) ↔ (xs ≡ [])
is_empty_iff [] = ((λ _. refl), λ _. refl)
is_empty_iff (x ∷ xs) = ((λ h. cc), λ h. cc)

pub find-none {ℓ} :
    {A : Type ℓ} (p : A → Bool) (xs : List A) → find p xs ≡ none → All (λ a. p a ≡ false) xs
find-none p [] h = tt
find-none p (x ∷ xs) h = elim (Bool-cases (p x)) [
  | inl found ↦ absurd (cc (rw found at h))
  | inr missed ↦ (missed, find-none p xs (rw missed at h))
]

pub none-find {ℓ} :
    {A : Type ℓ} (p : A → Bool) (xs : List A) → All (λ a. p a ≡ false) xs → find p xs ≡ none
none-find p [] h = refl
none-find p (x ∷ xs) h = rw h.0 (none-find p xs h.1)

pub Any-of_map :
    {A B : Type 0} (P : B → Type 0) (f : A → B) (xs : List A)
    → Any P (map f xs)
    → Any (λ a. P (f a)) xs
Any-of_map P f [] h = h
Any-of_map P f (x ∷ xs) (inl h) = inl h
Any-of_map P f (x ∷ xs) (inr h) = inr (Any-of_map P f xs h)

pub Any-map_of :
    {A B : Type 0} (P : B → Type 0) (f : A → B) (xs : List A)
    → Any (λ a. P (f a)) xs
    → Any P (map f xs)
Any-map_of P f [] h = h
Any-map_of P f (x ∷ xs) (inl h) = inl h
Any-map_of P f (x ∷ xs) (inr h) = inr (Any-map_of P f xs h)

pub Any-append_left {ℓ} :
    {A : Type ℓ} (P : A → Type 0) (xs ys : List A) → Any P xs → Any P (xs ++ ys)
Any-append_left P [] ys h = absurd h
Any-append_left P (x ∷ xs) ys (inl h) = inl h
Any-append_left P (x ∷ xs) ys (inr h) = inr (Any-append_left P xs ys h)

pub Any-append_right {ℓ} :
    {A : Type ℓ} (P : A → Type 0) (xs ys : List A) → Any P ys → Any P (xs ++ ys)
Any-append_right P [] ys h = h
Any-append_right P (x ∷ xs) ys h = inr (Any-append_right P xs ys h)
