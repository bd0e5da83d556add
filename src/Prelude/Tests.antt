-- ===== src/Prelude/Tests.antt =====
-- Boolean tests on the native numbers, the conditional, and case splits that keep the equation.
use Prim.Native.Nat.{ℕ, ◌≤◌, ◌<◌, compare, Ordering}
use mathlib.Core.Path.{◌≡◌, refl, sym, subst, ◌∙◌}
use mathlib.Core.Logic.{◌↔◌, ◌≢◌, ◌⊎◌, inl, inr}
use mathlib.Core.Bool.{Bool, true, false, not, ◌&&◌, ◌||◌}
use mathlib.Core.Option.{Option, none, some}
use native.Mathlib.Omega.{arith}

abbrev pub ltb : ℕ → ℕ → Bool
ltb a b = elim (compare a b) [ Ordering.lt ↦ true | _ ↦ false ]

abbrev pub leb : ℕ → ℕ → Bool
leb a b = elim (compare a b) [ Ordering.gt ↦ false | _ ↦ true ]

infix 50 ◌==◌
abbrev pub ◌==◌ : ℕ → ℕ → Bool
a == b = elim (compare a b) [ Ordering.eq ↦ true | _ ↦ false ]

infix 1 if◌then◌else◌
abbrev pub if◌then◌else◌ {ℓ} : {A : Type ℓ} → Bool → A → A → A
if true then x else y = x
if false then x else y = y

pub ltb→lt : (a b : ℕ) → ltb a b ≡ true → a < b
ltb→lt a b h = ground arith

pub lt→ltb : (a b : ℕ) → a < b → ltb a b ≡ true
lt→ltb a b h = ground arith

pub leb→le : (a b : ℕ) → leb a b ≡ true → a ≤ b
leb→le a b h = ground arith

pub le→leb : (a b : ℕ) → a ≤ b → leb a b ≡ true
le→leb a b h = ground arith

pub ==_iff : (a b : ℕ) → ((a == b) ≡ true) ↔ (a ≡ b)
==_iff a b = ground arith

pub ruleset tests = (arith, ltb→lt, lt→ltb, leb→le, le→leb)

pub Bool-cases : (b : Bool) → (b ≡ true) ⊎ (b ≡ false)
Bool-cases true = inl refl
Bool-cases false = inr refl

module _ {ℓ} {A : Type ℓ} where
  pub Option-cases : (o : Option A) → (o ≡ none) ⊎ ((a : A) × (o ≡ some a))
  Option-cases none = inl refl
  Option-cases (some a) = inr (a, refl)

  abbrev pub is_some : Option A → Bool
  is_some none = false
  is_some (some a) = true

  abbrev pub is_none : Option A → Bool
  is_none none = true
  is_none (some a) = false

  abbrev pub unwrap_or : Option A → A → A
  unwrap_or none d = d
  unwrap_or (some a) d = a

  abbrev pub or_else : Option A → Option A → Option A
  or_else none o = o
  or_else (some a) o = some a

-- `is_some_and` and `is_none_or` of Rust's `Option`.
abbrev pub is_some_and {ℓ} : {A : Type ℓ} → Option A → (A → Bool) → Bool
is_some_and none p = false
is_some_and (some a) p = p a

abbrev pub is_none_or {ℓ} : {A : Type ℓ} → Option A → (A → Bool) → Bool
is_none_or none p = true
is_none_or (some a) p = p a

abbrev pub and_then {ℓ κ} : {A : Type ℓ} {B : Type κ} → Option A → (A → Option B) → Option B
and_then none f = none
and_then (some a) f = f a

pub and-eq_true : (a b : Bool) → (a && b) ≡ true → (a ≡ true) × (b ≡ true)
and-eq_true true b h = (refl, h)
and-eq_true false b h = cc

pub and_intro : (a b : Bool) → a ≡ true → b ≡ true → (a && b) ≡ true
and_intro a b p q = rw p q

pub false-ne_true {ℓ} : {A : Type ℓ} {b : Bool} → b ≡ true → b ≡ false → A
false-ne_true p q = absurd (cc)

-- `==` of a derived `PartialEq`, from decidable equality.
abbrev pub same {ℓ} : {A : Type ℓ} → Discrete A → A → A → Bool
same d a b = elim (d a b) [ yes p ↦ true | no p ↦ false ]

pub same_iff {ℓ} : {A : Type ℓ} (d : Discrete A) (a b : A) → (same d a b ≡ true) ↔ (a ≡ b)
same_iff d a b = elim (d a b) as (λ r. (elim r [ yes p ↦ true | no p ↦ false ] ≡ true) ↔ (a ≡ b)) [
  | yes p ↦ (λ h. p, λ h. refl)
  | no p ↦ (λ h. cc, λ h. absurd (p h))
]

pub same-eq {ℓ} : {A : Type ℓ} (d : Discrete A) (a b : A) → same d a b ≡ true → a ≡ b
same-eq d a b = (same_iff d a b).0

pub same-ne {ℓ} : {A : Type ℓ} (d : Discrete A) (a b : A) → same d a b ≡ false → a ≢ b
same-ne d a b h e = false-ne_true ((same_iff d a b).1 e) h

-- A condition on an optional value that holds where there is none.
abbrev pub Given {ℓ} : {A : Type ℓ} → Option A → (A → Type 0) → Type 0
Given none P = Unit
Given (some a) P = P a

pub is_none_or_iff {ℓ} :
    {A : Type ℓ} (p : A → Bool) (P : A → Type 0)
    → ((a : A) → (p a ≡ true) ↔ P a)
    → (o : Option A) → (is_none_or o p ≡ true) ↔ Given o P
is_none_or_iff p P e none = (λ _. tt, λ _. refl)
is_none_or_iff p P e (some a) = e a

pub iff_trans : {P Q R : Type 0} → P ↔ Q → Q ↔ R → P ↔ R
iff_trans e f = (λ p. f.0 (e.0 p), λ r. e.1 (f.1 r))

pub not-eq_true : (b : Bool) → not b ≡ true → b ≡ false
not-eq_true true h = cc
not-eq_true false h = refl

pub not_intro : (b : Bool) → b ≡ false → not b ≡ true
not_intro b h = rw h

pub not-eq_false : (b : Bool) → not b ≡ false → b ≡ true
not-eq_false true h = refl
not-eq_false false h = cc

pub some_inj {ℓ} : {A : Type ℓ} {a b : A} → some a ≡ some b → a ≡ b
some_inj e = cc

pub or_iff :
    (a b : Bool) {P Q : Type 0} → (a ≡ true) ↔ P → (b ≡ true) ↔ Q → ((a || b) ≡ true) ↔ (P ⊎ Q)
or_iff true b e f = ((λ h. inl (e.0 refl)), λ h. refl)
or_iff false b e f =
    ((λ h. inr (f.0 h)), λ h. elim h [ inl p ↦ absurd (cc (e.1 p)) | inr q ↦ f.1 q ])

pub and_iff :
    (a b : Bool) {P Q : Type 0} → (a ≡ true) ↔ P → (b ≡ true) ↔ Q → ((a && b) ≡ true) ↔ (P × Q)
and_iff a b e f =
    (λ h. let (p, q) = and-eq_true a b h in (e.0 p, f.0 q), λ h. and_intro a b (e.1 h.0) (f.1 h.1))

pub iff_sym : {P Q : Type 0} → P ↔ Q → Q ↔ P
iff_sym e = (e.1, e.0)

pub and3_iff :
    (a b c : Bool) {P Q R : Type 0}
    → (a ≡ true) ↔ P
    → (b ≡ true) ↔ Q
    → (c ≡ true) ↔ R
    → ((a && b && c) ≡ true) ↔ (P × Q × R)
and3_iff true b c e f g = (
  λ h. let (q, r) = (and_iff b c f g).0 h in (e.0 refl, q, r),
  λ h. (and_iff b c f g).1 (h.1, h.2),
)
and3_iff false b c e f g = ((λ h. cc), λ h. e.1 h.0)

pub and4_iff :
    (a b c d : Bool) {P Q R S : Type 0}
    → (a ≡ true) ↔ P
    → (b ≡ true) ↔ Q
    → (c ≡ true) ↔ R
    → (d ≡ true) ↔ S
    → ((a && b && c && d) ≡ true) ↔ (P × Q × R × S)
and4_iff true b c d e f g k = (
  λ h. let (q, r, s) = (and3_iff b c d f g k).0 h in (e.0 refl, q, r, s),
  λ h. (and3_iff b c d f g k).1 (h.1, h.2, h.3),
)
and4_iff false b c d e f g k = ((λ h. cc), λ h. e.1 h.0)

pub not_iff : (a : Bool) {P : Type 0} → (a ≡ true) ↔ P → (not a ≡ true) ↔ ¬ P
not_iff true e = ((λ h. cc), λ n. absurd (n (e.0 refl)))
not_iff false e = ((λ _ p. cc (e.1 p)), λ _. refl)

pub is_some_and_iff {ℓ} :
    {A : Type ℓ} (p : A → Bool) (P : A → Type 0)
    → ((a : A) → (p a ≡ true) ↔ P a)
    → (o : Option A) → (is_some_and o p ≡ true) ↔ ((a : A) × (o ≡ some a) × P a)
is_some_and_iff p P e none = ((λ h. cc), λ h. cc h.1)
is_some_and_iff p P e (some a) =
    ((λ h. (a, refl, (e a).0 h)), λ h. (e a).1 (subst P (some_inj (sym h.1)) h.2))

pub pair_iff : {P Q R S : Type 0} → P ↔ Q → R ↔ S → (P × R) ↔ (Q × S)
pair_iff e f = ((λ h. (e.0 h.0, f.0 h.1)), λ h. (e.1 h.0, f.1 h.1))

pub iff_of_eq : {a b : Bool} → a ≡ b → (a ≡ true) ↔ (b ≡ true)
iff_of_eq e = ((λ h. sym e ∙ h), λ h. e ∙ h)

pub not-false_iff : (b : Bool) → (not b ≡ false) ↔ (b ≡ true)
not-false_iff true = ((λ h. refl), λ h. refl)
not-false_iff false = ((λ h. cc), λ h. cc)
