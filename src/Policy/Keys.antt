-- ===== src/Policy/Keys.antt =====
-- The set of obligation keys of crates/governance-policy/src/lib.rs, and its size.
use featherlane_ai.Prelude.{
  suc, ◌≤◌, ◌≡◌, refl, ap, ◌↔◌, inl, inr, true, List, [], ◌∷◌, String, str_eq, str_eq_iff, In, any,
  any_iff, length, Bool-cases, false-ne_true, arith,
}
use featherlane_ai.Policy.{key_set}

-- No key twice.
abbrev pub Unique : List String → Type 0
Unique [] = Unit
Unique (k ∷ ks) = ¬ In k ks × Unique ks

pub member_iff : (k : String) (ks : List String) → (any (λ j. str_eq j k) ks ≡ true) ↔ In k ks
member_iff k ks = any_iff (λ j. str_eq j k) (λ j. str_eq_iff j k) ks

pub In-key_set : (i : String) (ks : List String) → In i (key_set ks) ↔ In i ks
unfolding key_set
In-key_set i [] = ((λ h. h), λ h. h)
In-key_set i (k ∷ ks) =
    let (down, up) = In-key_set i ks in
    elim (Bool-cases (any (λ j. str_eq j k) (key_set ks))) [
      | inl old ↦ rw old (
        (λ h. inr (down h)),
        λ h. elim h [ inl e ↦ (member_iff i (key_set ks)).0 (rw e at old) | inr r ↦ up r ],
      )
      | inr new' ↦ rw new' (
        (λ h. elim h [ inl e ↦ inl e | inr r ↦ inr (down r) ]),
        λ h. elim h [ inl e ↦ inl e | inr r ↦ inr (up r) ],
      )
    ]

length-key_set-le : (ks : List String) → length (key_set ks) ≤ length ks
unfolding key_set
length-key_set-le [] = omega arith
length-key_set-le (k ∷ ks) =
    let small = length-key_set-le ks in
    elim (Bool-cases (any (λ j. str_eq j k) (key_set ks))) [
      | inl old ↦ rw old (omega (arith, small))
      | inr new' ↦ rw new' (omega (arith, small))
    ]

-- The set is as large as the list exactly when no key comes twice.
pub length-key_set-Unique : (ks : List String) → (length (key_set ks) ≡ length ks) ↔ Unique ks
unfolding key_set
length-key_set-Unique [] = ((λ _. tt), λ _. refl)
length-key_set-Unique (k ∷ ks) =
    let small = length-key_set-le ks in
    let (fwd, back) = length-key_set-Unique ks in
    elim (Bool-cases (any (λ j. str_eq j k) (key_set ks))) [
      | inl old ↦ rw old (
        (λ e. absurd (omega (arith, small, e))),
        λ u. absurd (u.0 ((In-key_set k ks).0 ((member_iff k (key_set ks)).0 old))),
      )
      | inr new' ↦ rw new' (
        (λ e. (
          λ m. false-ne_true ((member_iff k (key_set ks)).1 ((In-key_set k ks).1 m)) new',
          fwd (omega (arith, e)),
        )),
        λ u. ap suc (back u.1),
      )
    ]
