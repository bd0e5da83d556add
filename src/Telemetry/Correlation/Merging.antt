-- ===== src/Telemetry/Correlation/Merging.antt =====
-- Lookups in a map that another map was inserted in.
use featherlane_ai.Prelude.{
  ◌≡◌, refl, sym, ◌∙◌, subst, inl, inr, some, [], ◌∷◌, String, str_eq, str_eq_iff, or_else,
  Bool-cases, false-ne_true, if◌then◌else◌,
}
use featherlane_ai.Text.{str_lt}
use featherlane_ai.Json.{Numbers, Value, Attributes, lookup}
use featherlane_ai.Telemetry.Correlation.{insert, extend}

module _ {num : Numbers} where
  pub lookup-insert :
      (i k : String) (v : Value num) (m : Attributes num)
      → lookup i (insert k v m) ≡ (if str_eq k i then some v else lookup i m)
  unfolding lookup insert
  lookup-insert i k v [] = refl
  lookup-insert i k v ((j, w) ∷ m) = elim (Bool-cases (str_eq j k)) [
    | inl same ↦
        let e = (str_eq_iff j k).0 same in
        rw same (
          subst
            (λ z.
              (if str_eq k i then some v else lookup i m)
              ≡ (if str_eq k i then some v else if str_eq z i then some w else lookup i m))
            (sym e) (elim (Bool-cases (str_eq k i)) [ inl h ↦ rw h refl | inr h ↦ rw h refl ]))
    | inr other ↦ elim (Bool-cases (str_lt k j)) [
      | inl below ↦ rw (other, below) refl
      | inr above ↦ elim (Bool-cases (str_eq k i)) [
        | inr h ↦ rw (other, above, h, lookup-insert i k v m, h) refl
        | inl h ↦ elim (Bool-cases (str_eq j i)) [
          | inr g ↦ rw (other, above, h, g, lookup-insert i k v m, h) refl
          | inl g ↦
              (false-ne_true
                ((str_eq_iff j k).1 ((str_eq_iff j i).0 g ∙ sym ((str_eq_iff k i).0 h))) other)
        ]
      ]
    ]
  ]

  pub lookup-extend :
      (i : String) (m n : Attributes num)
      → lookup i (extend m n) ≡ or_else (lookup i n) (lookup i m)
  unfolding lookup extend
  lookup-extend i m [] = refl
  lookup-extend i m ((k, v) ∷ n) =
      lookup-insert i k v (extend m n)
      ∙ elim (Bool-cases (str_eq k i)) [ inl h ↦ rw h refl | inr h ↦ rw h (lookup-extend i m n) ]
