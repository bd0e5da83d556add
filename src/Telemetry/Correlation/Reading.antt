-- ===== src/Telemetry/Correlation/Reading.antt =====
-- Texts and flags that an attribute may hold.
use featherlane_ai.Prelude.{
  ◌≡◌, refl, ap, ◌↔◌, inl, inr, ◌⊎◌, true, false, Option, none, some, String, and_then, unwrap_or,
}
use featherlane_ai.Json.{Numbers, Value, null, bool, number, string, array, object, as_str, as_bool}

module _ {num : Numbers} where
  abbrev pub IsText : Option (Value num) → String → Type 0
  IsText v s = v ≡ some (string s)

  abbrev pub HasNoText : Option (Value num) → Type 0
  HasNoText v = (s : String) → ¬ IsText v s

  pub IsText-cases : (v : Option (Value num)) → HasNoText v ⊎ (s : String) × IsText v s
  IsText-cases none = inl (λ s h. cc)
  IsText-cases (some null) = inl (λ s h. cc)
  IsText-cases (some (bool b)) = inl (λ s h. cc)
  IsText-cases (some (number n)) = inl (λ s h. cc)
  IsText-cases (some (string s)) = inr (s, refl)
  IsText-cases (some (array xs)) = inl (λ s h. cc)
  IsText-cases (some (object fs)) = inl (λ s h. cc)

  pub no_text : (v : Option (Value num)) → HasNoText v → and_then v as_str ≡ none
  no_text none h = refl
  no_text (some null) h = refl
  no_text (some (bool b)) h = refl
  no_text (some (number n)) h = refl
  no_text (some (string s)) h = absurd (h s refl)
  no_text (some (array xs)) h = refl
  no_text (some (object fs)) h = refl

  pub text_of : (v : Option (Value num)) (s : String) → IsText v s → and_then v as_str ≡ some s
  text_of v s h = ap (λ w. and_then w as_str) h

  pub text_inj :
      {s t : String} → (let v : Option (Value num) = some (string s) in v ≡ some (string t)) → s ≡ t
  text_inj h = cc

  pub ends_iff :
      (v : Option (Value num))
      → (unwrap_or (and_then v as_bool) false ≡ true) ↔ (v ≡ some (bool true))
  ends_iff none = ((λ h. cc), λ h. cc)
  ends_iff (some null) = ((λ h. cc), λ h. cc)
  ends_iff (some (bool b)) = ((λ h. cc), λ h. ap (λ v. unwrap_or (and_then v as_bool) false) h)
  ends_iff (some (number n)) = ((λ h. cc), λ h. cc)
  ends_iff (some (string s)) = ((λ h. cc), λ h. cc)
  ends_iff (some (array xs)) = ((λ h. cc), λ h. cc)
  ends_iff (some (object fs)) = ((λ h. cc), λ h. cc)
