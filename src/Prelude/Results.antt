-- ===== src/Prelude/Results.antt =====
-- Results of fallible code.
use mathlib.Core.Path.{◌≡◌, refl}
use mathlib.Core.Bool.{Bool, true, false}

pub data Result {ℓ} (E : Type 0) (A : Type ℓ) : Type ℓ where
  ok : A → Result E A
  err : E → Result E A

infixl 5 ◌>>=◌
abbrev pub ◌>>=◌ {ℓ κ} :
    {E : Type 0} {A : Type ℓ} {B : Type κ} → Result E A → (A → Result E B) → Result E B
ok a >>= k = k a
err e >>= k = err e

infixl 5 ◌>>◌
abbrev pub ◌>>◌ {ℓ κ} :
    {E : Type 0} {A : Type ℓ} {B : Type κ} → Result E A → Result E B → Result E B
r >> s = r >>= λ _. s

-- `if !test { return Err(error) }`.
abbrev pub ensure : {E : Type 0} → Bool → E → Result E (Unit {0})
ensure true error = ok tt
ensure false error = err error

module _ {ℓ κ} {E : Type 0} {A : Type ℓ} {B : Type κ} where
  pub bind-ok :
      (r : Result E A) (k : A → Result E B) (b : B)
      → (r >>= k) ≡ ok b
      → (a : A) × (r ≡ ok a) × (k a ≡ ok b)
  bind-ok (ok a) k b h = (a, refl, h)
  bind-ok (err e) k b h = cc

  pub ok-bind :
      {r : Result E A} {a : A} {b : B} (k : A → Result E B)
      → r ≡ ok a
      → k a ≡ ok b
      → (r >>= k) ≡ ok b
  ok-bind k p q = rw p q

module _ {ℓ} {E : Type 0} {A : Type ℓ} where
  pub ensure-ok :
      (test : Bool) (e : E) (k : Result E A) (b : A)
      → (ensure test e >> k) ≡ ok b
      → (test ≡ true) × (k ≡ ok b)
  ensure-ok true e k b h = (refl, h)
  ensure-ok false e k b h = cc

  pub ok-ensure :
      {test : Bool} (e : E) {k : Result E A} {b : A}
      → test ≡ true
      → k ≡ ok b
      → (ensure test e >> k) ≡ ok b
  ok-ensure e p q = rw p q

pub ok_inj {ℓ} :
    {E : Type 0} {A : Type ℓ} {a b : A} → (let r : Result E A = ok a in r ≡ ok b) → a ≡ b
ok_inj h = cc

pub ensure_holds : {E : Type 0} (test : Bool) (e : E) → ensure test e ≡ ok tt → test ≡ true
ensure_holds true e h = refl
ensure_holds false e h = cc
