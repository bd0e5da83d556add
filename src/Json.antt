-- ===== src/Json.antt =====
-- `serde_json::Value`, whose variants the sources match on. The numbers of that library, and the
-- 64-bit floats that they are read as, are a parameter: `Numbers`.
-- Its equality is the identity, so that 0.0 and -0.0 are one number here.
use mathlib.Core.Path.{ap₂}
use featherlane_ai.Prelude.{
  ◌≡◌, refl, ap, subst, ◌↔◌, Bool, true, false, ◌&&◌, Option, none, some, List, [], ◌∷◌, String,
  str_eq, str_eq_iff, arith, if◌then◌else◌, and-eq_true, and_intro, is_some,
}

pub record Numbers : Type 1 where
  pub Number : Type 0
  pub F64 : Type 0
  pub number_eq : Number → Number → Bool
  pub number_eq_iff : (m n : Number) → (number_eq m n ≡ true) ↔ (m ≡ n)
  pub as_f64 : Number → Option F64
  pub f64_le : F64 → F64 → Bool

mutual
  pub data Value (num : Numbers) : Type 0 where
    null : Value num
    bool : Bool → Value num
    number : num.Number → Value num
    string : String → Value num
    array : Items num → Value num
    object : Fields num → Value num

  pub data Items (num : Numbers) : Type 0 where
    nil : Items num
    cons : Value num → Items num → Items num

  pub data Fields (num : Numbers) : Type 0 where
    end : Fields num
    field : String → Value num → Fields num → Fields num

-- A `BTreeMap<String, Value>`, in the order of its iteration.
abbrev pub Attributes : Numbers → Type 0
Attributes num = List (String × Value num)

-- `BTreeMap::get`, of a map in any order.
unfoldable pub lookup {ℓ} : {V : Type ℓ} → String → List (String × V) → Option V
lookup k [] = none
lookup k ((j, v) ∷ m) = if str_eq j k then some v else lookup k m

-- `contains_key`.
abbrev pub has_key {ℓ} : {V : Type ℓ} → String → List (String × V) → Bool
has_key k m = is_some (lookup k m)

abbrev pub bool_eq : Bool → Bool → Bool
bool_eq true b = b
bool_eq false true = false
bool_eq false false = true

module _ {num : Numbers} where
  unfoldable pub lookup_field : String → Fields num → Option (Value num)
  lookup_field k end = none
  lookup_field k (field j v fs) = if str_eq j k then some v else lookup_field k fs

  -- `Value::get` with a text: the member of an object, and nothing of any other value.
  unfoldable pub get : Value num → String → Option (Value num)
  unfolding lookup_field
  get (object fs) k = lookup_field k fs
  get v k = none

  abbrev pub as_str : Value num → Option String
  as_str (string s) = some s
  as_str v = none

  abbrev pub as_bool : Value num → Option Bool
  as_bool (bool b) = some b
  as_bool v = none

  abbrev pub value_as_f64 : Value num → Option num.F64
  value_as_f64 (number n) = num.as_f64 n
  value_as_f64 v = none

  -- `Value::Object(map.into_iter().collect())`.
  abbrev pub to_fields : Attributes num → Fields num
  to_fields [] = end
  to_fields ((k, v) ∷ m) = field k v (to_fields m)

  -- `==` on values, derived by that library.
  unfoldable mutual
    pub value_eq : Value num → Value num → Bool
    value_eq null null = true
    value_eq (bool a) (bool b) = bool_eq a b
    value_eq (number m) (number n) = num.number_eq m n
    value_eq (string s) (string t) = str_eq s t
    value_eq (array xs) (array ys) = items_eq xs ys
    value_eq (object fs) (object gs) = fields_eq fs gs
    value_eq _ _ = false

    pub items_eq : Items num → Items num → Bool
    items_eq nil nil = true
    items_eq (cons x xs) (cons y ys) = value_eq x y && items_eq xs ys
    items_eq _ _ = false

    pub fields_eq : Fields num → Fields num → Bool
    fields_eq end end = true
    fields_eq (field j v fs) (field k w gs) = (str_eq j k && value_eq v w) && fields_eq fs gs
    fields_eq _ _ = false

  mutual
    unfolding value_eq

    value_eq_sound : (v w : Value num) → value_eq v w ≡ true → v ≡ w
    value_eq_sound null null h = refl
    value_eq_sound (bool true) (bool b) h = cc
    value_eq_sound (bool false) (bool b) h = ground arith
    value_eq_sound (number m) (number n) h = ap number ((num.number_eq_iff m n).0 h)
    value_eq_sound (string s) (string t) h = ap string ((str_eq_iff s t).0 h)
    value_eq_sound (array xs) (array ys) h = ap array (items_eq_sound xs ys h)
    value_eq_sound (object fs) (object gs) h = ap object (fields_eq_sound fs gs h)
    value_eq_sound _ _ h = cc

    items_eq_sound : (xs ys : Items num) → items_eq xs ys ≡ true → xs ≡ ys
    items_eq_sound nil nil h = refl
    items_eq_sound (cons x xs) (cons y ys) h =
        let (p, q) = and-eq_true (value_eq x y) (items_eq xs ys) h in
        ap₂ cons (value_eq_sound x y p) (items_eq_sound xs ys q)
    items_eq_sound _ _ h = cc

    fields_eq_sound : (fs gs : Fields num) → fields_eq fs gs ≡ true → fs ≡ gs
    fields_eq_sound end end h = refl
    fields_eq_sound (field j v fs) (field k w gs) h =
        let (p, q) = and-eq_true (str_eq j k && value_eq v w) (fields_eq fs gs) h in
        let (e, d) = and-eq_true (str_eq j k) (value_eq v w) p in
        rw ((str_eq_iff j k).0 e) (ap₂ (field k) (value_eq_sound v w d) (fields_eq_sound fs gs q))
    fields_eq_sound _ _ h = cc

  mutual
    unfolding value_eq

    value_eq_self : (v : Value num) → value_eq v v ≡ true
    value_eq_self null = refl
    value_eq_self (bool true) = refl
    value_eq_self (bool false) = refl
    value_eq_self (number m) = (num.number_eq_iff m m).1 refl
    value_eq_self (string s) = (str_eq_iff s s).1 refl
    value_eq_self (array xs) = items_eq_self xs
    value_eq_self (object fs) = fields_eq_self fs

    items_eq_self : (xs : Items num) → items_eq xs xs ≡ true
    items_eq_self nil = refl
    items_eq_self (cons x xs) = and_intro _ _ (value_eq_self x) (items_eq_self xs)

    fields_eq_self : (fs : Fields num) → fields_eq fs fs ≡ true
    fields_eq_self end = refl
    fields_eq_self (field j v fs) =
        and_intro _ _ (and_intro _ _ ((str_eq_iff j j).1 refl) (value_eq_self v))
          (fields_eq_self fs)

  pub value_eq_iff : (v w : Value num) → (value_eq v w ≡ true) ↔ (v ≡ w)
  value_eq_iff v w = (value_eq_sound v w, λ e. subst (λ u. value_eq v u ≡ true) e (value_eq_self v))
