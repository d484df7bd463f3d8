-- ===== src/Action/Value.antt =====
-- The values that `JSON.stringify` compares in web/lib/actions/registry.ts, and `stableValue`. A
-- field that is undefined is left out where its object is built.
use Prim.Native.String.{String, ◌++◌}
use text.Mathlib.Text.{◌==◌ as str_eq}
use text.Mathlib.TextPositions.{eq_refl}
use ovrflo.Prelude.{
  ℕ, zero, suc, ◌/◌, ◌%◌, ◌≡◌, refl, Bool, true, false, ◌&&◌, arith, ltb, ◌==◌, if◌then◌else◌,
}
use ovrflo.Prelude.Int.{ℤ, pos, negsuc, eqb_ℤ}
use ovrflo.Prelude.Text.{Text, text_eq, text_eq_refl}

mutual
  pub data Value : Type 0 where
    null : Value
    flag : Bool → Value
    number : ℕ → Value
    big : ℤ → Value
    string : String → Value
    address : Text → Value
    array : Values → Value
    object : Fields → Value

  pub data Values : Type 0 where
    no_values : Values
    value : Value → Values → Values

  pub data Fields : Type 0 where
    no_fields : Fields
    field : String → Value → Fields → Fields

digit : ℕ → String
digit n =
    if n == 0
    then "0"
    else if n == 1
    then "1"
    else if n == 2
    then "2"
    else if n == 3
    then "3"
    else if n == 4
    then "4"
    else if n == 5
    then "5"
    else if n == 6
    then "6"
    else if n == 7
    then "7"
    else if n == 8
    then "8"
    else "9"

-- The digits of a number before a text. The number itself is enough fuel.
digits_before : ℕ → ℕ → String → String
digits_before zero n s = digit n ++ s
digits_before (suc fuel) n s =
    let rest = digits_before fuel (n / 10) (digit (n % 10) ++ s) in
    if ltb n 10 then digit n ++ s else rest

-- `${value}n`
pub big_text : ℤ → String
big_text (pos n) = digits_before n n "n"
big_text (negsuc n) = "-" ++ digits_before (suc n) (suc n) "n"

-- `left.localeCompare(right) < 0` is a function of the platform's locale.
module _ (key_before : String → String → Bool) where
  insert_field : String → Value → Fields → Fields
  insert_field k v no_fields = field k v no_fields
  insert_field k v (field l w fs) =
      if key_before k l then field k v (field l w fs) else field l w (insert_field k v fs)

  sort_fields : Fields → Fields → Fields
  sort_fields acc no_fields = acc
  sort_fields acc (field k v fs) = sort_fields (insert_field k v acc) fs

  mutual
    pub stable_value : Value → Value
    stable_value null = null
    stable_value (flag b) = flag b
    stable_value (number n) = number n
    stable_value (big z) = string (big_text z)
    stable_value (string s) = string s
    stable_value (address a) = address a
    stable_value (array vs) = array (stable_values vs)
    stable_value (object fs) = object (sort_fields no_fields (stable_fields fs))

    stable_values : Values → Values
    stable_values no_values = no_values
    stable_values (value v vs) = value (stable_value v) (stable_values vs)

    stable_fields : Fields → Fields
    stable_fields no_fields = no_fields
    stable_fields (field k v fs) = field k (stable_value v) (stable_fields fs)

bool_eq : Bool → Bool → Bool
bool_eq true b = b
bool_eq false true = false
bool_eq false false = true

-- The two values have the same text in JSON; no bigint is left in a stable value.
mutual
  pub same_json : Value → Value → Bool
  same_json null null = true
  same_json (flag a) (flag b) = bool_eq a b
  same_json (number a) (number b) = a == b
  same_json (big a) (big b) = eqb_ℤ a b
  same_json (string a) (string b) = str_eq a b
  same_json (address a) (address b) = text_eq a b
  same_json (array a) (array b) = same_values a b
  same_json (object a) (object b) = same_fields a b
  same_json _ _ = false

  pub same_values : Values → Values → Bool
  same_values no_values no_values = true
  same_values (value a vs) (value b ws) = same_json a b && same_values vs ws
  same_values _ _ = false

  pub same_fields : Fields → Fields → Bool
  same_fields no_fields no_fields = true
  same_fields (field k a fs) (field l b gs) = str_eq k l && same_json a b && same_fields fs gs
  same_fields _ _ = false

bool_eq_refl : (b : Bool) → bool_eq b b ≡ true
unfolding bool_eq
bool_eq_refl true = refl
bool_eq_refl false = refl

nat_eq_refl : (n : ℕ) → (n == n) ≡ true
nat_eq_refl n = ground arith

mutual
  unfolding same_json same_values same_fields

  pub same_json_refl : (v : Value) → same_json v v ≡ true
  same_json_refl null = refl
  same_json_refl (flag b) = bool_eq_refl b
  same_json_refl (number n) = nat_eq_refl n
  same_json_refl (string s) = eq_refl s
  same_json_refl (address a) = text_eq_refl a
  same_json_refl (array vs) = same_values_refl vs
  same_json_refl (object fs) = same_fields_refl fs
  same_json_refl (big z) = ground arith

  same_values_refl : (vs : Values) → same_values vs vs ≡ true
  same_values_refl no_values = refl
  same_values_refl (value v vs) = rw (same_json_refl v, same_values_refl vs) refl

  same_fields_refl : (fs : Fields) → same_fields fs fs ≡ true
  same_fields_refl no_fields = refl
  same_fields_refl (field k v fs) = rw (eq_refl k, same_json_refl v, same_fields_refl fs) refl
