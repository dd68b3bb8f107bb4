-- ===== src/Value.antt =====
-- The values of a YAML or JSON document, and what the program computes on them: truth, lookup,
-- equality, and whether `json.dumps(..., allow_nan=False)` can write them.
pub mod Printing
pub mod Update
use Prim.Native.Nat.{◌^◌}
use hybridops_core.Prelude.{
  ℕ, suc, ◌*◌, not, String, Bool, true, false, Option, none, some, ◌&&◌, nat_eq, ◌==◌,
  if◌then◌else◌, ◌≡◌, refl,
}
use hybridops_core.Text.{is_empty}

-- `negsuc n` is -(n + 1).
pub data ℤ : Type 0 where
  pos : ℕ → ℤ
  negsuc : ℕ → ℤ

-- A Python float: `finite m k` is m / 2 ^ k, and `infinite` says whether it is negative.
pub data Float : Type 0 where
  finite : ℤ → ℕ → Float
  infinite : Bool → Float
  nan : Float

-- An object that is no number, text, list or dict: `other writable truth text key` says whether
-- `json.dumps` writes it, its truth, and the text that `str` gives; two are equal when their keys
-- are. A float carries the text that `str` gives.
pub data Opaque : Type 0 where
  float : Float → String → Opaque
  other : Bool → Bool → String → String → Opaque

mutual
  pub data Value : Type 0 where
    null : Value
    bool : Bool → Value
    int : ℤ → Value
    str : String → Value
    opaque : Opaque → Value
    seq : Items → Value
    dict : Fields → Value

  pub data Items : Type 0 where
    nil : Items
    cons : Value → Items → Items

  pub data Fields : Type 0 where
    end : Fields
    field : String → Value → Fields → Fields

abbrev pub items_empty : Items → Bool
items_empty nil = true
items_empty (cons x xs) = false

abbrev pub fields_empty : Fields → Bool
fields_empty end = true
fields_empty (field k v fs) = false

abbrev is_zero : ℤ → Bool
is_zero (pos n) = nat_eq n 0
is_zero (negsuc n) = false

abbrev is_finite : Float → Bool
is_finite (finite m k) = true
is_finite _ = false

-- `bool(x)` of a float: only zero is false.
abbrev float_truth : Float → Bool
float_truth (finite m k) = if is_zero m then false else true
float_truth _ = true

abbrev pub opaque_writable : Opaque → Bool
opaque_writable (float f text) = is_finite f
opaque_writable (other w t text key) = w

abbrev pub opaque_truth : Opaque → Bool
opaque_truth (float f text) = float_truth f
opaque_truth (other w t text key) = t

abbrev pub opaque_text : Opaque → String
opaque_text (float f text) = text
opaque_text (other w t text key) = text

-- `bool(value)`
abbrev pub truth : Value → Bool
truth null = false
truth (bool b) = b
truth (int z) = if is_zero z then false else true
truth (str s) = if is_empty s then false else true
truth (opaque o) = opaque_truth o
truth (seq xs) = if items_empty xs then false else true
truth (dict fs) = if fields_empty fs then false else true

-- `isinstance(value, dict)`
abbrev pub as_dict : Value → Option Fields
as_dict (dict fs) = some fs
as_dict _ = none

-- `json.dumps` raises on what is not writable, at any depth.
unfoldable mutual
  pub writable : Value → Bool
  writable null = true
  writable (bool b) = true
  writable (int z) = true
  writable (str s) = true
  writable (opaque o) = opaque_writable o
  writable (seq xs) = writable_items xs
  writable (dict fs) = writable_fields fs

  pub writable_items : Items → Bool
  writable_items nil = true
  writable_items (cons x xs) = writable x && writable_items xs

  pub writable_fields : Fields → Bool
  writable_fields end = true
  writable_fields (field k v fs) = writable v && writable_fields fs

-- `fields.get(key)`
unfoldable pub get : String → Fields → Option Value
get k end = none
get k (field j v fs) = if j == k then some v else get k fs

abbrev pub size_fields : Fields → ℕ
size_fields end = 0
size_fields (field k v fs) = suc (size_fields fs)

eq_int : ℤ → ℤ → Bool
eq_int (pos a) (pos b) = nat_eq a b
eq_int (negsuc a) (negsuc b) = nat_eq a b
eq_int _ _ = false

-- `True` is 1 and `False` is 0.
unit_int : Bool → ℤ
unit_int true = pos 1
unit_int false = pos 0

magnitude : ℤ → ℕ
magnitude (pos n) = n
magnitude (negsuc n) = suc n

is_negative : ℤ → Bool
is_negative (pos n) = false
is_negative (negsuc n) = true

eq_bool : Bool → Bool → Bool
eq_bool true b = b
eq_bool false b = not b

-- Floats are equal when their values are, and a NaN equals nothing.
eq_float : Float → Float → Bool
unfolding magnitude is_negative eq_bool
eq_float (finite m j) (finite n k) =
    eq_bool (is_negative m) (is_negative n) && nat_eq (magnitude m * 2 ^ k) (magnitude n * 2 ^ j)
eq_float (infinite a) (infinite b) = eq_bool a b
eq_float _ _ = false

-- An integer beside an object.
eq_int_opaque : ℤ → Opaque → Bool
unfolding eq_float
eq_int_opaque z (float f text) = eq_float (finite z 0) f
eq_int_opaque z (other w t text key) = false

eq_opaque : Opaque → Opaque → Bool
unfolding eq_float
eq_opaque (float f text) (float g text') = eq_float f g
eq_opaque (other w t text key) (other w' t' text' key') = key == key'
eq_opaque _ _ = false

-- What is left of `==` when the left side is no list and no dict.
eq_scalar : Value → Value → Bool
unfolding eq_int unit_int eq_int_opaque eq_opaque
eq_scalar null null = true
eq_scalar (bool a) (bool b) = eq_int (unit_int a) (unit_int b)
eq_scalar (bool a) (int z) = eq_int (unit_int a) z
eq_scalar (int y) (bool b) = eq_int y (unit_int b)
eq_scalar (int y) (int z) = eq_int y z
eq_scalar (str s) (str t) = s == t
eq_scalar (bool a) (opaque o) = eq_int_opaque (unit_int a) o
eq_scalar (int y) (opaque o) = eq_int_opaque y o
eq_scalar (opaque o) (bool b) = eq_int_opaque (unit_int b) o
eq_scalar (opaque o) (int z) = eq_int_opaque z o
eq_scalar (opaque o) (opaque o') = eq_opaque o o'
eq_scalar _ _ = false

-- Python's `==`: dicts are equal whatever the order of their keys, and numbers when their values are,
-- be they integers, Booleans or floats.
unfoldable mutual
  unfolding eq_scalar get

  pub eq_value : Value → Value → Bool
  eq_value (seq xs) v = elim v [ seq ys ↦ eq_items xs ys | _ ↦ false ]
  eq_value (dict fs) v = elim v [
    | dict gs ↦ nat_eq (size_fields fs) (size_fields gs) && within_fields fs gs
    | _ ↦ false
  ]
  eq_value u v = eq_scalar u v

  pub eq_items : Items → Items → Bool
  eq_items nil ys = elim ys [ nil ↦ true | _ ↦ false ]
  eq_items (cons x xs) ys = elim ys [ nil ↦ false | cons y ys' ↦ eq_value x y && eq_items xs ys' ]

  pub within_fields : Fields → Fields → Bool
  within_fields end gs = true
  within_fields (field k v fs) gs =
      elim (get k gs) [ none ↦ false | some w ↦ eq_value v w ] && within_fields fs gs

nan_is_refused : writable (dict (field "n" (opaque (float nan "nan")) end)) ≡ false
unfolding writable
nan_is_refused = refl

key_order_is_forgotten :
    eq_value
      (dict (field "a" (bool true) (field "b" null end)))
      (dict (field "b" null (field "a" (int (pos 1)) end)))
    ≡ true
unfolding eq_value
key_order_is_forgotten = refl

one_is_float_one : eq_value (int (pos 1)) (opaque (float (finite (pos 1) 0) "1.0")) ≡ true
unfolding eq_value
one_is_float_one = refl

half_of_two_is_one :
    eq_value (seq (cons (opaque (float (finite (pos 2) 1) "1.0")) nil)) (seq (cons (bool true) nil))
    ≡ true
unfolding eq_value
half_of_two_is_one = refl

nan_is_not_nan : eq_value (opaque (float nan "nan")) (opaque (float nan "nan")) ≡ false
unfolding eq_value
nan_is_not_nan = refl
