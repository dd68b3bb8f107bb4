-- ===== src/Value/Printing.antt =====
-- `str` and `repr` of a Python value. `repr` of a text escapes the backslash, the quote, the newline,
-- the carriage return and the tab; it leaves every other character as it is.
use Prim.Native.Char.{Char, code}
use Prim.Native.Nat.{◌/◌, ◌%◌}
use Prim.Native.String.{◌++◌}
use text.Mathlib.Text.{char_at?}
use hybridops_core.Prelude.{
  ℕ, zero, suc, ◌≡◌, refl, String, Bool, true, false, none, some, ◌&&◌, ◌||◌, not, nat_eq, ltb,
  if◌then◌else◌,
}
use hybridops_core.Value.{
  ℤ, pos, negsuc, Value, null, bool, int, str, opaque, opaque_text, seq, dict, Items, nil, cons,
  Fields, end, field, truth,
}

digit_text : ℕ → String
digit_text d = elim (char_at? "0123456789" d) [ none ↦ "" | some c ↦ String.◌∷◌ c "" ]

-- The digits of a number before a text; a number below 10 ^ fuel needs no more than that fuel.
digits : ℕ → ℕ → String → String
unfolding digit_text
digits zero n text = text
digits (suc fuel) n text =
    let head = digit_text (n % 10) ++ text in
    elim (ltb n 10) [ true ↦ head | false ↦ digits fuel (n / 10) head ]

unfoldable pub show_nat : ℕ → String
unfolding digits
show_nat n = digits (suc n) n ""

show_int : ℤ → String
unfolding show_nat
show_int (pos n) = show_nat n
show_int (negsuc n) = "-" ++ show_nat (suc n)

has_char : ℕ → String → Bool
has_char n String.[] = false
has_char n (String.◌∷◌ c s) = let rest = has_char n s in nat_eq (code c) n || rest

escape_char : ℕ → Char → String
escape_char quote c =
    if nat_eq (code c) 92
    then "\\\\"
    else if nat_eq (code c) quote
    then "\\" ++ String.◌∷◌ c ""
    else if nat_eq (code c) 10
    then "\\n"
    else if nat_eq (code c) 13
    then "\\r"
    else if nat_eq (code c) 9
    then "\\t"
    else String.◌∷◌ c ""

escape : ℕ → String → String
unfolding escape_char
escape quote String.[] = ""
escape quote (String.◌∷◌ c s) = let rest = escape quote s in escape_char quote c ++ rest

-- `repr(s)`
unfoldable pub repr_text : String → String
unfolding has_char escape
repr_text s =
    if has_char 39 s && not (has_char 34 s)
    then "\"" ++ escape 34 s ++ "\""
    else "'" ++ escape 39 s ++ "'"

unfoldable mutual
  unfolding repr_text show_int

  pub repr_value : Value → String
  repr_value null = "None"
  repr_value (bool b) = if b then "True" else "False"
  repr_value (int z) = show_int z
  repr_value (str s) = repr_text s
  repr_value (opaque o) = opaque_text o
  repr_value (seq xs) = "[" ++ repr_items xs ++ "]"
  repr_value (dict fs) = "{" ++ repr_fields fs ++ "}"

  pub repr_items : Items → String
  repr_items nil = ""
  repr_items (cons x xs) = repr_value x ++ elim xs [ nil ↦ "" | _ ↦ ", " ++ repr_items xs ]

  pub repr_fields : Fields → String
  repr_fields end = ""
  repr_fields (field k v fs) =
      repr_text k ++ ": " ++ repr_value v ++ elim fs [ end ↦ "" | _ ↦ ", " ++ repr_fields fs ]

-- `str(value)`
unfoldable pub str_value : Value → String
unfolding repr_value
str_value (str s) = s
str_value v = repr_value v

-- `str(value or "")`
unfoldable pub str_or_empty : Value → String
unfolding str_value
str_or_empty v = if truth v then str_value v else ""

str_value_example :
    str_value (dict (field "a" (seq (cons (int (pos 120)) (cons (str "it's") nil))) end))
    ≡ "{'a': [120, \"it's\"]}"
unfolding str_value repr_value show_int
str_value_example = refl
