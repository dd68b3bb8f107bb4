-- ===== src/Text/Split.antt =====
-- What the program uses of Python's `str` on one character: split, replace, strip and membership.
-- A separator is given by its code point.
use Prim.Native.Char.{Char, code}
use hybridops_core.Prelude.{
  ℕ, ◌-◌, ◌≡◌, refl, String, Bool, true, false, Option, none, some, List, [], ◌∷◌, ◌&&◌, ◌||◌, leb,
  nat_eq, if◌then◌else◌,
}
use text.Mathlib.Text.{char_at?}
use hybridops_core.Text.{is_empty}

push_char : Char → List String → List String
push_char c [] = String.◌∷◌ c String.[] ∷ []
push_char c (w ∷ ws) = String.◌∷◌ c w ∷ ws

-- `s.split(sep)`
unfoldable pub split_on : ℕ → String → List String
unfolding push_char
split_on sep String.[] = "" ∷ []
split_on sep (String.◌∷◌ c s) =
    let rest = split_on sep s in if nat_eq (code c) sep then "" ∷ rest else push_char c rest

-- `s.split(sep, 1)` when the separator occurs
unfoldable pub split_once : ℕ → String → Option (String × String)
split_once sep String.[] = none
split_once sep (String.◌∷◌ c s) =
    let rest = split_once sep s in
    if nat_eq (code c) sep
    then some ("", s)
    else elim rest [ none ↦ none | some found ↦ some (String.◌∷◌ c found.0, found.1) ]

-- `s.replace(old, new)` for two characters
unfoldable pub replace_char : ℕ → Char → String → String
replace_char old new String.[] = ""
replace_char old new (String.◌∷◌ c s) =
    let rest = replace_char old new s in
    if nat_eq (code c) old then String.◌∷◌ new rest else String.◌∷◌ c rest

unfoldable pub lstrip_char : ℕ → String → String
lstrip_char sep String.[] = ""
lstrip_char sep (String.◌∷◌ c s) =
    let rest = lstrip_char sep s in if nat_eq (code c) sep then rest else String.◌∷◌ c s

unfoldable pub rstrip_char : ℕ → String → String
rstrip_char sep String.[] = ""
rstrip_char sep (String.◌∷◌ c s) =
    let rest = rstrip_char sep s in
    if is_empty rest && nat_eq (code c) sep then "" else String.◌∷◌ c rest

-- `[p for p in parts if p]`
unfoldable pub non_empty_parts : List String → List String
non_empty_parts [] = []
non_empty_parts (p ∷ ps) = let rest = non_empty_parts ps in if is_empty p then rest else p ∷ rest

-- The classes of the program's patterns.
abbrev pub is_lower_letter : ℕ → Bool
is_lower_letter n = leb 97 n && leb n 122

abbrev pub is_upper_letter : ℕ → Bool
is_upper_letter n = leb 65 n && leb n 90

abbrev pub is_digit : ℕ → Bool
is_digit n = leb 48 n && leb n 57

abbrev pub is_lower_or_digit : ℕ → Bool
is_lower_or_digit n = is_lower_letter n || is_digit n

-- Every character passes the test.
unfoldable pub all_chars : (ℕ → Bool) → String → Bool
all_chars test String.[] = true
all_chars test (String.◌∷◌ c s) = let rest = all_chars test s in test (code c) && rest

-- The last character passes the test; an empty text has none.
unfoldable pub ends_in : (ℕ → Bool) → String → Bool
ends_in test String.[] = false
ends_in test (String.◌∷◌ c s) =
    let rest = ends_in test s in if is_empty s then test (code c) else rest

split_parts_example : non_empty_parts (split_on 47 "/a//b/") ≡ "a" ∷ "b" ∷ []
unfolding split_on non_empty_parts
split_parts_example = refl

split_first_example : split_once 35 "x/y#i#j" ≡ some ("x/y", "i#j")
unfolding split_once
split_first_example = refl

upper_char : Char → Char
upper_char c =
    if is_lower_letter (code c)
    then elim (char_at? "ABCDEFGHIJKLMNOPQRSTUVWXYZ" (code c - 97)) [ none ↦ c | some d ↦ d ]
    else c

-- `s.upper()`, on the letters a to z
unfoldable pub upper : String → String
unfolding upper_char
upper String.[] = ""
upper (String.◌∷◌ c s) = String.◌∷◌ (upper_char c) (upper s)
