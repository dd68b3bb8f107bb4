-- ===== src/Text.antt =====
-- What the program uses of Python's `str`: truth, strip, lower and join.
-- `lower` folds the letters A to Z. Python also folds letters outside ASCII; the names that the
-- program folds are matched against ASCII patterns afterwards.
pub mod Split
use Prim.Native.Char.{Char, code}
use Prim.Native.String.{◌++◌}
use text.Mathlib.Text.{char_at?}
use hybridops_core.Prelude.{
  ℕ, ◌-◌, ◌≡◌, refl, String, Bool, true, false, none, some, List, [], ◌∷◌, ◌&&◌, ◌||◌, leb, nat_eq,
  if◌then◌else◌,
}

abbrev pub is_empty : String → Bool
is_empty String.[] = true
is_empty (String.◌∷◌ c s) = false

-- The code points for which `str.isspace` holds.
pub is_space : ℕ → Bool
is_space n =
    leb 9 n && leb n 13
    || leb 28 n && leb n 32
    || nat_eq n 133
    || nat_eq n 160
    || nat_eq n 5760
    || leb 8192 n && leb n 8202
    || nat_eq n 8232
    || nat_eq n 8233
    || nat_eq n 8239
    || nat_eq n 8287
    || nat_eq n 12288

pub lstrip : String → String
lstrip String.[] = ""
lstrip (String.◌∷◌ c s) = let rest = lstrip s in if is_space (code c) then rest else String.◌∷◌ c s

pub rstrip : String → String
rstrip String.[] = ""
rstrip (String.◌∷◌ c s) =
    let rest = rstrip s in if is_empty rest && is_space (code c) then "" else String.◌∷◌ c rest

-- `s.strip()`
unfoldable pub strip : String → String
unfolding lstrip rstrip is_space
strip s = rstrip (lstrip s)

pub lower_char : Char → Char
lower_char c =
    if leb 65 (code c) && leb (code c) 90
    then elim (char_at? "abcdefghijklmnopqrstuvwxyz" (code c - 65)) [ none ↦ c | some d ↦ d ]
    else c

-- `s.lower()`
unfoldable pub lower : String → String
unfolding lower_char
lower String.[] = ""
lower (String.◌∷◌ c s) = String.◌∷◌ (lower_char c) (lower s)

-- `not s.strip()`
abbrev pub is_blank : String → Bool
is_blank s = is_empty (strip s)

-- `sep.join(parts)`
unfoldable pub join : String → List String → String
join sep [] = ""
join sep (x ∷ []) = x
join sep (x ∷ y ∷ rest) = x ++ sep ++ join sep (y ∷ rest)

-- `text or default`
abbrev pub or_text : String → String → String
or_text s default = if is_empty s then default else s

strip-lower_example : lower (strip "  NetBox \n") ≡ "netbox"
unfolding strip lower
strip-lower_example = refl

strip_blank_example : is_blank " \t" ≡ true
unfolding strip
strip_blank_example = refl

join_example : join ", " ("a" ∷ "b" ∷ "c" ∷ []) ≡ "a, b, c"
unfolding join
join_example = refl
