-- ===== src/State/Refs/Collapse.antt =====
-- The loop `while "//" in v: v = v.replace("//", "/")` of `normalize_module_ref`
-- (hyops/runtime/refs.py). A pass makes a text with `//` shorter, so as many passes as the text has
-- characters are enough.
pub mod Laws
use Prim.Native.Char.{Char, code}
use Prim.Native.String.{count}
use hybridops_core.Prelude.{
  ℕ, zero, suc, ◌+◌, ◌<◌, ◌≤◌, ◌≡◌, refl, String, Bool, true, false, ◌&&◌, ◌||◌, not, nat_eq, arith,
  if◌then◌else◌, Bool-cases, inl, inr,
}

is_slash : Char → Bool
is_slash c = nat_eq (code c) 47

-- A text that continues after a slash, when `pending`, has `//`.
unfoldable pub has_double_after : Bool → String → Bool
unfolding is_slash
has_double_after pending String.[] = false
has_double_after pending (String.◌∷◌ c s) =
    let rest = has_double_after (is_slash c) s in pending && is_slash c || rest

-- `"//" in v`
abbrev pub has_double_slash : String → Bool
has_double_slash v = has_double_after false v

-- `v.replace("//", "/")` from left to right; `pending` is a slash that is not yet written.
unfoldable pub replace_double : Bool → String → String
unfolding is_slash
replace_double false String.[] = ""
replace_double true String.[] = "/"
replace_double false (String.◌∷◌ c s) =
    let rest = replace_double (is_slash c) s in if is_slash c then rest else String.◌∷◌ c rest
replace_double true (String.◌∷◌ c s) =
    let rest = replace_double false s in
    if is_slash c then String.◌∷◌ c rest else String.◌∷◌ "/" (String.◌∷◌ c rest)

-- The loop, for at most `fuel` passes.
unfoldable pub collapse_loop : ℕ → String → String
unfolding replace_double has_double_after
collapse_loop zero v = v
collapse_loop (suc fuel) v =
    let next = collapse_loop fuel (replace_double false v) in if has_double_slash v then next else v

unfoldable pub collapse : String → String
unfolding collapse_loop
collapse v = collapse_loop (count v) v
