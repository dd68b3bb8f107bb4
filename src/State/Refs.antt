-- ===== src/State/Refs.antt =====
-- `normalize_module_ref` and `module_id_from_ref` of hyops/runtime/refs.py;
-- `normalize_state_instance`, `split_module_state_ref` and `normalize_module_state_ref` of
-- hyops/runtime/module_state.py. A `None` argument reads as an empty text, as `value or ""` does.
pub mod Collapse
use Prim.Native.Char.{Char, code}
use Prim.Native.String.{count, ◌++◌}
use hybridops_core.Prelude.{
  ℕ, suc, String, Bool, true, false, Option, none, some, List, [], ◌∷◌, ◌==◌, ◌&&◌, ◌||◌, not, leb,
  nat_eq, contains, if◌then◌else◌,
}
use hybridops_core.Text.{is_empty, strip, lower, join}
use hybridops_core.Text.Split.{
  split_on, split_once, replace_char, lstrip_char, rstrip_char, non_empty_parts, is_lower_or_digit,
  all_chars, ends_in,
}
use hybridops_core.Raises.{Raises, ok, value_error, ◌>>=◌}
use hybridops_core.Value.Printing.{repr_text}
use hybridops_core.State.Refs.Collapse.{collapse}

abbrev is_ref_char : ℕ → Bool
is_ref_char n = is_lower_or_digit n || nat_eq n 46 || nat_eq n 95 || nat_eq n 47 || nat_eq n 45

-- `_ALLOWED.fullmatch`: `^[a-z0-9](?:[a-z0-9._/-]*[a-z0-9])?$`
unfoldable pub is_allowed : String → Bool
unfolding all_chars ends_in
is_allowed String.[] = false
is_allowed (String.◌∷◌ c s) =
    is_lower_or_digit (code c)
    && all_chars is_ref_char s
    && ends_in is_lower_or_digit (String.◌∷◌ c s)

-- From the parts on: the refusal of a traversal and the pattern.
ref_of_parts : List String → String
unfolding is_allowed join
ref_of_parts [] = ""
ref_of_parts (p ∷ ps) =
    let v = join "/" (p ∷ ps) in
    if contains "." (p ∷ ps) || contains ".." (p ∷ ps) then "" else if is_allowed v then v else ""

unfoldable pub normalize_module_ref : String → String
unfolding strip replace_char collapse lstrip_char rstrip_char split_on non_empty_parts ref_of_parts
normalize_module_ref value =
    let v = strip value in
    if is_empty v
    then ""
    else ref_of_parts (
        non_empty_parts
          (split_on 47 (rstrip_char 47 (lstrip_char 47 (collapse (replace_char 46 "/" v))))))

-- `v.replace("/", "__")`
unfoldable pub replace_slashes : String → String
replace_slashes String.[] = ""
replace_slashes (String.◌∷◌ c s) =
    let rest = replace_slashes s in if nat_eq (code c) 47 then "__" ++ rest else String.◌∷◌ c rest

unfoldable pub module_id_from_ref : String → String
unfolding normalize_module_ref replace_slashes
module_id_from_ref module_ref = replace_slashes (normalize_module_ref module_ref)

abbrev is_instance_char : ℕ → Bool
is_instance_char n = is_lower_or_digit n || nat_eq n 95 || nat_eq n 46 || nat_eq n 45

-- `_STATE_INSTANCE_RE.fullmatch`: `^[a-z0-9][a-z0-9_.-]{0,63}$`
unfoldable pub is_state_instance : String → Bool
unfolding all_chars
is_state_instance String.[] = false
is_state_instance (String.◌∷◌ c s) =
    is_lower_or_digit (code c) && leb (count s) 63 && all_chars is_instance_char s

-- No instance is the empty text.
unfoldable pub normalize_state_instance : String → Raises String
unfolding strip lower is_state_instance
normalize_state_instance value =
    let raw = lower (strip value) in
    if is_empty raw
    then ok ""
    else if is_state_instance raw
    then ok raw
    else value_error "state_instance must match ^[a-z0-9][a-z0-9_.-]{0,63}$"

-- The text before the first `#` and the instance after it.
unfoldable pub split_suffix : String → Raises (String × String)
unfolding split_once strip normalize_state_instance
split_suffix raw_ref = elim (split_once 35 raw_ref) [
  | none ↦ ok (raw_ref, "")
  | some found ↦ normalize_state_instance found.1 >>= λ from_ref. ok (strip found.0, from_ref)
]

-- From the test of the two instances on.
unfoldable pub choose_instance : String → String → String → Raises (String × String)
unfolding repr_text
choose_instance ref from_ref explicit =
    if not (is_empty from_ref) && not (is_empty explicit) && not (from_ref == explicit)
    then value_error (
        "conflicting state_instance in module_ref and argument: "
        ++ repr_text from_ref
        ++ " vs "
        ++ repr_text explicit)
    else ok (ref, (if is_empty explicit then from_ref else explicit))

unfoldable pub split_module_state_ref : String → String → Raises (String × String)
unfolding strip split_suffix normalize_module_ref normalize_state_instance choose_instance repr_text
split_module_state_ref module_ref state_instance =
    if is_empty (strip module_ref)
    then value_error "module_ref is required"
    else (split_suffix (strip module_ref) >>= λ parts.
        let ref = normalize_module_ref parts.0 in
        if is_empty ref
        then value_error ("invalid module_ref: " ++ repr_text module_ref)
        else (normalize_state_instance state_instance >>= λ explicit.
            choose_instance ref parts.1 explicit))

unfoldable pub normalize_module_state_ref : String → String → Raises String
unfolding split_module_state_ref
normalize_module_state_ref module_ref state_instance =
    split_module_state_ref module_ref state_instance >>= λ parts.
    ok (if is_empty parts.1 then parts.0 else parts.0 ++ "#" ++ parts.1)
