-- ===== src/State/Inputs.antt =====
-- Nested inputs: `set_nested`, `try_get_nested` and `parse_input_path` of
-- hyops/runtime/module_inputs.py. A path that is set has a first segment and the others.
pub mod Laws
use Prim.Native.String.{◌++◌}
use hybridops_core.Prelude.{
  ℕ, String, Bool, true, false, Option, none, some, List, [], ◌∷◌, is_some, any_of, ◌&&◌, ◌||◌, not,
  nat_eq, if◌then◌else◌,
}
use hybridops_core.Text.{is_empty, strip}
use hybridops_core.Text.Split.{
  split_on, non_empty_parts, all_chars, is_lower_or_digit, is_upper_letter,
}
use hybridops_core.Raises.{Raises, ok, value_error, ◌>>=◌, ◌>>◌, require}
use hybridops_core.Value.{Value, null, dict, Fields, end, get, as_dict}
use hybridops_core.Value.Printing.{repr_text}
use hybridops_core.Value.Update.{set_field}
use hybridops_core.Blueprint.References.{list_empty}

-- The dict under a key, or an empty one in place of anything else.
abbrev pub dict_or_empty : Option Value → Fields
dict_or_empty (some (dict fs)) = fs
dict_or_empty _ = end

unfoldable pub set_nested : String → List String → Value → Fields → Fields
unfolding set_field get
set_nested key [] value dst = set_field key value dst
set_nested key (next ∷ path) value dst =
    set_field key (dict (set_nested next path value (dict_or_empty (get key dst)))) dst

-- `for part in ...: cur = cur.get(part)`
unfoldable pub walk : List String → Value → Option Value
unfolding get
walk [] cur = some cur
walk (part ∷ parts) cur = elim (as_dict cur) [
  | none ↦ none
  | some fs ↦ elim (get part fs) [ none ↦ none | some v ↦ walk parts v ]
]

abbrev pub has_dot : String → Bool
has_dot key = not (all_chars (λ c. not (nat_eq c 46)) key)

-- From the look at the flat key on. None is `(False, None)`.
abbrev pub flat_or_nested : Option Value → Fields → String → Option Value
flat_or_nested (some v) src key = some v
flat_or_nested none src key =
    if has_dot key then walk (non_empty_parts (split_on 46 key)) (dict src) else none

unfoldable pub try_get_nested : Fields → String → Option Value
unfolding walk split_on non_empty_parts all_chars get
try_get_nested src key = flat_or_nested (get key src) src key

-- `^[a-zA-Z0-9_-]+$`
abbrev is_segment : String → Bool
is_segment part =
    not (is_empty part)
    && all_chars (λ c. is_lower_or_digit c || is_upper_letter c || nat_eq c 95 || nat_eq c 45) part

unfoldable pub check_segments : List String → Raises (Unit {0})
unfolding all_chars repr_text
check_segments [] = ok tt
check_segments (part ∷ parts) =
    require (is_segment part) ("invalid input path segment: " ++ repr_text part)
    >> check_segments parts

unfoldable pub parse_input_path : String → Raises (List String)
unfolding split_on non_empty_parts strip check_segments repr_text
parse_input_path path =
    let parts = non_empty_parts (split_on 46 (strip path)) in
    require (not (list_empty parts)) ("invalid input path: " ++ repr_text path)
    >> (check_segments parts >> ok parts)
