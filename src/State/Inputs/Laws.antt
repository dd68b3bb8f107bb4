-- ===== src/State/Inputs/Laws.antt =====
-- What is set at an input path (hyops/runtime/module_inputs.py) is read there.
use hybridops_core.Prelude.{
  String, Bool, true, Option, none, some, List, [], ◌∷◌, ◌≡◌, sym, ap, ◌∙◌, arith, eq_refl, not,
  if◌then◌else◌,
}
use hybridops_core.Text.{strip}
use hybridops_core.Text.Split.{split_on, non_empty_parts}
use hybridops_core.Raises.{ok, >>=-elim_ok, require-eq-ok}
use hybridops_core.Value.{Value, dict, Fields, get}
use hybridops_core.Value.Update.{set_field, get-set_field}
use hybridops_core.Blueprint.References.{list_empty}
use hybridops_core.State.Inputs.{
  dict_or_empty, set_nested, walk, try_get_nested, check_segments, parse_input_path, has_dot,
  flat_or_nested,
}

get-set_field_same :
    (key : String) (value : Value) (fs : Fields) → get key (set_field key value fs) ≡ some value
get-set_field_same key value fs = ground (arith, get-set_field key key value fs, eq_refl key)

walk-found :
    (part : String) (parts : List String) (fs : Fields) (v : Value)
    → get part fs ≡ some v
    → walk (part ∷ parts) (dict fs) ≡ walk parts v
unfolding walk
walk-found part parts fs v e = ground arith

walk-set_nested :
    (key : String) (path : List String) (value : Value) (dst : Fields)
    → walk (key ∷ path) (dict (set_nested key path value dst)) ≡ some value
unfolding set_nested walk
walk-set_nested key [] value dst =
    walk-found key [] (set_field key value dst) value (get-set_field_same key value dst)
walk-set_nested key (next ∷ path) value dst =
    let inner = set_nested next path value (dict_or_empty (get key dst)) in
    walk-found key (next ∷ path) (set_field key (dict inner) dst) (dict inner)
      (get-set_field_same key (dict inner) dst)
    ∙ walk-set_nested next path value (dict_or_empty (get key dst))

parse_input_path-parts :
    (path : String) (parts : List String)
    → parse_input_path path ≡ ok parts
    → non_empty_parts (split_on 46 (strip path)) ≡ parts
unfolding parse_input_path
parse_input_path-parts path parts h =
    let found = non_empty_parts (split_on 46 (strip path)) in
    let (some_part, h1) = require-eq-ok (not (list_empty found)) _ _ h in
    >>=-elim_ok (check_segments found) _ h1 (λ checked e h2. ok_inj h2)
  where
    ok_inj : {a b : List String} → ok a ≡ ok b → a ≡ b
    ok_inj p = cc

-- A value that is set at a parsed path is read at the path's text, when the text has a dot and no
-- white space around it, and is not itself a key of the inputs.
pub try_get_nested-set_nested :
    (text key : String) (path : List String) (value : Value) (dst : Fields)
    → parse_input_path text ≡ ok (key ∷ path)
    → strip text ≡ text
    → has_dot text ≡ true
    → get text (set_nested key path value dst) ≡ none
    → try_get_nested (set_nested key path value dst) text ≡ some value
unfolding try_get_nested
try_get_nested-set_nested text key path value dst parsed bare dotted absent =
    let src = set_nested key path value dst in
    let parts : non_empty_parts (split_on 46 text) ≡ key ∷ path =
      ap (λ s. non_empty_parts (split_on 46 s)) (sym bare)
      ∙ parse_input_path-parts text (key ∷ path) parsed in
    let read = walk-set_nested key path value dst in
    ap (λ o. flat_or_nested o src text) absent
    ∙ if_true none dotted
    ∙ ap (λ ps. walk ps (dict src)) parts
    ∙ read
  where
    if_true : {b : Bool} {x : Option Value} (y : Option Value) → b ≡ true → (if b then x else y) ≡ x
    if_true y e = rw e
