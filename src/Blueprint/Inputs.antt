-- ===== src/Blueprint/Inputs.antt =====
-- The inputs of a step: `merge_mappings` of hyops/blueprint/common.py, and of
-- hyops/blueprint/contracts.py the pruning of empty inputs, the search for a drift from the inputs
-- of the existing state, and `explicit_step_inputs_changed`.
pub mod Merge
pub mod Paths
pub mod Blank
pub mod Pruning
pub mod Skipping
pub mod Drift
use Prim.Native.String.{◌++◌}
use hybridops_core.Prelude.{String, Bool, true, false, Option, none, some, if◌then◌else◌, ◌==◌}
use hybridops_core.Text.{is_empty, is_blank}
use hybridops_core.Value.{
  Value, null, bool, int, str, opaque, seq, dict, Items, nil, cons, Fields, end, field, get,
  eq_value, fields_empty, items_empty,
}

-- `out[key] = value`
unfoldable pub put : String → Value → Fields → Fields
put key new end = field key new end
put key new (field name value rest) =
    if name == key then field name new rest else field name value (put key new rest)

unfoldable mutual
  unfolding put get

  -- `merge_mappings`
  pub merge_mappings : Fields → Fields → Fields
  merge_mappings out end = out
  merge_mappings out (field key value override) =
      merge_mappings (put key (merge_value (get key out) value) out) override

  -- The new value of a key.
  pub merge_value : Option Value → Value → Value
  merge_value old (dict override) = elim old [
    | none ↦ dict override
    | some v ↦ elim v [ dict base ↦ dict (merge_mappings base override) | _ ↦ dict override ]
  ]
  merge_value old value = value

-- `None`, a blank text, an empty dict or an empty list
abbrev pub is_dropped : Value → Bool
is_dropped null = true
is_dropped (str s) = is_blank s
is_dropped (seq xs) = items_empty xs
is_dropped (dict fs) = fields_empty fs
is_dropped _ = false

unfoldable mutual
  -- `_prune_empty_explicit_inputs`
  pub prune : Value → Value
  prune (dict fs) = dict (prune_fields fs)
  prune (seq xs) = seq (prune_items xs)
  prune v = v

  pub prune_fields : Fields → Fields
  prune_fields end = end
  prune_fields (field key v fs) =
      let pruned = prune v in
      let rest = prune_fields fs in if is_dropped pruned then rest else field key pruned rest

  pub prune_items : Items → Items
  prune_items nil = nil
  prune_items (cons v xs) =
      let pruned = prune v in
      let rest = prune_items xs in if is_dropped pruned then rest else cons pruned rest

abbrev pub child_path : String → String → String
child_path path key = if is_empty path then key else path ++ "." ++ key

unfoldable mutual
  unfolding get eq_value

  -- `_explicit_input_drift_detail`: empty when there is no drift.
  pub drift_detail : Value → Value → String → String
  drift_detail (dict current) baseline path = elim baseline [
    | dict known ↦ fields_drift current known path
    | _ ↦ path ++ " changed"
  ]
  drift_detail current baseline path = if eq_value current baseline then "" else path ++ " changed"

  -- `for key, value in current.items()`
  pub fields_drift : Fields → Fields → String → String
  fields_drift end known path = ""
  fields_drift (field key value current) known path =
      let rest = fields_drift current known path in
      elim (get key known) [
        | none ↦ child_path path key ++ " changed"
        | some old ↦
            let detail = drift_detail value old (child_path path key) in
            if is_empty detail then rest else detail
      ]

-- The three early returns of `explicit_step_inputs_changed`, and the last one.
abbrev pub report_change : Bool → Bool → String → Bool × String
report_change no_inputs no_baseline detail =
    if no_inputs
    then (false, "")
    else if no_baseline
    then (false, "")
    else if is_empty detail
    then (false, "")
    else (true, detail)

-- `explicit_step_inputs_changed`, given the inputs of the file, if there is one, after
-- `sanitize_rerun_inputs`, and those of the existing state.
unfoldable pub explicit_step_inputs_changed : Option Fields → Fields → Bool × String
unfolding prune drift_detail
explicit_step_inputs_changed none baseline = (false, "")
explicit_step_inputs_changed (some inputs) baseline =
    let current = prune_fields inputs in
    let detail = fields_drift current baseline "" in
    report_change (fields_empty current) (fields_empty baseline) detail
