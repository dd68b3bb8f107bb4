-- ===== src/Blueprint/Inputs/Drift.antt =====
-- When a drift of the explicit inputs is reported (hyops/blueprint/contracts.py).
use Prim.Native.String.{◌++◌}
use text.Mathlib.TextLemmas.{cons-append}
use hybridops_core.Prelude.{
  String, ◌≡◌, Bool, true, false, Option, none, some, arith, refl, ◌&&◌, if◌then◌else◌, ◌↔◌, sym,
  inl, inr, Bool-cases, ◌∙◌,
}
use hybridops_core.Text.{is_empty}
use hybridops_core.Value.{
  Value, null, bool, int, str, opaque, seq, dict, Fields, end, field, get, eq_value, fields_empty,
}
use hybridops_core.Blueprint.Inputs.{
  drift_detail, fields_drift, child_path, explicit_step_inputs_changed, report_change, prune_fields,
  prune,
}
use hybridops_core.Blueprint.Inputs.Blank.{
  blank, blank_fields, is_dropped-prune, fields_empty-prune_fields,
}
use hybridops_core.Blueprint.Inputs.Skipping.{stands, stands_fields, eq_value-prune, found_alike}

-- Every input that the pruning left stands in the baseline.
mutual
  unfolding get eq_value

  covers : Value → Value → Bool
  covers (dict current) baseline = elim baseline [
    | dict known ↦ covers_fields current known
    | _ ↦ false
  ]
  covers current baseline = eq_value current baseline

  covers_fields : Fields → Fields → Bool
  covers_fields end known = true
  covers_fields (field key value current) known =
      elim (get key known) [ none ↦ false | some old ↦ covers value old ]
      && covers_fields current known

is_empty-changed : (path : String) → is_empty (path ++ " changed") ≡ false
is_empty-changed String.[] = refl
is_empty-changed (String.◌∷◌ c s) = rw (cons-append c s " changed") refl

is_empty-if_changed :
    (b : Bool) (path : String) → is_empty (if b then "" else path ++ " changed") ≡ b
is_empty-if_changed true path = refl
is_empty-if_changed false path = is_empty-changed path

-- One key: what the search finds there and in the rest.
found_drift :
    (found : Option Value) (value : Value) (rest path : String) {b : Bool}
    → ((old : Value) → is_empty (drift_detail value old path) ≡ covers value old)
    → is_empty rest ≡ b
    → is_empty (elim found [
      | none ↦ path ++ " changed"
      | some old ↦
          let detail = drift_detail value old path in if is_empty detail then rest else detail
    ])
      ≡ (elim found [ none ↦ false | some old ↦ covers value old ] && b)
found_drift none value rest path h k = is_empty-changed path
found_drift (some old) value rest path h k = ground (arith, h old, k)

mutual
  unfolding drift_detail covers

  is_empty-drift_detail :
      (current baseline : Value) (path : String)
      → is_empty (drift_detail current baseline path) ≡ covers current baseline
  is_empty-drift_detail (dict current) (dict known) path = is_empty-fields_drift current known path
  is_empty-drift_detail (dict current) null path = is_empty-changed path
  is_empty-drift_detail (dict current) (bool b) path = is_empty-changed path
  is_empty-drift_detail (dict current) (int z) path = is_empty-changed path
  is_empty-drift_detail (dict current) (str s) path = is_empty-changed path
  is_empty-drift_detail (dict current) (opaque o) path = is_empty-changed path
  is_empty-drift_detail (dict current) (seq xs) path = is_empty-changed path
  is_empty-drift_detail null b path = is_empty-if_changed (eq_value null b) path
  is_empty-drift_detail (bool a) b path = is_empty-if_changed (eq_value (bool a) b) path
  is_empty-drift_detail (int a) b path = is_empty-if_changed (eq_value (int a) b) path
  is_empty-drift_detail (str a) b path = is_empty-if_changed (eq_value (str a) b) path
  is_empty-drift_detail (opaque o) b path = is_empty-if_changed (eq_value (opaque o) b) path
  is_empty-drift_detail (seq xs) b path = is_empty-if_changed (eq_value (seq xs) b) path

  is_empty-fields_drift :
      (current known : Fields) (path : String)
      → is_empty (fields_drift current known path) ≡ covers_fields current known
  is_empty-fields_drift end known path = refl
  is_empty-fields_drift (field key value current) known path =
      found_drift (get key known) value (fields_drift current known path) (child_path path key)
        (λ old. is_empty-drift_detail value old (child_path path key))
        (is_empty-fields_drift current known path)

reported :
    (a b : Bool) (detail : String) {c : Bool}
    → is_empty detail ≡ c
    → ((report_change a b detail).0 ≡ true) ↔ (a ≡ false) × (b ≡ false) × (c ≡ false)
reported true b detail h = ground arith
reported false true detail h = ground arith
reported false false detail h = ground (arith, h)

-- Covering by what the pruning leaves is standing in the baseline with the blank entries passed over.
mutual
  unfolding covers stands prune blank get

  covers-prune : (v old : Value) → covers (prune v) old ≡ stands v old
  covers-prune (dict current) (dict known) = covers_fields-prune_fields current known
  covers-prune (dict current) null = refl
  covers-prune (dict current) (bool b) = refl
  covers-prune (dict current) (int z) = refl
  covers-prune (dict current) (str s) = refl
  covers-prune (dict current) (opaque o) = refl
  covers-prune (dict current) (seq xs) = refl
  covers-prune null old = eq_value-prune null old
  covers-prune (bool b) old = eq_value-prune (bool b) old
  covers-prune (int z) old = eq_value-prune (int z) old
  covers-prune (str s) old = eq_value-prune (str s) old
  covers-prune (opaque o) old = eq_value-prune (opaque o) old
  covers-prune (seq xs) old = eq_value-prune (seq xs) old

  covers_fields-prune_fields :
      (fs known : Fields) → covers_fields (prune_fields fs) known ≡ stands_fields fs known
  covers_fields-prune_fields end known = refl
  covers_fields-prune_fields (field name v fs) known = elim (Bool-cases (blank v)) [
    | inl e ↦ rw (is_dropped-prune v, e) (covers_fields-prune_fields fs known)
    | inr e ↦
        rw
          (
            is_dropped-prune v,
            e,
            found_alike (get name known) (covers-prune v),
            covers_fields-prune_fields fs known,
          )
          refl
  ]

-- A change is reported exactly if some input of the file is not blank, the existing state has
-- inputs, and some input of the file that is not blank does not stand in those of the state. An
-- input is blank that is null or a blank text, or a dict or a list of nothing but such. Inside a
-- dict the keys are looked up one by one, those of blank values left out; any other value stands
-- there if it is equal to the one of the state, its blank entries at any depth left out.
pub explicit_step_inputs_changed_iff :
    (inputs baseline : Fields)
    → ((explicit_step_inputs_changed (some inputs) baseline).0 ≡ true)
      ↔ (blank_fields inputs ≡ false)
        × (fields_empty baseline ≡ false)
        × (stands_fields inputs baseline ≡ false)
unfolding explicit_step_inputs_changed
explicit_step_inputs_changed_iff inputs baseline =
    let detail = fields_drift (prune_fields inputs) baseline "" in
    let kept = is_empty-fields_drift (prune_fields inputs) baseline "" in
    let same = covers_fields-prune_fields inputs baseline in
    rw (sym (fields_empty-prune_fields inputs))
      (reported (fields_empty (prune_fields inputs)) (fields_empty baseline) detail (kept ∙ same))
