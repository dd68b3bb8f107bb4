-- ===== src/Blueprint/Inputs/Skipping.antt =====
-- Inputs beside the inputs of a state, without the pruning: blank entries are passed over on the
-- way. The comparison is that of `_explicit_input_drift_detail` in hyops/blueprint/contracts.py.
use hybridops_core.Prelude.{
  ℕ, suc, ◌≡◌, Bool, true, false, Option, none, some, refl, ◌&&◌, ◌||◌, nat_eq, inl, inr,
  Bool-cases, if◌then◌else◌,
}
use hybridops_core.Value.{
  Value, null, bool, int, str, opaque, seq, dict, Items, nil, cons, Fields, end, field, get,
  eq_value, eq_items, within_fields, size_fields,
}
use hybridops_core.Blueprint.Inputs.{prune, prune_fields, prune_items}
use hybridops_core.Blueprint.Inputs.Blank.{blank, is_dropped-prune}

-- The number of fields that are not blank.
unfoldable pub count_filled : Fields → ℕ
unfolding blank
count_filled end = 0
count_filled (field name v fs) = if blank v then count_filled fs else suc (count_filled fs)

-- `==`, where the entries of the left side that are blank do not count.
unfoldable mutual
  unfolding get eq_value blank count_filled

  pub same : Value → Value → Bool
  same (seq xs) w = elim w [ seq ys ↦ same_items xs ys | _ ↦ false ]
  same (dict fs) w = elim w [
    | dict gs ↦ nat_eq (count_filled fs) (size_fields gs) && same_fields fs gs
    | _ ↦ false
  ]
  same null w = eq_value null w
  same (bool b) w = eq_value (bool b) w
  same (int z) w = eq_value (int z) w
  same (str s) w = eq_value (str s) w
  same (opaque o) w = eq_value (opaque o) w

  pub same_items : Items → Items → Bool
  same_items nil ys = elim ys [ nil ↦ true | _ ↦ false ]
  same_items (cons x xs) ys =
      if blank x
      then same_items xs ys
      else elim ys [ nil ↦ false | cons y ys' ↦ same x y && same_items xs ys' ]

  pub same_fields : Fields → Fields → Bool
  same_fields end gs = true
  same_fields (field name v fs) gs =
      (blank v || elim (get name gs) [ none ↦ false | some w ↦ same v w ]) && same_fields fs gs

-- Every input that is not blank stands in the baseline: dicts key by key, everything else as a whole.
unfoldable mutual
  unfolding get same blank

  pub stands : Value → Value → Bool
  stands (dict current) baseline = elim baseline [
    | dict known ↦ stands_fields current known
    | _ ↦ false
  ]
  stands current baseline = same current baseline

  pub stands_fields : Fields → Fields → Bool
  stands_fields end known = true
  stands_fields (field name v current) known =
      (blank v || elim (get name known) [ none ↦ false | some old ↦ stands v old ])
      && stands_fields current known

size_fields-prune_fields : (fs : Fields) → size_fields (prune_fields fs) ≡ count_filled fs
unfolding prune count_filled blank
size_fields-prune_fields end = refl
size_fields-prune_fields (field name v fs) = elim (Bool-cases (blank v)) [
  | inl e ↦ rw (is_dropped-prune v, e) (size_fields-prune_fields fs)
  | inr e ↦ rw (is_dropped-prune v, e, size_fields-prune_fields fs) refl
]

-- Two tests that agree on what is found.
pub found_alike :
    (found : Option Value) {f g : Value → Bool}
    → ((w : Value) → f w ≡ g w)
    → elim found [ none ↦ false | some w ↦ f w ] ≡ elim found [ none ↦ false | some w ↦ g w ]
found_alike none h = refl
found_alike (some w) h = h w

-- Comparing what the pruning leaves is comparing with the blank entries passed over.
mutual
  unfolding eq_value prune same blank get

  pub eq_value-prune : (v w : Value) → eq_value (prune v) w ≡ same v w
  eq_value-prune (seq xs) (seq ys) = eq_items-prune_items xs ys
  eq_value-prune (seq xs) null = refl
  eq_value-prune (seq xs) (bool b) = refl
  eq_value-prune (seq xs) (int z) = refl
  eq_value-prune (seq xs) (str s) = refl
  eq_value-prune (seq xs) (opaque o) = refl
  eq_value-prune (seq xs) (dict gs) = refl
  eq_value-prune (dict fs) (dict gs) =
      rw (size_fields-prune_fields fs, within_fields-prune_fields fs gs) refl
  eq_value-prune (dict fs) null = refl
  eq_value-prune (dict fs) (bool b) = refl
  eq_value-prune (dict fs) (int z) = refl
  eq_value-prune (dict fs) (str s) = refl
  eq_value-prune (dict fs) (opaque o) = refl
  eq_value-prune (dict fs) (seq ys) = refl
  eq_value-prune null w = refl
  eq_value-prune (bool b) w = refl
  eq_value-prune (int z) w = refl
  eq_value-prune (str s) w = refl
  eq_value-prune (opaque o) w = refl

  eq_items-prune_items : (xs ys : Items) → eq_items (prune_items xs) ys ≡ same_items xs ys
  eq_items-prune_items nil ys = refl
  eq_items-prune_items (cons x xs) nil = elim (Bool-cases (blank x)) [
    | inl e ↦ rw (is_dropped-prune x, e) (eq_items-prune_items xs nil)
    | inr e ↦ rw (is_dropped-prune x, e) refl
  ]
  eq_items-prune_items (cons x xs) (cons y ys) = elim (Bool-cases (blank x)) [
    | inl e ↦ rw (is_dropped-prune x, e) (eq_items-prune_items xs (cons y ys))
    | inr e ↦ rw (is_dropped-prune x, e, eq_value-prune x y, eq_items-prune_items xs ys) refl
  ]

  within_fields-prune_fields :
      (fs gs : Fields) → within_fields (prune_fields fs) gs ≡ same_fields fs gs
  within_fields-prune_fields end gs = refl
  within_fields-prune_fields (field name v fs) gs = elim (Bool-cases (blank v)) [
    | inl e ↦ rw (is_dropped-prune v, e) (within_fields-prune_fields fs gs)
    | inr e ↦
        rw
          (
            is_dropped-prune v,
            e,
            found_alike (get name gs) (eq_value-prune v),
            within_fields-prune_fields fs gs,
          )
          refl
  ]
