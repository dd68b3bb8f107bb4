-- ===== src/Blueprint/Inputs/Blank.antt =====
-- When the pruning of empty inputs (hyops/blueprint/contracts.py) drops a value.
use hybridops_core.Prelude.{◌≡◌, Bool, true, false, String, refl, ◌&&◌, sym, inl, inr, Bool-cases}
use hybridops_core.Text.{is_blank}
use hybridops_core.Value.{
  Value, null, bool, int, str, opaque, seq, dict, Items, nil, cons, Fields, end, field,
  fields_empty, items_empty,
}
use hybridops_core.Blueprint.Inputs.{is_dropped, prune, prune_fields, prune_items}

-- `null`, a blank text, or a dict or a list of nothing but such values, at any depth.
unfoldable mutual
  pub blank : Value → Bool
  blank null = true
  blank (str s) = is_blank s
  blank (dict fs) = blank_fields fs
  blank (seq xs) = blank_items xs
  blank (bool b) = false
  blank (int z) = false
  blank (opaque o) = false

  pub blank_fields : Fields → Bool
  blank_fields end = true
  blank_fields (field name v fs) = blank v && blank_fields fs

  pub blank_items : Items → Bool
  blank_items nil = true
  blank_items (cons v xs) = blank v && blank_items xs

fields_empty-kept :
    (name : String) (v : Value) (fs : Fields) {b c : Bool}
    → is_dropped (prune v) ≡ b
    → fields_empty (prune_fields fs) ≡ c
    → fields_empty (prune_fields (field name v fs)) ≡ (b && c)
unfolding prune
fields_empty-kept name v fs h k = elim (Bool-cases (is_dropped (prune v))) [
  | inl e ↦ rw (e, sym h, e) k
  | inr e ↦ rw (e, sym h, e) refl
]

items_empty-kept :
    (v : Value) (xs : Items) {b c : Bool}
    → is_dropped (prune v) ≡ b
    → items_empty (prune_items xs) ≡ c
    → items_empty (prune_items (cons v xs)) ≡ (b && c)
unfolding prune
items_empty-kept v xs h k = elim (Bool-cases (is_dropped (prune v))) [
  | inl e ↦ rw (e, sym h, e) k
  | inr e ↦ rw (e, sym h, e) refl
]

-- What is dropped after the pruning was blank before it.
mutual
  unfolding prune blank

  pub is_dropped-prune : (v : Value) → is_dropped (prune v) ≡ blank v
  is_dropped-prune null = refl
  is_dropped-prune (str s) = refl
  is_dropped-prune (dict fs) = fields_empty-prune_fields fs
  is_dropped-prune (seq xs) = items_empty-prune_items xs
  is_dropped-prune (bool b) = refl
  is_dropped-prune (int z) = refl
  is_dropped-prune (opaque o) = refl

  pub fields_empty-prune_fields : (fs : Fields) → fields_empty (prune_fields fs) ≡ blank_fields fs
  fields_empty-prune_fields end = refl
  fields_empty-prune_fields (field name v fs) =
      fields_empty-kept name v fs (is_dropped-prune v) (fields_empty-prune_fields fs)

  pub items_empty-prune_items : (xs : Items) → items_empty (prune_items xs) ≡ blank_items xs
  items_empty-prune_items nil = refl
  items_empty-prune_items (cons v xs) =
      items_empty-kept v xs (is_dropped-prune v) (items_empty-prune_items xs)
