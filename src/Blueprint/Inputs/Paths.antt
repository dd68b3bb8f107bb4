-- ===== src/Blueprint/Inputs/Paths.antt =====
-- What `merge_mappings` (hyops/blueprint/common.py) leaves at the end of a path of keys.
use hybridops_core.Prelude.{
  String, ◌≡◌, Bool, true, false, Option, none, some, List, [], ◌∷◌, arith, refl, sym, ◌==◌, ◌&&◌,
  if◌then◌else◌, inl, inr, Bool-cases,
}
use hybridops_core.Value.{
  Value, null, bool, int, str, opaque, seq, dict, Fields, end, field, get, as_dict,
}
use hybridops_core.Blueprint.Inputs.{merge_mappings, merge_value}
use hybridops_core.Blueprint.Inputs.Merge.{keys_distinct, merged, get-merge_mappings}

-- No key stands twice, in the dict and in the dicts in it.
unfoldable mutual
  unfolding keys_distinct

  pub all_distinct : Value → Bool
  all_distinct (dict fs) = keys_distinct fs && all_distinct_fields fs
  all_distinct _ = true

  pub all_distinct_fields : Fields → Bool
  all_distinct_fields end = true
  all_distinct_fields (field name v fs) = all_distinct v && all_distinct_fields fs

-- Of a dict only that it is one.
unfoldable outline : Value → Value
outline (dict fs) = dict end
outline v = v

-- The same of a value that may be missing.
unfoldable pub all_found_distinct : Option Value → Bool
unfolding all_distinct
all_found_distinct none = true
all_found_distinct (some v) = all_distinct v

-- What stands at the end of a path of keys.
unfoldable pub value_at : List String → Option Value → Option Value
unfolding get outline
value_at path none = none
value_at [] (some v) = some (outline v)
value_at (key ∷ path) (some v) = elim (as_dict v) [
  | none ↦ none
  | some fs ↦ value_at path (get key fs)
]

-- The path meets a value that is no dict before its end.
unfoldable pub runs_into : List String → Option Value → Bool
unfolding get
runs_into path none = false
runs_into [] (some v) = false
runs_into (key ∷ path) (some v) = elim (as_dict v) [
  | none ↦ true
  | some fs ↦ runs_into path (get key fs)
]

-- At the end of a path: what the override has there; else nothing, if the path runs into a value of
-- the override; else what the base has there.
unfoldable pub overlaid : List String → Option Value → Option Value → Option Value
unfolding value_at runs_into
overlaid path base override = elim (value_at path override) [
  | some v ↦ some v
  | none ↦ if runs_into path override then none else value_at path base
]

and_left : (a b : Bool) → (a && b) ≡ true → a ≡ true
and_left a b h = ground arith

and_right : (a b : Bool) → (a && b) ≡ true → b ≡ true
and_right a b h = ground arith

-- No key stands twice in what a dict without such keys has under a key.
found_all_distinct :
    (key : String) (fs : Fields) {found : Option Value}
    → all_distinct_fields fs ≡ true
    → get key fs ≡ found
    → all_found_distinct found ≡ true
unfolding all_distinct get all_found_distinct
found_all_distinct key end h p = rw (sym p) refl
found_all_distinct key (field name w fs) h p = elim (Bool-cases (name == key)) [
  | inl e ↦ rw (sym (rw e at p)) (and_left (all_distinct w) (all_distinct_fields fs) h)
  | inr e ↦
      found_all_distinct key fs (and_right (all_distinct w) (all_distinct_fields fs) h) (rw e at p)
]

override_alone :
    (o : Option Value) (b : Bool) (rest : Option Value)
    → b ≡ true
    → o ≡ elim o [ some v ↦ some v | none ↦ if b then none else rest ]
override_alone none true rest h = refl
override_alone none false rest h = ground arith
override_alone (some v) b rest h = refl

-- A value that is no dict takes the place of the base.
overlaid_scalar :
    (path : List String) (base : Option Value) (v : Value)
    → as_dict v ≡ none
    → value_at path (some v) ≡ overlaid path base (some v)
unfolding overlaid value_at runs_into
overlaid_scalar [] base v h = refl
overlaid_scalar (key ∷ path) base v h =
    override_alone (value_at (key ∷ path) (some v)) (runs_into (key ∷ path) (some v))
      (value_at (key ∷ path) base) (rw (runs_into, h) refl)

present_alone :
    (o : Option Value) (b : Bool) {rest : Option Value}
    → rest ≡ none
    → o ≡ elim o [ some v ↦ some v | none ↦ if b then none else rest ]
present_alone none true h = refl
present_alone none false h = sym h
present_alone (some v) b h = refl

-- A dict that comes where there was none.
overlaid_dict :
    (path : List String) (base : Option Value) (fs : Fields)
    → elim base [ none ↦ none | some v ↦ as_dict v ] ≡ none
    → value_at path (some (dict fs)) ≡ overlaid path base (some (dict fs))
unfolding overlaid value_at outline runs_into
overlaid_dict [] base fs h = refl
overlaid_dict (key ∷ path) none fs h =
    present_alone (value_at path (get key fs)) (runs_into path (get key fs)) refl
overlaid_dict (key ∷ path) (some v) fs h =
    present_alone (value_at path (get key fs)) (runs_into path (get key fs)) (rw (value_at, h) refl)

value_at-merged :
    (path : List String) (base override : Option Value)
    → all_found_distinct override ≡ true
    → value_at path (merged base override) ≡ overlaid path base override
unfolding overlaid value_at runs_into merge_value outline all_distinct all_found_distinct
value_at-merged path base none h = refl
value_at-merged path base (some null) h = overlaid_scalar path base null refl
value_at-merged path base (some (bool b)) h = overlaid_scalar path base (bool b) refl
value_at-merged path base (some (int z)) h = overlaid_scalar path base (int z) refl
value_at-merged path base (some (str s)) h = overlaid_scalar path base (str s) refl
value_at-merged path base (some (opaque o)) h = overlaid_scalar path base (opaque o) refl
value_at-merged path base (some (seq xs)) h = overlaid_scalar path base (seq xs) refl
value_at-merged path none (some (dict fs)) h = overlaid_dict path none fs refl
value_at-merged path (some null) (some (dict fs)) h = overlaid_dict path (some null) fs refl
value_at-merged path (some (bool b)) (some (dict fs)) h = overlaid_dict path (some (bool b)) fs refl
value_at-merged path (some (int z)) (some (dict fs)) h = overlaid_dict path (some (int z)) fs refl
value_at-merged path (some (str s)) (some (dict fs)) h = overlaid_dict path (some (str s)) fs refl
value_at-merged path (some (opaque o)) (some (dict fs)) h =
    overlaid_dict path (some (opaque o)) fs refl
value_at-merged path (some (seq xs)) (some (dict fs)) h = overlaid_dict path (some (seq xs)) fs refl
value_at-merged [] (some (dict base)) (some (dict fs)) h = refl
value_at-merged (key ∷ path) (some (dict base)) (some (dict fs)) h =
    let distinct = and_left (keys_distinct fs) (all_distinct_fields fs) h in
    let inside = and_right (keys_distinct fs) (all_distinct_fields fs) h in
    let found = get-merge_mappings base fs key distinct in
    let later =
      value_at-merged path (get key base) (get key fs) (found_all_distinct key fs inside refl) in
    rw found later

-- For an override in which no key stands twice, neither in it nor in a dict in it: at the end of
-- every path of keys the merge has what the override has there; where it has nothing, what the base
-- has there, or nothing if the path runs into a value of the override that is no dict. Of a dict at
-- the end of the path it is only said that it is one.
pub value_at-merge_mappings :
    (base override : Fields) (path : List String)
    → all_distinct (dict override) ≡ true
    → value_at path (some (dict (merge_mappings base override)))
      ≡ overlaid path (some (dict base)) (some (dict override))
unfolding merge_mappings all_found_distinct all_distinct
value_at-merge_mappings base override path h =
    value_at-merged path (some (dict base)) (some (dict override)) h
