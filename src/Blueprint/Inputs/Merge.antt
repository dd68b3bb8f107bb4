-- ===== src/Blueprint/Inputs/Merge.antt =====
-- What `merge_mappings` (hyops/blueprint/common.py) leaves under a key.
use hybridops_core.Prelude.{
  String, ◌≡◌, Bool, true, false, Option, none, some, arith, refl, eq_iff, ◌==◌, not, ◌&&◌,
  if◌then◌else◌, ◌||◌,
}
use hybridops_core.Value.{Value, Fields, end, field, get}
use hybridops_core.Blueprint.Inputs.{put, merge_mappings, merge_value}

get-put :
    (key other : String) (new : Value) (fs : Fields)
    → get other (put key new fs) ≡ (if key == other then some new else get other fs)
unfolding get put
get-put key other new end = refl
get-put key other new (field name value rest) =
    ground (arith, get-put key other new rest, eq_iff name key, eq_iff name other, eq_iff key other)

has_key : String → Fields → Bool
has_key key end = false
has_key key (field name value rest) = name == key || has_key key rest

-- No key stands twice, as in every dict.
unfoldable pub keys_distinct : Fields → Bool
unfolding has_key
keys_distinct end = true
keys_distinct (field name value rest) = not (has_key name rest) && keys_distinct rest

-- What a merge leaves under a key.
abbrev pub merged : Option Value → Option Value → Option Value
merged old none = old
merged old (some new) = some (merge_value old new)

get-absent : (key : String) (fs : Fields) → has_key key fs ≡ false → get key fs ≡ none
unfolding has_key get
get-absent key end h = refl
get-absent key (field name value rest) h = ground (arith, get-absent key rest)

pub get-merge_mappings :
    (base override : Fields) (key : String)
    → keys_distinct override ≡ true
    → get key (merge_mappings base override) ≡ merged (get key base) (get key override)
unfolding merge_mappings get has_key keys_distinct
get-merge_mappings base end key h = refl
get-merge_mappings base (field name value rest) key h =
    let later =
      get-merge_mappings (put name (merge_value (get name base) value) base) rest key
        (ground arith) in
    let here = get-put name key (merge_value (get name base) value) base in
    let absent = get-absent key rest in ground (arith, later, here, absent, eq_iff name key)
