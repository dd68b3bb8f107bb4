-- ===== src/Value/Update.antt =====
-- `d[key] = value` and `d.pop(key, None)` on a dict of the program.
use hybridops_core.Prelude.{
  String, false, List, [], ◌∷◌, some, contains, ◌==◌, eq_iff, if◌then◌else◌, ◌≡◌, refl, ◌∙◌, arith,
}
use hybridops_core.Value.{Value, Fields, end, field, get}

-- A key that is there keeps its place, a new one goes to the end.
unfoldable pub set_field : String → Value → Fields → Fields
set_field key new end = field key new end
set_field key new (field k v fs) =
    let rest = set_field key new fs in if k == key then field k new fs else field k v rest

unfoldable pub drop_field : String → Fields → Fields
drop_field key end = end
drop_field key (field k v fs) =
    let rest = drop_field key fs in if k == key then rest else field k v rest

unfoldable pub drop_fields : List String → Fields → Fields
unfolding drop_field
drop_fields [] fs = fs
drop_fields (key ∷ keys) fs = drop_fields keys (drop_field key fs)

pub get-set_field :
    (key other : String) (new : Value) (fs : Fields)
    → get other (set_field key new fs) ≡ (if key == other then some new else get other fs)
unfolding get set_field
get-set_field key other new end = refl
get-set_field key other new (field k v fs) =
    ground (arith, get-set_field key other new fs, eq_iff k key, eq_iff k other, eq_iff key other)

pub get-drop_field :
    (key other : String) (fs : Fields)
    → (key == other) ≡ false
    → get other (drop_field key fs) ≡ get other fs
unfolding get drop_field
get-drop_field key other end apart = refl
get-drop_field key other (field k v fs) apart =
    ground
      (arith, get-drop_field key other fs apart, eq_iff k key, eq_iff k other, eq_iff key other)

pub get-drop_fields :
    (keys : List String) (other : String) (fs : Fields)
    → contains other keys ≡ false
    → get other (drop_fields keys fs) ≡ get other fs
unfolding drop_fields
get-drop_fields [] other fs apart = refl
get-drop_fields (key ∷ keys) other fs apart =
    let this : (key == other) ≡ false = ground (arith, eq_iff key other, eq_iff other key) in
    get-drop_fields keys other (drop_field key fs) (ground arith) ∙ get-drop_field key other fs this
