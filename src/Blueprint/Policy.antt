-- ===== src/Blueprint/Policy.antt =====
-- `validate_policy` of hyops/blueprint/schema.py and the field readers of hyops/blueprint/common.py.
pub mod Laws
use Prim.Native.String.{◌++◌}
use hybridops_core.Prelude.{
  String, Bool, true, false, Option, none, some, List, [], ◌∷◌, contains, if◌then◌else◌,
}
use hybridops_core.Text.{is_blank, strip, lower, join}
use hybridops_core.Raises.{Raises, ok, value_error, ◌>>=◌, ◌>>◌, require}
use hybridops_core.Value.{Value, null, bool, str, dict, Fields, end, field, get}
use hybridops_core.Authority.Registry.{sorted}
use hybridops_core.Blueprint.References.{list_empty}

-- `as_mapping`
abbrev pub as_mapping : Value → String → Raises Fields
as_mapping (dict fs) name = ok fs
as_mapping _ name = value_error (name ++ " must be a mapping")

-- `as_non_empty_string`
abbrev pub as_non_empty_string : Value → String → Raises String
as_non_empty_string (str s) name =
    if is_blank s then value_error (name ++ " must be a non-empty string") else ok (strip s)
as_non_empty_string _ name = value_error (name ++ " must be a non-empty string")

-- `bool_field`
abbrev pub bool_field : Value → String → Raises Bool
bool_field (bool b) name = ok b
bool_field null name = ok false
bool_field _ name = value_error (name ++ " must be a boolean when set")

-- The dict that `validate_policy` returns.
pub record Policy : Type 0 where
  pub fail_fast : Bool
  pub evidence_required : Bool
  pub ipam_authority : String
  pub netbox_live_api_check : Bool

abbrev pub defaults : Policy
defaults = record {
  fail_fast = true;
  evidence_required = true;
  ipam_authority = "none";
  netbox_live_api_check = false;
}

abbrev allowed : List String
allowed = "fail_fast" ∷ "evidence_required" ∷ "ipam_authority" ∷ "netbox_live_api_check" ∷ []

abbrev pub legacy_authority_set : List String
legacy_authority_set = "none" ∷ "netbox" ∷ []

-- `[k for k in fields.keys() if k not in allowed]`
unfoldable pub unknown_keys : List String → Fields → List String
unknown_keys names end = []
unknown_keys names (field k v fs) =
    let rest = unknown_keys names fs in if contains k names then rest else k ∷ rest

-- `if key in policy: out[key] = bool_field(policy.get(key), ...)`
unfoldable pub bool_or : Bool → Option Value → String → Raises Bool
bool_or default none name = ok default
bool_or default (some v) name = bool_field v name

unfoldable pub authority_or : String → Option Value → Raises String
authority_or default none = ok default
authority_or default (some v) = do
  text ← as_non_empty_string v "policy.ipam_authority"
  require (contains (lower text) legacy_authority_set)
      ("policy.ipam_authority must be one of: " ++ join ", " (sorted legacy_authority_set))
  ok (lower text)

unfoldable pub read_policy : Fields → Raises Policy
unfolding unknown_keys bool_or authority_or get
read_policy policy =
    let unknown = unknown_keys allowed policy in
    do
      require (list_empty unknown) ("policy has unknown keys: " ++ join ", " (sorted unknown))
      a ← bool_or true (get "fail_fast" policy) "policy.fail_fast"
      b ← bool_or true (get "evidence_required" policy) "policy.evidence_required"
      c ← authority_or "none" (get "ipam_authority" policy)
      d ← bool_or false (get "netbox_live_api_check" policy) "policy.netbox_live_api_check"
      ok (record {
        fail_fast = a;
        evidence_required = b;
        ipam_authority = c;
        netbox_live_api_check = d;
      })

unfoldable pub validate_policy : Value → Raises Policy
unfolding read_policy
validate_policy null = ok defaults
validate_policy raw = as_mapping raw "policy" >>= read_policy

-- The policy as a value again.
abbrev pub policy_value : Policy → Value
policy_value p = dict (
    field "fail_fast" (bool p.fail_fast) (
      field "evidence_required" (bool p.evidence_required) (
        field "ipam_authority" (str p.ipam_authority)
          (field "netbox_live_api_check" (bool p.netbox_live_api_check) end))))
