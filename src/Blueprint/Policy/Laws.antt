-- ===== src/Blueprint/Policy/Laws.antt =====
-- What `validate_policy` (hyops/blueprint/schema.py) accepts.
use hybridops_core.Prelude.{
  String, ◌≡◌, ◌⊎◌, inl, inr, Bool, Option, none, some, arith, refl, eq_iff,
}
use hybridops_core.Text.{strip, lower}
use hybridops_core.Raises.{ok}
use hybridops_core.Value.{Value, null, bool, int, str, opaque, seq, dict, Fields, get}
use hybridops_core.Blueprint.Policy.{
  Policy, authority_or, read_policy, validate_policy, policy_value,
}

authority_or-legacy :
    (v : Option Value) (text : String)
    → authority_or "none" v ≡ ok text
    → (text ≡ "none") ⊎ (text ≡ "netbox")
unfolding authority_or
authority_or-legacy none text h = ground arith
authority_or-legacy (some v) text h = ground (arith, eq_iff text "none", eq_iff text "netbox")

read_policy-legacy :
    (fs : Fields) {p : Policy}
    → read_policy fs ≡ ok p
    → (p.ipam_authority ≡ "none") ⊎ (p.ipam_authority ≡ "netbox")
unfolding read_policy
read_policy-legacy fs {p} h =
    ground (arith, authority_or-legacy (get "ipam_authority" fs) p.ipam_authority)

validate_policy-legacy :
    (raw : Value) {p : Policy}
    → validate_policy raw ≡ ok p
    → (p.ipam_authority ≡ "none") ⊎ (p.ipam_authority ≡ "netbox")
unfolding validate_policy
validate_policy-legacy null h = inl (ground arith)
validate_policy-legacy (dict fs) h = read_policy-legacy fs h
validate_policy-legacy (bool b) h = ground arith
validate_policy-legacy (int z) h = ground arith
validate_policy-legacy (str s) h = ground arith
validate_policy-legacy (opaque o) h = ground arith
validate_policy-legacy (seq xs) h = ground arith

settled :
    (a b d : Bool) (authority : String)
    → (authority ≡ "none") ⊎ (authority ≡ "netbox")
    → validate_policy (
        policy_value (record {
          fail_fast = a;
          evidence_required = b;
          ipam_authority = authority;
          netbox_live_api_check = d;
        }))
      ≡ ok (record {
        fail_fast = a;
        evidence_required = b;
        ipam_authority = authority;
        netbox_live_api_check = d;
      })
unfolding validate_policy strip lower
settled a b d authority (inl e) = rw e refl
settled a b d authority (inr e) = rw e refl

-- A policy that `validate_policy` returns names no authority or NetBox, and is in normal form: read
-- again, it is returned as it is.
pub validate_policy-normal :
    (raw : Value) {p : Policy}
    → validate_policy raw ≡ ok p
    → ((p.ipam_authority ≡ "none") ⊎ (p.ipam_authority ≡ "netbox"))
      × (validate_policy (policy_value p) ≡ ok p)
validate_policy-normal raw {p} h =
    let legacy = validate_policy-legacy raw h in
    (
      legacy,
      settled p.fail_fast p.evidence_required p.netbox_live_api_check p.ipam_authority legacy,
    )
