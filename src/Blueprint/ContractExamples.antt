-- ===== src/Blueprint/ContractExamples.antt =====
-- Runs of the contracts, the policy and the inputs of a step (hyops/blueprint).
use hybridops_core.Prelude.{
  lookup, String, ◌≡◌, ◌≢◌, ◌⊎◌, ◌↔◌, true, false, Option, none, some, List, [], ◌∷◌, refl,
}
use hybridops_core.Text.{strip, lower}
use hybridops_core.Raises.{ok}
use hybridops_core.Value.{
  Value, int, pos, opaque, float, finite, null, bool, str, dict, seq, nil, cons, Fields, end, field,
  fields_empty, writable,
}
use hybridops_core.Authority.Models.{AuthoritySession, absent, receipt_evidence}
use hybridops_core.Authority.Provider.{AuthorityProvider}
use hybridops_core.Authority.Registry.{Registry, resolve}
use hybridops_core.Authority.Clock.{DateTime}
use hybridops_core.Authority.Checks.{validate_observed}
use hybridops_core.Authority.Admission.{Declarations, begin, receipt_of}
use hybridops_core.Authority.Admission.Guarantees.{Admits}
use hybridops_core.Blueprint.Step.{Step, named}
use hybridops_core.Blueprint.Policy.{Policy, defaults, validate_policy, policy_value}
use hybridops_core.Blueprint.Policy.Laws.{validate_policy-normal}
use hybridops_core.Blueprint.Contracts.{
  AuthorityEntry, ContractEnv, begin_step_contracts, as_str_list, context_of,
}
use hybridops_core.Blueprint.Contracts.Guarantees.{
  AllStatesOk, addressing_of, begin_step_contracts-none, begin_step_contracts-some,
}
use hybridops_core.Blueprint.Contracts.Binding.{Binds}
use hybridops_core.Blueprint.Authorities.{validate_authorities}
use hybridops_core.Blueprint.Authorities.Laws.{EntryOk, validate_authorities-EntryOk}
use hybridops_core.Blueprint.Inputs.{merge_mappings, prune_fields, explicit_step_inputs_changed}
use hybridops_core.Blueprint.Inputs.Paths.{
  value_at, overlaid, all_distinct, value_at-merge_mappings,
}
use hybridops_core.Blueprint.Inputs.Blank.{blank_fields}
use hybridops_core.Blueprint.Inputs.Pruning.{
  under, clean_fields, leaves, leaves_fields, filled, prune_fields_lem,
}
use hybridops_core.Blueprint.Inputs.Skipping.{stands_fields}
use hybridops_core.Blueprint.Inputs.Drift.{explicit_step_inputs_changed_iff}

abbrev raw_policy : Value
raw_policy = dict (field "ipam_authority" (str " NetBox ") (field "fail_fast" null end))

abbrev policy : Policy
policy = record defaults { fail_fast = false; ipam_authority = "netbox" }

validate_policy-normal_example :
    ((policy.ipam_authority ≡ "none") ⊎ (policy.ipam_authority ≡ "netbox"))
    × (validate_policy (policy_value policy) ≡ ok policy)
unfolding validate_policy strip lower
validate_policy-normal_example = validate_policy-normal raw_policy refl

-- A step on addresses of NetBox, by the older form of its requirement.
abbrev step : Step
step = record {
  id = "cluster";
  module_ref = "platform/cluster";
  execution_profile = "";
  action = "deploy";
  phase = "core";
  requires = [];
  with_deps = false;
  skip_if_state_ok = false;
  verify_state_on_skip = false;
  retain_on_destroy = false;
  destroy_subsumed_by = "";
  destroy_gate = false;
  optional = false;
  inputs = none;
  inputs_file = "";
  state_instance = "";
  presentation = end;
  contracts = record {
    addressing_mode = "ipam";
    requires_module_state_ok = "core/network" ∷ " " ∷ [];
    requires_authority = named "NetBox";
    authority_observation = none;
  };
}

abbrev static_step : Step
static_step = record step {
  contracts = record {
    addressing_mode = "";
    requires_module_state_ok = [];
    requires_authority = named "none";
    authority_observation = none;
  };
}

abbrev env : ContractEnv
env = record {
  module_state_status = λ ref. "missing";
  root = "/srv";
  state_dir = "/srv/state";
  environ = [];
}

abbrev assumed : List String
assumed = "core/network" ∷ []

abbrev read_time : String → Option DateTime
read_time text = none

abbrev netbox : AuthorityProvider
netbox = record {
  name = "netbox";
  capabilities = "inventory_ipam" ∷ [];
  validate_configuration = λ d c. ok tt;
  evaluate = λ d c. ok (
      some (record {
        healthy = true;
        state = "ok";
        result = "";
        instance = "";
        endpoint = "";
        revision = "";
        freshness = end;
        observation = absent;
      }));
  interval = none;
}

abbrev registry : Registry
registry = ("netbox", netbox) ∷ []

abbrev session : AuthoritySession
session = record {
  requirement = record {
    logical_ref = "legacy_netbox";
    capability = "inventory_ipam";
    compatibility = true;
  };
  declaration = record {
    logical_ref = "legacy_netbox";
    capability = "inventory_ipam";
    provider = "netbox";
    config = field "live_check" (bool false) (field "verify_tls" (bool false) end);
    compatibility = true;
  };
  context = context_of env assumed;
  admission = record {
    logical_ref = "legacy_netbox";
    capability = "inventory_ipam";
    provider = "netbox";
    state = "ok";
    result = "admitted";
    instance = "";
    endpoint = "";
    revision = "";
    freshness = end;
    observation = none;
  };
}

opened : begin_step_contracts env read_time registry policy [] step assumed none ≡ ok (some session)
unfolding begin_step_contracts begin resolve validate_observed writable receipt_evidence receipt_of
opened = refl

begin_step_contracts-some_example :
    AllStatesOk env assumed (as_str_list step.contracts.requires_module_state_ok)
    × ((addressing_of step ≢ "ipam") ⊎ (session.requirement.capability ≡ "inventory_ipam"))
    × Binds policy [] step.contracts.requires_authority session
    × ((declarations : Declarations) × Admits read_time registry session.requirement declarations
          (context_of env assumed)
          session)
begin_step_contracts-some_example =
    begin_step_contracts-some env read_time registry policy [] step assumed none opened

begin_step_contracts-none_example :
    AllStatesOk env assumed (as_str_list static_step.contracts.requires_module_state_ok)
    × (addressing_of static_step ≢ "ipam")
unfolding begin_step_contracts
begin_step_contracts-none_example =
    begin_step_contracts-none env read_time registry policy [] static_step assumed none refl

abbrev base : Fields
base = field "vm" (dict (field "cores" (str "2") (field "disk" (str "20") end))) end

abbrev override : Fields
override = field "vm" (dict (field "cores" (str "4") end)) (field "tag" (str " ") end)

-- A dict of the override takes the place of what was no dict there.
abbrev rebuilt : Fields
rebuilt =
    field "vm"
      (dict (field "cores" (dict (field "count" (str "4") end)) (field "nic" (str "lan") end))) end

value_at-merge_mappings_example :
    value_at ("vm" ∷ "cores" ∷ "count" ∷ []) (some (dict (merge_mappings base rebuilt)))
    ≡ some (str "4")
unfolding all_distinct overlaid
value_at-merge_mappings_example =
    value_at-merge_mappings base rebuilt ("vm" ∷ "cores" ∷ "count" ∷ []) refl

disk_is_kept :
    overlaid ("vm" ∷ "disk" ∷ []) (some (dict base)) (some (dict rebuilt)) ≡ some (str "20")
unfolding overlaid
disk_is_kept = refl

-- A dict of blank values, at some depth.
abbrev sparse : Fields
sparse =
    field "vm" (dict (field "cores" (str "4") (field "tags" (seq (cons (str " ") nil)) end)))
      (field "note" null end)

prune_fields_lem_example :
    (clean_fields (prune_fields sparse) ≡ true)
    × (leaves_fields [] (prune_fields sparse) ≡ (under "cores" ∷ under "vm" ∷ [], str "4") ∷ [])
unfolding filled leaves strip
prune_fields_lem_example = prune_fields_lem sparse

explicit_step_inputs_changed_iff_example :
    ((explicit_step_inputs_changed (some override) base).0 ≡ true)
    ↔ (blank_fields override ≡ false)
      × (fields_empty base ≡ false)
      × (stands_fields override base ≡ false)
explicit_step_inputs_changed_iff_example = explicit_step_inputs_changed_iff override base

change_is_reported : explicit_step_inputs_changed (some override) base ≡ (true, "vm.cores changed")
unfolding explicit_step_inputs_changed strip
change_is_reported = refl

-- The file has 4 and a note without text, the state 4.0 and another key.
float_is_no_change :
    explicit_step_inputs_changed
      (some (field "cores" (int (pos 4)) (field "note" (str " ") end)))
      (field "disk" (str "20") (field "cores" (opaque (float (finite (pos 8) 1) "4.0")) end))
    ≡ (false, "")
unfolding explicit_step_inputs_changed strip
float_is_no_change = refl

abbrev raw_authorities : Value
raw_authorities = dict (
    field " IPAM "
      (dict (field "capability" (str "inventory_ipam") (field "provider" (str "NetBox") end))) end)

abbrev ipam : AuthorityEntry
ipam = record { capability = "inventory_ipam"; provider = "netbox"; config = end }

validate_authorities-EntryOk_example : EntryOk "ipam" ipam
unfolding validate_authorities lookup
validate_authorities-EntryOk_example =
    validate_authorities-EntryOk raw_authorities (("ipam", ipam) ∷ []) "ipam" ipam refl refl
