-- ===== src/Blueprint/Contracts.antt =====
-- `begin_step_contracts`, `enforce_step_contracts`, `step_authority_observation_policy` and
-- `complete_step_authority` of hyops/blueprint/contracts.py, and `legacy_authority_contract` of
-- hyops/authority/compat.py. The blueprint was validated: its policy and its authorities are typed.
pub mod Guarantees
pub mod Binding
use Prim.Native.String.{◌++◌}
use hybridops_core.Prelude.{
  String, Bool, true, false, Option, none, some, List, [], ◌∷◌, contains, lookup, insert, ◌==◌,
  ◌||◌, ◌&&◌, not, if◌then◌else◌,
}
use hybridops_core.Text.{is_empty, is_blank, strip, lower, or_text}
use hybridops_core.Raises.{Raises, ok, value_error, ◌>>=◌, ◌>>◌, require}
use hybridops_core.Value.{bool, Fields, end, field}
use hybridops_core.Authority.Models.{
  AuthorityDeclaration, AuthorityRequirement, AuthorityContext, AuthorityObservationPolicy,
  AuthorityReceipt, AuthoritySession, AuthorityIntervalReceipt,
}
use hybridops_core.Authority.Registry.{Registry}
use hybridops_core.Authority.Clock.{DateTime}
use hybridops_core.Authority.Admission.{Declarations, begin}
use hybridops_core.Authority.Completion.{complete}
use hybridops_core.Blueprint.Step.{Step, AuthorityRef, named, bound, StepObservation, StepContracts}
use hybridops_core.Blueprint.Policy.{Policy}

abbrev pub legacy_netbox_ref : String
legacy_netbox_ref = "legacy_netbox"

abbrev pub inventory_ipam_capability : String
inventory_ipam_capability = "inventory_ipam"

-- An entry of the `authorities` of a validated blueprint.
pub record AuthorityEntry : Type 0 where
  pub capability : String
  pub provider : String
  pub config : Fields

-- `legacy_authority_contract`. The text of a reference with a capability is that of a dict, which
-- is no name.
unfoldable pub legacy_authority_contract :
    AuthorityRef → Policy → Raises (Option (AuthorityRequirement × AuthorityDeclaration))
unfolding strip lower
legacy_authority_contract (bound ref capability) policy = ok none
legacy_authority_contract (named requirement) policy =
    if not (lower (strip requirement) == "netbox")
    then ok none
    else if not (lower (strip (or_text policy.ipam_authority "none")) == "netbox")
    then value_error
        "contract failed: legacy requires_authority=netbox but policy.ipam_authority is not netbox"
    else ok (
        some (
          record {
            logical_ref = legacy_netbox_ref;
            capability = inventory_ipam_capability;
            compatibility = true;
          },
          record {
            logical_ref = legacy_netbox_ref;
            capability = inventory_ipam_capability;
            provider = "netbox";
            config =
                field "live_check" (bool policy.netbox_live_api_check)
                  (field "verify_tls" (bool false) end);
            compatibility = true;
          },
        ))

-- The loop over `authorities`
unfoldable pub declare : List (String × AuthorityEntry) → Declarations
declare [] = []
declare ((ref, entry) ∷ authorities) =
    (
      ref,
      record {
        logical_ref = ref;
        capability = entry.capability;
        provider = entry.provider;
        config = entry.config;
        compatibility = false;
      },
    )
    ∷ declare authorities

-- The requirement of a step without a legacy contract.
unfoldable pub requirement_of : AuthorityRef → Declarations → Option AuthorityRequirement
unfolding strip lower lookup
requirement_of (bound ref capability) declarations = some (record {
  logical_ref = lower (strip ref);
  capability = lower (strip capability);
  compatibility = false;
})
requirement_of (named raw) declarations =
    let logical_ref = lower (strip (or_text raw "none")) in
    if is_empty logical_ref || logical_ref == "none"
    then none
    else some (record {
      logical_ref = logical_ref;
      capability = elim (lookup logical_ref declarations) [
        | none ↦ "inventory_ipam"
        | some declaration ↦ declaration.capability
      ];
      compatibility = false;
    })

-- The requirement and the declarations that `begin` is called with.
unfoldable pub bind_authority :
    Option (AuthorityRequirement × AuthorityDeclaration)
    → AuthorityRef
    → Declarations
    → Option AuthorityRequirement × Declarations
unfolding requirement_of insert
bind_authority (some (requirement, declaration)) raw declarations =
    (some requirement, insert declaration.logical_ref declaration declarations)
bind_authority none raw declarations = (requirement_of raw declarations, declarations)

-- The tests of `addressing_mode=ipam`
unfoldable pub check_addressing : String → Option AuthorityRequirement → Raises (Unit {0})
check_addressing mode none =
    require (not (mode == "ipam"))
      "contract failed: addressing_mode=ipam requires an inventory_ipam authority"
check_addressing mode (some requirement) =
    require (not (mode == "ipam" && not (requirement.capability == "inventory_ipam")))
      "contract failed: addressing_mode=ipam requires authority capability inventory_ipam"

-- `_as_str_list`
unfoldable pub as_str_list : List String → List String
unfolding strip
as_str_list [] = []
as_str_list (item ∷ items) =
    let rest = as_str_list items in if is_blank item then rest else strip item ∷ rest

-- What the contracts ask of the disk and of the process: the status of a module's state, which is
-- empty when the state cannot be read, the two roots, and the environment.
pub record ContractEnv : Type 0 where
  pub module_state_status : String → String
  pub root : String
  pub state_dir : String
  pub environ : List (String × String)

module _ (env : ContractEnv) where
  -- `state_ok`
  abbrev pub state_ok : List String → String → Bool
  state_ok assumed module_ref =
      contains module_ref assumed || env.module_state_status module_ref == "ok"

  -- `for module_ref in requires_module_state_ok`
  unfoldable pub check_states : List String → List String → Raises (Unit {0})
  check_states assumed [] = ok tt
  check_states assumed (module_ref ∷ refs) =
      require (state_ok assumed module_ref) (
        "contract failed: required module state is not ok ("
        ++ module_ref
        ++ ", status="
        ++ or_text (env.module_state_status module_ref) "missing"
        ++ ")")
      >> check_states assumed refs

  abbrev pub context_of : List String → AuthorityContext
  context_of assumed = record {
    runtime_root = env.root;
    state_root = env.state_dir;
    env = env.environ;
    assumed_state_ok = assumed;
  }

  module _ (fromisoformat : String → Option DateTime) (registry : Registry) where
    -- From `if requirement is None` on.
    unfoldable pub begin_required :
        Option AuthorityRequirement
        → Declarations
        → List String
        → Option AuthorityObservationPolicy
        → Raises (Option AuthoritySession)
    begin_required none declarations assumed observation = ok none
    begin_required (some requirement) declarations assumed observation = do
      session ←
          begin fromisoformat registry requirement declarations (context_of assumed) observation
      ok (some session)

  module _ (fromisoformat : String → Option DateTime) (registry : Registry) (policy : Policy)
      (authorities : List (String × AuthorityEntry)) where
    unfoldable pub begin_step_contracts :
        Step → List String → Option AuthorityObservationPolicy → Raises (Option AuthoritySession)
    unfolding check_states as_str_list legacy_authority_contract declare bind_authority
        check_addressing begin_required strip lower
    begin_step_contracts step assumed observation =
        let contracts = step.contracts in
        do
          check_states assumed (as_str_list contracts.requires_module_state_ok)
          legacy ← legacy_authority_contract contracts.requires_authority policy
          let (requirement, declarations) =
              bind_authority legacy contracts.requires_authority (declare authorities)
          check_addressing (lower (strip (or_text contracts.addressing_mode "static"))) requirement
          begin_required fromisoformat registry requirement declarations assumed observation

    unfoldable pub enforce_step_contracts : Step → List String → Raises (Option AuthorityReceipt)
    unfolding begin_step_contracts
    enforce_step_contracts step assumed = do
      session ← begin_step_contracts step assumed none
      ok (elim session [ none ↦ none | some s ↦ some s.admission ])

-- `step_authority_observation_policy`
unfoldable pub step_authority_observation_policy : Step → Option AuthorityObservationPolicy
unfolding strip lower
step_authority_observation_policy step = elim step.contracts.authority_observation [
  | none ↦ none
  | some raw ↦ some (record {
    expected_change = lower (strip (or_text raw.expected_change "none"));
    on_unverifiable = lower (strip (or_text raw.on_unverifiable "fail"));
  })
]

-- `complete_step_authority`
unfoldable pub complete_step_authority :
    (String → Option DateTime)
    → Registry
    → AuthoritySession
    → AuthorityObservationPolicy
    → String
    → Raises AuthorityIntervalReceipt
complete_step_authority fromisoformat registry session policy completion_floor =
    complete session policy fromisoformat completion_floor registry
