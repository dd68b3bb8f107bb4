-- ===== src/Blueprint/Contracts/Binding.antt =====
-- Which authority a step's contracts use (hyops/blueprint/contracts.py), from the step and the
-- blueprint alone.
pub mod Chosen
use hybridops_core.Prelude.{String, ◌≡◌, ◌≢◌, true, false, none, some, List, lookup}
use hybridops_core.Text.{strip, lower, or_text}
use hybridops_core.Value.{bool, end, field}
use hybridops_core.Authority.Models.{AuthorityDeclaration, AuthorityRequirement, AuthoritySession}
use hybridops_core.Authority.Admission.{Declarations}
use hybridops_core.Blueprint.Step.{AuthorityRef, named, bound}
use hybridops_core.Blueprint.Policy.{Policy}
use hybridops_core.Blueprint.Contracts.{AuthorityEntry}

-- The blueprint's authority `ref`, as a requirement and as a declaration.
abbrev pub own_requirement : String → AuthorityEntry → AuthorityRequirement
own_requirement ref entry = record {
  logical_ref = ref;
  capability = entry.capability;
  compatibility = false;
}

abbrev pub own_declaration : String → AuthorityEntry → AuthorityDeclaration
own_declaration ref entry = record {
  logical_ref = ref;
  capability = entry.capability;
  provider = entry.provider;
  config = entry.config;
  compatibility = false;
}

-- The NetBox of the older form of a requirement.
abbrev pub netbox_requirement : AuthorityRequirement
netbox_requirement = record {
  logical_ref = "legacy_netbox";
  capability = "inventory_ipam";
  compatibility = true;
}

abbrev pub netbox_declaration : Policy → AuthorityDeclaration
netbox_declaration policy = record {
  logical_ref = "legacy_netbox";
  capability = "inventory_ipam";
  provider = "netbox";
  config =
      field "live_check" (bool policy.netbox_live_api_check) (field "verify_tls" (bool false) end);
  compatibility = true;
}

-- A session uses the requirement and the declaration.
pub record Uses (session : AuthoritySession) (requirement : AuthorityRequirement)
    (declaration : AuthorityDeclaration) : Type 0 where
  pub required : session.requirement ≡ requirement
  pub declared : session.declaration ≡ declaration

-- How the session's authority is the one that the step requires: by the name of an authority of the
-- blueprint, by such a name with its capability, or as `netbox` under a policy for it.
pub data Binds (policy : Policy) (authorities : List (String × AuthorityEntry))
    (required : AuthorityRef) (session : AuthoritySession) : Type 0 where
  by_name :
      (name : String) (entry : AuthorityEntry)
      → required ≡ named name
      → lower (strip name) ≢ "netbox"
      → lookup (lower (strip (or_text name "none"))) authorities ≡ some entry
      → Uses session
          (own_requirement (lower (strip (or_text name "none"))) entry)
          (own_declaration (lower (strip (or_text name "none"))) entry)
      → Binds policy authorities required session
  by_capability :
      (ref capability : String) (entry : AuthorityEntry)
      → required ≡ bound ref capability
      → lookup (lower (strip ref)) authorities ≡ some entry
      → entry.capability ≡ lower (strip capability)
      → Uses session
          (own_requirement (lower (strip ref)) entry)
          (own_declaration (lower (strip ref)) entry)
      → Binds policy authorities required session
  by_netbox :
      (name : String)
      → required ≡ named name
      → lower (strip name) ≡ "netbox"
      → lower (strip (or_text policy.ipam_authority "none")) ≡ "netbox"
      → Uses session netbox_requirement (netbox_declaration policy)
      → Binds policy authorities required session

-- What a session says of the requirement and the declarations that it was begun with.
pub record Carries (session : AuthoritySession) (requirement : AuthorityRequirement)
    (declarations : Declarations) : Type 0 where
  pub required : session.requirement ≡ requirement
  pub declared : lookup requirement.logical_ref declarations ≡ some session.declaration
  pub capable : session.declaration.capability ≡ requirement.capability
