-- ===== src/Blueprint/Step.antt =====
-- The steps that `validate_blueprint` of hyops/blueprint/schema.py builds: every key of the dict is
-- a field. `requires_authority` is a name, or a reference with a capability.
use hybridops_core.Prelude.{String, Bool, Option, none, some, List, [], ◌∷◌, ◌==◌, if◌then◌else◌}
use hybridops_core.Value.{Fields}

pub data AuthorityRef : Type 0 where
  named : String → AuthorityRef
  bound : String → String → AuthorityRef

pub record StepObservation : Type 0 where
  pub expected_change : String
  pub on_unverifiable : String

pub record StepContracts : Type 0 where
  pub addressing_mode : String
  pub requires_module_state_ok : List String
  pub requires_authority : AuthorityRef
  pub authority_observation : Option StepObservation

pub record Step : Type 0 where
  pub id : String
  pub module_ref : String
  pub execution_profile : String
  pub action : String
  pub phase : String
  pub requires : List String
  pub with_deps : Bool
  pub skip_if_state_ok : Bool
  pub verify_state_on_skip : Bool
  pub retain_on_destroy : Bool
  pub destroy_subsumed_by : String
  pub destroy_gate : Bool
  pub optional : Bool
  pub inputs : Option Fields
  pub inputs_file : String
  pub state_instance : String
  pub presentation : Fields
  pub contracts : StepContracts

-- `[s["id"] for s in steps]`, which is also the set of ids
abbrev pub step_ids : List Step → List String
step_ids [] = []
step_ids (s ∷ steps) = s.id ∷ step_ids steps

-- `{s["id"]: s for s in steps}`: of two steps with one id the later counts.
unfoldable pub by_id : List Step → String → Option Step
by_id [] key = none
by_id (s ∷ steps) key = elim (by_id steps key) [
  | some later ↦ some later
  | none ↦ if s.id == key then some s else none
]

-- `by_id[key]["requires"]`
unfoldable pub requires_of : List Step → String → Option (List String)
unfolding by_id
requires_of steps key = elim (by_id steps key) [ none ↦ none | some s ↦ some s.requires ]
