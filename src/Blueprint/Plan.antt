-- ===== src/Blueprint/Plan.antt =====
-- `compute_preflight` of hyops/blueprint/planner.py: the preflight of the steps in their order. The
-- preflight of one step is the parameter `preflight`, which `Preflight` models. A `KeyError` of
-- `by_id[step_id]` is an `other_error`.
pub mod Propagation
pub mod Deferral
use text.Mathlib.Text.{starts_with}
use Prim.Native.String.{◌++◌}
use hybridops_core.Prelude.{
  String, Bool, true, false, Option, none, some, List, [], ◌∷◌, contains, lookup, insert, snoc,
  any_of, ◌&&◌, ◌||◌, ◌==◌, not, if◌then◌else◌,
}
use hybridops_core.Text.{is_empty, strip, lower, join}
use hybridops_core.Raises.{Raises, ok, value_error, other_error, ◌>>=◌}
use hybridops_core.Blueprint.Step.{Step, by_id}
use hybridops_core.Blueprint.References.{list_empty}
use hybridops_core.Blueprint.Preflight.{Check, not_run, StepResult, start_result, step_state_ref}

-- The variables of the loop. The two failure lists and the results grow at their end.
pub record Plan : Type 0 where
  pub step_results : List StepResult
  pub required_failures : List String
  pub optional_failures : List String
  pub assumed_state_ok : List String
  pub step_status_by_id : List (String × String)

abbrev pub empty_plan : Plan
empty_plan = record {
  step_results = [];
  required_failures = [];
  optional_failures = [];
  assumed_state_ok = [];
  step_status_by_id = [];
}

-- `step_status_by_id.get(dep) == status`
abbrev pub has_status : Plan → String → String → Bool
has_status plan status dep = elim (lookup dep plan.step_status_by_id) [
  | none ↦ false
  | some s ↦ s == status
]

-- `[dep for dep in deps if step_status_by_id.get(dep) in {"blocked", "deferred"}]`
unfoldable pub blocked_dependencies : Plan → List String → List String
blocked_dependencies plan [] = []
blocked_dependencies plan (dep ∷ deps) =
    let rest = blocked_dependencies plan deps in
    if has_status plan "blocked" dep || has_status plan "deferred" dep then dep ∷ rest else rest

-- `names.add(name)`
abbrev pub add : String → List String → List String
add name names = if contains name names then names else name ∷ names

unfoldable pub deferred_result : Step → List String → StepResult
unfolding start_result join
deferred_result step blocked = record (start_result step) {
  checks =
      record {
        name = "dependencies";
        ok = true;
        detail = "deferred because upstream preflight failed: " ++ join ", " blocked;
      }
      ∷ [];
  status = "deferred";
}

abbrev is_apply : String → Bool
is_apply action = contains action ("apply" ∷ "deploy" ∷ [])

-- The loop's bookkeeping of a result.
unfoldable pub note_result : Step → StepResult → Plan → Plan
unfolding step_state_ref
note_result step result plan =
    let noted = record plan {
      step_results = snoc plan.step_results result;
      step_status_by_id = insert step.id result.status plan.step_status_by_id;
    } in
    if result.status == "blocked"
    then (if result.optional
        then record noted { optional_failures = snoc plan.optional_failures step.id }
        else record noted { required_failures = snoc plan.required_failures step.id })
    else if not result.optional
        && is_apply step.action
        && (result.status == "ready" || result.status == "skipped")
    then record noted { assumed_state_ok = add (step_state_ref step) plan.assumed_state_ok }
    else noted

abbrev pub uses_linux : List Step → Bool
uses_linux = any_of (λ step. starts_with step.module_ref "platform/linux/")

unfoldable pub controller_result : String → StepResult
controller_result detail = record {
  id = "ansible_controller";
  module_ref = "config/ansible";
  module_state_ref = "";
  action = "preflight";
  phase = "bootstrap";
  optional = false;
  checks = record { name = "collections"; ok = false; detail = detail } ∷ [];
  status = "blocked";
  inputs_file = "";
  authority = none;
  required_credentials = [];
  outputs_publish = [];
  driver_preflight = not_run;
}

module _ (steps : List Step)
    (preflight : Step → List String → List String → Raises StepResult) where
  -- The state references of the dependencies that this plan makes ready.
  unfoldable pub deferred_driver_refs : Plan → List String → List String
  unfolding step_state_ref by_id lookup
  deferred_driver_refs plan [] = []
  deferred_driver_refs plan (dep ∷ deps) =
      let rest = deferred_driver_refs plan deps in
      elim (by_id steps dep) [
        | none ↦ rest
        | some dep_step ↦
            if contains (step_state_ref dep_step) plan.assumed_state_ok
              && has_status plan "ready" dep
            then add (step_state_ref dep_step) rest
            else rest
      ]

  unfoldable pub plan_step : Step → Plan → Raises Plan
  unfolding blocked_dependencies deferred_driver_refs deferred_result note_result
  plan_step step plan =
      let blocked = blocked_dependencies plan step.requires in
      if list_empty blocked
      then (do
        result ← preflight step plan.assumed_state_ok (deferred_driver_refs plan step.requires)
        ok (note_result step result plan))
      else ok (record plan {
        step_results = snoc plan.step_results (deferred_result step blocked);
        step_status_by_id = insert step.id "deferred" plan.step_status_by_id;
      })

  -- `for step_id in payload["order"]`
  unfoldable pub plan_steps : List String → Plan → Raises Plan
  unfolding plan_step
  plan_steps [] plan = ok plan
  plan_steps (step_id ∷ order) plan = elim (by_id steps step_id) [
    | none ↦ other_error step_id
    | some step ↦ plan_step step plan >>= plan_steps order
  ]

  -- `collections_error` is what `ensure_hybridops_collections_available` answers, which is asked
  -- only for a blueprint with a step under platform/linux.
  unfoldable pub compute_preflight : String → List String → Raises Plan
  unfolding plan_steps controller_result
  compute_preflight collections_error order =
      if uses_linux steps && not (is_empty collections_error)
      then ok (record empty_plan {
        step_results = controller_result collections_error ∷ [];
        required_failures = "ansible_controller" ∷ [];
      })
      else plan_steps order empty_plan
