-- ===== src/Blueprint/Examples.antt =====
-- Runs of the blueprint subsystem (hyops/blueprint) on a network, a cluster on it and an optional
-- dashboard on the cluster.
use hybridops_core.Prelude.{
  String, ◌≡◌, ◌≢◌, lookup, insert, ◌⊎◌, ◌↔◌, Bool, true, false, none, some, List, [], ◌∷◌, refl,
  ◌==◌, if◌then◌else◌,
}
use hybridops_core.Raises.{Raises, ok, value_error, other_error}
use hybridops_core.Value.{end}
use hybridops_core.Blueprint.Step.{Step, named, requires_of, by_id}
use hybridops_core.Blueprint.Order.{Walk, done, cycle, topological_order, exhausted}
use hybridops_core.Blueprint.Order.Fuel.{topological_order-ne-exhausted}
use hybridops_core.Blueprint.Order.Cycles.{IsCycle}
use hybridops_core.Blueprint.Order.Correct.{
  IsOrder, topological_order-IsOrder, topological_order_decides,
}
use hybridops_core.Blueprint.Upstream.{answer, depends_on}
use hybridops_core.Blueprint.Upstream.Search.{depends_on_iff}
use hybridops_core.Blueprint.Upstream.Chains.{Upstream}
use hybridops_core.Blueprint.References.{check_references}
use hybridops_core.Blueprint.References.Guarantees.{AllOk, check_references-AllOk, validated_order}
use hybridops_core.Blueprint.Preflight.{StepResult, StepEnv, start_result, preflight_step}
use hybridops_core.Blueprint.Preflight.Statuses.{preflight_step-Consistent}
use hybridops_core.Blueprint.Preflight.Outcome.{Consistent}
use hybridops_core.Blueprint.Plan.{empty_plan, Plan, has_status, compute_preflight}
use hybridops_core.Blueprint.Plan.Propagation.{is_bad, any_bad}
use hybridops_core.Blueprint.Plan.Deferral.{deferred_iff, success-none_bad}

abbrev plain : String → String → List String → Step
plain name module_ref requires = record {
  id = name;
  module_ref = module_ref;
  execution_profile = "";
  action = "deploy";
  phase = "core";
  requires = requires;
  with_deps = false;
  skip_if_state_ok = false;
  verify_state_on_skip = false;
  retain_on_destroy = false;
  destroy_subsumed_by = "";
  destroy_gate = false;
  optional = false;
  inputs = none;
  inputs_file = "";
  state_instance = "";
  presentation = end;
  contracts = record {
    addressing_mode = "static";
    requires_module_state_ok = [];
    requires_authority = named "none";
    authority_observation = none;
  };
}

abbrev steps : List Step
steps =
    record (plain "dashboard" "platform/dashboard" ("cluster" ∷ [])) { optional = true }
    ∷ record (plain "cluster" "platform/cluster" ("network" ∷ [])) {
      destroy_subsumed_by = "network";
    }
    ∷ plain "network" "core/network" []
    ∷ []

abbrev sorted_ids : List String
sorted_ids = "network" ∷ "cluster" ∷ "dashboard" ∷ []

abbrev walked : Walk
walked = record { visited = "dashboard" ∷ "cluster" ∷ "network" ∷ []; order = sorted_ids }

topological_order-walked : topological_order steps ≡ done walked
unfolding topological_order by_id
topological_order-walked = refl

accepted : check_references steps ≡ ok tt
unfolding check_references by_id
accepted = refl

topological_order-ne-exhausted_example : topological_order steps ≢ exhausted
topological_order-ne-exhausted_example = topological_order-ne-exhausted steps

topological_order-IsOrder_example : IsOrder steps sorted_ids
topological_order-IsOrder_example = topological_order-IsOrder steps walked topological_order-walked

topological_order_decides_example :
    ((w : Walk) × (topological_order steps ≡ done w)
      × IsOrder steps w.order
      × ((names : List String) → ¬ IsCycle (requires_of steps) names))
    ⊎ ((names : List String) × (topological_order steps ≡ cycle names)
        × IsCycle (requires_of steps) names)
topological_order_decides_example =
    topological_order_decides steps ((refl, tt), ((refl, tt), (tt, tt)))

validated_order_example :
    ((w : Walk) × (topological_order steps ≡ done w)
      × IsOrder steps w.order
      × ((names : List String) → ¬ IsCycle (requires_of steps) names))
    ⊎ ((names : List String) × (topological_order steps ≡ cycle names)
        × IsCycle (requires_of steps) names)
validated_order_example = validated_order steps accepted

check_references-AllOk_example : AllOk steps steps
check_references-AllOk_example = check_references-AllOk steps accepted

depends_on_iff_example :
    (b : Bool) × (depends_on steps "dashboard" "network" ≡ some (answer b))
    × ((b ≡ true) ↔ Upstream (requires_of steps) "dashboard" "network")
unfolding requires_of by_id
depends_on_iff_example = depends_on_iff steps "dashboard" "network" refl

-- Every file is there, no state is, and the driver of the network reports an error.
abbrev broken_driver : StepEnv
broken_driver = record {
  resolved_step_inputs_file = λ step. ok "inputs.yml";
  module_state_ok = λ ref. false;
  explicit_step_inputs_changed = λ step. ok (false, "");
  evaluate_state_skip = λ step. ok ("safe", "");
  enforce_step_contracts = λ step assumed. ok none;
  resolve_module = λ step file assumed.
      ok (record { inputs = end; required_credentials = []; outputs_publish = [] });
  required_env_error = λ inputs key. ok "";
  run_module_driver_preflight = λ step file assumed late. ok (
      if step.id == "network"
      then record { status = "error"; error = "no token" }
      else record { status = "ok"; error = "" });
}

abbrev sound_driver : StepEnv
sound_driver = record broken_driver {
  run_module_driver_preflight = λ step file assumed late. ok (record { status = "ok"; error = "" });
}

result_of : {A : Type 0} → A → Raises A → A
result_of a (ok b) = b
result_of a (value_error e) = a
result_of a (other_error e) = a

plan_of : StepEnv → Plan
unfolding result_of compute_preflight
plan_of env = result_of empty_plan (compute_preflight steps (preflight_step env) "" sorted_ids)

broken_plan :
    compute_preflight steps (preflight_step broken_driver) "" sorted_ids
    ≡ ok (plan_of broken_driver)
unfolding plan_of preflight_step by_id lookup insert
broken_plan = refl

sound_plan :
    compute_preflight steps (preflight_step sound_driver) "" sorted_ids ≡ ok (plan_of sound_driver)
unfolding plan_of preflight_step by_id lookup insert
sound_plan = refl

-- The network is blocked, so the cluster on it and the dashboard on the cluster are deferred.
deferred_iff_example :
    has_status (plan_of broken_driver) "deferred" "dashboard"
    ≡ any_bad (plan_of broken_driver) ("cluster" ∷ [])
unfolding requires_of by_id
deferred_iff_example =
    deferred_iff broken_driver steps "" sorted_ids broken_plan topological_order-IsOrder_example
      "dashboard" ("cluster" ∷ []) refl refl

dashboard_is_deferred : has_status (plan_of broken_driver) "deferred" "dashboard" ≡ true
unfolding plan_of preflight_step by_id lookup insert
dashboard_is_deferred = refl

success-none_bad_example : is_bad (plan_of sound_driver) "dashboard" ≡ false
unfolding plan_of preflight_step by_id lookup insert
success-none_bad_example =
    success-none_bad sound_driver steps "" sorted_ids sound_plan refl refl "dashboard"

abbrev network : Step
network = plain "network" "core/network" []

network_result : StepResult
unfolding result_of preflight_step
network_result = result_of (start_result network) (preflight_step sound_driver network [] [])

network_checked : preflight_step sound_driver network [] [] ≡ ok network_result
unfolding network_result
network_checked = refl

preflight_step-Consistent_example : Consistent network network_result
preflight_step-Consistent_example =
    preflight_step-Consistent sound_driver network [] [] network_checked

-- The same steps with an optional network: it is blocked, the cluster, which is required, is
-- deferred, and no required failure is listed.
abbrev on_optional : List Step
on_optional =
    record (plain "dashboard" "platform/dashboard" ("cluster" ∷ [])) { optional = true }
    ∷ plain "cluster" "platform/cluster" ("network" ∷ [])
    ∷ record (plain "network" "core/network" []) { optional = true }
    ∷ []

optional_plan : Plan
unfolding result_of compute_preflight
optional_plan =
    result_of empty_plan
      (compute_preflight on_optional (preflight_step broken_driver) "" sorted_ids)

required_step_is_deferred : has_status optional_plan "deferred" "cluster" ≡ true
unfolding optional_plan preflight_step by_id lookup insert
required_step_is_deferred = refl

no_required_failure : optional_plan.required_failures ≡ []
unfolding optional_plan preflight_step by_id lookup insert
no_required_failure = refl
