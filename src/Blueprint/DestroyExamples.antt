-- ===== src/Blueprint/DestroyExamples.antt =====
-- A destroy run (hyops/blueprint/command.py) of a network, a cluster that goes with it, and a bucket
-- that is kept.
use hybridops_core.Prelude.{
  String, ◌≡◌, refl, true, false, none, List, [], ◌∷◌, any_of, if◌then◌else◌,
}
use hybridops_core.Raises.{Raises, ok}
use hybridops_core.Value.{pos, str, Fields, end, field, dict}
use hybridops_core.State.Refs.{split_module_state_ref}
use hybridops_core.State.Store.{Disk, json, read_module_state, module_state_status, loaded}
use hybridops_core.Blueprint.Step.{Step, named}
use hybridops_core.Blueprint.Destroy.Children.{
  Child, DestroyResult, DestroyRun, update_at, finish_child,
}
use hybridops_core.Blueprint.Destroy.Children.Closing.{SaysDestroyed, finish_child-SaysDestroyed}
use hybridops_core.Blueprint.Destroy.Accounts.{is_deferred}
use hybridops_core.Blueprint.Destroy.Accounts.Outcome.{
  destroy_run-none_deferred, destroy_run-all_settled, all_settled,
}
use hybridops_core.Blueprint.Destroy.Coverage.{handled}
use hybridops_core.Blueprint.Destroy.Coverage.Complete.{destroy_run_complete}
use hybridops_core.Blueprint.Destroy.Untouched.{destroy_run-spared, is_spared}
use hybridops_core.Blueprint.Destroy.{
  Attempt, returned, DestroyEnv, destroy_run, destroy_order, exit_code, as_destroy, start_run,
}

abbrev plain : String → String → List String → Step
plain name module_ref requires = record {
  id = name;
  module_ref = module_ref;
  execution_profile = "";
  action = "deploy";
  phase = "operations";
  requires = requires;
  with_deps = false;
  skip_if_state_ok = false;
  verify_state_on_skip = false;
  retain_on_destroy = false;
  destroy_subsumed_by = "";
  destroy_gate = false;
  optional = false;
  inputs = none;
  inputs_file = "";
  state_instance = "";
  presentation = end;
  contracts = record {
    addressing_mode = "static";
    requires_module_state_ok = [];
    requires_authority = named "none";
    authority_observation = none;
  };
}

abbrev cluster : Step
cluster = record (plain "cluster" "org/cluster" ("network" ∷ [])) {
  destroy_subsumed_by = "network";
}

abbrev steps : List Step
steps =
    plain "network" "org/network" []
    ∷ cluster
    ∷ record (plain "bucket" "org/bucket" []) { retain_on_destroy = true }
    ∷ []

abbrev order : List String
order = destroy_order ("network" ∷ "cluster" ∷ "bucket" ∷ [])

abbrev ready : Fields
ready = field "status" (str "ok") end

abbrev disk : Disk
disk = record {
  files =
      ("modules/org__network/latest.json", json (dict ready))
      ∷ ("modules/org__cluster/latest.json", json (dict ready))
      ∷ [];
  refuses = λ path payload. "";
}

abbrev env : DestroyEnv
env = record {
  run_step = λ step at. (returned (pos 0), at);
  resolved_step_inputs_file = λ step at. ok "";
  failure_detail = λ step before after. "";
  clock = λ child. "2026-01-01T00:00:00Z";
}

-- What the run ends with.
abbrev run_of : Raises DestroyRun → DestroyRun
run_of (ok run) = run
run_of _ = start_run disk

abbrev status_list : List DestroyResult → List String
status_list [] = []
status_list (r ∷ rs) = r.status ∷ status_list rs

ended : DestroyRun
unfolding destroy_run destroy_order
ended = run_of (destroy_run steps env false true order disk)

ended_well : destroy_run steps env false true order disk ≡ ok ended
unfolding destroy_run ended destroy_order module_state_status
ended_well = refl

ended_subsumed : status_list ended.step_results ≡ "retained" ∷ "subsumed" ∷ "ok" ∷ []
unfolding ended destroy_run destroy_order module_state_status update_at
ended_subsumed = refl

zero_code : exit_code ended ≡ 0
unfolding ended destroy_run destroy_order module_state_status
zero_code = refl

destroy_run-none_deferred_example : any_of is_deferred ended.step_results ≡ false
destroy_run-none_deferred_example =
    destroy_run-none_deferred steps env false true order disk ended ended_well

destroy_run-all_settled_example : all_settled ended.step_results ≡ true
destroy_run-all_settled_example =
    destroy_run-all_settled steps env false true order disk ended ended_well zero_code

destroy_run_complete_example : handled ended ≡ order
destroy_run_complete_example =
    destroy_run_complete steps env false true order disk ended ended_well zero_code

-- A command that fails on the steps that are kept or subsumed, and on no other.
other : Step → Disk → Attempt × Disk
other step at = (returned (if is_spared step then pos 1 else pos 0), at)

other_agrees :
    (step : Step) (at : Disk)
    → is_spared step ≡ false
    → other (as_destroy step) at ≡ env.run_step (as_destroy step) at
unfolding other
other_agrees step at own = rw own

destroy_run-spared_example :
    destroy_run steps (record env { run_step = other }) false true order disk
    ≡ destroy_run steps env false true order disk
destroy_run-spared_example = destroy_run-spared steps env false true other other_agrees order disk

abbrev waiting_cluster : Child
waiting_cluster = record { step = cluster; position = 0 }

closed : DestroyRun
unfolding finish_child
closed = run_of (finish_child env.clock "network" waiting_cluster (start_run disk))

closed_well : finish_child env.clock "network" waiting_cluster (start_run disk) ≡ ok closed
unfolding finish_child closed split_module_state_ref read_module_state
closed_well = refl

cluster_parts :
    split_module_state_ref cluster.module_ref cluster.state_instance ≡ ok ("org/cluster", "")
unfolding split_module_state_ref
cluster_parts = refl

closed_failures : closed.required_failures ≡ []
unfolding finish_child closed split_module_state_ref read_module_state
closed_failures = refl

finish_child-SaysDestroyed_example :
    (state : Fields) × (read_module_state closed.disk "org/cluster" "" ≡ loaded state)
    × SaysDestroyed "network" state
finish_child-SaysDestroyed_example =
    finish_child-SaysDestroyed env.clock "network" waiting_cluster (start_run disk) closed
      ("org/cluster", "") closed_well cluster_parts closed_failures
