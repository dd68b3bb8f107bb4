-- ===== src/Blueprint/Preflight.antt =====
-- `preflight_step` of hyops/blueprint/planner.py and `step_state_ref` of hyops/blueprint/contracts.py.
-- What the step's checks ask of the disk, of the module resolver, of the authorities and of the
-- drivers is the record `StepEnv`; a call there may raise.
pub mod Outcome
pub mod Statuses
use Prim.Native.String.{◌++◌}
use hybridops_core.Prelude.{
  String, Bool, true, false, Option, none, some, List, [], ◌∷◌, contains, ◌&&◌, ◌==◌, any_of, snoc,
  if◌then◌else◌,
}
use hybridops_core.Text.{is_empty, strip, lower, join, or_text}
use hybridops_core.Raises.{Raises, ok, value_error, other_error, ◌>>=◌}
use hybridops_core.Value.{Fields}
use hybridops_core.Authority.Models.{AuthorityReceipt}
use hybridops_core.Authority.Registry.{sorted}
use hybridops_core.Blueprint.Step.{Step}
use hybridops_core.Blueprint.References.{list_empty}

-- `step_state_ref`
unfoldable pub step_state_ref : Step → String
unfolding strip lower
step_state_ref step =
    let module_ref = strip step.module_ref in
    let state_instance = lower (strip step.state_instance) in
    if is_empty state_instance then module_ref else module_ref ++ "#" ++ state_instance

pub record Check : Type 0 where
  pub name : String
  pub ok : Bool
  pub detail : String

pub record ResolvedModule : Type 0 where
  pub inputs : Fields
  pub required_credentials : List String
  pub outputs_publish : List String

pub record DriverReport : Type 0 where
  pub status : String
  pub error : String

pub data DriverPreflight : Type 0 where
  not_run : DriverPreflight
  deferred : List String → DriverPreflight
  report : DriverReport → DriverPreflight

-- The dict of a step's result. Keys that are set late are empty before.
pub record StepResult : Type 0 where
  pub id : String
  pub module_ref : String
  pub module_state_ref : String
  pub action : String
  pub phase : String
  pub optional : Bool
  pub checks : List Check
  pub status : String
  pub inputs_file : String
  pub authority : Option AuthorityReceipt
  pub required_credentials : List String
  pub outputs_publish : List String
  pub driver_preflight : DriverPreflight

pub record StepEnv : Type 0 where
  pub resolved_step_inputs_file : Step → Raises String
  pub module_state_ok : String → Bool
  pub explicit_step_inputs_changed : Step → Raises (Bool × String)
  pub evaluate_state_skip : Step → Raises (String × String)
  pub enforce_step_contracts : Step → List String → Raises (Option AuthorityReceipt)
  pub resolve_module : Step → String → List String → Raises ResolvedModule
  pub required_env_error : Fields → String → Raises String
  pub run_module_driver_preflight : Step → String → List String → Bool → Raises DriverReport

-- `result["checks"].append(...)`
abbrev pub add_check : String → Bool → String → StepResult → StepResult
add_check name passed detail r = record r {
  checks = snoc r.checks (record { name = name; ok = passed; detail = detail });
}

-- `result["status"] = "blocked"` with the failed check
abbrev pub block : String → String → StepResult → StepResult
block name detail r = add_check name false detail (record r { status = "blocked" })

-- `try: ... except Exception as exc: ...`
abbrev pub caught {ℓ κ} : {A : Type ℓ} {B : Type κ} → Raises A → (A → B) → (String → B) → B
caught (ok a) returned raised = returned a
caught (value_error e) returned raised = raised e
caught (other_error e) returned raised = raised e

unfoldable pub start_result : Step → StepResult
unfolding step_state_ref
start_result step = record {
  id = step.id;
  module_ref = step.module_ref;
  module_state_ref = step_state_ref step;
  action = step.action;
  phase = step.phase;
  optional = step.optional;
  checks = [];
  status = "ready";
  inputs_file = "";
  authority = none;
  required_credentials = [];
  outputs_publish = [];
  driver_preflight = not_run;
}

-- `result["required_credentials"] = ...; result["outputs_publish"] = ...`
abbrev pub note_resolved : ResolvedModule → StepResult → StepResult
note_resolved resolved r = record r {
  required_credentials = resolved.required_credentials;
  outputs_publish = resolved.outputs_publish;
}

-- `result["authority"] = ...`, when there is a receipt
abbrev pub note_authority : Option AuthorityReceipt → StepResult → StepResult
note_authority receipt r = record r { authority = receipt }

-- `result["inputs_file"] = ...`
abbrev pub note_file : String → StepResult → StepResult
note_file file r = record r { inputs_file = file }

abbrev suffix : String → String
suffix detail = if is_empty detail then "" else ": " ++ detail

abbrev pub changed_detail : String → String
changed_detail detail =
    "existing state will not be skipped because explicit step inputs changed" ++ suffix detail

module _ (env : StepEnv) (step : Step) (assumed_state_ok deferred_refs : List String) where
  unfoldable pub judge_driver : StepResult → DriverReport → StepResult
  unfolding strip lower
  judge_driver r answer =
      let driver_status = lower (strip answer.status) in
      let r' = record r { driver_preflight = report answer } in
      if driver_status == "ok"
      then add_check "module_preflight" true "ok" r'
      else block "module_preflight" (or_text answer.error ("status=" ++ driver_status)) r'

  -- From `if deferred_driver_preflight_refs` to the end.
  unfoldable pub driver_stage : StepResult → StepResult
  unfolding judge_driver sorted join
  driver_stage r =
      let refs = sorted deferred_refs in
      if list_empty deferred_refs
      then caught
          (env.run_module_driver_preflight step r.inputs_file assumed_state_ok
            (step.verify_state_on_skip && any_of (λ c. c.name == "state_skip") r.checks))
          (judge_driver r) (λ e. block "module_preflight" e r)
      else record (add_check "module_preflight" true
          ("driver checks deferred until upstream blueprint state exists: " ++ join ", " refs) r) {
            driver_preflight = deferred refs;
          }

  -- `_required_env_error` is not inside a `try`.
  unfoldable pub env_stage : ResolvedModule → StepResult → Raises StepResult
  unfolding driver_stage
  env_stage resolved r = do
    problem ← env.required_env_error resolved.inputs (lower (strip step.action))
    ok (
        if is_empty problem
        then driver_stage (add_check "required_env" true "ok" r)
        else block "required_env" problem r)

  unfoldable pub resolve_stage : StepResult → Raises StepResult
  unfolding env_stage
  resolve_stage r =
      caught (env.resolve_module step r.inputs_file assumed_state_ok)
        (λ resolved.
          env_stage resolved (note_resolved resolved (add_check "module_resolve" true "ok" r)))
        (λ e. ok (block "module_resolve" e r))

  -- From the enforcement of the contracts to the end.
  unfoldable pub contract_stage : StepResult → Raises StepResult
  unfolding resolve_stage
  contract_stage r =
      caught (env.enforce_step_contracts step assumed_state_ok)
        (λ receipt. resolve_stage (note_authority receipt (add_check "contracts" true "ok" r)))
        (λ e. ok (block "contracts" e r))

  -- The verdict of the live verification of existing state.
  unfoldable pub skip_verdict : String → String → StepResult → Raises StepResult
  unfolding contract_stage
  skip_verdict skip_status skip_detail r =
      if skip_status == "safe"
      then ok (
          add_check "state_skip" true
            ("skip_if_state_ok=true and live state verification passed" ++ suffix skip_detail)
            (record r { status = "skipped" }))
      else if skip_status == "error"
      then ok (block "state_skip" (or_text skip_detail "live state verification failed") r)
      else contract_stage (
          add_check "state_skip" true
            ("existing state will not be skipped because live verification detected drift"
              ++ suffix skip_detail)
            r)

  unfoldable pub verify_stage : StepResult → Raises StepResult
  unfolding skip_verdict
  verify_stage r =
      if step.verify_state_on_skip
      then caught (env.evaluate_state_skip step) (λ (status, detail). skip_verdict status detail r)
          (λ e. skip_verdict "error" ("state skip verification failed: " ++ e) r)
      else ok (
          add_check "state_skip" true "skip_if_state_ok=true and module state is ok"
            (record r { status = "skipped" }))

  -- `skip_if_state_ok`, a mutating action, and an existing state that is ok
  unfoldable pub may_skip : Bool
  unfolding step_state_ref
  may_skip =
      step.skip_if_state_ok
      && contains step.action ("apply" ∷ "deploy" ∷ [])
      && env.module_state_ok (step_state_ref step)

  unfoldable pub skip_stage : StepResult → Raises StepResult
  unfolding may_skip verify_stage
  skip_stage r =
      if may_skip
      then (do
        (changed, detail) ← env.explicit_step_inputs_changed step
        if changed
            then contract_stage (add_check "state_skip" true (changed_detail detail) r)
            else verify_stage r)
      else contract_stage r

  unfoldable pub preflight_step : Raises StepResult
  unfolding start_result skip_stage
  preflight_step =
      let r = start_result step in
      caught (env.resolved_step_inputs_file step)
        (λ file. skip_stage (add_check "inputs_file" true file (note_file file r)))
        (λ e. ok (block "inputs_file" e r))
