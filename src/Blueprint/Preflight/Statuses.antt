-- ===== src/Blueprint/Preflight/Statuses.antt =====
-- The status of a step's preflight (hyops/blueprint/planner.py) and its checks.
use Prim.Native.String.{◌++◌}
use hybridops_core.Prelude.{
  String, ◌≡◌, Bool, true, false, List, refl, ◌==◌, inl, inr, subst, if◌then◌else◌,
}
use hybridops_core.Text.{is_empty}
use hybridops_core.Raises.{Raises, ok, value_error, other_error}
use hybridops_core.Blueprint.Step.{Step}
use hybridops_core.Blueprint.References.{list_empty}
use hybridops_core.Blueprint.Preflight.{
  note_resolved, note_authority, note_file, DriverReport, DriverPreflight, report, ResolvedModule,
  StepResult, StepEnv, add_check, block, caught, start_result, judge_driver, driver_stage,
  env_stage, resolve_stage, contract_stage, skip_verdict, verify_stage, skip_stage, may_skip,
  preflight_step, changed_detail,
}
use hybridops_core.Blueprint.Preflight.Outcome.{
  Consistent, Clean, Clean-Consistent, Clean-add, block-Consistent, Sound, Sound-ok, Sound-caught,
  Sound-bind, Sound-if,
}

module _ (env : StepEnv) (step : Step) (assumed_state_ok deferred_refs : List String) where
  judge_driver-Consistent :
      (r : StepResult) (answer : DriverReport)
      → Clean step r
      → Consistent step (judge_driver env step assumed_state_ok deferred_refs r answer)
  unfolding judge_driver
  judge_driver-Consistent r answer c = by_case _ _
    where
      r' : StepResult
      r' = record r { driver_preflight = report answer }

      c' : Clean step r'
      c' = record {
        same_id = c.same_id;
        same_optional = c.same_optional;
        ready = c.ready;
        passed = c.passed;
      }

      by_case :
          (b : Bool) (detail : String)
          → Consistent step (
              if b
              then add_check "module_preflight" true "ok" r'
              else block "module_preflight" detail r')
      by_case true detail = Clean-Consistent step _ (Clean-add step "module_preflight" "ok" r' c')
      by_case false detail = block-Consistent step "module_preflight" detail r' c'

  driver_stage-Consistent :
      (r : StepResult)
      → Clean step r
      → Consistent step (driver_stage env step assumed_state_ok deferred_refs r)
  unfolding driver_stage
  driver_stage-Consistent r c =
      by_case (list_empty deferred_refs)
        (env.run_module_driver_preflight step r.inputs_file assumed_state_ok _) _ _
    where
      late : DriverPreflight → String → StepResult
      late d detail = record (add_check "module_preflight" true detail r) { driver_preflight = d }

      late-Consistent : (d : DriverPreflight) (detail : String) → Consistent step (late d detail)
      late-Consistent d detail =
          let k = Clean-add step "module_preflight" detail r c in
          Clean-Consistent step _ (record {
            same_id = k.same_id;
            same_optional = k.same_optional;
            ready = k.ready;
            passed = k.passed;
          })

      by_case :
          (b : Bool) (m : Raises DriverReport) (d : DriverPreflight) (detail : String)
          → Consistent step (
              if b
              then caught m
                  (judge_driver env step assumed_state_ok deferred_refs r)
                  (λ e. block "module_preflight" e r)
              else late d detail)
      by_case true (ok answer) d detail = judge_driver-Consistent r answer c
      by_case true (value_error e) d detail = block-Consistent step _ e r c
      by_case true (other_error e) d detail = block-Consistent step _ e r c
      by_case false m d detail = late-Consistent d detail

  env_stage-Sound :
      (resolved : ResolvedModule) (r : StepResult)
      → Clean step r
      → Sound step (env_stage env step assumed_state_ok deferred_refs resolved r)
  unfolding env_stage
  env_stage-Sound resolved r c =
      Sound-bind step (env.required_env_error resolved.inputs _) _
        λ problem. by_case (is_empty problem) problem
    where
      by_case :
          (b : Bool) (problem : String)
          → Sound step (
              ok (
                if b
                then driver_stage env step assumed_state_ok deferred_refs
                    (add_check "required_env" true "ok" r)
                else block "required_env" problem r))
      by_case true problem =
          Sound-ok step _ (driver_stage-Consistent _ (Clean-add step "required_env" "ok" r c))
      by_case false problem = Sound-ok step _ (block-Consistent step _ problem r c)

  resolve_stage-Sound :
      (r : StepResult)
      → Clean step r
      → Sound step (resolve_stage env step assumed_state_ok deferred_refs r)
  unfolding resolve_stage
  resolve_stage-Sound r c =
      Sound-caught step (env.resolve_module step r.inputs_file assumed_state_ok) _ _
        (λ resolved.
          let k = Clean-add step "module_resolve" "ok" r c in
          env_stage-Sound resolved (note_resolved resolved (add_check "module_resolve" true "ok" r))
            (record {
              same_id = k.same_id;
              same_optional = k.same_optional;
              ready = k.ready;
              passed = k.passed;
            }))
        (λ e. Sound-ok step _ (block-Consistent step "module_resolve" e r c))

  contract_stage-Sound :
      (r : StepResult)
      → Clean step r
      → Sound step (contract_stage env step assumed_state_ok deferred_refs r)
  unfolding contract_stage
  contract_stage-Sound r c =
      Sound-caught step (env.enforce_step_contracts step assumed_state_ok) _ _
        (λ receipt.
          let k = Clean-add step "contracts" "ok" r c in
          resolve_stage-Sound (note_authority receipt (add_check "contracts" true "ok" r)) (record {
            same_id = k.same_id;
            same_optional = k.same_optional;
            ready = k.ready;
            passed = k.passed;
          }))
        (λ e. Sound-ok step _ (block-Consistent step "contracts" e r c))

  skipped-Consistent :
      (detail : String) (r : StepResult)
      → Clean step r
      → Consistent step (add_check "state_skip" true detail (record r { status = "skipped" }))
  skipped-Consistent detail r c =
      let k = Clean-add step "state_skip" detail r c in
      record {
        same_id = k.same_id;
        same_optional = k.same_optional;
        outcome = inr (inl (refl, k.passed));
      }

  skip_verdict-Sound :
      (skip_status skip_detail : String) (r : StepResult)
      → Clean step r
      → Sound step (skip_verdict env step assumed_state_ok deferred_refs skip_status skip_detail r)
  unfolding skip_verdict
  skip_verdict-Sound skip_status skip_detail r c =
      Sound-if step (skip_status == "safe") _ _ (Sound-ok step _ (skipped-Consistent _ r c)) (
        Sound-if step (skip_status == "error") _ _ (Sound-ok step _ (block-Consistent step _ _ r c))
          (contract_stage-Sound _ (Clean-add step "state_skip" _ r c)))

  verify_stage-Sound :
      (r : StepResult)
      → Clean step r
      → Sound step (verify_stage env step assumed_state_ok deferred_refs r)
  unfolding verify_stage
  verify_stage-Sound r c =
      Sound-if step step.verify_state_on_skip _ _
        (Sound-caught step (env.evaluate_state_skip step) _ _
          (λ (status, detail). skip_verdict-Sound status detail r c)
          (λ e. skip_verdict-Sound "error" ("state skip verification failed: " ++ e) r c))
        (Sound-ok step _ (skipped-Consistent "skip_if_state_ok=true and module state is ok" r c))

  skip_stage-Sound :
      (r : StepResult)
      → Clean step r
      → Sound step (skip_stage env step assumed_state_ok deferred_refs r)
  unfolding skip_stage
  skip_stage-Sound r c =
      Sound-if step (may_skip env step assumed_state_ok deferred_refs) _ _
        (Sound-bind step (env.explicit_step_inputs_changed step) _ λ (changed, detail).
          Sound-if step changed _ _
            (contract_stage-Sound (add_check "state_skip" true (changed_detail detail) r)
              (Clean-add step "state_skip" (changed_detail detail) r c))
            (verify_stage-Sound r c))
        (contract_stage-Sound r c)

  preflight_step-Sound : Sound step (preflight_step env step assumed_state_ok deferred_refs)
  unfolding preflight_step
  preflight_step-Sound =
      Sound-caught step (env.resolved_step_inputs_file step) _ _
        (λ file.
          skip_stage-Sound (add_check "inputs_file" true file (note_file file (start_result step)))
            (Clean-add step "inputs_file" file (note_file file (start_result step))
              (record { same_id = refl; same_optional = refl; ready = refl; passed = refl })))
        (λ e. Sound-ok step _ (
          block-Consistent step "inputs_file" e (start_result step)
            (record { same_id = refl; same_optional = refl; ready = refl; passed = refl })))

  -- A preflight that returns is consistent: its status is ready, skipped or blocked, and it is
  -- blocked exactly if one of its checks failed.
  pub preflight_step-Consistent :
      {r : StepResult}
      → preflight_step env step assumed_state_ok deferred_refs ≡ ok r
      → Consistent step r
  unfolding Sound
  preflight_step-Consistent h = subst (Sound step) h preflight_step-Sound
