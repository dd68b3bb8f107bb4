-- ===== src/Blueprint/Destroy.antt =====
-- The loop over the steps in `_run_destroy_unlocked` of hyops/blueprint/command.py, after the archive
-- and the confirmation: `_destroy_gate_required`, `finish_subsumed_steps`, the handling of a step,
-- the closing of the children that still wait, and the exit code. Running a step's command,
-- materializing its inputs, the detail of a failure and the clock are the record `DestroyEnv`.
pub mod Children
pub mod Accounts
pub mod Coverage
pub mod Untouched
use Prim.Native.String.{◌++◌}
use hybridops_core.Prelude.{
  ℕ, String, Bool, true, false, Option, none, some, List, [], ◌∷◌, contains, length, snoc, ◌&&◌,
  ◌||◌, not, nat_eq, if◌then◌else◌,
}
use hybridops_core.Text.{is_empty, strip, or_text}
use hybridops_core.Raises.{Raises, ok, value_error, other_error, ◌>>=◌}
use hybridops_core.Value.{ℤ, pos, negsuc}
use hybridops_core.State.Store.{Disk, module_state_status}
use hybridops_core.Blueprint.Step.{Step, by_id}
use hybridops_core.Blueprint.References.{list_empty}
use hybridops_core.Blueprint.Preflight.{step_state_ref}
use hybridops_core.Blueprint.Destroy.Children.{
  DestroyResult, Child, DestroyRun, result_of, add_result, finish_subsumed_steps, defer_child,
  close_pending,
}

-- What a call of `run_step_module_command` does: it returns a code, a `KeyboardInterrupt` ends it,
-- or it raises an exception with the text that `format_runtime_storage_error` gives.
pub data Attempt : Type 0 where
  returned : ℤ → Attempt
  interrupted : Attempt
  raised : String → Attempt

pub record DestroyEnv : Type 0 where
  pub run_step : Step → Disk → Attempt × Disk
  pub resolved_step_inputs_file : Step → Disk → Raises String
  pub failure_detail : Step → Disk → Disk → String
  pub clock : String → String

abbrev pub is_code : ℕ → ℤ → Bool
is_code n (pos m) = nat_eq m n
is_code n (negsuc m) = false

-- The step with its action overridden.
abbrev pub as_destroy : Step → Step
as_destroy step = record step { action = "destroy" }

-- `status and status not in {"absent", "destroyed", "missing"}`
abbrev pub is_live : String → Bool
is_live status =
    not (is_empty status) && not (contains status ("absent" ∷ "destroyed" ∷ "missing" ∷ []))

unfoldable pub any_live : List Step → Disk → List String → Bool
unfolding by_id step_state_ref
any_live steps disk [] = false
any_live steps disk (required_id ∷ requires) =
    let rest = any_live steps disk requires in
    elim (by_id steps required_id) [
      | none ↦ rest
      | some required ↦
          if is_live (module_state_status disk (step_state_ref required)) then true else rest
    ]

-- `_destroy_gate_required`
unfoldable pub destroy_gate_required : List Step → Disk → Step → Bool
unfolding any_live
destroy_gate_required steps disk step =
    if not step.destroy_gate then false else any_live steps disk step.requires

-- The code and the text of an attempt.
abbrev pub code_of : Attempt → ℤ
code_of (returned rc) = rc
code_of interrupted = pos 130
code_of (raised error) = pos 2

abbrev pub error_of : Attempt → String
error_of (returned rc) = ""
error_of interrupted = "cancelled by user"
error_of (raised error) = error

abbrev pub inputs_of : Raises String → String
inputs_of (ok path) = path
inputs_of (value_error error) = ""
inputs_of (other_error error) = ""

-- A command that did not return 0.
unfoldable pub note_failure : Bool → Step → DestroyResult → DestroyRun → DestroyRun
note_failure fail_fast step result run =
    if is_code 130 result.rc
    then record (add_result (record result { status = "cancelled" }) run) {
      cancelled = true;
      stopped = true;
    }
    else if step.optional
    then record (add_result (record result { status = "failed-optional" }) run) {
      optional_failures = snoc run.optional_failures step.id;
    }
    else record (add_result result run) {
      required_failures = snoc run.required_failures step.id;
      stopped = fail_fast;
    }

-- `run_step_module_command(destroy_step, ...)` in the state of the run.
abbrev pub call_of : DestroyEnv → Step → DestroyRun → Attempt × Disk
call_of env step run = env.run_step (as_destroy step) run.disk

abbrev pub after_command : DestroyEnv → Step → DestroyRun → DestroyRun
after_command env step run = record run { disk = (call_of env step run).1 }

-- The result of a command that returns 0. Inputs that cannot be materialized are left out.
abbrev pub ok_result : DestroyEnv → Step → DestroyRun → DestroyResult
ok_result env step run = record (result_of step "ok" "" (pos 0)) {
  inputs_file = inputs_of (env.resolved_step_inputs_file step run.disk);
}

-- The result of any other command.
abbrev pub failed_result : DestroyEnv → Step → DestroyRun → DestroyResult
failed_result env step run =
    let attempt = (call_of env step run).0 in
    let detail = env.failure_detail (as_destroy step) run.disk (call_of env step run).1 in
    record (ok_result env step run) {
      status = "failed";
      rc = code_of attempt;
      reason = or_text (or_text (error_of attempt) detail) "step command failed";
    }

-- The command of the step, with what it leaves on the disk.
unfoldable pub run_command : DestroyEnv → Bool → Step → DestroyRun → Raises DestroyRun
unfolding finish_subsumed_steps note_failure
run_command env fail_fast step run =
    let after = after_command env step run in
    if is_code 0 (code_of (call_of env step run).0)
    then finish_subsumed_steps env.clock step.id (add_result (ok_result env step run) after)
    else ok (note_failure fail_fast step (failed_result env step run) after)

abbrev pub dead_result : Step → String → DestroyResult
dead_result step status =
    result_of step "skipped" (if is_empty status then "no-state" else "state-" ++ status) (pos 0)

-- A step without state is skipped. Its children are closed when the state says it is destroyed.
unfoldable pub skip_dead : (String → String) → Step → String → DestroyRun → Raises DestroyRun
unfolding finish_subsumed_steps
skip_dead clock step status run =
    let skipped = add_result (dead_result step status) run in
    if contains status ("destroyed" ∷ "absent" ∷ [])
    then finish_subsumed_steps clock step.id skipped
    else ok skipped

abbrev pub start_run : Disk → DestroyRun
start_run disk = record {
  step_results = [];
  required_failures = [];
  optional_failures = [];
  deferred_by_parent = [];
  cancelled = false;
  stopped = false;
  disk = disk;
}

module _ (steps : List Step) (env : DestroyEnv) (skip_archive fail_fast : Bool) where
  -- From the status of the step's state on.
  unfoldable pub destroy_by_state : Step → DestroyRun → Raises DestroyRun
  unfolding destroy_gate_required skip_dead run_command defer_child strip step_state_ref
  destroy_by_state step run =
      let status = module_state_status run.disk (step_state_ref step) in
      let dead = is_empty status || contains status ("destroyed" ∷ "absent" ∷ []) in
      let parent = strip step.destroy_subsumed_by in
      if not (destroy_gate_required steps run.disk step) && dead
      then skip_dead env.clock step status run
      else if not (is_empty parent)
      then ok (defer_child step parent run)
      else run_command env fail_fast step run

  -- The body of the loop.
  unfoldable pub destroy_step : Step → DestroyRun → Raises DestroyRun
  unfolding destroy_by_state
  destroy_step step run =
      if skip_archive && step.destroy_gate
      then ok (add_result (result_of step "skipped" "recovery-preservation-skipped" (pos 0)) run)
      else if step.retain_on_destroy
      then ok (add_result (result_of step "retained" "retain_on_destroy" (pos 0)) run)
      else destroy_by_state step run

  -- `for step_id in destroy_order`, which a `break` leaves.
  unfoldable pub destroy_steps : List String → DestroyRun → Raises DestroyRun
  unfolding by_id destroy_step
  destroy_steps [] run = ok run
  destroy_steps (step_id ∷ order) run = if run.stopped then ok run else elim (by_id steps step_id) [
    | none ↦ other_error step_id
    | some step ↦ destroy_step step run >>= destroy_steps order
  ]

  -- The loop and the closing of the children whose parent was not confirmed destroyed.
  unfoldable pub destroy_run : List String → Disk → Raises DestroyRun
  unfolding destroy_steps close_pending
  destroy_run order disk = destroy_steps order (start_run disk) >>= λ run. ok (close_pending run)

-- `list(reversed(payload["order"]))`
unfoldable pub destroy_order : List String → List String
destroy_order [] = []
destroy_order (step_id ∷ order) = snoc (destroy_order order) step_id

-- What the command returns.
abbrev pub exit_code : DestroyRun → ℕ
exit_code run = if run.cancelled then 130 else if list_empty run.required_failures then 0 else 2

abbrev pub final_status : DestroyRun → String
final_status run =
    if run.cancelled
    then "cancelled"
    else if list_empty run.required_failures
    then "ok"
    else "failed"
