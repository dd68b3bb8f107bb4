-- ===== src/Blueprint/Destroy/Children.antt =====
-- The results of a destroy run and the steps that a parent step destroys: `finish_subsumed_steps` of
-- `_run_destroy_unlocked` in hyops/blueprint/command.py. The program keeps a waiting child's result
-- and updates it in place; here the child keeps the position of its result.
pub mod Closing
use Prim.Native.String.{◌++◌}
use hybridops_core.Prelude.{
  ℕ, zero, suc, String, Bool, true, false, List, [], ◌∷◌, contains, length, lookup, insert, snoc,
  ◌==◌, none, some, if◌then◌else◌,
}
use hybridops_core.Text.{is_empty}
use hybridops_core.Raises.{Raises, ok, value_error, other_error, ◌>>=◌}
use hybridops_core.Value.{ℤ, pos, str, int, dict, Fields, end}
use hybridops_core.Value.Update.{set_field, drop_fields}
use hybridops_core.State.Refs.{split_module_state_ref}
use hybridops_core.State.Store.{
  Disk, Loaded, loaded, not_found, failed, read_module_state, write_module_state,
}
use hybridops_core.Blueprint.Step.{Step}

pub record DestroyResult : Type 0 where
  pub id : String
  pub module_ref : String
  pub action : String
  pub phase : String
  pub optional : Bool
  pub inputs_file : String
  pub status : String
  pub reason : String
  pub rc : ℤ

-- A child that waits for its parent: the step, and where its result stands.
pub record Child : Type 0 where
  pub step : Step
  pub position : ℕ

-- The variables of the loop. `stopped` is set by a `break`.
pub record DestroyRun : Type 0 where
  pub step_results : List DestroyResult
  pub required_failures : List String
  pub optional_failures : List String
  pub deferred_by_parent : List (String × List Child)
  pub cancelled : Bool
  pub stopped : Bool
  pub disk : Disk

abbrev pub result_of : Step → String → String → ℤ → DestroyResult
result_of step status reason rc = record {
  id = step.id;
  module_ref = step.module_ref;
  action = "destroy";
  phase = step.phase;
  optional = step.optional;
  inputs_file = "";
  status = status;
  reason = reason;
  rc = rc;
}

-- `step_results.append(result)`
abbrev pub add_result : DestroyResult → DestroyRun → DestroyRun
add_result result run = record run { step_results = snoc run.step_results result }

-- `child_result.update(...)`
abbrev pub set_outcome : String → String → ℤ → DestroyResult → DestroyResult
set_outcome status reason rc result = record result { status = status; reason = reason; rc = rc }

unfoldable pub update_at :
    ℕ → (DestroyResult → DestroyResult) → List DestroyResult → List DestroyResult
update_at i change [] = []
update_at zero change (r ∷ rs) = change r ∷ rs
update_at (suc i) change (r ∷ rs) = r ∷ update_at i change rs

abbrev pub children_of : String → List (String × List Child) → List Child
children_of parent pending = elim (lookup parent pending) [ none ↦ [] | some children ↦ children ]

-- `pending.pop(parent, [])` takes the entry away.
unfoldable pub without_parent : String → List (String × List Child) → List (String × List Child)
without_parent parent [] = []
without_parent parent ((name, children) ∷ rest) =
    let later = without_parent parent rest in
    if name == parent then rest else (name, children) ∷ later

-- A step that waits for its parent.
unfoldable pub defer_child : Step → String → DestroyRun → DestroyRun
unfolding lookup insert
defer_child step parent run =
    let child : Child = record { step = step; position = length run.step_results } in
    let waiting = children_of parent run.deferred_by_parent in
    record (add_result (result_of step "deferred" ("destroyed with parent step " ++ parent) (pos 0))
      run) { deferred_by_parent = insert parent (snoc waiting child) run.deferred_by_parent }

-- A child that is not closed.
abbrev pub fail_child : Child → String → DestroyRun → DestroyRun
fail_child child reason run = record run {
  step_results = update_at child.position (set_outcome "failed" reason (pos 2)) run.step_results;
  required_failures = snoc run.required_failures child.step.id;
}

abbrev pub updated_payload : String → String → String → Fields → Fields
updated_payload child_ref parent now previous =
    set_field "destroyed_by_blueprint_step" (str parent) (
      set_field "output_count" (int (pos 0)) (
        set_field "outputs" (dict end) (
          set_field "updated_at" (str now) (
            set_field "status" (str "destroyed")
              (set_field "module_ref" (str child_ref) previous)))))

abbrev pub transient_keys : List String
transient_keys = "active_command" ∷ "failed_command" ∷ "last_error" ∷ "mutation_started" ∷ []

-- The state that a child gets.
unfoldable pub destroyed_payload : String → String → String → String → Fields → Fields
unfolding set_field drop_fields
destroyed_payload child_ref child_instance parent now previous =
    let kept = drop_fields transient_keys (updated_payload child_ref parent now previous) in
    if is_empty child_instance then kept else set_field "state_instance" (str child_instance) kept

abbrev pub noted_write : Child → String → DestroyRun → Raises Disk → DestroyRun
noted_write child parent run (ok disk) = record run {
  disk = disk;
  step_results =
      update_at child.position
        (set_outcome "subsumed" ("destroyed with parent step " ++ parent) (pos 0)) run.step_results;
}
noted_write child parent run (value_error error) =
    fail_child child ("parent was destroyed but child state update failed: " ++ error) run
noted_write child parent run (other_error error) =
    fail_child child ("parent was destroyed but child state update failed: " ++ error) run

module _ (clock : String → String) (parent : String) where
  -- The write of the new state.
  unfoldable pub write_child : Child → String → String → Fields → DestroyRun → DestroyRun
  unfolding destroyed_payload write_module_state
  write_child child child_ref child_instance previous run =
      let payload =
        destroyed_payload child_ref child_instance parent (clock child.step.id) previous in
      noted_write child parent run (write_module_state child_ref payload child_instance run.disk)

  -- From the read of the old state on.
  unfoldable pub close_child : Child → String → String → Loaded → DestroyRun → DestroyRun
  unfolding write_child
  close_child child child_ref child_instance (loaded previous) run =
      write_child child child_ref child_instance previous run
  close_child child child_ref child_instance (not_found path) run =
      write_child child child_ref child_instance end run
  close_child child child_ref child_instance (failed error) run =
      fail_child child ("failed to read deferred state: " ++ error) run

  unfoldable pub finish_child : Child → DestroyRun → Raises DestroyRun
  unfolding split_module_state_ref read_module_state close_child
  finish_child child run =
      split_module_state_ref child.step.module_ref child.step.state_instance >>= λ parts.
      ok (close_child child parts.0 parts.1 (read_module_state run.disk parts.0 parts.1) run)

  unfoldable pub finish_children : List Child → DestroyRun → Raises DestroyRun
  unfolding finish_child
  finish_children [] run = ok run
  finish_children (child ∷ children) run = finish_child child run >>= finish_children children

  unfoldable pub finish_subsumed_steps : DestroyRun → Raises DestroyRun
  unfolding finish_children lookup without_parent
  finish_subsumed_steps run =
      finish_children (children_of parent run.deferred_by_parent)
        (record run { deferred_by_parent = without_parent parent run.deferred_by_parent })

-- `if child_step["id"] not in required_failures: required_failures.append(...)`
abbrev pub note_failed : String → List String → List String
note_failed step_id failures = if contains step_id failures then failures else snoc failures step_id

abbrev pub closed_waiting : String → Child → DestroyRun → DestroyRun
closed_waiting parent child run = record run {
  step_results =
      update_at child.position
        (set_outcome "failed" ("parent step " ++ parent ++ " was not confirmed destroyed") (pos 2))
        run.step_results;
  required_failures = note_failed child.step.id run.required_failures;
}

unfoldable pub close_waiting : String → List Child → DestroyRun → DestroyRun
unfolding update_at
close_waiting parent [] run = run
close_waiting parent (child ∷ children) run =
    close_waiting parent children (closed_waiting parent child run)

unfoldable pub close_parents : List (String × List Child) → DestroyRun → DestroyRun
unfolding close_waiting
close_parents [] run = run
close_parents ((parent, children) ∷ rest) run =
    close_parents rest (close_waiting parent children run)

-- `for parent_id, pending in deferred_by_parent.items()` after the loop
unfoldable pub close_pending : DestroyRun → DestroyRun
unfolding close_parents
close_pending run = close_parents run.deferred_by_parent run
