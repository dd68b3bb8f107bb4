-- ===== src/Blueprint/Destroy/Coverage.antt =====
-- Which steps a destroy run (hyops/blueprint/command.py) has a result for: the results stand in the
-- order of the run, and a run that returns 0 has one for every step of the order.
pub mod Complete
use Prim.Native.String.{◌++◌}
use hybridops_core.Prelude.{
  ℕ, zero, suc, ◌≡◌, ◌≢◌, refl, sym, ap, ◌∙◌, subst, String, Bool, true, false, List, [], ◌∷◌,
  Option, none, some, snoc, contains, map, ◌&&◌, ◌||◌, not, ◌==◌, eq_iff, arith, Bool-cases,
  Option-cases, if_elim, option_elim, inl, inr,
}
use hybridops_core.Text.{is_empty, strip}
use hybridops_core.Raises.{Raises, ok, >>=-elim_ok}
use hybridops_core.Value.{pos}
use hybridops_core.State.Store.{Disk, module_state_status}
use hybridops_core.Blueprint.Step.{Step, by_id}
use hybridops_core.Blueprint.References.{list_empty}
use hybridops_core.Blueprint.Preflight.{step_state_ref}
use hybridops_core.Blueprint.Destroy.Children.{
  DestroyResult, Child, DestroyRun, result_of, add_result, set_outcome, update_at, defer_child,
  children_of, without_parent, close_pending, close_waiting, close_parents, finish_subsumed_steps,
  finish_children, finish_child,
}
use hybridops_core.Blueprint.Destroy.Accounts.Closed.{
  Closed, subsumed, failing, finish_child-Closed, list_empty-snoc,
}
use hybridops_core.Blueprint.Destroy.{
  DestroyEnv, is_code, note_failure, run_command, skip_dead, destroy_gate_required,
  destroy_by_state, destroy_step, destroy_steps, destroy_run, exit_code, code_of, start_run,
  call_of, after_command, ok_result, failed_result, dead_result,
}

abbrev pub result_ids : List DestroyResult → List String
result_ids [] = []
result_ids (r ∷ rs) = r.id ∷ result_ids rs

-- The steps that the run has a result for, in order.
abbrev pub handled : DestroyRun → List String
handled run = result_ids run.step_results

result_ids-snoc :
    (rs : List DestroyResult) (r : DestroyResult)
    → result_ids (snoc rs r) ≡ snoc (result_ids rs) r.id
result_ids-snoc [] r = refl
result_ids-snoc (x ∷ rs) r = ap (λ ids. x.id ∷ ids) (result_ids-snoc rs r)

result_ids-update_at :
    (status reason : String) (k : ℕ) (rs : List DestroyResult) (rc : _)
    → result_ids (update_at k (set_outcome status reason rc) rs) ≡ result_ids rs
unfolding update_at
result_ids-update_at status reason k [] rc = refl
result_ids-update_at status reason zero (x ∷ rs) rc = refl
result_ids-update_at status reason (suc k) (x ∷ rs) rc =
    ap (λ ids. x.id ∷ ids) (result_ids-update_at status reason k rs rc)

-- The run goes on, or it ended with a failure or a cancellation.
abbrev pub is_honest : DestroyRun → Bool
is_honest run = not run.stopped || run.cancelled || not (list_empty run.required_failures)

pub record Handles (ids : List String) (run : DestroyRun) : Type 0 where
  pub results : handled run ≡ ids
  pub honest : is_honest run ≡ true

Closed-Handles :
    (ids : List String) (child : Child) (run after : DestroyRun)
    → Closed child run after
    → Handles ids run
    → Handles ids after
Closed-Handles ids child run after (subsumed reason results failures cancel _ stop) h = record {
  results =
      ap result_ids results
      ∙ result_ids-update_at "subsumed" reason child.position run.step_results _
      ∙ h.results;
  honest = let before = h.honest in rw (sym failures, sym cancel, sym stop) at before;
}
Closed-Handles ids child run after (failing reason results failures cancel _ stop) h = record {
  results =
      ap result_ids results
      ∙ result_ids-update_at "failed" reason child.position run.step_results _
      ∙ h.results;
  honest = ground arith;
}

pub ok_inj : {a b : DestroyRun} → ok a ≡ ok b → a ≡ b
ok_inj p = cc

finish_children-Handles :
    (clock : String → String) (parent : String) (ids : List String) (children : List Child)
    (run after : DestroyRun)
    → finish_children clock parent children run ≡ ok after
    → Handles ids run
    → Handles ids after
unfolding finish_children
finish_children-Handles clock parent ids [] run after returned h =
    subst (Handles ids) (ok_inj returned) h
finish_children-Handles clock parent ids (child ∷ children) run after returned h =
    >>=-elim_ok (finish_child clock parent child run) _ returned λ next called rest.
      finish_children-Handles clock parent ids children next after rest (
        Closed-Handles ids child run next (finish_child-Closed clock parent child run next called)
          h)

finish_subsumed_steps-Handles :
    (clock : String → String) (parent : String) (ids : List String) (run after : DestroyRun)
    → finish_subsumed_steps clock parent run ≡ ok after
    → Handles ids run
    → Handles ids after
unfolding finish_subsumed_steps
finish_subsumed_steps-Handles clock parent ids run after returned h =
    finish_children-Handles clock parent ids (children_of parent run.deferred_by_parent)
      (record run { deferred_by_parent = without_parent parent run.deferred_by_parent }) after
      returned (record { results = h.results; honest = h.honest })

pub add_result-Handles :
    (ids : List String) (r : DestroyResult) (run : DestroyRun)
    → Handles ids run
    → Handles (snoc ids r.id) (add_result r run)
add_result-Handles ids r run h = record {
  results = result_ids-snoc run.step_results r ∙ ap (λ l. snoc l r.id) h.results;
  honest = h.honest;
}

note_failure-Handles :
    (fail_fast : Bool) (ids : List String) (step : Step) (result : DestroyResult) (run : DestroyRun)
    → Handles ids run
    → Handles (snoc ids result.id) (note_failure fail_fast step result run)
unfolding note_failure
note_failure-Handles fail_fast ids step result run h =
    let added = λ (r : DestroyResult). add_result-Handles ids r run h in
    elim (Bool-cases (is_code 130 result.rc)) [
      | inl interrupt ↦ rw interrupt (record {
        results = (added (record result { status = "cancelled" })).results;
        honest = ground arith;
      })
      | inr failure ↦ elim (Bool-cases step.optional) [
        | inl optional ↦
            rw (failure, optional)
              (record {
                results = (added (record result { status = "failed-optional" })).results;
                honest = h.honest;
              })
        | inr required ↦
            rw (failure, required)
              (record {
                results = (added result).results;
                honest = ground (arith, list_empty-snoc run.required_failures step.id);
              })
      ]
    ]

pub run_command-Handles :
    (env : DestroyEnv) (fail_fast : Bool) (ids : List String) (step : Step) (run after : DestroyRun)
    → run_command env fail_fast step run ≡ ok after
    → Handles ids run
    → Handles (snoc ids step.id) after
unfolding run_command
run_command-Handles env fail_fast ids step run after returned h =
    let called : Handles ids (after_command env step run) = record {
      results = h.results;
      honest = h.honest;
    } in
    if_elim (is_code 0 (code_of (call_of env step run).0)) returned
      (λ zero_code closed.
        finish_subsumed_steps-Handles env.clock step.id (snoc ids step.id) _ after closed
          (add_result-Handles ids (ok_result env step run) (after_command env step run) called))
      λ other_code failed. subst (Handles (snoc ids step.id)) (ok_inj failed) (
        note_failure-Handles fail_fast ids step (failed_result env step run)
          (after_command env step run) called)

pub skip_dead-Handles :
    (clock : String → String) (ids : List String) (step : Step) (status : String)
    (run after : DestroyRun)
    → skip_dead clock step status run ≡ ok after
    → Handles ids run
    → Handles (snoc ids step.id) after
unfolding skip_dead
skip_dead-Handles clock ids step status run after returned h =
    let skipped = add_result-Handles ids (dead_result step status) run h in
    if_elim (contains status ("destroyed" ∷ "absent" ∷ [])) returned
      (λ gone closed.
        finish_subsumed_steps-Handles clock step.id (snoc ids step.id)
          (add_result (dead_result step status) run) after closed skipped)
      λ no_state kept. subst (Handles (snoc ids step.id)) (ok_inj kept) skipped

pub defer_child-Handles :
    (ids : List String) (step : Step) (parent : String) (run : DestroyRun)
    → Handles ids run
    → Handles (snoc ids step.id) (defer_child step parent run)
unfolding defer_child
defer_child-Handles ids step parent run h = record {
  results =
      result_ids-snoc run.step_results
        (result_of step "deferred" ("destroyed with parent step " ++ parent) (pos 0))
      ∙ ap (λ l. snoc l step.id) h.results;
  honest = h.honest;
}

pub handled-close_waiting :
    (parent : String) (ids : List String) (children : List Child) (run : DestroyRun)
    → handled run ≡ ids
    → handled (close_waiting parent children run) ≡ ids
unfolding close_waiting
handled-close_waiting parent ids [] run h = h
handled-close_waiting parent ids (child ∷ children) run h =
    handled-close_waiting parent ids children _
      (result_ids-update_at "failed" _ child.position run.step_results _ ∙ h)
