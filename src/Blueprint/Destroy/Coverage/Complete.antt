-- ===== src/Blueprint/Destroy/Coverage/Complete.antt =====
-- A destroy run (hyops/blueprint/command.py) handles its steps in order, and all of them when it
-- returns 0.
use hybridops_core.Prelude.{
  ◌≡◌, refl, sym, ap, ◌∙◌, subst, String, Bool, true, false, List, [], ◌∷◌, ◌++◌, snoc, contains,
  ◌&&◌, ◌||◌, not, arith, Bool-cases, if_elim, option_elim, inl, inr,
}
use hybridops_core.Text.{is_empty, strip}
use hybridops_core.Raises.{ok, >>=-elim_ok}
use hybridops_core.Value.{pos}
use hybridops_core.State.Store.{Disk, module_state_status}
use hybridops_core.Blueprint.Step.{Step, by_id}
use hybridops_core.Blueprint.References.{list_empty}
use hybridops_core.Blueprint.Preflight.{step_state_ref}
use hybridops_core.Blueprint.Plan.Deferral.{by_id-id}
use hybridops_core.Blueprint.Destroy.Children.{
  DestroyResult, Child, DestroyRun, result_of, close_pending, close_waiting, close_parents,
  closed_waiting,
}
use hybridops_core.Blueprint.Destroy.Accounts.Kept.{note_failed-list_empty}
use hybridops_core.Blueprint.Destroy.Coverage.{
  handled, Handles, ok_inj, add_result-Handles, run_command-Handles, skip_dead-Handles,
  defer_child-Handles, handled-close_waiting,
}
use hybridops_core.Blueprint.Destroy.{
  DestroyEnv, destroy_gate_required, destroy_by_state, destroy_step, destroy_steps, destroy_run,
  exit_code, start_run,
}

snoc-append :
    (ids : List String) (x : String) (more : List String) → snoc ids x ++ more ≡ ids ++ x ∷ more
snoc-append [] x more = refl
snoc-append (y ∷ ids) x more = ap (λ l. y ∷ l) (snoc-append ids x more)

append_nil : (ids : List String) → ids ++ [] ≡ ids
append_nil [] = refl
append_nil (y ∷ ids) = ap (λ l. y ∷ l) (append_nil ids)

-- The loop handled the steps `done` after `ids`, and left out `rest`.
record Looped (ids order : List String) (after : DestroyRun) : Type 0 where
  pub done : List String
  pub rest : List String
  pub parts : order ≡ done ++ rest
  pub handles : Handles (ids ++ done) after
  pub broke : list_empty rest ≡ false → after.stopped ≡ true

module _ (steps : List Step) (env : DestroyEnv) (skip_archive fail_fast : Bool) where
  destroy_by_state-Handles :
      (ids : List String) (step : Step) (run after : DestroyRun)
      → destroy_by_state steps env skip_archive fail_fast step run ≡ ok after
      → Handles ids run
      → Handles (snoc ids step.id) after
  unfolding destroy_by_state
  destroy_by_state-Handles ids step run after returned h =
      let status = module_state_status run.disk (step_state_ref step) in
      let dead = is_empty status || contains status ("destroyed" ∷ "absent" ∷ []) in
      let parent = strip step.destroy_subsumed_by in
      if_elim (not (destroy_gate_required steps run.disk step) && dead) returned
        (λ is_dead skipped. skip_dead-Handles env.clock ids step status run after skipped h)
        λ live rest.
          if_elim (not (is_empty parent)) rest
            (λ child deferred.
              subst (Handles (snoc ids step.id)) (ok_inj deferred)
                (defer_child-Handles ids step parent run h))
            λ own called. run_command-Handles env fail_fast ids step run after called h

  destroy_step-Handles :
      (ids : List String) (step : Step) (run after : DestroyRun)
      → destroy_step steps env skip_archive fail_fast step run ≡ ok after
      → Handles ids run
      → Handles (snoc ids step.id) after
  unfolding destroy_step
  destroy_step-Handles ids step run after returned h =
      let add = λ (r : DestroyResult). add_result-Handles ids r run h in
      if_elim (skip_archive && step.destroy_gate) returned
        (λ gate skipped.
          subst (Handles (snoc ids step.id)) (ok_inj skipped)
            (add (result_of step "skipped" "recovery-preservation-skipped" (pos 0))))
        λ other rest.
          if_elim step.retain_on_destroy rest
            (λ kept retained.
              subst (Handles (snoc ids step.id)) (ok_inj retained)
                (add (result_of step "retained" "retain_on_destroy" (pos 0))))
            λ not_kept by_state. destroy_by_state-Handles ids step run after by_state h

  destroy_steps-Looped :
      (ids order : List String) (run after : DestroyRun)
      → destroy_steps steps env skip_archive fail_fast order run ≡ ok after
      → Handles ids run
      → Looped ids order after
  unfolding destroy_steps
  destroy_steps-Looped ids [] run after returned h = record {
    done = [];
    rest = [];
    parts = refl;
    handles =
        subst (λ l. Handles l after) (sym (append_nil ids))
          (subst (Handles ids) (ok_inj returned) h);
    broke = λ e. ground arith;
  }
  destroy_steps-Looped ids (step_id ∷ order) run after returned h =
      if_elim run.stopped returned
        (λ stopped left. record {
          done = [];
          rest = step_id ∷ order;
          parts = refl;
          handles =
              subst (λ l. Handles l after) (sym (append_nil ids))
                (subst (Handles ids) (ok_inj left) h);
          broke = λ e. sym (ap (λ r. r.stopped) (ok_inj left)) ∙ stopped;
        })
        λ going rest.
          option_elim (by_id steps step_id) rest (λ missing error. ground arith)
            λ step found looped.
              >>=-elim_ok (destroy_step steps env skip_archive fail_fast step run) _ looped
                λ next stepped remaining.
                  let this : Handles (snoc ids step_id) next =
                    subst (λ x. Handles (snoc ids x) next) (by_id-id steps step_id found)
                      (destroy_step-Handles ids step run next stepped h) in
                  let later =
                    destroy_steps-Looped (snoc ids step_id) order next after remaining this in
                  record {
                    done = step_id ∷ later.done;
                    rest = later.rest;
                    parts = ap (λ l. step_id ∷ l) later.parts;
                    handles =
                        subst (λ l. Handles l after) (snoc-append ids step_id later.done)
                          later.handles;
                    broke = later.broke;
                  }

-- What the closing of the waiting children keeps.
record Kept (run after : DestroyRun) : Type 0 where
  results : handled after ≡ handled run
  cancel : after.cancelled ≡ run.cancelled
  failures : list_empty after.required_failures ≡ true → list_empty run.required_failures ≡ true

close_waiting-Kept :
    (parent : String) (children : List Child) (run : DestroyRun)
    → Kept run (close_waiting parent children run)
unfolding close_waiting
close_waiting-Kept parent [] run = record { results = refl; cancel = refl; failures = λ e. e }
close_waiting-Kept parent (child ∷ children) run =
    let later = close_waiting-Kept parent children (closed_waiting parent child run) in
    record {
      results = handled-close_waiting parent (handled run) (child ∷ children) run refl;
      cancel = later.cancel;
      failures = λ e.
          ground
            (arith, later.failures e, note_failed-list_empty child.step.id run.required_failures);
    }

close_parents-Kept :
    (pending : List (String × List Child)) (run : DestroyRun) → Kept run (close_parents pending run)
unfolding close_parents
close_parents-Kept [] run = record { results = refl; cancel = refl; failures = λ e. e }
close_parents-Kept ((parent, children) ∷ rest) run =
    let this = close_waiting-Kept parent children run in
    let later = close_parents-Kept rest (close_waiting parent children run) in
    record {
      results = later.results ∙ this.results;
      cancel = later.cancel ∙ this.cancel;
      failures = λ e. this.failures (later.failures e);
    }

start-Handles : (disk : Disk) → Handles [] (start_run disk)
start-Handles disk = record { results = refl; honest = refl }

-- How a destroy run that returns ended.
record Ended (order : List String) (after : DestroyRun) : Type 0 where
  complete : exit_code after ≡ 0 → handled after ≡ order

empty_append : (ids rest : List String) → list_empty rest ≡ true → ids ++ rest ≡ ids
empty_append ids [] e = append_nil ids
empty_append ids (x ∷ rest) e = ground arith

nothing_left :
    (order : List String) (run after : DestroyRun) (all : Looped [] order run)
    → Kept run after
    → exit_code after ≡ 0
    → all.done ++ all.rest ≡ all.done
nothing_left order run after all kept zero_code =
    let no_failure : list_empty after.required_failures ≡ true = ground arith in
    let not_cancelled : after.cancelled ≡ false = ground arith in
    let before = kept.failures no_failure in
    let not_before : run.cancelled ≡ false = sym kept.cancel ∙ not_cancelled in
    let honest = all.handles.honest in
    let going : run.stopped ≡ false = ground arith in
    elim (Bool-cases (list_empty all.rest)) [
      | inl e ↦ empty_append all.done all.rest e
      | inr left ↦ let broke = all.broke left in ground arith
    ]

destroy_run-Ended :
    (steps : List Step) (env : DestroyEnv) (skip_archive fail_fast : Bool) (order : List String)
    (disk : Disk) (after : DestroyRun)
    → destroy_run steps env skip_archive fail_fast order disk ≡ ok after
    → Ended order after
unfolding destroy_run close_pending
destroy_run-Ended steps env skip_archive fail_fast order disk after returned =
    >>=-elim_ok (destroy_steps steps env skip_archive fail_fast order (start_run disk)) _ returned
      λ run looped closed.
        let all =
          destroy_steps-Looped steps env skip_archive fail_fast [] order (start_run disk) run looped
            (start-Handles disk) in
        let kept : Kept run after =
          subst (Kept run) (ok_inj closed) (close_parents-Kept run.deferred_by_parent run) in
        let same : handled after ≡ all.done = kept.results ∙ all.handles.results in
        record {
          complete =
              λ zero_code. same ∙ sym (all.parts ∙ nothing_left order run after all kept zero_code);
        }

-- A destroy run that returns 0 has one result for each step of its order, in that order.
pub destroy_run_complete :
    (steps : List Step) (env : DestroyEnv) (skip_archive fail_fast : Bool) (order : List String)
    (disk : Disk) (after : DestroyRun)
    → destroy_run steps env skip_archive fail_fast order disk ≡ ok after
    → exit_code after ≡ 0
    → handled after ≡ order
destroy_run_complete steps env skip_archive fail_fast order disk after returned =
    (destroy_run-Ended steps env skip_archive fail_fast order disk after returned).complete
