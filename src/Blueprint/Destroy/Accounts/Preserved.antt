-- ===== src/Blueprint/Destroy/Accounts/Preserved.antt =====
-- Every step of a destroy run (hyops/blueprint/command.py) keeps its results accounted for, and the
-- closing leaves none waiting.
use hybridops_core.Prelude.{
  ◌≡◌, refl, ◌∙◌, subst, String, Bool, true, List, [], ◌∷◌, contains, ◌&&◌, ◌||◌, not, eq_iff,
  arith, Bool-cases, if_elim, option_elim, inl, inr,
}
use hybridops_core.Text.{is_empty, strip}
use hybridops_core.Raises.{ok, >>=-elim_ok}
use hybridops_core.Value.{pos}
use hybridops_core.State.Store.{Disk, module_state_status}
use hybridops_core.Blueprint.Step.{Step, by_id}
use hybridops_core.Blueprint.References.{list_empty}
use hybridops_core.Blueprint.Preflight.{step_state_ref}
use hybridops_core.Blueprint.Destroy.Children.{
  DestroyResult, DestroyRun, result_of, add_result, close_pending,
}
use hybridops_core.Blueprint.Destroy.Accounts.{
  is_settled, is_accounted, all_accounted, all_accounted-snoc,
}
use hybridops_core.Blueprint.Destroy.Accounts.Closed.{
  Accounted, none_waits, waiting_of, failed-is_accounted, add_result-Accounted, list_empty-snoc,
}
use hybridops_core.Blueprint.Destroy.Accounts.Kept.{
  finish_subsumed_steps-Accounted, close_parents-Accounted, defer_child-Accounted,
}
use hybridops_core.Blueprint.Destroy.{
  DestroyEnv, is_code, note_failure, run_command, skip_dead, destroy_gate_required,
  destroy_by_state, destroy_step, destroy_steps, destroy_run, start_run, code_of, call_of,
  after_command, ok_result, dead_result, failed_result,
}

cancelled-is_accounted :
    (f w : Bool) (r : DestroyResult) → r.status ≡ "cancelled" → is_accounted f true w r ≡ true
unfolding is_accounted
cancelled-is_accounted f w r h =
    ground (arith, eq_iff r.status "cancelled", eq_iff r.status "failed-optional")

optional-is_accounted :
    (f c w : Bool) (r : DestroyResult)
    → r.status ≡ "failed-optional"
    → r.optional ≡ true
    → is_accounted f c w r ≡ true
unfolding is_accounted is_settled
optional-is_accounted f c w r h h' = ground (arith, eq_iff r.status "failed-optional")

settled_status :
    (r : DestroyResult)
    → contains r.status ("ok" ∷ "skipped" ∷ "retained" ∷ "subsumed" ∷ []) ≡ true
    → is_settled r ≡ true
unfolding is_settled
settled_status r h = ground arith

note_failure-Accounted :
    (fail_fast : Bool) (step : Step) (result : DestroyResult) (run : DestroyRun)
    → result.optional ≡ step.optional
    → result.status ≡ "failed"
    → Accounted (waiting_of run) run
    → Accounted
        (waiting_of (note_failure fail_fast step result run))
        (note_failure fail_fast step result run)
unfolding note_failure
note_failure-Accounted fail_fast step result run same failing h =
    let f = not (list_empty run.required_failures) in
    let c = run.cancelled in
    let w = waiting_of run in
    elim (Bool-cases (is_code 130 result.rc)) [
      | inl interrupt ↦ rw interrupt (
          all_accounted-snoc f f c true w w (λ e. e) (λ e. refl) 0 run.step_results
            (record result { status = "cancelled" }) (λ j e. e)
            (cancelled-is_accounted f _ (record result { status = "cancelled" }) refl) h)
      | inr failure ↦ elim (Bool-cases step.optional) [
        | inl optional ↦
            rw (failure, optional)
              (all_accounted-snoc f f c c w w (λ e. e) (λ e. e) 0 run.step_results
                (record result { status = "failed-optional" }) (λ j e. e)
                (optional-is_accounted f c _ (record result { status = "failed-optional" }) refl
                  (same ∙ optional))
                h)
        | inr required ↦
            let more = list_empty-snoc run.required_failures step.id in
            rw (failure, required, more)
              (all_accounted-snoc f true c c w w (λ e. refl) (λ e. e) 0 run.step_results result
                (λ j e. e) (failed-is_accounted c _ result failing) h)
      ]
    ]

ok_inj : {a b : DestroyRun} → ok a ≡ ok b → a ≡ b
ok_inj p = cc

add_result-waiting :
    (r : DestroyResult) (run : DestroyRun)
    → contains r.status ("ok" ∷ "skipped" ∷ "retained" ∷ "subsumed" ∷ []) ≡ true
    → Accounted (waiting_of run) run
    → Accounted (waiting_of (add_result r run)) (add_result r run)
add_result-waiting r run settled =
    add_result-Accounted (waiting_of run) r run (settled_status r settled)

run_command-Accounted :
    (env : DestroyEnv) (fail_fast : Bool) (step : Step) (run after : DestroyRun)
    → run_command env fail_fast step run ≡ ok after
    → Accounted (waiting_of run) run
    → Accounted (waiting_of after) after
unfolding run_command
run_command-Accounted env fail_fast step run after returned h =
    if_elim (is_code 0 (code_of (call_of env step run).0)) returned
      (λ zero_code closed.
        finish_subsumed_steps-Accounted env.clock step.id
          (add_result (ok_result env step run) (after_command env step run)) after closed
          (add_result-waiting (ok_result env step run) (after_command env step run) refl h))
      λ other_code failed.
        subst (λ r. Accounted (waiting_of r) r) (ok_inj failed)
          (note_failure-Accounted fail_fast step (failed_result env step run)
            (after_command env step run) refl refl h)

skip_dead-Accounted :
    (clock : String → String) (step : Step) (status : String) (run after : DestroyRun)
    → skip_dead clock step status run ≡ ok after
    → Accounted (waiting_of run) run
    → Accounted (waiting_of after) after
unfolding skip_dead
skip_dead-Accounted clock step status run after returned h =
    if_elim (contains status ("destroyed" ∷ "absent" ∷ [])) returned
      (λ gone closed.
        finish_subsumed_steps-Accounted clock step.id (add_result (dead_result step status) run)
          after closed (add_result-waiting (dead_result step status) run refl h))
      λ no_state skipped.
        subst (λ r. Accounted (waiting_of r) r) (ok_inj skipped)
          (add_result-waiting (dead_result step status) run refl h)

start-Accounted : (disk : Disk) → Accounted (waiting_of (start_run disk)) (start_run disk)
unfolding all_accounted
start-Accounted disk = refl

module _ (steps : List Step) (env : DestroyEnv) (skip_archive fail_fast : Bool) where
  destroy_by_state-Accounted :
      (step : Step) (run after : DestroyRun)
      → destroy_by_state steps env skip_archive fail_fast step run ≡ ok after
      → Accounted (waiting_of run) run
      → Accounted (waiting_of after) after
  unfolding destroy_by_state
  destroy_by_state-Accounted step run after returned h =
      let status = module_state_status run.disk (step_state_ref step) in
      let dead = is_empty status || contains status ("destroyed" ∷ "absent" ∷ []) in
      if_elim (not (destroy_gate_required steps run.disk step) && dead) returned
        (λ is_dead skipped. skip_dead-Accounted env.clock step status run after skipped h)
        λ live rest.
          if_elim (not (is_empty (strip step.destroy_subsumed_by))) rest
            (λ parent deferred.
              subst (λ r. Accounted (waiting_of r) r) (ok_inj deferred)
                (defer_child-Accounted step _ run h))
            λ own called. run_command-Accounted env fail_fast step run after called h

  destroy_step-Accounted :
      (step : Step) (run after : DestroyRun)
      → destroy_step steps env skip_archive fail_fast step run ≡ ok after
      → Accounted (waiting_of run) run
      → Accounted (waiting_of after) after
  unfolding destroy_step
  destroy_step-Accounted step run after returned h =
      if_elim (skip_archive && step.destroy_gate) returned
        (λ gate skipped.
          subst (λ r. Accounted (waiting_of r) r) (ok_inj skipped)
            (add_result-waiting (result_of step "skipped" "recovery-preservation-skipped" (pos 0))
              run refl h))
        λ other rest.
          if_elim step.retain_on_destroy rest
            (λ kept retained.
              subst (λ r. Accounted (waiting_of r) r) (ok_inj retained)
                (add_result-waiting (result_of step "retained" "retain_on_destroy" (pos 0)) run refl
                  h))
            λ not_kept by_state. destroy_by_state-Accounted step run after by_state h

  destroy_steps-Accounted :
      (order : List String) (run after : DestroyRun)
      → destroy_steps steps env skip_archive fail_fast order run ≡ ok after
      → Accounted (waiting_of run) run
      → Accounted (waiting_of after) after
  unfolding destroy_steps
  destroy_steps-Accounted [] run after returned h =
      subst (λ r. Accounted (waiting_of r) r) (ok_inj returned) h
  destroy_steps-Accounted (step_id ∷ order) run after returned h =
      if_elim run.stopped returned
        (λ stopped left. subst (λ r. Accounted (waiting_of r) r) (ok_inj left) h)
        λ going rest.
          option_elim (by_id steps step_id) rest (λ missing error. ground arith)
            λ step found looped.
              >>=-elim_ok (destroy_step steps env skip_archive fail_fast step run) _ looped
                λ next stepped remaining.
                  destroy_steps-Accounted order next after remaining
                    (destroy_step-Accounted step run next stepped h)

  -- Of a destroy run that returns, every result is settled, or is failed beside a noted required
  -- failure, or is cancelled in a cancelled run; none waits.
  pub destroy_run-Accounted :
      (order : List String) (disk : Disk) (after : DestroyRun)
      → destroy_run steps env skip_archive fail_fast order disk ≡ ok after
      → Accounted none_waits after
  unfolding destroy_run close_pending
  destroy_run-Accounted order disk after returned =
      >>=-elim_ok (destroy_steps steps env skip_archive fail_fast order (start_run disk)) _ returned
        λ run looped closed. subst (Accounted none_waits) (ok_inj closed) (
          close_parents-Accounted run.deferred_by_parent run
            (destroy_steps-Accounted order (start_run disk) run looped (start-Accounted disk)))
