-- ===== src/Blueprint/Destroy/Accounts/Kept.antt =====
-- Every operation of the destroy loop (hyops/blueprint/command.py) keeps its results accounted for.
use Prim.Native.String.{◌++◌}
use hybridops_core.Prelude.{
  ℕ, ◌+◌, ◌≡◌, refl, sym, ◌∙◌, subst, String, Bool, true, List, [], ◌∷◌, length, ◌||◌, not, nat_eq,
  eq_iff, arith,
}
use hybridops_core.Raises.{ok, >>=-elim_ok}
use hybridops_core.Value.{pos}
use hybridops_core.Blueprint.Step.{Step}
use hybridops_core.Blueprint.References.{list_empty}
use hybridops_core.Blueprint.Destroy.Children.{
  DestroyResult, Child, DestroyRun, result_of, set_outcome, update_at, children_of, without_parent,
  defer_child, finish_child, finish_children, finish_subsumed_steps, note_failed, close_waiting,
  close_parents,
}
use hybridops_core.Blueprint.Destroy.Accounts.{
  is_accounted, waits_in, waits_for, waits_for-insert, waits_for-without_parent, all_accounted_mono,
  all_accounted-snoc,
}
use hybridops_core.Blueprint.Destroy.Accounts.Closed.{
  Accounted, none_waits, waiting_of, list_empty-snoc, Closed, subsumed, failing, Closed-Accounted,
  finish_child-Closed, ok_inj,
}

-- The positions of the children that are still to be closed, and of the run.
abbrev still_waiting : List Child → List (String × List Child) → ℕ → Bool
still_waiting children pending i = waits_in i children || waits_for i pending

finish_children-Accounted :
    (clock : String → String) (parent : String) (children : List Child) (run after : DestroyRun)
    (pending : List (String × List Child))
    → run.deferred_by_parent ≡ pending
    → finish_children clock parent children run ≡ ok after
    → Accounted (still_waiting children pending) run
    → Accounted (waiting_of after) after
unfolding finish_children
finish_children-Accounted clock parent [] run after pending e returned h =
    subst (λ r. Accounted (waiting_of r) r) (ok_inj returned)
      (subst (λ p. Accounted (λ i. waits_for i p) run) (sym e) h)
finish_children-Accounted clock parent (child ∷ children) run after pending e returned h =
    >>=-elim_ok (finish_child clock parent child run) _ returned λ next called returned'.
      let closed = finish_child-Closed clock parent child run next called in
      finish_children-Accounted clock parent children next after pending
        (Closed-deferred closed ∙ e) returned'
        (Closed-Accounted child (still_waiting (child ∷ children) pending)
          (still_waiting children pending) run next closed (λ j apart w. ground arith) h)
  where
    Closed-deferred :
        {child : Child} {run after : DestroyRun}
        → Closed child run after
        → after.deferred_by_parent ≡ run.deferred_by_parent
    Closed-deferred (subsumed _ _ _ _ same _) = same
    Closed-deferred (failing _ _ _ _ same _) = same

-- The children of a destroyed parent are closed.
pub finish_subsumed_steps-Accounted :
    (clock : String → String) (parent : String) (run after : DestroyRun)
    → finish_subsumed_steps clock parent run ≡ ok after
    → Accounted (waiting_of run) run
    → Accounted (waiting_of after) after
unfolding finish_subsumed_steps
finish_subsumed_steps-Accounted clock parent run after returned h =
    let f = not (list_empty run.required_failures) in
    let children = children_of parent run.deferred_by_parent in
    let rest = without_parent parent run.deferred_by_parent in
    finish_children-Accounted clock parent children (record run { deferred_by_parent = rest }) after
      rest refl returned
      (all_accounted_mono f f run.cancelled run.cancelled (waiting_of run)
        (still_waiting children rest) (λ e. e) (λ e. e) 0 run.step_results
        (λ j le w. sym (waits_for-without_parent j parent run.deferred_by_parent) ∙ w) h)

pub note_failed-list_empty :
    (step_id : String) (failures : List String)
    → not (list_empty (note_failed step_id failures)) ≡ true
note_failed-list_empty step_id [] = refl
note_failed-list_empty step_id (x ∷ failures) =
    ground (arith, list_empty-snoc (x ∷ failures) step_id)

close_waiting-Accounted :
    (parent : String) (children : List Child) (run : DestroyRun)
    (pending : List (String × List Child))
    → Accounted (still_waiting children pending) run
    → Accounted (λ i. waits_for i pending) (close_waiting parent children run)
unfolding close_waiting
close_waiting-Accounted parent [] run pending h = h
close_waiting-Accounted parent (child ∷ children) run pending h =
    let reason = "parent step " ++ parent ++ " was not confirmed destroyed" in
    let next : DestroyRun = record run {
      step_results =
          update_at child.position (set_outcome "failed" reason (pos 2)) run.step_results;
      required_failures = note_failed child.step.id run.required_failures;
    } in
    close_waiting-Accounted parent children next pending (
      Closed-Accounted child (still_waiting (child ∷ children) pending)
        (still_waiting children pending) run next
        (failing reason refl (note_failed-list_empty child.step.id run.required_failures) refl refl
          refl)
        (λ j apart w. ground arith) h)

pub close_parents-Accounted :
    (pending : List (String × List Child)) (run : DestroyRun)
    → Accounted (λ i. waits_for i pending) run
    → Accounted none_waits (close_parents pending run)
unfolding close_parents waits_for
close_parents-Accounted [] run h = h
close_parents-Accounted ((parent, children) ∷ rest) run h =
    close_parents-Accounted rest (close_waiting parent children run)
      (close_waiting-Accounted parent children run rest h)

deferred-is_accounted :
    (f c w : Bool) (r : DestroyResult)
    → r.status ≡ "deferred"
    → w ≡ true
    → is_accounted f c w r ≡ true
unfolding is_accounted
deferred-is_accounted f c w r h h' =
    ground (arith, eq_iff r.status "deferred", eq_iff r.status "failed-optional")

nat_eq_refl : (n m : ℕ) → m ≡ n → nat_eq n m ≡ true
nat_eq_refl n m e = ground arith

-- A deferred step waits.
pub defer_child-Accounted :
    (step : Step) (parent : String) (run : DestroyRun)
    → Accounted (waiting_of run) run
    → Accounted (waiting_of (defer_child step parent run)) (defer_child step parent run)
unfolding defer_child
defer_child-Accounted step parent run h =
    let f = not (list_empty run.required_failures) in
    let c = run.cancelled in
    let after = defer_child step parent run in
    let child : Child = record { step = step; position = length run.step_results } in
    let insertion = λ (j : ℕ). waits_for-insert j parent child run.deferred_by_parent in
    let last = length run.step_results + 0 in
    let here : waiting_of after last ≡ true =
      insertion last
      ∙ or_right (waiting_of run last) (nat_eq_refl (length run.step_results) last (omega arith)) in
    let reason = "destroyed with parent step " ++ parent in
    let result = result_of step "deferred" reason (pos 0) in
    all_accounted-snoc f f c c (waiting_of run) (waiting_of after) (λ e. e) (λ e. e) 0
      run.step_results result (λ j w. insertion j ∙ or_left (nat_eq child.position j) w)
      (deferred-is_accounted f c (waiting_of after last) result refl here) h
  where
    or_right : (a : Bool) {b : Bool} → b ≡ true → (a || b) ≡ true
    or_right a e = ground arith

    or_left : {a : Bool} (b : Bool) → a ≡ true → (a || b) ≡ true
    or_left b e = ground arith
