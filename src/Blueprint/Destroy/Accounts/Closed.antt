-- ===== src/Blueprint/Destroy/Accounts/Closed.antt =====
-- A child of a destroy run (hyops/blueprint/command.py) that is closed keeps the results accounted for.
use hybridops_core.Prelude.{
  ℕ, ◌+◌, ◌≡◌, refl, sym, ◌∙◌, subst, String, Bool, true, false, List, [], ◌∷◌, snoc, not, nat_eq,
  eq_iff, arith,
}
use hybridops_core.Raises.{Raises, ok, value_error, other_error, >>=-elim_ok}
use hybridops_core.Value.{pos}
use hybridops_core.State.Refs.{split_module_state_ref}
use hybridops_core.State.Store.{Disk, Loaded, loaded, not_found, failed, read_module_state}
use hybridops_core.Blueprint.References.{list_empty}
use hybridops_core.Blueprint.Destroy.Children.{
  DestroyResult, Child, DestroyRun, add_result, set_outcome, update_at, fail_child, noted_write,
  write_child, close_child, finish_child,
}
use hybridops_core.Blueprint.Destroy.Accounts.{
  is_settled, is_accounted, all_accounted, waits_for, all_accounted-snoc, all_accounted-update_at,
}

-- Each result of the run is settled, failed, cancelled, or waits at a position of `waits`.
abbrev pub Accounted : (ℕ → Bool) → DestroyRun → Type 0
Accounted waits run =
    all_accounted (not (list_empty run.required_failures)) run.cancelled waits 0 run.step_results
    ≡ true

abbrev pub none_waits : ℕ → Bool
none_waits i = false

-- The positions that wait in the run.
abbrev pub waiting_of : DestroyRun → ℕ → Bool
waiting_of run i = waits_for i run.deferred_by_parent

pub settled-is_accounted :
    (f c w : Bool) (r : DestroyResult) → is_settled r ≡ true → is_accounted f c w r ≡ true
unfolding is_accounted
settled-is_accounted f c w r h = ground arith

pub failed-is_accounted :
    (c w : Bool) (r : DestroyResult) → r.status ≡ "failed" → is_accounted true c w r ≡ true
unfolding is_accounted
failed-is_accounted c w r h =
    ground (arith, eq_iff r.status "failed", eq_iff r.status "failed-optional")

-- A settled result is added.
pub add_result-Accounted :
    (waits : ℕ → Bool) (r : DestroyResult) (run : DestroyRun)
    → is_settled r ≡ true
    → Accounted waits run
    → Accounted waits (add_result r run)
add_result-Accounted waits r run settled h =
    let f = not (list_empty run.required_failures) in
    all_accounted-snoc f f run.cancelled run.cancelled waits waits (λ e. e) (λ e. e) 0
      run.step_results r (λ j e. e) (settled-is_accounted f run.cancelled _ r settled) h

pub list_empty-snoc : (xs : List String) (x : String) → not (list_empty (snoc xs x)) ≡ true
list_empty-snoc [] x = refl
list_empty-snoc (y ∷ xs) x = refl

-- A child's result is replaced.
change_child-Accounted :
    (child : Child) (waits waits' : ℕ → Bool) (run after : DestroyRun)
    (change : DestroyResult → DestroyResult)
    → after.step_results ≡ update_at child.position change run.step_results
    → ((r : DestroyResult) (b : Bool)
        → is_accounted (not (list_empty after.required_failures)) after.cancelled b (change r)
          ≡ true)
    → (not (list_empty run.required_failures) ≡ true
        → not (list_empty after.required_failures) ≡ true)
    → after.cancelled ≡ run.cancelled
    → ((j : ℕ) → nat_eq child.position j ≡ false → waits j ≡ true → waits' j ≡ true)
    → Accounted waits run
    → Accounted waits' after
change_child-Accounted child waits waits' run after change results new failing cancel others h =
    let f = not (list_empty run.required_failures) in
    let f' = not (list_empty after.required_failures) in
    let same : child.position + 0 ≡ child.position = omega arith in
    subst (λ rs. all_accounted f' after.cancelled waits' 0 rs ≡ true) (sym results)
      (all_accounted-update_at f f' run.cancelled after.cancelled waits waits' failing
        (λ e. cancel ∙ e) child.position 0 run.step_results change
        (λ j apart. others j (subst (λ n. nat_eq n j ≡ false) same apart)) new h)

-- How a child of a step is closed: its result becomes subsumed, or it is failed.
pub data Closed (child : Child) (run after : DestroyRun) : Type 0 where
  subsumed :
      (reason : String)
      → after.step_results
        ≡ update_at child.position (set_outcome "subsumed" reason (pos 0)) run.step_results
      → after.required_failures ≡ run.required_failures
      → after.cancelled ≡ run.cancelled
      → after.deferred_by_parent ≡ run.deferred_by_parent
      → after.stopped ≡ run.stopped
      → Closed child run after
  failing :
      (reason : String)
      → after.step_results
        ≡ update_at child.position (set_outcome "failed" reason (pos 2)) run.step_results
      → not (list_empty after.required_failures) ≡ true
      → after.cancelled ≡ run.cancelled
      → after.deferred_by_parent ≡ run.deferred_by_parent
      → after.stopped ≡ run.stopped
      → Closed child run after

subsumed-is_settled :
    (reason : String) (r : DestroyResult)
    → is_settled (set_outcome "subsumed" reason (pos 0) r) ≡ true
unfolding is_settled
subsumed-is_settled reason r = refl

pub Closed-Accounted :
    (child : Child) (waits waits' : ℕ → Bool) (run after : DestroyRun)
    → Closed child run after
    → ((j : ℕ) → nat_eq child.position j ≡ false → waits j ≡ true → waits' j ≡ true)
    → Accounted waits run
    → Accounted waits' after
Closed-Accounted child waits waits' run after (subsumed reason results failures cancel _ _) others
      h =
    change_child-Accounted child waits waits' run after _ results
      (λ r b. settled-is_accounted _ _ b _ (subsumed-is_settled reason r))
      (λ e. subst (λ fs. not (list_empty fs) ≡ true) (sym failures) e) cancel others h
Closed-Accounted child waits waits' run after (failing reason results failures cancel _ _) others
      h =
    change_child-Accounted child waits waits' run after _ results
      (λ r b.
        let r' = set_outcome "failed" reason (pos 2) r in
        subst (λ f. is_accounted f after.cancelled b r' ≡ true) (sym failures)
          (failed-is_accounted after.cancelled b r' refl))
      (λ e. failures) cancel others h

pub fail_child-Closed :
    (child : Child) (reason : String) (run : DestroyRun)
    → Closed child run (fail_child child reason run)
fail_child-Closed child reason run =
    failing reason refl (list_empty-snoc run.required_failures child.step.id) refl refl refl

noted_write-Closed :
    (child : Child) (parent : String) (run : DestroyRun) (write : Raises Disk)
    → Closed child run (noted_write child parent run write)
noted_write-Closed child parent run (ok disk) = subsumed _ refl refl refl refl refl
noted_write-Closed child parent run (value_error error) = fail_child-Closed child _ run
noted_write-Closed child parent run (other_error error) = fail_child-Closed child _ run

close_child-Closed :
    (clock : String → String) (parent : String) (child : Child) (child_ref child_instance : String)
    (before : Loaded) (run : DestroyRun)
    → Closed child run (close_child clock parent child child_ref child_instance before run)
unfolding close_child write_child
close_child-Closed clock parent child child_ref child_instance (loaded previous) run =
    noted_write-Closed child parent run _
close_child-Closed clock parent child child_ref child_instance (not_found path) run =
    noted_write-Closed child parent run _
close_child-Closed clock parent child child_ref child_instance (failed error) run =
    fail_child-Closed child _ run

pub ok_inj : {A : Type 0} {a b : A} → ok a ≡ ok b → a ≡ b
ok_inj p = cc

pub finish_child-Closed :
    (clock : String → String) (parent : String) (child : Child) (run after : DestroyRun)
    → finish_child clock parent child run ≡ ok after
    → Closed child run after
unfolding finish_child
finish_child-Closed clock parent child run after h =
    >>=-elim_ok (split_module_state_ref child.step.module_ref child.step.state_instance) _ h
      λ parts e h'. subst (Closed child run) (ok_inj h') (
        close_child-Closed clock parent child parts.0 parts.1
          (read_module_state run.disk parts.0 parts.1) run)
