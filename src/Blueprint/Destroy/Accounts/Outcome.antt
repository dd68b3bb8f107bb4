-- ===== src/Blueprint/Destroy/Accounts/Outcome.antt =====
-- What the results of a destroy run (hyops/blueprint/command.py) say when it ends.
use hybridops_core.Prelude.{
  ℕ, suc, ◌≡◌, refl, String, Bool, true, false, List, [], ◌∷◌, any_of, ◌&&◌, not, eq_iff, arith,
  Bool-cases, inl, inr,
}
use hybridops_core.Raises.{ok}
use hybridops_core.State.Store.{Disk}
use hybridops_core.Blueprint.Step.{Step}
use hybridops_core.Blueprint.References.{list_empty}
use hybridops_core.Blueprint.Destroy.Children.{DestroyResult, DestroyRun}
use hybridops_core.Blueprint.Destroy.Accounts.{is_settled, is_deferred, is_accounted, all_accounted}
use hybridops_core.Blueprint.Destroy.Accounts.Closed.{none_waits}
use hybridops_core.Blueprint.Destroy.{DestroyEnv, destroy_run, exit_code}
use hybridops_core.Blueprint.Destroy.Accounts.Preserved.{destroy_run-Accounted}

accounted-not_deferred :
    (f c : Bool) (r : DestroyResult) → is_accounted f c false r ≡ true → is_deferred r ≡ false
unfolding is_accounted is_settled
accounted-not_deferred f c r h = elim (Bool-cases (is_deferred r)) [
  | inl deferred ↦
      let status : r.status ≡ "deferred" = ground (arith, eq_iff r.status "deferred") in
      let nowhere = rw status at h in ground arith
  | inr other ↦ other
]

none_waiting :
    (f c : Bool) (i : ℕ) (rs : List DestroyResult)
    → all_accounted f c none_waits i rs ≡ true
    → any_of is_deferred rs ≡ false
unfolding all_accounted
none_waiting f c i [] h = refl
none_waiting f c i (r ∷ rs) h =
    ground (arith, accounted-not_deferred f c r, none_waiting f c (suc i) rs)

accounted-is_settled :
    (r : DestroyResult) → is_accounted false false false r ≡ true → is_settled r ≡ true
unfolding is_accounted
accounted-is_settled r h = ground arith

abbrev pub all_settled : List DestroyResult → Bool
all_settled [] = true
all_settled (r ∷ rs) = is_settled r && all_settled rs

accounted-all_settled :
    (i : ℕ) (rs : List DestroyResult)
    → all_accounted false false none_waits i rs ≡ true
    → all_settled rs ≡ true
unfolding all_accounted
accounted-all_settled i [] h = refl
accounted-all_settled i (r ∷ rs) h =
    ground (arith, accounted-is_settled r, accounted-all_settled (suc i) rs)

exit_code-zero :
    (run : DestroyRun)
    → exit_code run ≡ 0
    → (not (list_empty run.required_failures) ≡ false) × (run.cancelled ≡ false)
exit_code-zero run h = (ground arith, ground arith)

-- A destroy run that returns leaves no result deferred.
pub destroy_run-none_deferred :
    (steps : List Step) (env : DestroyEnv) (skip_archive fail_fast : Bool) (order : List String)
    (disk : Disk) (after : DestroyRun)
    → destroy_run steps env skip_archive fail_fast order disk ≡ ok after
    → any_of is_deferred after.step_results ≡ false
destroy_run-none_deferred steps env skip_archive fail_fast order disk after returned =
    none_waiting _ _ 0 after.step_results
      (destroy_run-Accounted steps env skip_archive fail_fast order disk after returned)

-- When a destroy run returns 0, every result is ok, skipped, retained or subsumed, or the step is
-- optional and failed.
pub destroy_run-all_settled :
    (steps : List Step) (env : DestroyEnv) (skip_archive fail_fast : Bool) (order : List String)
    (disk : Disk) (after : DestroyRun)
    → destroy_run steps env skip_archive fail_fast order disk ≡ ok after
    → exit_code after ≡ 0
    → all_settled after.step_results ≡ true
destroy_run-all_settled steps env skip_archive fail_fast order disk after returned zero_code =
    let (no_failure, not_cancelled) = exit_code-zero after zero_code in
    accounted-all_settled 0 after.step_results (
      rw (no_failure, not_cancelled) at
        (destroy_run-Accounted steps env skip_archive fail_fast order disk after returned))
