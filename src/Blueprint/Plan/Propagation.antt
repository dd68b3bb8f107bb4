-- ===== src/Blueprint/Plan/Propagation.antt =====
-- How a failed step spreads in `compute_preflight` (hyops/blueprint/planner.py).
use hybridops_core.Prelude.{
  String, ◌≡◌, inl, inr, Bool, true, false, not, List, [], ◌∷◌, ◌&&◌, ◌||◌, insert, snoc, arith,
  refl, sym, subst, eq_iff, ◌==◌, ◌∙◌, Bool-cases,
}
use hybridops_core.Raises.{Raises, ok, >>=-elim_ok}
use hybridops_core.Blueprint.Step.{Step}
use hybridops_core.Blueprint.References.{list_empty}
use hybridops_core.Blueprint.Preflight.{StepResult}
use hybridops_core.Blueprint.Plan.{Plan, has_status, blocked_dependencies, note_result, plan_step}

-- The dependency is blocked or deferred.
abbrev pub is_bad : Plan → String → Bool
is_bad plan dep = has_status plan "blocked" dep || has_status plan "deferred" dep

abbrev pub any_bad : Plan → List String → Bool
any_bad plan [] = false
any_bad plan (d ∷ ds) = is_bad plan d || any_bad plan ds

blocked-any_bad :
    (plan : Plan) (ds : List String)
    → list_empty (blocked_dependencies plan ds) ≡ not (any_bad plan ds)
unfolding blocked_dependencies
blocked-any_bad plan [] = refl
blocked-any_bad plan (d ∷ ds) = ground (arith, blocked-any_bad plan ds)

-- What the handling of one step does to the statuses.
pub record Effect (step : Step) (plan next : Plan) : Type 0 where
  pub status : String
  pub noted : next.step_status_by_id ≡ insert step.id status plan.step_status_by_id
  pub deferral : (status == "deferred") ≡ any_bad plan step.requires
  pub failures :
      (status == "blocked") ≡ true
      → (list_empty next.required_failures && list_empty next.optional_failures) ≡ false
  pub kept :
      (list_empty next.required_failures && list_empty next.optional_failures) ≡ true
      → (list_empty plan.required_failures && list_empty plan.optional_failures) ≡ true

list_empty-snoc : (xs : List String) (x : String) → list_empty (snoc xs x) ≡ false
list_empty-snoc [] x = refl
list_empty-snoc (y ∷ xs) x = refl

deferred_not_blocked : (s : String) → (s == "deferred") ≡ true → (s == "blocked") ≡ false
deferred_not_blocked s h =
    ground (arith, eq_iff s "deferred", eq_iff s "blocked", eq_iff "deferred" "blocked")

note_result-Effect :
    (step : Step) (r : StepResult) (plan : Plan)
    → any_bad plan step.requires ≡ false
    → (r.status == "deferred") ≡ false
    → Effect step plan (note_result step r plan)
unfolding note_result
note_result-Effect step r plan n d = record {
  status = r.status;
  noted = ground arith;
  deferral = d ∙ sym n;
  failures = λ h. ground (
    arith,
    list_empty-snoc plan.required_failures step.id,
    list_empty-snoc plan.optional_failures step.id,
  );
  kept = λ h. ground (
    arith,
    list_empty-snoc plan.required_failures step.id,
    list_empty-snoc plan.optional_failures step.id,
  );
}

module _ (steps : List Step) (preflight : Step → List String → List String → Raises StepResult)
    (settled : (step : Step) (assumed refs : List String) (r : StepResult)
      → preflight step assumed refs ≡ ok r
      → (r.status == "deferred") ≡ false) where
  pub plan_step-Effect :
      (step : Step) (plan next : Plan)
      → plan_step steps preflight step plan ≡ ok next
      → Effect step plan next
  unfolding plan_step
  plan_step-Effect step plan next h = elim (Bool-cases (any_bad plan step.requires)) [
    | inl bad ↦ record {
      status = "deferred";
      noted = ground (arith, blocked-any_bad plan step.requires);
      deferral = sym bad;
      failures = λ e. ground arith;
      kept = λ e. ground (arith, blocked-any_bad plan step.requires);
    }
    | inr fine ↦
        >>=-elim_ok (preflight step plan.assumed_state_ok _) _
          (rw (blocked-any_bad plan step.requires, fine) at h)
          λ r hr e.
            subst (λ p. Effect step plan p) (ok_inj e)
              (note_result-Effect step r plan fine (settled step _ _ r hr))
  ]
    where
      ok_inj : {a b : Plan} → ok a ≡ ok b → a ≡ b
      ok_inj p = cc
