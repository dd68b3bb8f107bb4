-- ===== src/StopState/Evaluation/Settled.antt =====
-- `evaluate_stop_state` (hyops/state/stop_state.py) decides what `stop_state` says of the declared
-- resources, archives and estimate.
use hybridops_core.Prelude.{
  ◌≡◌, sym, ap, ◌∙◌, String, Bool, true, List, [], ◌∷◌, any_of, ◌&&◌, ◌||◌, not, if◌then◌else◌,
  arith, Bool-cases, inl, inr,
}
use hybridops_core.Raises.{ok, >>=-elim_ok}
use hybridops_core.Value.{Value}
use hybridops_core.Blueprint.References.{list_empty}
use hybridops_core.StopState.Readers.{Moment, StopEnv}
use hybridops_core.StopState.Manifest.{Resource, Archive, Teardown, find_teardown}
use hybridops_core.StopState.Evaluation.Review.{
  Tally, empty_tally, class_stage, scope_stage, evaluate_resource,
}
use hybridops_core.StopState.Evaluation.Terminal.{
  class_ok, scopes_ok, is_settled, all_settled, is_retained, stop_state, checks_pass,
  scope_stage-checks, scope_stage-retained, class_stage-checks, class_stage-retained,
  note_resource-checks, note_resource-retained,
}
use hybridops_core.StopState.Evaluation.{
  evaluate_resources, verdict, Declared, read_manifest, evaluate_stop_state, StopResult,
  stop_result, read_verified_at,
}

module _ (is_date : String → Bool) (archives : List Archive) (teardown : List Teardown) where
  evaluate_resource-checks :
      (r : Resource) (t : Tally)
      → checks_pass (evaluate_resource is_date archives teardown r t)
        ≡ (checks_pass t && is_settled is_date archives r)
  unfolding evaluate_resource
  evaluate_resource-checks r t =
      let step = find_teardown r.logical_id teardown in
      let classed = class_stage is_date step r t in
      note_resource-checks step r (scope_stage archives r classed)
      ∙ scope_stage-checks archives r classed
      ∙ ap (λ b. b && scopes_ok archives r) (class_stage-checks is_date step r t)
      ∙ assoc (checks_pass t) (class_ok is_date r) (scopes_ok archives r)
    where
      assoc : (a b c : Bool) → ((a && b) && c) ≡ (a && (b && c))
      assoc a b c = ground arith

  evaluate_resource-retained :
      (r : Resource) (t : Tally)
      → list_empty (evaluate_resource is_date archives teardown r t).retained_resources
        ≡ (list_empty t.retained_resources && not (is_retained r && class_ok is_date r))
  unfolding evaluate_resource
  evaluate_resource-retained r t =
      let step = find_teardown r.logical_id teardown in
      let classed = class_stage is_date step r t in
      ap list_empty (
        note_resource-retained step r (scope_stage archives r classed)
        ∙ scope_stage-retained archives r classed)
      ∙ class_stage-retained is_date step r t

  evaluate_resources-checks :
      (rs : List Resource) (t : Tally)
      → checks_pass (evaluate_resources is_date archives teardown rs t)
        ≡ (checks_pass t && all_settled is_date archives rs)
  unfolding evaluate_resources
  evaluate_resources-checks [] t = ground arith
  evaluate_resources-checks (r ∷ rs) t =
      let next = evaluate_resource is_date archives teardown r t in
      evaluate_resources-checks rs next
      ∙ ap (λ b. b && all_settled is_date archives rs) (evaluate_resource-checks r t)
      ∙ assoc (checks_pass t) (is_settled is_date archives r) (all_settled is_date archives rs)
    where
      assoc : (a b c : Bool) → ((a && b) && c) ≡ (a && (b && c))
      assoc a b c = ground arith

  evaluate_resources-retained :
      (rs : List Resource) (t : Tally)
      → all_settled is_date archives rs ≡ true
      → list_empty (evaluate_resources is_date archives teardown rs t).retained_resources
        ≡ (list_empty t.retained_resources && not (any_of is_retained rs))
  unfolding evaluate_resources
  evaluate_resources-retained [] t settled = ground arith
  evaluate_resources-retained (r ∷ rs) t settled =
      let next = evaluate_resource is_date archives teardown r t in
      let ok_class : class_ok is_date r ≡ true =
        first (class_ok is_date r) (scopes_ok archives r) (all_settled is_date archives rs)
          settled in
      evaluate_resources-retained rs next (second (is_settled is_date archives r) settled)
      ∙ ap (λ b. b && not (any_of is_retained rs)) (evaluate_resource-retained r t)
      ∙ rest (list_empty t.retained_resources) (is_retained r) (class_ok is_date r)
          (any_of is_retained rs) ok_class
    where
      first : (a b c : Bool) → ((a && b) && c) ≡ true → a ≡ true
      first a b c h = ground arith

      second : (a : Bool) {b : Bool} → (a && b) ≡ true → b ≡ true
      second a h = ground arith

      rest : (a b c d : Bool) → c ≡ true → ((a && not (b && c)) && not d) ≡ (a && not (b || d))
      rest a b c d e = ground arith

  verdict-stop_state :
      (rs : List Resource) (complete : Bool)
      → verdict (evaluate_resources is_date archives teardown rs empty_tally) complete
        ≡ stop_state is_date archives rs complete
  unfolding verdict
  verdict-stop_state rs complete =
      let tally = evaluate_resources is_date archives teardown rs empty_tally in
      let checks = evaluate_resources-checks rs empty_tally in
      elim (Bool-cases (all_settled is_date archives rs)) [
        | inl settled ↦
            let retained = evaluate_resources-retained rs empty_tally settled in
            by_checks "terminal" "terminal_with_retention" "non_terminal"
              tally.resource_states_terminal tally.retention_accountable
              (list_empty tally.archive_failures) (list_empty tally.retained_resources) complete
              (all_settled is_date archives rs) (any_of is_retained rs) checks (λ e. retained)
        | inr unsettled ↦
            by_checks "terminal" "terminal_with_retention" "non_terminal"
              tally.resource_states_terminal tally.retention_accountable
              (list_empty tally.archive_failures) (list_empty tally.retained_resources) complete
              (all_settled is_date archives rs) (any_of is_retained rs) checks (λ e. ground arith)
      ]
    where
      by_checks :
          (x y z : String) (a b c d e s k : Bool)
          → (a && b && c) ≡ s
          → (s ≡ true → d ≡ not k)
          → (if a && b && e && c then (if d then x else y) else z)
            ≡ (if s && e then (if k then y else x) else z)
      by_checks x y z a b c d e s k h h' = ground arith

-- A stop state that is returned is the one that its manifest declares: the environment is
-- stopped exactly if each resource of the class retained is recorded as retained with an
-- owner and a valid review date and each other is destroyed or absent, if each archive scope
-- of a preserved resource has an archive that passed, with a location and an integrity value,
-- and if the scope of the estimate is complete; it is stopped with retention exactly if,
-- besides, some resource is of the class retained.
pub evaluate_stop_state-stop_state :
    (env : StopEnv) (now : Moment) (manifest : Value) (verified_at : String) (result : StopResult)
    → evaluate_stop_state env now manifest verified_at ≡ ok result
    → (declared : Declared) × (read_manifest env manifest ≡ ok declared)
      × (result.result
          ≡ stop_state env.is_date declared.archives declared.resources
              declared.estimate.scope_complete)
unfolding evaluate_stop_state stop_result
evaluate_stop_state-stop_state env now manifest verified_at result returned =
    >>=-elim_ok (read_manifest env manifest) _ returned λ declared read rest.
      >>=-elim_ok (read_verified_at env now verified_at) _ rest λ at timed done. (
        declared,
        read,
        sym (ap (λ r. r.result) (ok_inj done))
            ∙ verdict-stop_state env.is_date declared.archives declared.teardown declared.resources
                declared.estimate.scope_complete,
      )
  where
    ok_inj : {a b : StopResult} → ok a ≡ ok b → a ≡ b
    ok_inj p = cc
