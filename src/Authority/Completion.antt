-- ===== src/Authority/Completion.antt =====
-- `AuthorityResolver.complete` of hyops/authority/resolver.py: the decision on one operation after
-- its dispatch. Every early return of the code is a receipt; the code's stages are functions here.
pub mod Verdicts
pub mod Receipts
pub mod Outcomes
pub mod Guarantees
pub mod Times
use Prim.Native.String.{◌++◌}
use hybridops_core.Prelude.{
  ℕ, String, Option, none, some, ◌==◌, ◌||◌, not, contains, ltb, if◌then◌else◌,
}
use hybridops_core.Text.{is_blank, or_text}
use hybridops_core.Raises.{Raises, ok, value_error, other_error, ◌>>=◌, ◌>>◌}
use hybridops_core.Value.{str, eq_value}
use hybridops_core.Authority.Models.{
  AuthorityObservation, AuthorityObservationPolicy, AuthorityEvaluation,
  AuthorityIntervalEvaluation, AuthorityIntervalReceipt, AuthoritySession,
}
use hybridops_core.Authority.Provider.{AuthorityProvider, AuthorityIntervalProvider}
use hybridops_core.Authority.Registry.{Registry, resolve}
use hybridops_core.Authority.Clock.{DateTime, parse_utc}
use hybridops_core.Authority.Checks.{
  interval_statuses, completion_statuses, validate_policy, validate_observed, observed_at_utc,
}

-- `_decision`
unfoldable pub decision_of : AuthorityIntervalEvaluation → AuthorityObservationPolicy → String
decision_of evaluation policy =
    if evaluation.interval_status == "drifted"
    then "deny"
    else if evaluation.completion_status == "stale"
    then "deny"
    else if evaluation.interval_status == "unverifiable"
        || evaluation.completion_status == "unverifiable"
    then (if policy.on_unverifiable == "record" then "record" else "deny")
    else "allow"

-- The tests of a verdict, in the code's order, with the result text of the first that fails.
unfoldable pub refusal : AuthorityIntervalEvaluation → Option String
refusal evaluation =
    if not (contains evaluation.interval_status interval_statuses)
    then some "provider returned an invalid authority interval status"
    else if not (contains evaluation.completion_status completion_statuses)
    then some "provider returned an invalid authority completion status"
    else if is_blank evaluation.result
    then some "provider returned an empty authority interval result"
    else if is_blank evaluation.detection_strength
    then some "provider returned an empty authority interval detection strength"
    else if is_blank evaluation.freshness_basis
    then some "provider returned an empty authority interval freshness basis"
    else none

module _ (session : AuthoritySession) (policy : AuthorityObservationPolicy) where
  -- `_unavailable_receipt`
  unfoldable pub unavailable_receipt :
      Option AuthorityObservation → Option AuthorityObservation → String → AuthorityIntervalReceipt
  unavailable_receipt before after result = record {
    logical_ref = session.requirement.logical_ref;
    capability = session.requirement.capability;
    provider = session.declaration.provider;
    expected_change = policy.expected_change;
    on_unverifiable = policy.on_unverifiable;
    interval_status = "unverifiable";
    completion_status = "unverifiable";
    decision = "deny";
    result = result;
    detection_strength = str "none";
    freshness_basis = "none";
    before = before;
    after = after;
  }

  -- `_unverifiable_receipt`
  unfoldable pub unverifiable_receipt :
      Option AuthorityObservation → Option AuthorityObservation → String → AuthorityIntervalReceipt
  unfolding unavailable_receipt
  unverifiable_receipt before after result = record (unavailable_receipt before after result) {
    decision = if policy.on_unverifiable == "record" then "record" else "deny";
  }

  -- The receipt for a provider that is not healthy at completion.
  unfoldable pub not_ready_receipt :
      AuthorityProvider
      → AuthorityEvaluation
      → Option AuthorityObservation
      → Option AuthorityObservation
      → AuthorityIntervalReceipt
  unfolding unavailable_receipt
  not_ready_receipt provider evaluation before after =
      record (unavailable_receipt before after (
        "authority was not ready at completion (state="
        ++ or_text evaluation.state "unknown"
        ++ "): "
        ++ or_text evaluation.result "authority is not ready")) {
          provider = provider.name;
          detection_strength = str "readiness";
        }

  -- The receipt for an observation that is older than the completion read.
  unfoldable pub stale_receipt :
      AuthorityProvider → AuthorityObservation → AuthorityObservation → AuthorityIntervalReceipt
  unfolding unavailable_receipt
  stale_receipt provider before after =
      record (unavailable_receipt (some before) (some after)
        "completion authority observation predates the completion read") {
          provider = provider.name;
          completion_status = "stale";
          detection_strength = after.strength;
          freshness_basis = "observation time";
        }

  -- The receipt for the provider's verdict.
  unfoldable pub verdict_receipt :
      AuthorityProvider
      → AuthorityIntervalEvaluation
      → AuthorityObservation
      → AuthorityObservation
      → AuthorityIntervalReceipt
  unfolding unavailable_receipt decision_of
  verdict_receipt provider evaluation before after =
      record (unavailable_receipt (some before) (some after) evaluation.result) {
        provider = provider.name;
        interval_status = evaluation.interval_status;
        completion_status = evaluation.completion_status;
        decision = decision_of evaluation policy;
        detection_strength = str evaluation.detection_strength;
        freshness_basis = evaluation.freshness_basis;
      }

  -- From `if not isinstance(evaluation, AuthorityIntervalEvaluation)` to the end.
  unfoldable pub judge :
      AuthorityProvider
      → AuthorityObservation
      → AuthorityObservation
      → Option AuthorityIntervalEvaluation
      → AuthorityIntervalReceipt
  unfolding verdict_receipt
  judge provider before after none =
      unavailable_receipt (some before) (some after)
        "provider returned an invalid authority interval evaluation"
  judge provider before after (some evaluation) = elim (refusal evaluation) [
    | some result ↦ unavailable_receipt (some before) (some after) result
    | none ↦ verdict_receipt provider evaluation before after
  ]

  -- `provider.evaluate_interval(...)` and its handlers
  unfoldable pub judge_call :
      AuthorityProvider
      → AuthorityObservation
      → AuthorityObservation
      → Raises (Option AuthorityIntervalEvaluation)
      → AuthorityIntervalReceipt
  unfolding judge
  judge_call provider before after (ok evaluation) = judge provider before after evaluation
  judge_call provider before after (value_error e) =
      unavailable_receipt (some before) (some after) ("authority interval evaluation failed: " ++ e)
  judge_call provider before after (other_error e) =
      unavailable_receipt (some before) (some after) "authority interval evaluation failed"

  -- The two times of the completion read. Only a `ValueError` is handled.
  unfoldable pub compare_times :
      Raises ℕ
      → Raises ℕ
      → Option AuthorityObservation
      → AuthorityIntervalReceipt
      → AuthorityIntervalReceipt
      → Raises AuthorityIntervalReceipt
  compare_times (ok observed_at) (ok floor) before stale fresh =
      ok (if ltb observed_at floor then stale else fresh)
  compare_times (ok observed_at) (value_error e) before stale fresh =
      ok (unavailable_receipt before none ("invalid completion authority observation: " ++ e))
  compare_times (ok observed_at) (other_error e) before stale fresh = other_error e
  compare_times (value_error e) floor before stale fresh =
      ok (unavailable_receipt before none ("invalid completion authority observation: " ++ e))
  compare_times (other_error e) floor before stale fresh = other_error e

  module _ (fromisoformat : String → Option DateTime) (completion_floor : String) where
    -- From the reading of the two times on: there are two observations and an interval provider.
    unfoldable pub compare_observations :
        AuthorityProvider
        → AuthorityIntervalProvider
        → AuthorityObservation
        → AuthorityObservation
        → Raises AuthorityIntervalReceipt
    unfolding compare_times stale_receipt unverifiable_receipt judge_call
    compare_observations provider interval before after =
        let fresh =
          if eq_value before.scope after.scope
          then judge_call provider before after (
              interval.evaluate_interval session.declaration session.context before after policy
                completion_floor)
          else unverifiable_receipt (some before) (some after)
              "authority observation scope changed during the operation" in
        compare_times (observed_at_utc fromisoformat "observation.observed_at" after.observed_at)
          (parse_utc fromisoformat completion_floor "completion_floor") (some before)
          (stale_receipt provider before after) fresh

    -- `before is None or after is None or not isinstance(provider, AuthorityIntervalProvider)`
    unfoldable pub compare_if_possible :
        AuthorityProvider
        → Option AuthorityIntervalProvider
        → Option AuthorityObservation
        → Option AuthorityObservation
        → Raises AuthorityIntervalReceipt
    unfolding compare_observations
    compare_if_possible provider (some interval) (some before) (some after) =
        compare_observations provider interval before after
    compare_if_possible provider interval before after = ok (
        unverifiable_receipt before after
          "provider does not expose comparable authority observations")

    -- From the validated observation on.
    unfoldable pub after_observation :
        AuthorityProvider
        → AuthorityEvaluation
        → Raises (Option AuthorityObservation)
        → Raises AuthorityIntervalReceipt
    unfolding not_ready_receipt compare_if_possible
    after_observation provider evaluation (ok after) =
        let before = session.admission.observation in
        if evaluation.healthy
        then compare_if_possible provider provider.interval before after
        else ok (not_ready_receipt provider evaluation before after)
    after_observation provider evaluation (value_error e) = ok (
        unavailable_receipt session.admission.observation none
          ("invalid completion authority observation: " ++ e))
    after_observation provider evaluation (other_error e) = other_error e

    -- From what `provider.evaluate` returned or raised on.
    unfoldable pub after_evaluate :
        AuthorityProvider → Raises (Option AuthorityEvaluation) → Raises AuthorityIntervalReceipt
    unfolding after_observation
    after_evaluate provider (ok (some evaluation)) =
        after_observation provider evaluation
          (validate_observed fromisoformat evaluation.observation)
    after_evaluate provider (ok none) = ok (
        unavailable_receipt session.admission.observation none
          "provider returned an invalid completion authority evaluation")
    after_evaluate provider (value_error e) = ok (
        unavailable_receipt session.admission.observation none
          ("completion authority observation failed: " ++ e))
    after_evaluate provider (other_error e) = ok (
        unavailable_receipt session.admission.observation none
          "completion authority observation failed")

    unfoldable pub complete : Registry → Raises AuthorityIntervalReceipt
    unfolding after_evaluate
    complete registry = do
      validate_policy policy
      provider ← resolve registry session.declaration.provider
      after_evaluate provider (provider.evaluate session.declaration session.context)
