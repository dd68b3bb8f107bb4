-- ===== src/Authority/Completion/Guarantees.antt =====
-- What the decision of a completion receipt (hyops/authority/resolver.py, `complete`) stands for.
use hybridops_core.Prelude.{
  String, ◌≡◌, true, Option, none, some, arith, refl, Bool-cases, inl, inr, ap, ◌∙◌,
}
use hybridops_core.Raises.{Raises, ok, value_error, other_error, >>=-elim_ok}
use hybridops_core.Value.{eq_value}
use hybridops_core.Authority.Models.{
  AuthorityObservation, AuthorityObservationPolicy, AuthorityEvaluation,
  AuthorityIntervalEvaluation, AuthorityIntervalReceipt, AuthoritySession,
}
use hybridops_core.Authority.Provider.{AuthorityProvider, AuthorityIntervalProvider}
use hybridops_core.Authority.Registry.{Registry, resolve}
use hybridops_core.Authority.Clock.{DateTime, parse_utc}
use hybridops_core.Authority.Checks.{validate_policy, validate_observed, observed_at_utc}
use hybridops_core.Authority.Completion.{
  complete, after_evaluate, after_observation, compare_if_possible, compare_observations,
  stale_receipt, unverifiable_receipt, unavailable_receipt, not_ready_receipt,
}
use hybridops_core.Authority.Completion.Verdicts.{
  Passes, judge_call_allow, deny_not_allow, record_not_allow,
}
use hybridops_core.Authority.Completion.Times.{InTime, compare_times_allow}

module _ (session : AuthoritySession) (policy : AuthorityObservationPolicy)
    (fromisoformat : String → Option DateTime) (completion_floor : String) where
  -- The reads on which an allowed completion by `provider` rests.
  pub record Clears (provider : AuthorityProvider) : Type 0 where
    pub interval : AuthorityIntervalProvider
    pub evaluation : AuthorityEvaluation
    pub before : AuthorityObservation
    pub after : AuthorityObservation
    pub verdict : AuthorityIntervalEvaluation
    pub evaluated : provider.evaluate session.declaration session.context ≡ ok (some evaluation)
    pub healthy : evaluation.healthy ≡ true
    pub admitted_before : session.admission.observation ≡ some before
    pub validated : validate_observed fromisoformat evaluation.observation ≡ ok (some after)
    pub is_interval_provider : provider.interval ≡ some interval
    pub in_time :
        InTime
          (observed_at_utc fromisoformat "observation.observed_at" after.observed_at)
          (parse_utc fromisoformat completion_floor "completion_floor")
    pub same_scope : eq_value before.scope after.scope ≡ true
    pub judged :
        interval.evaluate_interval session.declaration session.context before after policy
          completion_floor
        ≡ ok (some verdict)
    pub passes : Passes verdict

  -- The part of it that the comparison of the observations establishes.
  record Compared (interval : AuthorityIntervalProvider) (before after : AuthorityObservation)
      : Type 0 where
    verdict : AuthorityIntervalEvaluation
    in_time :
        InTime
          (observed_at_utc fromisoformat "observation.observed_at" after.observed_at)
          (parse_utc fromisoformat completion_floor "completion_floor")
    same_scope : eq_value before.scope after.scope ≡ true
    judged :
        interval.evaluate_interval session.declaration session.context before after policy
          completion_floor
        ≡ ok (some verdict)
    passes : Passes verdict

  module _ (provider : AuthorityProvider) {r : AuthorityIntervalReceipt}
      (allow : r.decision ≡ "allow") where
    compared :
        (interval : AuthorityIntervalProvider) (before after : AuthorityObservation)
        → compare_observations session policy fromisoformat completion_floor provider interval
            before after
          ≡ ok r
        → Compared interval before after
    unfolding compare_observations
    compared interval before after h = elim (Bool-cases (eq_value before.scope after.scope)) [
      | inl e ↦
          let (t, same) =
            compare_times_allow session policy (some before)
              (stale_receipt session policy provider before after) _ (unfold stale_receipt in refl)
              _ _ (rw e at h) allow in
          let (v, j, p) =
            judge_call_allow session policy provider before after _ (rw (← same) allow) in
          record { verdict = v; in_time = t; same_scope = e; judged = j; passes = p }
      | inr e ↦
          let (t, same) =
            compare_times_allow session policy (some before)
              (stale_receipt session policy provider before after) _ (unfold stale_receipt in refl)
              _ _ (rw e at h) allow in
          unfold unverifiable_receipt in ground (arith, deny_not_allow, record_not_allow)
    ]

    possible :
        (interval : Option AuthorityIntervalProvider) (before after : Option AuthorityObservation)
        → compare_if_possible session policy fromisoformat completion_floor provider interval before
            after
          ≡ ok r
        → (i : AuthorityIntervalProvider) × (b : AuthorityObservation) × (a : AuthorityObservation)
          × (interval ≡ some i)
          × (before ≡ some b)
          × (after ≡ some a)
          × Compared i b a
    unfolding compare_if_possible
    possible (some i) (some b) (some a) h = (i, b, a, refl, refl, refl, compared i b a h)
    possible (some i) (some b) none h =
        unfold unverifiable_receipt in ground (arith, deny_not_allow, record_not_allow)
    possible (some i) none after h =
        unfold unverifiable_receipt in ground (arith, deny_not_allow, record_not_allow)
    possible none before after h =
        unfold unverifiable_receipt in ground (arith, deny_not_allow, record_not_allow)

    observed_allow :
        (evaluation : AuthorityEvaluation) (after : Raises (Option AuthorityObservation))
        → provider.evaluate session.declaration session.context ≡ ok (some evaluation)
        → validate_observed fromisoformat evaluation.observation ≡ after
        → after_observation session policy fromisoformat completion_floor provider evaluation after
          ≡ ok r
        → Clears provider
    unfolding after_observation
    observed_allow evaluation (ok after) ev va h = elim (Bool-cases evaluation.healthy) [
      | inl healthy ↦
          let (i, b, a, ei, eb, ea, c) =
            possible provider.interval session.admission.observation after (rw healthy at h) in
          record {
            interval = i;
            evaluation = evaluation;
            before = b;
            after = a;
            verdict = c.verdict;
            evaluated = ev;
            healthy = healthy;
            admitted_before = eb;
            validated = va ∙ ap ok ea;
            is_interval_provider = ei;
            in_time = c.in_time;
            same_scope = c.same_scope;
            judged = c.judged;
            passes = c.passes;
          }
      | inr ill ↦ unfold not_ready_receipt in ground (arith, deny_not_allow)
    ]
    observed_allow evaluation (value_error e) ev va h =
        unfold unavailable_receipt in ground (arith, deny_not_allow)
    observed_allow evaluation (other_error e) ev va h = ground arith

    evaluated_allow :
        (returned : Raises (Option AuthorityEvaluation))
        → provider.evaluate session.declaration session.context ≡ returned
        → after_evaluate session policy fromisoformat completion_floor provider returned ≡ ok r
        → Clears provider
    unfolding after_evaluate
    evaluated_allow (ok (some evaluation)) ev h = observed_allow evaluation _ ev refl h
    evaluated_allow (ok none) ev h = unfold unavailable_receipt in ground (arith, deny_not_allow)
    evaluated_allow (value_error e) ev h =
        unfold unavailable_receipt in ground (arith, deny_not_allow)
    evaluated_allow (other_error e) ev h =
        unfold unavailable_receipt in ground (arith, deny_not_allow)

  -- A completion is allowed only on the provider's evidence: the registered provider evaluated
  -- again and was healthy, there are an observation of the admission and a valid one of the
  -- completion with the same scope, the latter was taken no earlier than the completion floor, and
  -- the provider judged the interval stable and the completion fresh, with a non-blank result,
  -- detection strength and freshness basis.
  pub complete_allow :
      (registry : Registry) {r : AuthorityIntervalReceipt}
      → complete session policy fromisoformat completion_floor registry ≡ ok r
      → r.decision ≡ "allow"
      → (provider : AuthorityProvider) × (resolve registry session.declaration.provider
          ≡ ok provider)
        × Clears provider
  unfolding complete
  complete_allow registry h allow = >>=-elim_ok (validate_policy policy) _ h λ _ _ h1.
      >>=-elim_ok (resolve registry session.declaration.provider) _ h1
        λ p hp h2. (p, hp, evaluated_allow p allow _ refl h2)
