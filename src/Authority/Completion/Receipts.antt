-- ===== src/Authority/Completion/Receipts.antt =====
-- What every completion receipt (hyops/authority/resolver.py, `complete`) carries.
use hybridops_core.Prelude.{
  ℕ, Bool, false, ltb, if◌then◌else◌, String, ◌≡◌, Option, none, some, arith, refl, subst,
  Bool-cases, inl, inr, true, eq_iff, ◌⊎◌,
}
use hybridops_core.Raises.{Raises, ok, value_error, other_error, >>=-elim_ok}
use hybridops_core.Value.{eq_value}
use hybridops_core.Authority.Models.{
  AuthorityObservation, AuthorityObservationPolicy, AuthorityEvaluation,
  AuthorityIntervalEvaluation, AuthorityIntervalReceipt, AuthoritySession,
}
use hybridops_core.Authority.Provider.{AuthorityProvider, AuthorityIntervalProvider}
use hybridops_core.Authority.Registry.{Registry, resolve}
use hybridops_core.Authority.Clock.{DateTime}
use hybridops_core.Authority.Checks.{validate_policy}
use hybridops_core.Authority.Completion.{
  complete, after_evaluate, after_observation, compare_if_possible, compare_observations,
  compare_times, judge_call, judge, refusal, verdict_receipt, decision_of, stale_receipt,
  unverifiable_receipt, unavailable_receipt, not_ready_receipt,
}
use hybridops_core.Authority.Completion.Verdicts.{Recorded, judge_call_record, deny_not_record}

module _ (session : AuthoritySession) (policy : AuthorityObservationPolicy) where
  -- What every receipt repeats of its session and policy, and the decisions there are.
  pub record Attributed (r : AuthorityIntervalReceipt) : Type 0 where
    pub logical_ref : r.logical_ref ≡ session.requirement.logical_ref
    pub capability : r.capability ≡ session.requirement.capability
    pub expected_change : r.expected_change ≡ policy.expected_change
    pub on_unverifiable : r.on_unverifiable ≡ policy.on_unverifiable
    pub before : r.before ≡ session.admission.observation
    pub decision : (r.decision ≡ "allow") ⊎ (r.decision ≡ "record") ⊎ (r.decision ≡ "deny")

  -- A receipt that is in order: attributed, and recorded only as the policy and statuses admit.
  record Orderly (r : AuthorityIntervalReceipt) : Type 0 where
    attributed : Attributed r
    recorded : r.decision ≡ "record" → Recorded policy r

  decided :
      (e : AuthorityIntervalEvaluation)
      → (decision_of e policy ≡ "allow")
        ⊎ (decision_of e policy ≡ "record")
        ⊎ (decision_of e policy ≡ "deny")
  unfolding decision_of
  decided e = ground arith

  module _ {before : Option AuthorityObservation} (kept : session.admission.observation ≡ before)
      (after : Option AuthorityObservation) (result : String) where
    unavailable-Orderly : Orderly (unavailable_receipt session policy before after result)
    unfolding unavailable_receipt
    unavailable-Orderly = ground (arith, deny_not_record)

    unverifiable-Orderly : Orderly (unverifiable_receipt session policy before after result)
    unfolding unverifiable_receipt
    unverifiable-Orderly = ground (
      arith,
      deny_not_record,
      eq_iff policy.on_unverifiable "record",
      eq_iff "unverifiable" "drifted",
      eq_iff "unverifiable" "stale",
    )

  module _ (provider : AuthorityProvider) (before after : AuthorityObservation)
      (kept : session.admission.observation ≡ some before) where
    verdict-Orderly :
        (e : AuthorityIntervalEvaluation)
        → Attributed (verdict_receipt session policy provider e before after)
    unfolding verdict_receipt
    verdict-Orderly e = ground (arith, decided e)

    judge-Attributed :
        (e : AuthorityIntervalEvaluation) (r : Option String)
        → refusal e ≡ r
        → Attributed (judge session policy provider before after (some e))
    unfolding judge
    judge-Attributed e none h = rw (h, judge) (verdict-Orderly e)
    judge-Attributed e (some m) h =
        rw (h, judge) (unavailable-Orderly kept (some after) m).attributed

    judge_call-Attributed :
        (call : Raises (Option AuthorityIntervalEvaluation))
        → Attributed (judge_call session policy provider before after call)
    unfolding judge_call unavailable_receipt
    judge_call-Attributed (ok (some e)) = judge-Attributed e _ refl
    judge_call-Attributed (ok none) = ground arith
    judge_call-Attributed (value_error e) = ground arith
    judge_call-Attributed (other_error e) = ground arith

    judge_call-Orderly :
        (call : Raises (Option AuthorityIntervalEvaluation))
        → Orderly (judge_call session policy provider before after call)
    judge_call-Orderly call = record {
      attributed = judge_call-Attributed call;
      recorded = judge_call_record session policy provider before after call;
    }

    stale-Orderly : Orderly (stale_receipt session policy provider before after)
    unfolding stale_receipt
    stale-Orderly = ground (arith, deny_not_record)

  Orderly-if :
      (b : Bool) (r s : AuthorityIntervalReceipt)
      → Orderly r
      → Orderly s
      → Orderly (if b then r else s)
  Orderly-if true r s hr hs = hr
  Orderly-if false r s hr hs = hs

  -- Every receipt of a call that returns is in order.
  abbrev OrderlyReturn : Raises AuthorityIntervalReceipt → Type 0
  OrderlyReturn (ok r) = Orderly r
  OrderlyReturn (value_error e) = Unit
  OrderlyReturn (other_error e) = Unit

  compare_times-Orderly :
      {before : Option AuthorityObservation} (observed_at floor : Raises ℕ)
      (stale fresh : AuthorityIntervalReceipt)
      → session.admission.observation ≡ before
      → Orderly stale
      → Orderly fresh
      → OrderlyReturn (compare_times session policy observed_at floor before stale fresh)
  unfolding compare_times
  compare_times-Orderly (ok t) (ok f) stale fresh k hs hf = Orderly-if (ltb t f) stale fresh hs hf
  compare_times-Orderly (ok t) (value_error e) stale fresh k hs hf = unavailable-Orderly k none _
  compare_times-Orderly (ok t) (other_error e) stale fresh k hs hf = tt
  compare_times-Orderly (value_error e) floor stale fresh k hs hf = unavailable-Orderly k none _
  compare_times-Orderly (other_error e) floor stale fresh k hs hf = tt

  module _ (fromisoformat : String → Option DateTime) (completion_floor : String)
      (provider : AuthorityProvider) where
    compare_observations-Orderly :
        (interval : AuthorityIntervalProvider) (before after : AuthorityObservation)
        → session.admission.observation ≡ some before
        → OrderlyReturn (
            compare_observations session policy fromisoformat completion_floor provider interval
              before after)
    unfolding compare_observations
    compare_observations-Orderly interval before after kept =
        compare_times-Orderly _ _ _ _ kept (stale-Orderly provider before after kept) (
          Orderly-if (eq_value before.scope after.scope) _ _
            (judge_call-Orderly provider before after kept _)
            (unverifiable-Orderly kept (some after) _))

    compare_if_possible-Orderly :
        (interval : Option AuthorityIntervalProvider) (before after : Option AuthorityObservation)
        → session.admission.observation ≡ before
        → OrderlyReturn (
            compare_if_possible session policy fromisoformat completion_floor provider interval
              before after)
    unfolding compare_if_possible
    compare_if_possible-Orderly (some i) (some b) (some a) kept =
        compare_observations-Orderly i b a kept
    compare_if_possible-Orderly (some i) (some b) none kept = unverifiable-Orderly kept none _
    compare_if_possible-Orderly (some i) none after kept = unverifiable-Orderly kept after _
    compare_if_possible-Orderly none before after kept = unverifiable-Orderly kept after _

    not_ready-Orderly :
        (evaluation : AuthorityEvaluation) (after : Option AuthorityObservation)
        → Orderly (
            not_ready_receipt session policy provider evaluation session.admission.observation
              after)
    unfolding not_ready_receipt
    not_ready-Orderly evaluation after = ground (arith, deny_not_record)

    after_observation-Orderly :
        (evaluation : AuthorityEvaluation) (after : Raises (Option AuthorityObservation))
        → OrderlyReturn (
            after_observation session policy fromisoformat completion_floor provider evaluation
              after)
    unfolding after_observation
    after_observation-Orderly evaluation (ok after) = elim (Bool-cases evaluation.healthy) [
      | inl e ↦ rw e (compare_if_possible-Orderly provider.interval _ after refl)
      | inr e ↦ rw e (not_ready-Orderly evaluation after)
    ]
    after_observation-Orderly evaluation (value_error e) = unavailable-Orderly refl none _
    after_observation-Orderly evaluation (other_error e) = tt

    after_evaluate-Orderly :
        (returned : Raises (Option AuthorityEvaluation))
        → OrderlyReturn
            (after_evaluate session policy fromisoformat completion_floor provider returned)
    unfolding after_evaluate
    after_evaluate-Orderly (ok (some evaluation)) = after_observation-Orderly evaluation _
    after_evaluate-Orderly (ok none) = unavailable-Orderly refl none _
    after_evaluate-Orderly (value_error e) = unavailable-Orderly refl none _
    after_evaluate-Orderly (other_error e) = unavailable-Orderly refl none _

  module _ (fromisoformat : String → Option DateTime) (completion_floor : String)
      (registry : Registry) {r : AuthorityIntervalReceipt}
      (h : complete session policy fromisoformat completion_floor registry ≡ ok r) where
    complete-Orderly : Orderly r
    unfolding complete
    complete-Orderly = >>=-elim_ok (validate_policy policy) _ h λ _ _ h1.
        >>=-elim_ok (resolve registry session.declaration.provider) _ h1 λ p _ h2.
          subst OrderlyReturn h2 (after_evaluate-Orderly fromisoformat completion_floor p _)

    -- Every receipt repeats the requirement, the policy and the observation of the admission, and
    -- its decision is allow, record or deny.
    pub complete-Attributed : Attributed r
    complete-Attributed = complete-Orderly.attributed

    -- A decision is left to the record only under a policy that says so, and never for a drifted
    -- interval or a stale completion.
    pub complete_record : r.decision ≡ "record" → Recorded policy r
    complete_record = complete-Orderly.recorded
