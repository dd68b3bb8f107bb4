-- ===== src/Authority/Completion/Verdicts.antt =====
-- The last stage of `complete` (hyops/authority/resolver.py): what a provider's verdict leads to.
use hybridops_core.Prelude.{String, ◌≡◌, ◌≢◌, false, Option, none, some, arith, eq_iff, refl}
use hybridops_core.Text.{is_blank}
use hybridops_core.Raises.{Raises, ok, value_error, other_error}
use hybridops_core.Authority.Models.{
  AuthorityObservation, AuthorityObservationPolicy, AuthorityIntervalEvaluation,
  AuthorityIntervalReceipt, AuthoritySession,
}
use hybridops_core.Authority.Provider.{AuthorityProvider}
use hybridops_core.Authority.Completion.{judge_call, judge, refusal, unavailable_receipt}

pub deny_not_allow : ◌≢◌ {A = String} "deny" "allow"
deny_not_allow = ground (arith, eq_iff "deny" "allow")

pub record_not_allow : ◌≢◌ {A = String} "record" "allow"
record_not_allow = ground (arith, eq_iff "record" "allow")

-- A verdict that lets the operation pass.
pub record Passes (evaluation : AuthorityIntervalEvaluation) : Type 0 where
  pub stable : evaluation.interval_status ≡ "stable"
  pub fresh : evaluation.completion_status ≡ "fresh"
  pub result : is_blank evaluation.result ≡ false
  pub detection_strength : is_blank evaluation.detection_strength ≡ false
  pub freshness_basis : is_blank evaluation.freshness_basis ≡ false

module _ (session : AuthoritySession) (policy : AuthorityObservationPolicy)
    (provider : AuthorityProvider) (before after : AuthorityObservation) where
  decide_allow :
      (e : AuthorityIntervalEvaluation)
      → (judge session policy provider before after (some e)).decision ≡ "allow"
      → Passes e
  unfolding judge refusal
  decide_allow e h = ground (
    arith,
    deny_not_allow,
    record_not_allow,
    eq_iff e.interval_status "drifted",
    eq_iff e.interval_status "stable",
    eq_iff e.interval_status "unverifiable",
    eq_iff e.completion_status "stale",
    eq_iff e.completion_status "fresh",
    eq_iff e.completion_status "unverifiable",
  )

  pub judge_call_allow :
      (call : Raises (Option AuthorityIntervalEvaluation))
      → (judge_call session policy provider before after call).decision ≡ "allow"
      → (evaluation : AuthorityIntervalEvaluation) × (call ≡ ok (some evaluation))
        × Passes evaluation
  unfolding judge_call unavailable_receipt
  judge_call_allow (ok (some e)) h = (e, refl, decide_allow e h)
  judge_call_allow (ok none) h = absurd (deny_not_allow h)
  judge_call_allow (value_error e) h = absurd (deny_not_allow h)
  judge_call_allow (other_error e) h = absurd (deny_not_allow h)

-- What a receipt under the decision `record` says.
pub record Recorded (policy : AuthorityObservationPolicy) (r : AuthorityIntervalReceipt)
    : Type 0 where
  pub by_policy : policy.on_unverifiable ≡ "record"
  pub not_drifted : r.interval_status ≢ "drifted"
  pub not_stale : r.completion_status ≢ "stale"

pub deny_not_record : ◌≢◌ {A = String} "deny" "record"
deny_not_record = ground (arith, eq_iff "deny" "record")

allow_not_record : ◌≢◌ {A = String} "allow" "record"
allow_not_record = ground (arith, eq_iff "allow" "record")

module _ (session : AuthoritySession) (policy : AuthorityObservationPolicy)
    (provider : AuthorityProvider) (before after : AuthorityObservation) where
  decide_record :
      (e : AuthorityIntervalEvaluation)
      → (judge session policy provider before after (some e)).decision ≡ "record"
      → Recorded policy (judge session policy provider before after (some e))
  unfolding judge refusal
  decide_record e h = ground (
    arith,
    deny_not_record,
    allow_not_record,
    eq_iff e.interval_status "drifted",
    eq_iff e.completion_status "stale",
    eq_iff policy.on_unverifiable "record",
  )

  pub judge_call_record :
      (call : Raises (Option AuthorityIntervalEvaluation))
      → (judge_call session policy provider before after call).decision ≡ "record"
      → Recorded policy (judge_call session policy provider before after call)
  unfolding judge_call unavailable_receipt
  judge_call_record (ok (some e)) h = decide_record e h
  judge_call_record (ok none) h = absurd (deny_not_record h)
  judge_call_record (value_error e) h = absurd (deny_not_record h)
  judge_call_record (other_error e) h = absurd (deny_not_record h)
