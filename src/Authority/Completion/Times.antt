-- ===== src/Authority/Completion/Times.antt =====
-- The comparison of the completion read with its floor (hyops/authority/resolver.py, `complete`).
use hybridops_core.Prelude.{ℕ, ◌≤◌, ◌≡◌, Option, arith, ltb, Bool-cases, inl, inr, refl}
use hybridops_core.Raises.{Raises, ok, value_error, other_error}
use hybridops_core.Authority.Models.{
  AuthorityObservation, AuthorityObservationPolicy, AuthorityIntervalReceipt, AuthoritySession,
}
use hybridops_core.Authority.Completion.{compare_times, unavailable_receipt}
use hybridops_core.Authority.Completion.Verdicts.{deny_not_allow, deny_not_record}

-- Both times were read, and the observation is not older than the floor.
pub record InTime (observed_at floor : Raises ℕ) : Type 0 where
  pub read_at : ℕ
  pub floor_at : ℕ
  pub read : observed_at ≡ ok read_at
  pub bounded : floor ≡ ok floor_at
  pub not_before : floor_at ≤ read_at

module _ (session : AuthoritySession) (policy : AuthorityObservationPolicy)
    (before : Option AuthorityObservation) (stale fresh : AuthorityIntervalReceipt)
    (denied : stale.decision ≡ "deny") {r : AuthorityIntervalReceipt} where
  pub compare_times_allow :
      (observed_at floor : Raises ℕ)
      → compare_times session policy observed_at floor before stale fresh ≡ ok r
      → r.decision ≡ "allow"
      → InTime observed_at floor × (r ≡ fresh)
  unfolding compare_times unavailable_receipt
  compare_times_allow (ok t) (ok f) h a = elim (Bool-cases (ltb t f)) [
    | inl e ↦ ground (arith, deny_not_allow)
    | inr e ↦ (
      record { read_at = t; floor_at = f; read = refl; bounded = refl; not_before = ground arith },
      ground arith,
    )
  ]
  compare_times_allow (ok t) (value_error e) h a = ground (arith, deny_not_allow)
  compare_times_allow (ok t) (other_error e) h a = ground arith
  compare_times_allow (value_error e) floor h a = ground (arith, deny_not_allow)
  compare_times_allow (other_error e) floor h a = ground arith

  pub compare_times_record :
      (observed_at floor : Raises ℕ)
      → compare_times session policy observed_at floor before stale fresh ≡ ok r
      → r.decision ≡ "record"
      → r ≡ fresh
  unfolding compare_times unavailable_receipt
  compare_times_record (ok t) (ok f) h a = ground (arith, deny_not_record)
  compare_times_record (ok t) (value_error e) h a = ground (arith, deny_not_record)
  compare_times_record (ok t) (other_error e) h a = ground arith
  compare_times_record (value_error e) floor h a = ground (arith, deny_not_record)
  compare_times_record (other_error e) floor h a = ground arith
