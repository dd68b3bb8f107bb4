-- ===== src/Authority/Completion/Outcomes.antt =====
-- When `complete` (hyops/authority/resolver.py) returns, and what every receipt carries.
use hybridops_core.Prelude.{
  String, ◌≡◌, Option, none, some, arith, refl, inl, inr, ◌⊎◌, Bool-cases, true, ℕ, ap,
}
use hybridops_core.Raises.{Raises, ok, value_error, other_error}
use hybridops_core.Value.{Value}
use hybridops_core.Authority.Models.{
  AuthorityObservation, AuthorityObservationPolicy, AuthorityEvaluation, AuthorityIntervalReceipt,
  AuthoritySession, Observed, absent, foreign, observed,
}
use hybridops_core.Authority.Provider.{AuthorityProvider, AuthorityIntervalProvider}
use hybridops_core.Authority.Registry.{Registry, resolve}
use hybridops_core.Authority.Clock.{DateTime, parse_utc}
use hybridops_core.Authority.Checks.{
  non_empty_text, validate_policy, validate_observed, observed_at_utc,
}
use hybridops_core.Authority.Completion.{
  complete, after_evaluate, after_observation, compare_if_possible, compare_observations,
  compare_times,
}

-- A call that returns, raises a `ValueError`, or overflows the calendar.
abbrev Foreseen {ℓ} : {A : Type ℓ} → Raises A → Type 0
Foreseen (ok a) = Unit
Foreseen (value_error e) = Unit
Foreseen (other_error e) = e ≡ "date value out of range"

-- A call that returns, or overflows the calendar.
abbrev Returns {ℓ} : {A : Type ℓ} → Raises A → Type 0
Returns (ok a) = Unit
Returns (value_error e) = ⊥
Returns (other_error e) = e ≡ "date value out of range"

module _ (fromisoformat : String → Option DateTime) where
  parse_utc-Foreseen : (value field : String) → Foreseen (parse_utc fromisoformat value field)
  unfolding parse_utc
  parse_utc-Foreseen value field = ground arith

  observed_at_utc-Foreseen :
      (name : String) (v : Value) → Foreseen (observed_at_utc fromisoformat name v)
  unfolding observed_at_utc
  observed_at_utc-Foreseen name (Value.str s) = parse_utc-Foreseen s name
  observed_at_utc-Foreseen name _ = tt

  validate_observed-Foreseen : (o : Observed) → Foreseen (validate_observed fromisoformat o)
  unfolding validate_observed
  validate_observed-Foreseen absent = tt
  validate_observed-Foreseen foreign = tt
  validate_observed-Foreseen (observed o) =
      ground (arith, observed_at_utc-Foreseen "authority observation time" o.observed_at)

module _ (session : AuthoritySession) (policy : AuthorityObservationPolicy)
    (fromisoformat : String → Option DateTime) (completion_floor : String) where
  compare_times-Returns :
      (observed_at floor : Raises ℕ) (before : Option AuthorityObservation)
      (stale fresh : AuthorityIntervalReceipt)
      → Foreseen observed_at
      → Foreseen floor
      → Returns (compare_times session policy observed_at floor before stale fresh)
  unfolding compare_times
  compare_times-Returns (ok t) (ok f) before stale fresh a b = tt
  compare_times-Returns (ok t) (value_error e) before stale fresh a b = tt
  compare_times-Returns (ok t) (other_error e) before stale fresh a b = b
  compare_times-Returns (value_error e) floor before stale fresh a b = tt
  compare_times-Returns (other_error e) floor before stale fresh a b = a

  module _ (provider : AuthorityProvider) where
    compare_if_possible-Returns :
        (interval : Option AuthorityIntervalProvider) (before after : Option AuthorityObservation)
        → Returns (
            compare_if_possible session policy fromisoformat completion_floor provider interval
              before after)
    unfolding compare_if_possible compare_observations
    compare_if_possible-Returns (some i) (some b) (some a) =
        compare_times-Returns _ _ _ _ _
          (observed_at_utc-Foreseen fromisoformat "observation.observed_at" a.observed_at)
          (parse_utc-Foreseen fromisoformat completion_floor "completion_floor")
    compare_if_possible-Returns (some i) (some b) none = tt
    compare_if_possible-Returns (some i) none after = tt
    compare_if_possible-Returns none before after = tt

    after_observation-Returns :
        (evaluation : AuthorityEvaluation) (after : Raises (Option AuthorityObservation))
        → Foreseen after
        → Returns (
            after_observation session policy fromisoformat completion_floor provider evaluation
              after)
    unfolding after_observation
    after_observation-Returns evaluation (ok after) h = elim (Bool-cases evaluation.healthy) [
      | inl e ↦
          rw e (compare_if_possible-Returns provider.interval session.admission.observation after)
      | inr e ↦ rw e tt
    ]
    after_observation-Returns evaluation (value_error e) h = tt
    after_observation-Returns evaluation (other_error e) h = h

    after_evaluate-Returns :
        (returned : Raises (Option AuthorityEvaluation))
        → Returns (after_evaluate session policy fromisoformat completion_floor provider returned)
    unfolding after_evaluate
    after_evaluate-Returns (ok (some evaluation)) =
        after_observation-Returns evaluation _
          (validate_observed-Foreseen fromisoformat evaluation.observation)
    after_evaluate-Returns (ok none) = tt
    after_evaluate-Returns (value_error e) = tt
    after_evaluate-Returns (other_error e) = tt

  returned_or_overflow :
      (m : Raises AuthorityIntervalReceipt)
      → Returns m
      → ((r : AuthorityIntervalReceipt) × (m ≡ ok r)) ⊎ (m ≡ other_error "date value out of range")
  returned_or_overflow (ok r) h = inl (r, refl)
  returned_or_overflow (value_error e) h = absurd h
  returned_or_overflow (other_error e) h = inr (ap other_error h)

  -- Under a valid policy and with a registered provider, whatever the provider's calls return or
  -- raise, `complete` returns a receipt, unless a timestamp leaves the years 1 to 9999 when it is
  -- taken to UTC: then the `OverflowError` of that conversion leaves `complete`.
  pub complete_returns :
      (registry : Registry) (provider : AuthorityProvider)
      → validate_policy policy ≡ ok tt
      → resolve registry session.declaration.provider ≡ ok provider
      → ((r : AuthorityIntervalReceipt) × (complete session policy fromisoformat completion_floor
              registry
            ≡ ok r))
        ⊎ (complete session policy fromisoformat completion_floor registry
            ≡ other_error "date value out of range")
  unfolding complete
  complete_returns registry provider v h =
      rw (v, h) (returned_or_overflow _ (after_evaluate-Returns provider _))

  -- Under a valid policy and with a registered provider: when the provider's evaluation has an
  -- observation with a token, a scope and a strength, and the time of that observation overflows when
  -- it is taken to UTC, `complete` raises that `OverflowError` instead of denying.
  pub complete_overflows :
      (registry : Registry) (provider : AuthorityProvider) (evaluation : AuthorityEvaluation)
      (o : AuthorityObservation) (time : String)
      → validate_policy policy ≡ ok tt
      → resolve registry session.declaration.provider ≡ ok provider
      → provider.evaluate session.declaration session.context ≡ ok (some evaluation)
      → evaluation.observation ≡ observed o
      → non_empty_text o.token ≡ true
      → non_empty_text o.scope ≡ true
      → non_empty_text o.strength ≡ true
      → o.observed_at ≡ Value.str time
      → parse_utc fromisoformat time "authority observation time"
        ≡ other_error "date value out of range"
      → complete session policy fromisoformat completion_floor registry
        ≡ other_error "date value out of range"
  unfolding complete after_evaluate after_observation validate_observed observed_at_utc
  complete_overflows registry provider evaluation o time v h e oo t sc st at over = ground arith
