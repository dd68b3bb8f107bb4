-- ===== src/Authority/Admission/Inversion.antt =====
-- What each stage of the admission (hyops/authority/resolver.py) has established when it returns.
use hybridops_core.Prelude.{
  String, ◌≡◌, true, some, contains, lookup, arith, eq_iff, Option-cases, inl, inr,
}
use hybridops_core.Raises.{Raises, ok, value_error, other_error, relabel}
use hybridops_core.Authority.Models.{
  AuthorityDeclaration, AuthorityRequirement, AuthorityContext, AuthorityObservationPolicy,
  AuthorityEvaluation, AuthoritySession, AuthorityObservation,
}
use hybridops_core.Authority.Provider.{AuthorityProvider, AuthorityIntervalProvider}
use hybridops_core.Authority.Registry.{Registry, resolve}
use hybridops_core.Authority.Admission.{
  Declarations, find_declaration, find_provider, healthy_evaluation, check_interval,
}

pub relabel-eq-ok {ℓ} :
    {A : Type ℓ} (f : String → String) (m : Raises A) {a : A} → relabel f m ≡ ok a → m ≡ ok a
relabel-eq-ok f (ok a) h = h
relabel-eq-ok f (value_error e) h = ground arith
relabel-eq-ok f (other_error e) h = ground arith

pub find_declaration-eq-ok :
    (requirement : AuthorityRequirement) (declarations : Declarations) {d : AuthorityDeclaration}
    → find_declaration requirement declarations ≡ ok d
    → (lookup requirement.logical_ref declarations ≡ some d)
      × (d.capability ≡ requirement.capability)
unfolding find_declaration
find_declaration-eq-ok requirement declarations {d} h =
    ground (arith, eq_iff d.capability requirement.capability)

pub find_provider-eq-ok :
    (registry : Registry) (requirement : AuthorityRequirement) (declaration : AuthorityDeclaration)
    {p : AuthorityProvider}
    → find_provider registry requirement declaration ≡ ok p
    → (resolve registry declaration.provider ≡ ok p)
      × (contains requirement.capability p.capabilities ≡ true)
unfolding find_provider
find_provider-eq-ok registry requirement declaration h = ground arith

pub healthy_evaluation-eq-ok :
    (requirement : AuthorityRequirement) (provider : AuthorityProvider)
    (declaration : AuthorityDeclaration) (context : AuthorityContext) {e : AuthorityEvaluation}
    → healthy_evaluation requirement provider declaration context ≡ ok e
    → (provider.validate_configuration declaration context ≡ ok tt)
      × (provider.evaluate declaration context ≡ ok (some e))
      × (e.healthy ≡ true)
unfolding healthy_evaluation
healthy_evaluation-eq-ok requirement provider declaration context h = ground arith

pub interval_answer :
    (provider : AuthorityProvider) (session : AuthoritySession)
    (policy : AuthorityObservationPolicy)
    → policy.on_unverifiable ≡ "fail"
    → check_interval provider session (some policy) ≡ ok tt
    → (interval : AuthorityIntervalProvider) × (before : AuthorityObservation) × (provider.interval
        ≡ some interval)
      × (session.admission.observation ≡ some before)
      × (interval.interval_verifiable session.declaration session.context before policy
          ≡ ok (some true))
unfolding check_interval
interval_answer provider session policy f h = elim (Option-cases provider.interval) [
  | inl e ↦ ground (arith, eq_iff policy.on_unverifiable "fail")
  | inr (i, e) ↦ elim (Option-cases session.admission.observation) [
    | inl e' ↦ ground (arith, eq_iff policy.on_unverifiable "fail")
    | inr (b, e') ↦ (i, b, e, e', ground (arith, eq_iff policy.on_unverifiable "fail"))
  ]
]
