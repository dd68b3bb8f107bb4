-- ===== src/Authority/Admission/Guarantees.antt =====
-- What an admitted session (hyops/authority/resolver.py, `begin`) stands for.
use hybridops_core.Prelude.{
  ◌↔◌, String, ◌≡◌, true, Option, none, some, contains, lookup, arith, eq_iff,
}
use hybridops_core.Raises.{ok, >>=-elim_ok}
use hybridops_core.Value.{dict, writable}
use hybridops_core.Authority.Models.{
  AuthorityDeclaration, AuthorityRequirement, AuthorityContext, AuthorityObservation,
  AuthorityObservationPolicy, AuthorityEvaluation, AuthoritySession, receipt_evidence,
}
use hybridops_core.Authority.Provider.{AuthorityProvider, AuthorityIntervalProvider}
use hybridops_core.Authority.Registry.{Registry, resolve}
use hybridops_core.Authority.Clock.{DateTime}
use hybridops_core.Authority.Checks.{validate_observed, validate_evidence}
use hybridops_core.Authority.Admission.{
  Declarations, find_declaration, find_provider, healthy_evaluation, check_policy, check_interval,
  receipt_of, admit_evaluation, begin,
}
use hybridops_core.Authority.Admission.Inversion.{
  find_declaration-eq-ok, find_provider-eq-ok, healthy_evaluation-eq-ok, interval_answer,
}

-- The facts that make a session of `requirement` rightful, apart from the interval policy.
pub record Admits (fromisoformat : String → Option DateTime) (registry : Registry)
    (requirement : AuthorityRequirement) (declarations : Declarations) (context : AuthorityContext)
    (session : AuthoritySession) : Type 0 where
  pub provider : AuthorityProvider
  pub evaluation : AuthorityEvaluation
  pub same_requirement : session.requirement ≡ requirement
  pub same_context : session.context ≡ context
  pub declared : lookup requirement.logical_ref declarations ≡ some session.declaration
  pub capability_matches : session.declaration.capability ≡ requirement.capability
  pub resolved : resolve registry session.declaration.provider ≡ ok provider
  pub supported : contains requirement.capability provider.capabilities ≡ true
  pub configured : provider.validate_configuration session.declaration context ≡ ok tt
  pub evaluated : provider.evaluate session.declaration context ≡ ok (some evaluation)
  pub healthy : evaluation.healthy ≡ true
  pub validated :
      validate_observed fromisoformat evaluation.observation ≡ ok session.admission.observation
  pub receipt :
      session.admission
      ≡ receipt_of requirement provider.name evaluation session.admission.observation
  pub serializable : writable (dict (receipt_evidence session.admission)) ≡ true

pub record Admission (fromisoformat : String → Option DateTime) (requirement : AuthorityRequirement)
    (declaration : AuthorityDeclaration) (context : AuthorityContext)
    (policy : Option AuthorityObservationPolicy) (provider : AuthorityProvider)
    (evaluation : AuthorityEvaluation) (session : AuthoritySession) : Type 0 where
  same_requirement : session.requirement ≡ requirement
  same_declaration : session.declaration ≡ declaration
  same_context : session.context ≡ context
  validated :
      validate_observed fromisoformat evaluation.observation ≡ ok session.admission.observation
  receipt :
      session.admission
      ≡ receipt_of requirement provider.name evaluation session.admission.observation
  serializable : writable (dict (receipt_evidence session.admission)) ≡ true
  interval : check_interval provider session policy ≡ ok tt

admission :
    (fromisoformat : String → Option DateTime) (requirement : AuthorityRequirement)
    (declaration : AuthorityDeclaration) (context : AuthorityContext)
    (policy : Option AuthorityObservationPolicy) (provider : AuthorityProvider)
    (evaluation : AuthorityEvaluation) {session : AuthoritySession}
    → admit_evaluation fromisoformat requirement declaration context policy provider evaluation
      ≡ ok session
    → Admission fromisoformat requirement declaration context policy provider evaluation session
unfolding admit_evaluation validate_evidence receipt_of
admission f r d c policy p e h = ground arith

module _ (fromisoformat : String → Option DateTime) (registry : Registry)
    (requirement : AuthorityRequirement) (declarations : Declarations) (context : AuthorityContext)
    (policy : Option AuthorityObservationPolicy) {session : AuthoritySession} where
  -- A session that `begin` returns is rightful, and passed the interval check with its provider.
  pub begin-eq-ok :
      begin fromisoformat registry requirement declarations context policy ≡ ok session
      → (a : Admits fromisoformat registry requirement declarations context session)
        × (check_interval a.provider session policy ≡ ok tt)
  unfolding begin
  begin-eq-ok h = >>=-elim_ok (check_policy policy) _ h λ _ _ h1.
      >>=-elim_ok (find_declaration requirement declarations) _ h1 λ d hd h2.
        >>=-elim_ok (find_provider registry requirement d) _ h2 λ p hp h3.
          >>=-elim_ok (healthy_evaluation requirement p d context) _ h3 λ e he h4.
            let a = admission fromisoformat requirement d context policy p e h4 in
            let fd = find_declaration-eq-ok requirement declarations hd in
            let fp = find_provider-eq-ok registry requirement d hp in
            let fe = healthy_evaluation-eq-ok requirement p d context he in
            (
              record {
                provider = p;
                evaluation = e;
                same_requirement = a.same_requirement;
                same_context = a.same_context;
                declared = rw (a.same_declaration) fd.0;
                capability_matches = rw (a.same_declaration) fd.1;
                resolved = rw (a.same_declaration) fp.0;
                supported = fp.1;
                configured = rw (a.same_declaration) fe.0;
                evaluated = rw (a.same_declaration) fe.1;
                healthy = fe.2;
                validated = a.validated;
                receipt = a.receipt;
                serializable = a.serializable;
              },
              a.interval,
            )

  -- A session that `begin` returns is rightful, whatever the policy: its declaration is the bound
  -- one with the required capability, its provider is the registered one and supports the
  -- capability, accepted the configuration and was healthy, its observation is absent or valid, its
  -- receipt repeats the evaluation and can be written as JSON.
  pub begin-Admits :
      begin fromisoformat registry requirement declarations context policy ≡ ok session
      → Admits fromisoformat registry requirement declarations context session
  begin-Admits h = (begin-eq-ok h).0

-- Under a policy that fails on what cannot be verified, an admitted session has an observation, and
-- its provider is an interval provider that said it can verify the interval.
pub begin_fail_policy :
    (fromisoformat : String → Option DateTime) (registry : Registry)
    (requirement : AuthorityRequirement) (declarations : Declarations) (context : AuthorityContext)
    (policy : AuthorityObservationPolicy) {session : AuthoritySession}
    → policy.on_unverifiable ≡ "fail"
    → begin fromisoformat registry requirement declarations context (some policy) ≡ ok session
    → (provider : AuthorityProvider) × (interval : AuthorityIntervalProvider)
      × (before : AuthorityObservation) × (resolve registry session.declaration.provider
          ≡ ok provider)
      × (provider.interval ≡ some interval)
      × (session.admission.observation ≡ some before)
      × (interval.interval_verifiable session.declaration session.context before policy
          ≡ ok (some true))
begin_fail_policy fromisoformat registry requirement declarations context policy {session} f h =
    let (a, c) = begin-eq-ok fromisoformat registry requirement declarations context _ h in
    let (i, b, e0, e1, e2) = interval_answer a.provider session policy f c in
    (a.provider, i, b, a.resolved, e0, e1, e2)

module _ (fromisoformat : String → Option DateTime) (registry : Registry)
    (requirement : AuthorityRequirement) (declarations : Declarations) (context : AuthorityContext)
    {session : AuthoritySession}
    (a : Admits fromisoformat registry requirement declarations context session) where
  found_declaration : find_declaration requirement declarations ≡ ok session.declaration
  unfolding find_declaration
  found_declaration = ground (
    arith,
    a.declared,
    a.capability_matches,
    eq_iff session.declaration.capability requirement.capability,
  )

  found_provider : find_provider registry requirement session.declaration ≡ ok a.provider
  unfolding find_provider
  found_provider = ground (arith, a.resolved, a.supported)

  found_evaluation :
      healthy_evaluation requirement a.provider session.declaration context ≡ ok a.evaluation
  unfolding healthy_evaluation
  found_evaluation = ground (arith, a.configured, a.evaluated, a.healthy)

  rebuilt_session :
      admit_evaluation fromisoformat requirement session.declaration context none a.provider
        a.evaluation
      ≡ ok session
  unfolding admit_evaluation validate_evidence check_interval
  rebuilt_session =
      ground (arith, a.validated, a.serializable, a.receipt, a.same_requirement, a.same_context)

-- Without a policy, `begin` returns exactly the rightful sessions: it refuses no operation whose
-- binding, provider, evaluation, observation and receipt are in order.
pub begin_iff :
    (fromisoformat : String → Option DateTime) (registry : Registry)
    (requirement : AuthorityRequirement) (declarations : Declarations) (context : AuthorityContext)
    (session : AuthoritySession)
    → (begin fromisoformat registry requirement declarations context none ≡ ok session)
      ↔ Admits fromisoformat registry requirement declarations context session
begin_iff f registry r ds context session = (
  begin-Admits f registry r ds context none,
  λ a.
      unfold begin check_policy in
      rw (found_declaration f registry r ds context a) (
        rw (found_provider f registry r ds context a) (
          rw (found_evaluation f registry r ds context a)
            (rebuilt_session f registry r ds context a))),
)
