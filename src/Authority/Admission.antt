-- ===== src/Authority/Admission.antt =====
-- `AuthorityResolver.begin` and `enforce` of hyops/authority/resolver.py: the admission of one
-- operation before its dispatch.
pub mod Inversion
pub mod Guarantees
use Prim.Native.String.{◌++◌}
use hybridops_core.Prelude.{
  String, Bool, Option, none, some, List, ◌==◌, contains, lookup, if◌then◌else◌,
}
use hybridops_core.Text.{or_text}
use hybridops_core.Raises.{Raises, ok, value_error, ◌>>=◌, ◌>>◌, require, relabel, other_error}
use hybridops_core.Value.{dict}
use hybridops_core.Authority.Models.{
  AuthorityDeclaration, AuthorityRequirement, AuthorityContext, AuthorityObservation,
  AuthorityObservationPolicy, AuthorityEvaluation, AuthorityReceipt, AuthoritySession,
  receipt_evidence,
}
use hybridops_core.Authority.Provider.{AuthorityProvider, AuthorityIntervalProvider}
use hybridops_core.Authority.Registry.{Registry, resolve}
use hybridops_core.Authority.Clock.{DateTime}
use hybridops_core.Authority.Checks.{validate_policy, validate_observed, validate_evidence}

abbrev pub Declarations : Type 0
Declarations = List (String × AuthorityDeclaration)

-- `declarations.get(requirement.logical_ref)` and the test of its capability
unfoldable pub find_declaration : AuthorityRequirement → Declarations → Raises AuthorityDeclaration
unfolding lookup
find_declaration requirement declarations = elim (lookup requirement.logical_ref declarations) [
  | none ↦ value_error (
      "contract failed: missing authority binding '" ++ requirement.logical_ref
      ++ "' for capability '" ++ requirement.capability ++ "'")
  | some declaration ↦
      if declaration.capability == requirement.capability
      then ok declaration
      else value_error (
          "contract failed: authority capability mismatch ('" ++ requirement.logical_ref
          ++ "' declares '" ++ declaration.capability ++ "', operation requires '"
          ++ requirement.capability ++ "')")
]

-- `self._registry.resolve(declaration.provider)` and the test of its capabilities
unfoldable pub find_provider :
    Registry → AuthorityRequirement → AuthorityDeclaration → Raises AuthorityProvider
find_provider registry requirement declaration = do
  provider ← relabel (λ e. "contract failed: " ++ e) (resolve registry declaration.provider)
  require (contains requirement.capability provider.capabilities) (
      "contract failed: authority provider capability mismatch ('" ++ provider.name
      ++ "' does not support '" ++ requirement.capability ++ "')")
  ok provider

abbrev pub provider_label : AuthorityRequirement → AuthorityProvider → String
provider_label requirement provider =
    "contract failed: authority '" ++ requirement.logical_ref ++ "' provider '" ++ provider.name
    ++ "'"

is_evaluation : String → Option AuthorityEvaluation → Raises AuthorityEvaluation
is_evaluation message none = value_error message
is_evaluation message (some evaluation) = ok evaluation

-- `validate_configuration`, `evaluate`, and the tests of what comes back
unfoldable pub healthy_evaluation :
    AuthorityRequirement
    → AuthorityProvider
    → AuthorityDeclaration
    → AuthorityContext
    → Raises AuthorityEvaluation
unfolding is_evaluation
healthy_evaluation requirement provider declaration context = do
  returned ←
      relabel (λ e. provider_label requirement provider ++ ": " ++ e)
        (provider.validate_configuration declaration context
          >> provider.evaluate declaration context)
  evaluation ←
      is_evaluation (provider_label requirement provider ++ " returned an invalid evaluation")
        returned
  require evaluation.healthy (
      provider_label requirement provider
      ++ " is not ready (state="
      ++ or_text evaluation.state "unknown"
      ++ "): "
      ++ or_text evaluation.result "authority is not ready")
  ok evaluation

-- `_receipt`
unfoldable pub receipt_of :
    AuthorityRequirement
    → String
    → AuthorityEvaluation
    → Option AuthorityObservation
    → AuthorityReceipt
receipt_of requirement provider_name evaluation observation = record {
  logical_ref = requirement.logical_ref;
  capability = requirement.capability;
  provider = provider_name;
  state = evaluation.state;
  result = or_text evaluation.result "admitted";
  instance = evaluation.instance;
  endpoint = evaluation.endpoint;
  revision = evaluation.revision;
  freshness = evaluation.freshness;
  observation = observation;
}

verdict : Option Bool → Raises (Unit {0})
verdict none =
    value_error "contract failed: authority provider returned an invalid interval capability"
verdict (some verifiable) =
    require verifiable
      "contract failed: authority provider cannot establish the interval evidence required by policy"

-- Every exception of `interval_verifiable` becomes a `ValueError`.
interval_capability : Raises (Option Bool) → Raises (Unit {0})
unfolding verdict
interval_capability (ok answer) = verdict answer
interval_capability (value_error e) =
    value_error ("contract failed: authority interval capability evaluation failed: " ++ e)
interval_capability (other_error e) =
    value_error "contract failed: authority interval capability evaluation failed"

abbrev unavailable_message : String
unavailable_message =
    "contract failed: authority interval evidence required by policy is unavailable before dispatch"

ask_interval :
    Option AuthorityIntervalProvider
    → Option AuthorityObservation
    → AuthorityDeclaration
    → AuthorityContext
    → AuthorityObservationPolicy
    → Raises (Unit {0})
unfolding interval_capability
ask_interval none before declaration context policy = value_error unavailable_message
ask_interval (some p) none declaration context policy = value_error unavailable_message
ask_interval (some p) (some before) declaration context policy =
    interval_capability (p.interval_verifiable declaration context before policy)

-- `_require_verifiable_interval`
unfoldable pub require_verifiable_interval :
    AuthorityProvider → AuthoritySession → AuthorityObservationPolicy → Raises (Unit {0})
unfolding ask_interval
require_verifiable_interval provider session policy =
    ask_interval provider.interval session.admission.observation session.declaration session.context
      policy

-- `if policy is not None: self._validate_policy(policy)`
unfoldable pub check_policy : Option AuthorityObservationPolicy → Raises (Unit {0})
unfolding validate_policy
check_policy none = ok tt
check_policy (some policy) = validate_policy policy

unfoldable pub check_interval :
    AuthorityProvider → AuthoritySession → Option AuthorityObservationPolicy → Raises (Unit {0})
unfolding require_verifiable_interval
check_interval provider session none = ok tt
check_interval provider session (some policy) =
    if policy.on_unverifiable == "fail"
    then require_verifiable_interval provider session policy
    else ok tt

module _ (fromisoformat : String → Option DateTime) where
  -- From `if evaluation.observation is not None` to the end of `begin`.
  unfoldable pub admit_evaluation :
      AuthorityRequirement
      → AuthorityDeclaration
      → AuthorityContext
      → Option AuthorityObservationPolicy
      → AuthorityProvider
      → AuthorityEvaluation
      → Raises AuthoritySession
  admit_evaluation requirement declaration context policy provider evaluation = do
    observation ←
        relabel (λ e. provider_label requirement provider ++ ": " ++ e)
          (validate_observed fromisoformat evaluation.observation)
    let receipt = receipt_of requirement provider.name evaluation observation
    validate_evidence (dict (receipt_evidence receipt)) "authority admission evidence"
    let session : AuthoritySession = record {
      requirement = requirement;
      declaration = declaration;
      context = context;
      admission = receipt;
    }
    check_interval provider session policy
    ok session

module _ (fromisoformat : String → Option DateTime) (registry : Registry) where
  unfoldable pub begin :
      AuthorityRequirement
      → Declarations
      → AuthorityContext
      → Option AuthorityObservationPolicy
      → Raises AuthoritySession
  unfolding check_policy find_declaration find_provider healthy_evaluation check_interval
      admit_evaluation
  begin requirement declarations context policy = do
    check_policy policy
    declaration ← find_declaration requirement declarations
    provider ← find_provider registry requirement declaration
    evaluation ← healthy_evaluation requirement provider declaration context
    admit_evaluation fromisoformat requirement declaration context policy provider evaluation

  unfoldable pub enforce :
      AuthorityRequirement → Declarations → AuthorityContext → Raises AuthorityReceipt
  unfolding begin
  enforce requirement declarations context = do
    session ← begin requirement declarations context none
    ok session.admission
