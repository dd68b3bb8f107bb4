-- ===== src/Authority/Provider.antt =====
-- hyops/authority/provider.py: the interface of the providers. A call may return an object of
-- another class than the interface promises (`none`), or raise.
use hybridops_core.Prelude.{String, Bool, Option, List}
use hybridops_core.Raises.{Raises}
use hybridops_core.Authority.Models.{
  AuthorityDeclaration, AuthorityContext, AuthorityEvaluation, AuthorityObservation,
  AuthorityObservationPolicy, AuthorityIntervalEvaluation,
}

pub record AuthorityIntervalProvider : Type 0 where
  pub interval_verifiable :
      AuthorityDeclaration
      → AuthorityContext
      → AuthorityObservation
      → AuthorityObservationPolicy
      → Raises (Option Bool)
  pub evaluate_interval :
      AuthorityDeclaration
      → AuthorityContext
      → AuthorityObservation
      → AuthorityObservation
      → AuthorityObservationPolicy
      → String
      → Raises (Option AuthorityIntervalEvaluation)

-- `interval` is there when `isinstance(provider, AuthorityIntervalProvider)` holds. The functions
-- stand for the provider at one moment: what it answers later is another value of this type.
pub record AuthorityProvider : Type 0 where
  pub name : String
  pub capabilities : List String
  pub validate_configuration : AuthorityDeclaration → AuthorityContext → Raises (Unit {0})
  pub evaluate : AuthorityDeclaration → AuthorityContext → Raises (Option AuthorityEvaluation)
  pub interval : Option AuthorityIntervalProvider
