-- ===== src/Authority/Checks.antt =====
-- The validators of hyops/authority/resolver.py: policy, observation, evidence.
use Prim.Native.String.{◌++◌}
use hybridops_core.Prelude.{
  ℕ, String, Bool, true, false, Option, none, some, List, [], ◌∷◌, contains, if◌then◌else◌,
}
use hybridops_core.Text.{is_blank}
use hybridops_core.Raises.{Raises, ok, value_error, ◌>>=◌, ◌>>◌, require}
use hybridops_core.Value.{Value, str, dict, writable}
use hybridops_core.Authority.Models.{
  AuthorityObservation, AuthorityObservationPolicy, Observed, absent, foreign, observed,
  observation_evidence,
}
use hybridops_core.Authority.Clock.{DateTime, parse_utc}

abbrev pub interval_statuses : List String
interval_statuses = "stable" ∷ "drifted" ∷ "unverifiable" ∷ []

abbrev pub completion_statuses : List String
completion_statuses = "fresh" ∷ "stale" ∷ "unverifiable" ∷ []

abbrev pub expected_changes : List String
expected_changes = "none" ∷ "operation" ∷ []

abbrev pub unverifiable_actions : List String
unverifiable_actions = "fail" ∷ "record" ∷ []

unfoldable pub validate_policy : AuthorityObservationPolicy → Raises (Unit {0})
validate_policy policy = do
  require (contains policy.expected_change expected_changes)
      "invalid expected authority change policy"
  require (contains policy.on_unverifiable unverifiable_actions)
      "invalid unverifiable authority policy"

unfoldable pub validate_evidence : Value → String → Raises (Unit {0})
validate_evidence evidence label =
    require (writable evidence) (label ++ " must be JSON serializable")

-- `isinstance(value, str) and value.strip()`
unfoldable pub non_empty_text : Value → Bool
non_empty_text (str s) = if is_blank s then false else true
non_empty_text _ = false

abbrev field_message : String → String
field_message name = "authority observation " ++ name ++ " must be a non-empty string"

-- `_parse_utc` of an observation's time. Validation refuses a time that is no text first, so the
-- second clause is never reached from there.
unfoldable pub observed_at_utc : (String → Option DateTime) → String → Value → Raises ℕ
observed_at_utc fromisoformat name (str s) = parse_utc fromisoformat s name
observed_at_utc fromisoformat name _ =
    value_error "authority observation time must be an ISO-8601 timestamp"

require_mapping : Value → Raises (Unit {0})
require_mapping (dict fs) = ok tt
require_mapping _ = value_error "authority observation metadata must be an object"

unfoldable pub validate_observation :
    (String → Option DateTime) → AuthorityObservation → Raises (Unit {0})
unfolding observed_at_utc require_mapping validate_evidence non_empty_text
validate_observation fromisoformat o = do
  require (non_empty_text o.token) (field_message "token")
  require (non_empty_text o.scope) (field_message "scope")
  require (non_empty_text o.strength) (field_message "strength")
  _ ← observed_at_utc fromisoformat "authority observation time" o.observed_at
  require_mapping o.metadata
  validate_evidence (observation_evidence o) "authority observation"

-- What the resolver goes on with: no observation, or a validated one.
unfoldable pub validate_observed :
    (String → Option DateTime) → Observed → Raises (Option AuthorityObservation)
unfolding validate_observation
validate_observed fromisoformat absent = ok none
validate_observed fromisoformat foreign =
    value_error "provider returned an invalid authority observation"
validate_observed fromisoformat (observed o) =
    validate_observation fromisoformat o >>= λ _. ok (some o)
