-- ===== src/Authority/Examples.antt =====
-- Runs of the authority subsystem (hyops/authority) on one provider of the network's addresses.
use hybridops_core.Prelude.{
  String, ◌≡◌, ◌⊎◌, ◌↔◌, true, false, Option, none, some, [], ◌∷◌, refl, ◌==◌, if◌then◌else◌,
}
use hybridops_core.Raises.{ok, value_error, other_error}
use hybridops_core.Value.{writable, str, dict, end, pos, eq_value}
use hybridops_core.Authority.Models.{
  observation_evidence, receipt_evidence, AuthorityDeclaration, AuthorityRequirement,
  AuthorityContext, AuthorityObservation, AuthorityObservationPolicy, AuthorityEvaluation,
  AuthoritySession, AuthorityIntervalEvaluation, AuthorityIntervalReceipt, observed,
}
use hybridops_core.Authority.Provider.{AuthorityProvider, AuthorityIntervalProvider}
use hybridops_core.Authority.Registry.{Registry, register, resolve, normalize}
use hybridops_core.Authority.Registry.Laws.{resolve-register, resolve-register_kept, register_once}
use hybridops_core.Authority.Clock.{DateTime, parse_utc}
use hybridops_core.Authority.Checks.{non_empty_text, validate_policy, validate_observed}
use hybridops_core.Authority.Admission.{Declarations, begin, receipt_of}
use hybridops_core.Authority.Admission.Guarantees.{
  Admits, begin-Admits, begin_fail_policy, begin_iff,
}
use hybridops_core.Authority.Completion.{refusal, complete, verdict_receipt}
use hybridops_core.Authority.Completion.Verdicts.{Recorded}
use hybridops_core.Authority.Completion.Guarantees.{Clears, complete_allow}
use hybridops_core.Authority.Completion.Outcomes.{complete_returns, complete_overflows}
use hybridops_core.Authority.Completion.Receipts.{Attributed, complete-Attributed, complete_record}

-- Two instants of one day, one on a clock an hour ahead of UTC, and one that overflows.
abbrev read_time : String → Option DateTime
read_time text =
    if text == "2026-01-01T09:00:00+00:00"
    then some (record { local = 63902768400000000; offset = some (pos 0) })
    else if text == "2026-01-01T11:00:00+01:00"
    then some (record { local = 63902775600000000; offset = some (pos 3600000000) })
    else if text == "0001-01-01T00:00:00+01:00"
    then some (record { local = 0; offset = some (pos 3600000000) })
    else none

abbrev declaration : AuthorityDeclaration
declaration = record {
  logical_ref = "addresses";
  capability = "network.ipam";
  provider = " NetBox ";
  config = end;
  compatibility = false;
}

abbrev requirement : AuthorityRequirement
requirement = record {
  logical_ref = "addresses";
  capability = "network.ipam";
  compatibility = false;
}

abbrev declarations : Declarations
declarations = ("addresses", declaration) ∷ []

abbrev context : AuthorityContext
context = record {
  runtime_root = "/srv";
  state_root = "/srv/state";
  env = [];
  assumed_state_ok = [];
}

abbrev observation_at : String → AuthorityObservation
observation_at time = record {
  token = str "v1";
  observed_at = str time;
  scope = str "10.0.0.0/8";
  strength = str "snapshot";
  metadata = dict end;
}

abbrev evaluation_at : String → AuthorityEvaluation
evaluation_at time = record {
  healthy = true;
  state = "ok";
  result = "";
  instance = "ipam-1";
  endpoint = "";
  revision = "";
  freshness = end;
  observation = observed (observation_at time);
}

abbrev interval_verdict : String → AuthorityIntervalEvaluation
interval_verdict status = record {
  interval_status = status;
  completion_status = "fresh";
  result = "no change";
  detection_strength = "snapshot";
  freshness_basis = "change log";
}

-- The provider as it answers at one time, with one interval status.
abbrev provider_at : String → String → AuthorityProvider
provider_at time status = record {
  name = "netbox";
  capabilities = "network.ipam" ∷ [];
  validate_configuration = λ d c. ok tt;
  evaluate = λ d c. ok (some (evaluation_at time));
  interval = some (record {
    interval_verifiable = λ d c before policy. ok (some true);
    evaluate_interval = λ d c before after policy floor. ok (some (interval_verdict status));
  });
}

abbrev at_admission : AuthorityProvider
at_admission = provider_at "2026-01-01T09:00:00Z" "stable"

abbrev at_completion : AuthorityProvider
at_completion = provider_at "2026-01-01T11:00:00+01:00" "stable"

abbrev unsure : AuthorityProvider
unsure = provider_at "2026-01-01T11:00:00+01:00" "unverifiable"

abbrev out_of_range : AuthorityProvider
out_of_range = provider_at "0001-01-01T00:00:00+01:00" "stable"

abbrev registry_of : AuthorityProvider → Registry
registry_of p = ("netbox", p) ∷ []

abbrev policy : String → AuthorityObservationPolicy
policy action = record { expected_change = "none"; on_unverifiable = action }

abbrev session : AuthoritySession
session = record {
  requirement = requirement;
  declaration = declaration;
  context = context;
  admission = record {
    logical_ref = "addresses";
    capability = "network.ipam";
    provider = "netbox";
    state = "ok";
    result = "admitted";
    instance = "ipam-1";
    endpoint = "";
    revision = "";
    freshness = end;
    observation = some (observation_at "2026-01-01T09:00:00Z");
  };
}

abbrev floor : String
floor = "2026-01-01T09:00:00Z"

resolve-register_example : resolve (registry_of at_admission) " NetBOX" ≡ ok at_admission
unfolding resolve register normalize
resolve-register_example = resolve-register at_admission [] refl " NetBOX" refl

resolve-register_kept_example :
    resolve
      (("netbox", at_admission) ∷ ("other", record at_admission { name = "Other" }) ∷ [])
      "NETBOX"
    ≡ ok at_admission
unfolding resolve register normalize
resolve-register_kept_example =
    resolve-register_kept (record at_admission { name = "Other" }) (registry_of at_admission) refl
      "NETBOX" refl

register_once_example :
    register at_completion (registry_of at_admission)
    ≡ value_error "authority provider already registered: netbox"
unfolding register normalize
register_once_example = register_once at_admission [] refl at_completion refl

begun :
    begin read_time
      (registry_of at_admission)
      requirement
      declarations
      context
      (some (policy "fail"))
    ≡ ok session
unfolding begin resolve validate_observed parse_utc writable observation_evidence receipt_evidence
    receipt_of
begun = refl

begin-Admits_example :
    Admits read_time (registry_of at_admission) requirement declarations context session
begin-Admits_example =
    begin-Admits read_time (registry_of at_admission) requirement declarations context
      (some (policy "fail")) begun

begin_iff_example :
    (begin read_time (registry_of at_admission) requirement declarations context none ≡ ok session)
    ↔ Admits read_time (registry_of at_admission) requirement declarations context session
begin_iff_example =
    begin_iff read_time (registry_of at_admission) requirement declarations context session

begin_fail_policy_example :
    (provider : AuthorityProvider) × (interval : AuthorityIntervalProvider)
    × (before : AuthorityObservation) × (resolve (registry_of at_admission) " NetBox "
        ≡ ok provider)
    × (provider.interval ≡ some interval)
    × (session.admission.observation ≡ some before)
    × (interval.interval_verifiable declaration context before (policy "fail") ≡ ok (some true))
begin_fail_policy_example =
    begin_fail_policy read_time (registry_of at_admission) requirement declarations context
      (policy "fail") refl begun

complete_allow_example :
    (provider : AuthorityProvider) × (resolve (registry_of at_completion) " NetBox " ≡ ok provider)
    × Clears session (policy "fail") read_time floor provider
unfolding complete resolve validate_policy validate_observed parse_utc writable observation_evidence
    eq_value refusal
complete_allow_example =
    complete_allow session (policy "fail") read_time floor (registry_of at_completion)
      {r = verdict_receipt session (policy "fail") at_completion (interval_verdict "stable")
        (observation_at "2026-01-01T09:00:00Z") (observation_at "2026-01-01T11:00:00+01:00")}
      refl refl

abbrev recorded : AuthorityIntervalReceipt
unfolding verdict_receipt
recorded =
    verdict_receipt session (policy "record") unsure (interval_verdict "unverifiable")
      (observation_at "2026-01-01T09:00:00Z") (observation_at "2026-01-01T11:00:00+01:00")

completed_unsure :
    complete session (policy "record") read_time floor (registry_of unsure) ≡ ok recorded
unfolding complete resolve validate_policy validate_observed parse_utc writable observation_evidence
    eq_value refusal
completed_unsure = refl

complete_record_example : Recorded (policy "record") recorded
unfolding recorded
complete_record_example =
    complete_record session (policy "record") read_time floor (registry_of unsure) completed_unsure
      refl

complete-Attributed_example : Attributed session (policy "record") recorded
complete-Attributed_example =
    complete-Attributed session (policy "record") read_time floor (registry_of unsure)
      completed_unsure

complete_returns_example :
    ((r : AuthorityIntervalReceipt) × (complete session
          (policy "fail")
          read_time
          floor
          (registry_of at_completion)
        ≡ ok r))
    ⊎ (complete session (policy "fail") read_time floor (registry_of at_completion)
        ≡ other_error "date value out of range")
unfolding resolve validate_policy
complete_returns_example =
    complete_returns session (policy "fail") read_time floor (registry_of at_completion)
      at_completion refl refl

complete_overflows_example :
    complete session (policy "fail") read_time floor (registry_of out_of_range)
    ≡ other_error "date value out of range"
unfolding resolve validate_policy parse_utc non_empty_text
complete_overflows_example =
    complete_overflows session (policy "fail") read_time floor (registry_of out_of_range)
      out_of_range (evaluation_at "0001-01-01T00:00:00+01:00")
      (observation_at "0001-01-01T00:00:00+01:00") "0001-01-01T00:00:00+01:00" refl refl refl refl
      refl refl refl refl refl
