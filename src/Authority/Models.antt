-- ===== src/Authority/Models.antt =====
-- hyops/authority/models.py: the typed values that providers and the resolver share.
-- The resolver checks the types of an observation's fields, so they are values of any type; the
-- fields that it takes at their annotation have that type here.
use hybridops_core.Prelude.{String, Bool, Option, none, some, List, if◌then◌else◌}
use hybridops_core.Text.{is_empty}
use hybridops_core.Value.{Value, str, dict, Fields, end, field, fields_empty, truth}

pub record AuthorityDeclaration : Type 0 where
  pub logical_ref : String
  pub capability : String
  pub provider : String
  pub config : Fields
  pub compatibility : Bool

pub record AuthorityRequirement : Type 0 where
  pub logical_ref : String
  pub capability : String
  pub compatibility : Bool

pub record AuthorityObservationPolicy : Type 0 where
  pub expected_change : String
  pub on_unverifiable : String

pub record AuthorityContext : Type 0 where
  pub runtime_root : String
  pub state_root : String
  pub env : List (String × String)
  pub assumed_state_ok : List String

pub record AuthorityObservation : Type 0 where
  pub token : Value
  pub observed_at : Value
  pub scope : Value
  pub strength : Value
  pub metadata : Value

-- What a provider put into `AuthorityEvaluation.observation`: nothing, an object of another class,
-- or an observation.
pub data Observed : Type 0 where
  absent foreign : Observed
  observed : AuthorityObservation → Observed

pub record AuthorityEvaluation : Type 0 where
  pub healthy : Bool
  pub state : String
  pub result : String
  pub instance : String
  pub endpoint : String
  pub revision : String
  pub freshness : Fields
  pub observation : Observed

pub record AuthorityIntervalEvaluation : Type 0 where
  pub interval_status : String
  pub completion_status : String
  pub result : String
  pub detection_strength : String
  pub freshness_basis : String

-- `AuthorityObservation.to_evidence`
unfoldable pub observation_evidence : AuthorityObservation → Value
observation_evidence o = dict (
    field "token" o.token (
      field "observed_at" o.observed_at (
        field "scope" o.scope (
          field "strength" o.strength
            (if truth o.metadata then field "metadata" o.metadata end else end)))))

pub record AuthorityIntervalReceipt : Type 0 where
  pub logical_ref : String
  pub capability : String
  pub provider : String
  pub expected_change : String
  pub on_unverifiable : String
  pub interval_status : String
  pub completion_status : String
  pub decision : String
  pub result : String
  pub detection_strength : Value
  pub freshness_basis : String
  pub before : Option AuthorityObservation
  pub after : Option AuthorityObservation

-- `if observation is not None: payload[key] = observation.to_evidence()`
evidence_entry : String → Option AuthorityObservation → Fields → Fields
unfolding observation_evidence
evidence_entry key none rest = rest
evidence_entry key (some o) rest = field key (observation_evidence o) rest

-- `AuthorityIntervalReceipt.to_evidence`
unfoldable pub interval_evidence : AuthorityIntervalReceipt → Fields
unfolding evidence_entry
interval_evidence r = field "logical_authority" (str r.logical_ref) (
    field "capability" (str r.capability) (
      field "provider" (str r.provider) (
        field "expected_change" (str r.expected_change) (
          field "on_unverifiable" (str r.on_unverifiable) (
            field "interval_status" (str r.interval_status) (
              field "completion_status" (str r.completion_status) (
                field "decision" (str r.decision) (
                  field "result" (str r.result) (
                    field "detection_strength" r.detection_strength (
                      field "freshness_basis" (str r.freshness_basis) (
                        evidence_entry "before" r.before
                          (evidence_entry "after" r.after end))))))))))))

pub record AuthorityReceipt : Type 0 where
  pub logical_ref : String
  pub capability : String
  pub provider : String
  pub state : String
  pub result : String
  pub instance : String
  pub endpoint : String
  pub revision : String
  pub freshness : Fields
  pub observation : Option AuthorityObservation

-- `if text: payload[key] = text`
text_entry : String → String → Fields → Fields
text_entry key text rest = if is_empty text then rest else field key (str text) rest

-- `AuthorityReceipt.to_evidence`
unfoldable pub receipt_evidence : AuthorityReceipt → Fields
unfolding text_entry evidence_entry
receipt_evidence r = field "logical_authority" (str r.logical_ref) (
    field "capability" (str r.capability) (
      field "provider" (str r.provider) (
        field "verified_state" (str r.state) (
          field "result" (str r.result) (
            text_entry "instance" r.instance (
              text_entry "endpoint" r.endpoint (
                text_entry "revision" r.revision (
                  if fields_empty r.freshness
                  then evidence_entry "observation" r.observation end
                  else field "freshness" (dict r.freshness)
                      (evidence_entry "observation" r.observation end)))))))))

pub record AuthoritySession : Type 0 where
  pub requirement : AuthorityRequirement
  pub declaration : AuthorityDeclaration
  pub context : AuthorityContext
  pub admission : AuthorityReceipt
