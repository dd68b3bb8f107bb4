-- ===== src/StopState/Evaluation/Review.antt =====
-- The body of the loop over the resources in `evaluate_stop_state` of hyops/state/stop_state.py.
use Prim.Native.String.{◌++◌}
use hybridops_core.Prelude.{
  ℕ, suc, String, Bool, true, false, Option, none, some, List, [], ◌∷◌, snoc, contains, ◌==◌, ◌&&◌,
  ◌||◌, not, if◌then◌else◌,
}
use hybridops_core.Text.{is_empty, join, or_text}
use hybridops_core.Blueprint.References.{list_empty}
use hybridops_core.StopState.Manifest.{Resource, Archive, Teardown, find_archive, find_teardown}

pub record RetainedResource : Type 0 where
  pub logical_id : String
  pub provider_id : String
  pub owner : String
  pub review_date : String
  pub cost_basis : String

pub record ResourceIssue : Type 0 where
  pub logical_id : String
  pub provider_id : String
  pub state : String
  pub reason : String
  pub next_action : String

pub record ResourceResult : Type 0 where
  pub logical_id : String
  pub provider_id : String
  pub state : String
  pub retention_class : String
  pub cost_basis : String
  pub cost_bearing : Bool
  pub archive_scopes : List String
  pub teardown_result : Option String
  pub outcome : String

pub record ArchiveResult : Type 0 where
  pub logical_id : String
  pub scope : String
  pub location : String
  pub integrity_value : String
  pub verification : String

pub record ArchiveFailure : Type 0 where
  pub logical_id : String
  pub scope : String
  pub verification : String
  pub reason : String
  pub next_action : String

-- The variables of the loop.
pub record Tally : Type 0 where
  pub retained_resources : List RetainedResource
  pub unresolved_resources : List ResourceIssue
  pub archive_failures : List ArchiveFailure
  pub archive_results : List ArchiveResult
  pub resource_results : List ResourceResult
  pub removed : ℕ
  pub retained : ℕ
  pub resource_states_terminal : Bool
  pub retention_accountable : Bool

abbrev pub empty_tally : Tally
empty_tally = record {
  retained_resources = [];
  unresolved_resources = [];
  archive_failures = [];
  archive_results = [];
  resource_results = [];
  removed = 0;
  retained = 0;
  resource_states_terminal = true;
  retention_accountable = true;
}

-- `_archive_failure`
unfoldable pub archive_failure : Resource → String → Option Archive → Option ArchiveFailure
unfolding join
archive_failure r scope none = some (record {
  logical_id = r.logical_id;
  scope = scope;
  verification = "missing";
  reason = "required archive is not recorded";
  next_action = "export and verify the required archive";
})
archive_failure r scope (some a) =
    let missing_integrity = if is_empty a.integrity_value then "integrity_value" ∷ [] else [] in
    let missing =
      if is_empty a.location then "location" ∷ missing_integrity else missing_integrity in
    if not (a.verification == "passed")
    then some (record {
      logical_id = r.logical_id;
      scope = scope;
      verification = a.verification;
      reason = "required archive verification is " ++ a.verification;
      next_action = "complete archive verification before teardown";
    })
    else if list_empty missing
    then none
    else some (record {
      logical_id = r.logical_id;
      scope = scope;
      verification = a.verification;
      reason = "verified archive is missing " ++ join " and " missing;
      next_action = "record the archive location and integrity value";
    })

-- The reasons against a resource, and the default action.
pub record Findings : Type 0 where
  pub reasons : List String
  pub default_action : String

-- `reasons.append(reason)` with a new default action, under a test
abbrev pub note_if : Bool → String → String → Findings → Findings
note_if test reason action f =
    if test then record { reasons = snoc f.reasons reason; default_action = action } else f

abbrev pub no_findings : Findings
no_findings = record {
  reasons = [];
  default_action = "refresh the resource state and resume teardown";
}

abbrev pub valid_review : (String → Bool) → String → Bool
valid_review is_date value = if is_empty value then false else is_date value

-- The findings on a resource that is retained.
unfoldable pub retained_findings : (String → Bool) → Resource → Findings
retained_findings is_date r =
    note_if (not (valid_review is_date r.review_date)) "retained resource has no valid review date"
      "assign an owner and review date"
      (note_if (is_empty r.owner) "retained resource has no owner" "assign an owner and review date"
        (note_if (not (r.state == "retained")) "resource is not recorded as retained"
          "record approved retention or remove the resource" no_findings))

abbrev pub is_removed : String → Bool
is_removed state = contains state ("absent" ∷ "destroyed" ∷ [])

-- `step and step["result"] in ...`
abbrev pub step_result_in : List String → Option Teardown → Bool
step_result_in results none = false
step_result_in results (some step) = contains step.result results

-- The findings on a resource that is to be removed.
unfoldable pub removal_findings : Option Teardown → Resource → Findings
removal_findings step r =
    let action =
      if r.state == "failed" || step_result_in ("failed" ∷ []) step
      then "resolve the failed teardown step and retry"
      else "destroy the resource or approve retention" in
    note_if (not (is_removed r.state) && step_result_in ("absent" ∷ "destroyed" ∷ []) step)
      "declared state does not reflect the teardown result"
      "refresh provider state before continuing"
      (note_if (not (is_removed r.state))
        ("resource state is " ++ r.state ++ ", not destroyed or absent") action no_findings)

abbrev pub archive_result : Resource → String → Option Archive → ArchiveResult
archive_result r scope none = record {
  logical_id = r.logical_id;
  scope = scope;
  location = "";
  integrity_value = "";
  verification = "missing";
}
archive_result r scope (some a) = record {
  logical_id = r.logical_id;
  scope = scope;
  location = a.location;
  integrity_value = a.integrity_value;
  verification = a.verification;
}

abbrev pub note_archive_failure : Option ArchiveFailure → Tally × Findings → Tally × Findings
note_archive_failure none (t, f) = (t, f)
note_archive_failure (some failure) (t, f) = (
  record t { archive_failures = snoc t.archive_failures failure },
  record { reasons = snoc f.reasons failure.reason; default_action = failure.next_action },
)

-- `for scope in resource["archive_scopes"]`
unfoldable pub check_scopes :
    List Archive → Resource → List String → Tally × Findings → Tally × Findings
unfolding find_archive archive_failure
check_scopes archives r [] at = at
check_scopes archives r (scope ∷ scopes) at =
    let archive = find_archive scope archives in
    let listed = record at.0 {
      archive_results = snoc at.0.archive_results (archive_result r scope archive);
    } in
    check_scopes archives r scopes
      (note_archive_failure (archive_failure r scope archive) (listed, at.1))

abbrev pub retained_entry : Resource → RetainedResource
retained_entry r = record {
  logical_id = r.logical_id;
  provider_id = r.provider_id;
  owner = r.owner;
  review_date = r.review_date;
  cost_basis = r.cost_basis;
}

-- The tests by retention class.
unfoldable pub class_stage : (String → Bool) → Option Teardown → Resource → Tally → Tally × Findings
unfolding retained_findings removal_findings
class_stage is_date step r t =
    if r.retention_class == "retained"
    then (let f = retained_findings is_date r in
        let judged : Tally = record t {
          resource_states_terminal = t.resource_states_terminal && r.state == "retained";
          retention_accountable =
              t.retention_accountable
              && not (is_empty r.owner)
              && valid_review is_date r.review_date;
        } in
        (
          (if list_empty f.reasons
              then record judged {
                retained = suc t.retained;
                retained_resources = snoc t.retained_resources (retained_entry r);
              }
              else judged),
          f,
        ))
    else (
      record t {
        resource_states_terminal = t.resource_states_terminal && is_removed r.state;
        removed = if is_removed r.state then suc t.removed else t.removed;
      },
      removal_findings step r,
    )

-- `_resource_issue`
unfoldable pub resource_issue : Resource → Option Teardown → Findings → ResourceIssue
unfolding join
resource_issue r step f = record {
  logical_id = r.logical_id;
  provider_id = r.provider_id;
  state = r.state;
  reason = join "; " f.reasons;
  next_action =
      or_text (or_text r.next_action (elim step [ none ↦ "" | some s ↦ s.next_action ]))
        f.default_action;
}

abbrev pub outcome_of : Resource → Findings → String
outcome_of r f =
    if not (list_empty f.reasons)
    then "unresolved"
    else if r.retention_class == "retained"
    then "retained"
    else "removed"

-- The entries of the resource in the results.
unfoldable pub note_resource : Option Teardown → Resource → Tally × Findings → Tally
unfolding resource_issue
note_resource step r (t, f) = record t {
  unresolved_resources =
      if list_empty f.reasons
      then t.unresolved_resources
      else snoc t.unresolved_resources (resource_issue r step f);
  resource_results = snoc t.resource_results (record {
    logical_id = r.logical_id;
    provider_id = r.provider_id;
    state = r.state;
    retention_class = r.retention_class;
    cost_basis = r.cost_basis;
    cost_bearing = r.cost_bearing;
    archive_scopes = r.archive_scopes;
    teardown_result = elim step [ none ↦ none | some s ↦ some s.result ];
    outcome = outcome_of r f;
  });
}

abbrev pub scope_stage : List Archive → Resource → Tally × Findings → Tally × Findings
scope_stage archives r at =
    if r.retention_class == "preserve" then check_scopes archives r r.archive_scopes at else at

-- The body of the loop.
unfoldable pub evaluate_resource :
    (String → Bool) → List Archive → List Teardown → Resource → Tally → Tally
unfolding find_teardown class_stage check_scopes note_resource
evaluate_resource is_date archives teardown r t =
    let step = find_teardown r.logical_id teardown in
    note_resource step r (scope_stage archives r (class_stage is_date step r t))
