-- ===== src/StopState/Evaluation.antt =====
-- `evaluate_stop_state` of hyops/state/stop_state.py, with `_archive_failure` and `_resource_issue`.
-- The time of day is the argument `now`.
pub mod Review
pub mod Terminal
pub mod Settled
use Prim.Native.String.{◌++◌}
use hybridops_core.Prelude.{
  ℕ, ◌-◌, String, Bool, true, false, Option, none, some, List, [], ◌∷◌, snoc, length, ◌==◌, ◌&&◌,
  not, if◌then◌else◌,
}
use hybridops_core.Text.{is_empty, or_text}
use hybridops_core.Raises.{Raises, ok, value_error, ◌>>=◌, ◌>>◌, require}
use hybridops_core.Value.{Value, dict, str, Fields, get}
use hybridops_core.Blueprint.References.{list_empty}
use hybridops_core.StopState.Readers.{
  Moment, StopEnv, value_at, read_mapping, text_of, read_text, read_timestamp, zoned_text,
}
use hybridops_core.StopState.Manifest.{
  Resource, Archive, Teardown, find_teardown, index_resources, index_archives, index_teardown,
}
use hybridops_core.StopState.Estimate.{Estimate, UnresolvedCheck, scope_checks, evaluate_estimate}
use hybridops_core.StopState.Evaluation.Review.{
  Tally, empty_tally, evaluate_resource, RetainedResource, ResourceIssue, ResourceResult,
  ArchiveResult, ArchiveFailure,
}

pub record StopChecks : Type 0 where
  pub resources_terminal : Bool
  pub retention_accountable : Bool
  pub archives_verified : Bool
  pub estimate_scope_complete : Bool

pub record ResourceCounts : Type 0 where
  pub declared : ℕ
  pub terminal : ℕ
  pub removed : ℕ
  pub retained : ℕ
  pub unresolved : ℕ

pub record StopResult : Type 0 where
  pub schema_version : String
  pub environment_id : String
  pub state_timestamp : String
  pub verified_at : String
  pub result : String
  pub checks : StopChecks
  pub resources : ResourceCounts
  pub estimate : Estimate
  pub resource_results : List ResourceResult
  pub archive_results : List ArchiveResult
  pub retained_resources : List RetainedResource
  pub unresolved_resources : List ResourceIssue
  pub unresolved_checks : List UnresolvedCheck
  pub archive_failures : List ArchiveFailure

-- `for resource in resources`
unfoldable pub evaluate_resources :
    (String → Bool) → List Archive → List Teardown → List Resource → Tally → Tally
unfolding evaluate_resource
evaluate_resources is_date archives teardown [] tally = tally
evaluate_resources is_date archives teardown (r ∷ resources) tally =
    evaluate_resources is_date archives teardown resources
      (evaluate_resource is_date archives teardown r tally)

-- The verdict on the four checks.
unfoldable pub verdict : Tally → Bool → String
verdict tally estimate_complete =
    if tally.resource_states_terminal
      && tally.retention_accountable
      && estimate_complete
      && list_empty tally.archive_failures
    then (if list_empty tally.retained_resources then "terminal" else "terminal_with_retention")
    else "non_terminal"

-- `_verified_at`
unfoldable pub read_verified_at : StopEnv → Moment → String → Raises String
unfolding read_timestamp
read_verified_at env now verified_at =
    if is_empty verified_at
    then zoned_text env now "verified_at"
    else read_timestamp env (str verified_at) "verified_at"

-- The result, from the tally of the loop on.
unfoldable pub stop_result : String → String → String → String → ℕ → Estimate → Tally → StopResult
unfolding verdict
stop_result schema_version environment_id state_timestamp verified_at declared estimate tally =
    record {
      schema_version = schema_version;
      environment_id = environment_id;
      state_timestamp = state_timestamp;
      verified_at = verified_at;
      result = verdict tally estimate.scope_complete;
      checks = record {
        resources_terminal = tally.resource_states_terminal;
        retention_accountable = tally.retention_accountable;
        archives_verified = list_empty tally.archive_failures;
        estimate_scope_complete = estimate.scope_complete;
      };
      resources = record {
        declared = declared;
        terminal = declared - length tally.unresolved_resources;
        removed = tally.removed;
        retained = tally.retained;
        unresolved = length tally.unresolved_resources;
      };
      estimate = estimate;
      resource_results = tally.resource_results;
      archive_results = tally.archive_results;
      retained_resources = tally.retained_resources;
      unresolved_resources = tally.unresolved_resources;
      unresolved_checks = scope_checks estimate.unclassified_resources;
      archive_failures = tally.archive_failures;
    }

-- What is read of the manifest.
pub record Declared : Type 0 where
  pub schema_version : String
  pub environment_id : String
  pub state_timestamp : String
  pub resources : List Resource
  pub archives : List Archive
  pub teardown : List Teardown
  pub estimate : Estimate

unfoldable pub read_manifest : StopEnv → Value → Raises Declared
unfolding text_of read_text read_timestamp index_resources index_archives index_teardown
    evaluate_estimate get
read_manifest env manifest = do
  payload ← read_mapping manifest "manifest"
  let schema_version = or_text (text_of (value_at "schema_version" payload)) "1.0"
  require (schema_version == "1.0") ("unsupported schema_version: " ++ schema_version)
  environment ← read_mapping (value_at "environment" payload) "environment"
  environment_id ← read_text (value_at "id" environment) "environment.id"
  state_timestamp ←
      read_timestamp env (value_at "state_timestamp" environment) "environment.state_timestamp"
  resources ← index_resources environment
  archives ← index_archives payload
  teardown ← index_teardown payload resources
  estimate ← evaluate_estimate env payload resources
  ok (record {
    schema_version = schema_version;
    environment_id = environment_id;
    state_timestamp = state_timestamp;
    resources = resources;
    archives = archives;
    teardown = teardown;
    estimate = estimate;
  })

-- The tally of the declared resources.
abbrev pub tally_of : StopEnv → Declared → Tally
tally_of env d = evaluate_resources env.is_date d.archives d.teardown d.resources empty_tally

unfoldable pub evaluate_stop_state : StopEnv → Moment → Value → String → Raises StopResult
unfolding read_manifest evaluate_resources read_verified_at stop_result
evaluate_stop_state env now manifest verified_at = do
  declared ← read_manifest env manifest
  at ← read_verified_at env now verified_at
  ok (
      stop_result declared.schema_version declared.environment_id declared.state_timestamp at
        (length declared.resources) declared.estimate (tally_of env declared))
