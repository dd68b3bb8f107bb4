-- ===== src/StopState/Examples.antt =====
-- A stop state (hyops/state/stop_state.py) of a database that is preserved and a bucket that is kept.
use hybridops_core.Prelude.{
  distinct, ◌≤◌, ◌==◌, String, ◌≡◌, refl, true, false, none, some, List, [],
}
use hybridops_core.Raises.{Raises, ok, value_error, other_error}
use hybridops_core.Value.{str, seq, dict, nil, cons, Fields, end, field}
use hybridops_core.StopState.Readers.{Moment, StopEnv, mapping_items}
use hybridops_core.StopState.Estimate.{Estimate, evaluate_estimate}
use hybridops_core.StopState.Estimate.Bounds.{evaluate_estimate-bound}
use hybridops_core.StopState.Manifest.{index_resources, Resource, resource_ids}
use hybridops_core.StopState.Manifest.WellFormed.{all_well_formed, index_resources-well_formed}
use hybridops_core.Blueprint.References.{list_empty}
use hybridops_core.StopState.Evaluation.Review.{empty_tally}
use hybridops_core.StopState.Evaluation.Terminal.{stop_state}
use hybridops_core.StopState.Evaluation.Settled.{evaluate_stop_state-stop_state}
use hybridops_core.StopState.Evaluation.{
  evaluate_stop_state, StopResult, Declared, read_manifest, stop_result,
}

abbrev env : StopEnv
env = record {
  parse_decimal = λ s. some (record { finite = true; negative = false; text = s });
  parse_moment = λ s. some (record { zoned = true; text = s });
  is_date = λ s. s == "2026-12-01";
  as_datetime = λ v. none;
}

abbrev now : Moment
now = record { zoned = true; text = "2026-01-02T00:00:00Z" }

abbrev database : Fields
database = field "logical_id" (str "db") (
    field "provider_id" (str "sql-1") (
      field "state" (str "Destroyed")
        (field "retention_class" (str "preserve") (field "cost_basis" (str "hourly") end))))

abbrev bucket : Fields
bucket = field "logical_id" (str "bucket") (
    field "provider_id" (str "b-1") (
      field "state" (str "retained") (
        field "retention_class" (str "retained") (
          field "cost_basis" (str "storage")
            (field "owner" (str "ops") (field "review_date" (str "2026-12-01") end))))))

abbrev archive : Fields
archive = field "scope" (str "db") (
    field "verification" (str "passed")
      (field "location" (str "s3://a") (field "integrity_value" (str "sha256:1") end)))

abbrev estimate : Fields
estimate = field "currency" (str "usd") (
    field "fixed_hourly" (str "0.5") (
      field "pricing_timestamp" (str "2026-01-01T00:00:00Z") (
        field "included" (seq (cons (str "db") nil))
          (field "excluded" (seq (cons (str "bucket") nil)) end))))

abbrev environment : Fields
environment = field "id" (str "lab") (
    field "state_timestamp" (str "2026-01-01T00:00:00Z")
      (field "resources" (seq (cons (dict database) (cons (dict bucket) nil))) end))

abbrev payload : Fields
payload =
    field "environment" (dict environment)
      (field "archives" (seq (cons (dict archive) nil)) (field "estimate" (dict estimate) end))

abbrev result_of : Raises StopResult → String
result_of (ok r) = r.result
result_of (value_error e) = e
result_of (other_error e) = e

kept_bucket : result_of (evaluate_stop_state env now (dict payload) "") ≡ "terminal_with_retention"
unfolding evaluate_stop_state mapping_items
kept_bucket = refl

abbrev or_else : {A : Type 0} → A → Raises A → A
or_else default (ok a) = a
or_else default (value_error e) = default
or_else default (other_error e) = default

abbrev no_estimate : Estimate
no_estimate = record {
  currency = "";
  fixed_hourly = "";
  pricing_timestamp = "";
  cost_bearing_resources = [];
  included_resources = [];
  excluded_resources = [];
  unclassified_resources = [];
  coverage_percent = 0;
  scope_complete = false;
}

resources : List Resource
unfolding index_resources mapping_items
resources = or_else [] (index_resources environment)

evaluated : Estimate
unfolding evaluate_estimate resources
evaluated = or_else no_estimate (evaluate_estimate env payload resources)

evaluated_well : evaluate_estimate env payload resources ≡ ok evaluated
unfolding evaluated resources evaluate_estimate index_resources mapping_items
evaluated_well = refl

half_covered : evaluated.coverage_percent ≡ 5000
unfolding evaluated resources evaluate_estimate index_resources mapping_items
half_covered = refl

evaluate_estimate-bound_example : evaluated.coverage_percent ≤ 10000
evaluate_estimate-bound_example =
    evaluate_estimate-bound env payload resources evaluated evaluated_well

stopped : StopResult
unfolding evaluate_stop_state mapping_items
stopped =
    or_else (stop_result "" "" "" "" 0 no_estimate empty_tally)
      (evaluate_stop_state env now (dict payload) "")

stopped_well : evaluate_stop_state env now (dict payload) "" ≡ ok stopped
unfolding stopped evaluate_stop_state mapping_items
stopped_well = refl

evaluate_stop_state-stop_state_example :
    (declared : Declared) × (read_manifest env (dict payload) ≡ ok declared)
    × (stopped.result
        ≡ stop_state env.is_date declared.archives declared.resources
            declared.estimate.scope_complete)
evaluate_stop_state-stop_state_example =
    evaluate_stop_state-stop_state env now (dict payload) "" stopped stopped_well

read_well : index_resources environment ≡ ok resources
unfolding resources index_resources mapping_items
read_well = refl

index_resources-well_formed_example :
    (list_empty resources ≡ false)
    × (distinct (resource_ids resources) ≡ true)
    × (all_well_formed resources ≡ true)
index_resources-well_formed_example = index_resources-well_formed environment resources read_well
