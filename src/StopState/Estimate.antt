-- ===== src/StopState/Estimate.antt =====
-- `_evaluate_estimate` of hyops/state/stop_state.py. The sets of the code are lists without
-- duplicates. The coverage, a percentage with two decimals, is a number of hundredths.
pub mod Bounds
use Prim.Native.Nat.{◌/◌, ◌%◌}
use Prim.Native.String.{◌++◌}
use hybridops_core.Prelude as P
use hybridops_core.Prelude.{
  ℕ, suc, ◌*◌, ◌+◌, String, Bool, true, false, Option, none, some, List, [], ◌∷◌, contains, length,
  ltb, nat_eq, ◌==◌, ◌&&◌, not, if◌then◌else◌,
}
use hybridops_core.Text.{join}
use hybridops_core.Text.Split.{upper}
use hybridops_core.Raises.{Raises, ok, value_error, ◌>>=◌, ◌>>◌, require}
use hybridops_core.Value.{Fields, get}
use hybridops_core.Authority.Registry.{sorted}
use hybridops_core.Blueprint.References.{list_empty}
use hybridops_core.StopState.Readers.{
  StopEnv, value_at, read_mapping, read_text, read_text_list, read_decimal, read_timestamp,
}
use hybridops_core.StopState.Manifest.{Resource, resource_ids}

pub record Estimate : Type 0 where
  pub currency : String
  pub fixed_hourly : String
  pub pricing_timestamp : String
  pub cost_bearing_resources : List String
  pub included_resources : List String
  pub excluded_resources : List String
  pub unclassified_resources : List String
  pub coverage_percent : ℕ
  pub scope_complete : Bool

pub record UnresolvedCheck : Type 0 where
  pub check : String
  pub reason : String
  pub next_action : String
  pub resources : String

-- The names of the first list that the second has, and those that it has not.
unfoldable pub common : List String → List String → List String
common [] ys = []
common (x ∷ xs) ys = let rest = common xs ys in if contains x ys then x ∷ rest else rest

unfoldable pub minus : List String → List String → List String
minus [] ys = []
minus (x ∷ xs) ys = let rest = minus xs ys in if contains x ys then rest else x ∷ rest

unfoldable pub cost_bearing_ids : List Resource → List String
cost_bearing_ids [] = []
cost_bearing_ids (r ∷ rs) =
    let rest = cost_bearing_ids rs in if r.cost_bearing then r.logical_id ∷ rest else rest

-- The nearest number to a / n, and of two the even one.
unfoldable pub round_half_even : ℕ → ℕ → ℕ
round_half_even a n =
    if ltb (2 * (a % n)) n
    then a / n
    else if nat_eq (2 * (a % n)) n && nat_eq (a / n % 2) 0
    then a / n
    else suc (a / n)

unfoldable pub coverage_of : List String → List String → ℕ
unfolding round_half_even
coverage_of included cost_bearing =
    if list_empty cost_bearing
    then 10000
    else round_half_even (10000 * length included) (length cost_bearing)

abbrev pub scope_checks : List String → List UnresolvedCheck
scope_checks [] = []
scope_checks (x ∷ unclassified) =
    record {
      check = "estimate_scope";
      reason = "cost-bearing resources are not classified by the estimate";
      next_action = "add each resource to estimate.included or estimate.excluded";
      resources = join ", " (x ∷ unclassified);
    }
    ∷ []

-- The errors on the two lists.
abbrev pub overlap_error : List String → String
overlap_error overlap =
    "estimate.included and estimate.excluded overlap: " ++ join ", " (sorted overlap)

abbrev pub unknown_error : List String → String
unknown_error unknown = "estimate references undeclared resources: " ++ join ", " (sorted unknown)

abbrev pub non_cost_error : List String → String
non_cost_error non_cost =
    "estimate classifies resources declared as non-cost-bearing: " ++ join ", " (sorted non_cost)

-- The estimate, when the tests have passed.
unfoldable pub estimate_of :
    String → String → String → List String → List String → List String → Estimate
unfolding minus coverage_of sorted
estimate_of currency fixed_hourly pricing_timestamp included excluded cost_bearing =
    let unclassified = sorted (minus cost_bearing (P.◌++◌ included excluded)) in
    record {
      currency = currency;
      fixed_hourly = fixed_hourly;
      pricing_timestamp = pricing_timestamp;
      cost_bearing_resources = sorted cost_bearing;
      included_resources = sorted included;
      excluded_resources = sorted excluded;
      unclassified_resources = unclassified;
      coverage_percent = coverage_of included cost_bearing;
      scope_complete = list_empty unclassified;
    }

-- From the tests of the two lists on.
unfoldable pub classify :
    List Resource → String → String → String → List String → List String → Raises Estimate
unfolding common minus cost_bearing_ids estimate_of sorted join
classify resources currency fixed_hourly pricing_timestamp included excluded =
    let referenced = P.◌++◌ included excluded in
    let cost_bearing = cost_bearing_ids resources in
    let overlap = common included excluded in
    let unknown = minus referenced (resource_ids resources) in
    let non_cost = minus referenced cost_bearing in
    do
      require (list_empty overlap) (overlap_error overlap)
      require (list_empty unknown) (unknown_error unknown)
      require (list_empty non_cost) (non_cost_error non_cost)
      ok (estimate_of currency fixed_hourly pricing_timestamp included excluded cost_bearing)

unfoldable pub evaluate_estimate : StopEnv → Fields → List Resource → Raises Estimate
unfolding read_text read_decimal read_timestamp read_text_list upper classify get
evaluate_estimate env manifest resources = do
  estimate ← read_mapping (value_at "estimate" manifest) "estimate"
  currency ← read_text (value_at "currency" estimate) "estimate.currency"
  fixed_hourly ← read_decimal env (value_at "fixed_hourly" estimate) "estimate.fixed_hourly"
  pricing_timestamp ←
      read_timestamp env (value_at "pricing_timestamp" estimate) "estimate.pricing_timestamp"
  included ← read_text_list (value_at "included" estimate) "estimate.included"
  excluded ← read_text_list (value_at "excluded" estimate) "estimate.excluded"
  classify resources (upper currency) fixed_hourly pricing_timestamp included excluded
