-- ===== src/StopState/Manifest.antt =====
-- The parts of a manifest: `_index_resources`, `_index_archives` and `_index_teardown` of
-- hyops/state/stop_state.py. A dict by id is the list of its values in order, whose ids are distinct.
pub mod WellFormed
use Prim.Native.String.{◌++◌}
use hybridops_core.Prelude.{
  ℕ, suc, String, Bool, true, Option, none, some, List, [], ◌∷◌, contains, ◌==◌, ◌&&◌, not,
  if◌then◌else◌,
}
use hybridops_core.Text.{lower}
use hybridops_core.Raises.{Raises, ok, ◌>>=◌, ◌>>◌, require}
use hybridops_core.Value.{Value, null, seq, nil, dict, Fields, end, get}
use hybridops_core.Value.Printing.{show_nat}
use hybridops_core.Blueprint.References.{list_empty}
use hybridops_core.StopState.Readers.{
  value_at, value_or, read_mapping, read_mapping_list, item_label, text_of, read_text,
  read_text_list, read_boolean,
}

pub record Resource : Type 0 where
  pub logical_id : String
  pub provider_id : String
  pub state : String
  pub retention_class : String
  pub cost_basis : String
  pub cost_bearing : Bool
  pub owner : String
  pub review_date : String
  pub next_action : String
  pub archive_scopes : List String

pub record Archive : Type 0 where
  pub scope : String
  pub location : String
  pub integrity_value : String
  pub verification : String

pub record Teardown : Type 0 where
  pub resource : String
  pub result : String
  pub next_action : String

abbrev pub resource_ids : List Resource → List String
resource_ids [] = []
resource_ids (r ∷ rs) = r.logical_id ∷ resource_ids rs

-- `archives.get(scope)`
unfoldable pub find_archive : String → List Archive → Option Archive
find_archive scope [] = none
find_archive scope (a ∷ archives) =
    let rest = find_archive scope archives in if a.scope == scope then some a else rest

-- `teardown.get(logical_id)`
unfoldable pub find_teardown : String → List Teardown → Option Teardown
find_teardown logical_id [] = none
find_teardown logical_id (t ∷ steps) =
    let rest = find_teardown logical_id steps in if t.resource == logical_id then some t else rest

-- `raw["cost_bearing"]` if it is there
abbrev pub read_cost_bearing : Option Value → String → Raises Bool
read_cost_bearing none label = ok true
read_cost_bearing (some v) label = read_boolean v label

unfoldable pub read_scopes : String → String → Value → String → Raises (List String)
unfolding read_text_list
read_scopes logical_id retention_class null label =
    ok (if retention_class == "preserve" then logical_id ∷ [] else [])
read_scopes logical_id retention_class raw label = do
  scopes ← read_text_list raw (label ++ ".archive_scopes")
  require (not (retention_class == "preserve" && list_empty scopes))
      (label ++ ".archive_scopes must not be empty for preserved resources")
  ok scopes

-- The body of the loop over the resources, with the ids before.
unfoldable pub read_resource : List String → String → Fields → Raises Resource
unfolding read_text text_of lower read_scopes get
read_resource seen label raw = do
  logical_id ← read_text (value_at "logical_id" raw) (label ++ ".logical_id")
  require (not (contains logical_id seen))
      ("environment.resources contains duplicate logical_id: " ++ logical_id)
  provider_id ← read_text (value_at "provider_id" raw) (label ++ ".provider_id")
  state ← read_text (value_at "state" raw) (label ++ ".state")
  raw_class ← read_text (value_at "retention_class" raw) (label ++ ".retention_class")
  require (contains (lower raw_class) ("reproducible" ∷ "preserve" ∷ "retained" ∷ []))
      (label ++ ".retention_class must be one of: preserve, reproducible, retained")
  cost_basis ← read_text (value_at "cost_basis" raw) (label ++ ".cost_basis")
  cost_bearing ← read_cost_bearing (get "cost_bearing" raw) (label ++ ".cost_bearing")
  scopes ← read_scopes logical_id (lower raw_class) (value_at "archive_scopes" raw) label
  ok (record {
    logical_id = logical_id;
    provider_id = provider_id;
    state = lower state;
    retention_class = lower raw_class;
    cost_basis = cost_basis;
    cost_bearing = cost_bearing;
    owner = text_of (value_at "owner" raw);
    review_date = text_of (value_at "review_date" raw);
    next_action = text_of (value_at "next_action" raw);
    archive_scopes = scopes;
  })

unfoldable pub read_resources : ℕ → List String → List Fields → Raises (List Resource)
unfolding read_resource show_nat
read_resources index seen [] = ok []
read_resources index seen (raw ∷ raws) = do
  r ← read_resource seen (item_label "environment.resources" index) raw
  rest ← read_resources (suc index) (r.logical_id ∷ seen) raws
  ok (r ∷ rest)

unfoldable pub index_resources : Fields → Raises (List Resource)
unfolding read_resources get
index_resources environment = do
  raws ← read_mapping_list (value_at "resources" environment) "environment.resources"
  require (not (list_empty raws)) "environment.resources must contain at least one resource"
  read_resources 0 [] raws

unfoldable pub read_archive : List String → String → Fields → Raises Archive
unfolding read_text text_of lower get
read_archive seen label raw = do
  scope ← read_text (value_at "scope" raw) (label ++ ".scope")
  require (not (contains scope seen)) ("archives contains duplicate scope: " ++ scope)
  verification ← read_text (value_at "verification" raw) (label ++ ".verification")
  require (contains (lower verification) ("pending" ∷ "passed" ∷ "failed" ∷ []))
      (label ++ ".verification must be one of: failed, passed, pending")
  ok (record {
    scope = scope;
    location = text_of (value_at "location" raw);
    integrity_value = text_of (value_at "integrity_value" raw);
    verification = lower verification;
  })

unfoldable pub read_archives : ℕ → List String → List Fields → Raises (List Archive)
unfolding read_archive show_nat
read_archives index seen [] = ok []
read_archives index seen (raw ∷ raws) = do
  a ← read_archive seen (item_label "archives" index) raw
  rest ← read_archives (suc index) (a.scope ∷ seen) raws
  ok (a ∷ rest)

unfoldable pub index_archives : Fields → Raises (List Archive)
unfolding read_archives get
index_archives manifest =
    read_mapping_list (value_or (seq nil) "archives" manifest) "archives" >>= read_archives 0 []

unfoldable pub read_teardown : List String → List String → String → Fields → Raises Teardown
unfolding read_text text_of lower get
read_teardown declared seen label raw = do
  resource ← read_text (value_at "resource" raw) (label ++ ".resource")
  require (contains resource declared)
      (label ++ ".resource is not declared in environment.resources: " ++ resource)
  require (not (contains resource seen))
      ("teardown.steps contains duplicate resource: " ++ resource)
  result ← read_text (value_at "result" raw) (label ++ ".result")
  require (contains (lower result) ("absent" ∷ "destroyed" ∷ "failed" ∷ "retained" ∷ []))
      (label ++ ".result must be one of: absent, destroyed, failed, retained")
  ok (record {
    resource = resource;
    result = lower result;
    next_action = text_of (value_at "next_action" raw);
  })

unfoldable pub read_teardowns : List String → ℕ → List String → List Fields → Raises (List Teardown)
unfolding read_teardown show_nat
read_teardowns declared index seen [] = ok []
read_teardowns declared index seen (raw ∷ raws) = do
  t ← read_teardown declared seen (item_label "teardown.steps" index) raw
  rest ← read_teardowns declared (suc index) (t.resource ∷ seen) raws
  ok (t ∷ rest)

unfoldable pub index_teardown : Fields → List Resource → Raises (List Teardown)
unfolding read_teardowns get
index_teardown manifest resources = do
  teardown ← read_mapping (value_or (dict end) "teardown" manifest) "teardown"
  raws ← read_mapping_list (value_or (seq nil) "steps" teardown) "teardown.steps"
  read_teardowns (resource_ids resources) 0 [] raws
