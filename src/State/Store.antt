-- ===== src/State/Store.antt =====
-- The files of module states: `module_state_path`, `_candidate_module_state_paths`,
-- `read_module_state` and `write_module_state` of hyops/runtime/module_state.py, and
-- `module_state_status` of hyops/blueprint/contracts.py. Paths are below the state directory. A file
-- holds the value that its JSON text stands for, or an error that reading it raises.
pub mod Laws
use Prim.Native.String.{◌++◌}
use hybridops_core.Prelude.{
  String, Bool, true, false, Option, none, some, List, [], ◌∷◌, lookup, insert, is_some, ◌&&◌, not,
  ◌==◌, if◌then◌else◌,
}
use hybridops_core.Text.{is_empty, strip, lower}
use hybridops_core.Raises.{Raises, ok, value_error, other_error, ◌>>=◌}
use hybridops_core.Value.{Value, null, Fields, dict, get}
use hybridops_core.Value.Printing.{str_or_empty, repr_text}
use hybridops_core.State.Refs.{split_module_state_ref, module_id_from_ref}

pub data File : Type 0 where
  json : Value → File
  unreadable : String → File

-- `refuses path payload` is the text of the exception that `write_json_atomic` raises, or empty.
pub record Disk : Type 0 where
  pub files : List (String × File)
  pub refuses : String → Fields → String

-- What a read gives: `not_found` is a `FileNotFoundError`, `failed` any other exception.
pub data Loaded : Type 0 where
  loaded : Fields → Loaded
  not_found : String → Loaded
  failed : String → Loaded

-- `_STATE_REF_ALIASES.get(ref, ())`
unfoldable pub state_ref_aliases : String → List String
state_ref_aliases ref =
    if ref == "platform/postgresql-ha"
    then "platform/onprem/postgresql-ha" ∷ []
    else if ref == "platform/onprem/postgresql-ha"
    then "platform/postgresql-ha" ∷ []
    else if ref == "platform/postgresql-ha-backup"
    then "platform/onprem/postgresql-ha-backup" ∷ []
    else if ref == "platform/onprem/postgresql-ha-backup"
    then "platform/postgresql-ha-backup" ∷ []
    else []

-- The file of a module id and an instance, which may be empty.
abbrev pub file_of : String → String → String
file_of module_id instance_name =
    if is_empty instance_name
    then "modules/" ++ module_id ++ "/latest.json"
    else "modules/" ++ module_id ++ "/instances/" ++ instance_name ++ ".json"

unfoldable pub candidate_files : String → List String → List String
unfolding module_id_from_ref
candidate_files instance_name [] = []
candidate_files instance_name (ref ∷ refs) =
    let rest = candidate_files instance_name refs in
    let module_id = module_id_from_ref ref in
    if is_empty module_id then rest else file_of module_id instance_name ∷ rest

abbrev pub aliases_of : String → List String → List String
aliases_of ref [] = []
aliases_of ref (a ∷ refs) =
    let rest = aliases_of ref refs in if not (is_empty a) && not (a == ref) then a ∷ rest else rest

unfoldable pub candidate_module_state_paths : String → String → Raises (List String)
unfolding split_module_state_ref candidate_files state_ref_aliases
candidate_module_state_paths module_ref state_instance =
    split_module_state_ref module_ref state_instance >>= λ parts.
    ok (candidate_files parts.1 (parts.0 ∷ aliases_of parts.0 (state_ref_aliases parts.0)))

unfoldable pub module_state_path : String → String → Raises String
unfolding split_module_state_ref module_id_from_ref repr_text
module_state_path module_ref state_instance =
    split_module_state_ref module_ref state_instance >>= λ parts.
    if is_empty (module_id_from_ref parts.0)
    then value_error ("invalid module_ref: " ++ repr_text module_ref)
    else ok (file_of (module_id_from_ref parts.0) parts.1)

-- `next((candidate for candidate in candidates if candidate.exists()), ...)`
unfoldable pub first_existing : List (String × File) → List String → Option String
unfolding lookup
first_existing files [] = none
first_existing files (path ∷ paths) =
    let rest = first_existing files paths in if is_some (lookup path files) then some path else rest

abbrev load_file : String → File → Loaded
load_file path (json (dict payload)) = loaded payload
load_file path (json _) = failed ("invalid module state file: " ++ path)
load_file path (unreadable error) = failed error

-- The file that is read: the first candidate that exists.
unfoldable pub read_candidates : List (String × File) → String → List String → Loaded
unfolding first_existing lookup
read_candidates files first candidates = elim (first_existing files candidates) [
  | none ↦ not_found first
  | some path ↦ elim (lookup path files) [ none ↦ not_found path | some file ↦ load_file path file ]
]

-- A `FileNotFoundError` that carries the path of the reference.
abbrev missing_state : Raises String → Loaded
missing_state (ok path) = not_found path
missing_state (value_error error) = failed error
missing_state (other_error error) = failed error

unfoldable pub read_module_state : Disk → String → String → Loaded
unfolding candidate_module_state_paths module_state_path read_candidates
read_module_state disk module_ref state_instance =
    elim (candidate_module_state_paths module_ref state_instance) [
      | value_error error ↦ failed error
      | other_error error ↦ failed error
      | ok [] ↦ missing_state (module_state_path module_ref state_instance)
      | ok (path ∷ paths) ↦ read_candidates disk.files path (path ∷ paths)
    ]

unfoldable pub write_module_state : String → Fields → String → Disk → Raises Disk
unfolding module_state_path insert
write_module_state module_ref payload state_instance disk =
    module_state_path module_ref state_instance >>= λ path.
    if is_empty (disk.refuses path payload)
    then ok (record disk { files = insert path (json (dict payload)) disk.files })
    else other_error (disk.refuses path payload)

abbrev pub status_of : Loaded → String
status_of (loaded payload) =
    lower (strip (str_or_empty (elim (get "status" payload) [ none ↦ null | some v ↦ v ])))
status_of _ = ""

unfoldable pub module_state_status : Disk → String → String
unfolding read_module_state str_or_empty get lower strip
module_state_status disk module_ref = status_of (read_module_state disk module_ref "")
