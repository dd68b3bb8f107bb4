-- ===== src/State/Examples.antt =====
-- Module states (hyops/runtime/module_state.py) of a database and a network on a disk.
use hybridops_core.Prelude.{none, some, true, ◌≡◌, refl, false, [], ◌∷◌}
use hybridops_core.Text.{strip}
use hybridops_core.Text.Split.{all_chars}
use hybridops_core.State.Inputs.{parse_input_path, has_dot, set_nested, try_get_nested}
use hybridops_core.State.Inputs.Laws.{try_get_nested-set_nested}
use hybridops_core.Raises.{ok, value_error}
use hybridops_core.Value.{str, Fields, end, field, dict, get}
use hybridops_core.State.Refs.{normalize_module_ref, module_id_from_ref, normalize_module_state_ref}
use hybridops_core.State.Refs.Collapse.{collapse, has_double_slash}
use hybridops_core.State.Refs.Collapse.Laws.{has_double_slash-collapse}
use hybridops_core.State.Store.{
  Disk, json, read_module_state, write_module_state, loaded, module_state_status,
}
use hybridops_core.State.Store.Laws.{read_module_state-write_module_state}

normalize_dots : normalize_module_ref " org.gcp//network/ " ≡ "org/gcp/network"
unfolding normalize_module_ref
normalize_dots = refl

normalize_refuses : normalize_module_ref "org/GCP" ≡ ""
unfolding normalize_module_ref
normalize_refuses = refl

module_id_example : module_id_from_ref "platform/postgresql-ha" ≡ "platform__postgresql-ha"
unfolding module_id_from_ref
module_id_example = refl

state_ref_example : normalize_module_state_ref "org/db#Blue" "" ≡ ok "org/db#blue"
unfolding normalize_module_state_ref
state_ref_example = refl

state_ref_conflict :
    normalize_module_state_ref "org/db#blue" "green"
    ≡ value_error "conflicting state_instance in module_ref and argument: 'blue' vs 'green'"
unfolding normalize_module_state_ref
state_ref_conflict = refl

abbrev network : Fields
network = field "status" (str "OK ") end

abbrev disk : Disk
disk = record {
  files = ("modules/org__network/latest.json", json (dict network)) ∷ [];
  refuses = λ path payload. "";
}

network_status : module_state_status disk "org.network" ≡ "ok"
unfolding module_state_status
network_status = refl

abbrev database : Fields
database = field "status" (str "ready") end

abbrev after : Disk
after = record disk {
  files =
      ("modules/org__network/latest.json", json (dict network))
      ∷ ("modules/org__db/instances/blue.json", json (dict database))
      ∷ [];
}

written : write_module_state "org/db#blue" database "" disk ≡ ok after
unfolding write_module_state
written = refl

read_module_state-write_module_state_example :
    read_module_state after "org/db#blue" "" ≡ loaded database
read_module_state-write_module_state_example =
    read_module_state-write_module_state "org/db#blue" "" database disk after written

has_double_slash-collapse_example : has_double_slash (collapse "a////b//c") ≡ false
has_double_slash-collapse_example = has_double_slash-collapse "a////b//c"

abbrev network_inputs : Fields
network_inputs = field "network" (dict (field "name" (str "lab") end)) end

cidr_path : parse_input_path "network.cidr" ≡ ok ("network" ∷ "cidr" ∷ [])
unfolding parse_input_path
cidr_path = refl

cidr_bare : strip "network.cidr" ≡ "network.cidr"
unfolding strip
cidr_bare = refl

cidr_dotted : has_dot "network.cidr" ≡ true
unfolding all_chars
cidr_dotted = refl

cidr_absent :
    get "network.cidr" (set_nested "network" ("cidr" ∷ []) (str "10.0.0.0/16") network_inputs)
    ≡ none
unfolding set_nested
cidr_absent = refl

try_get_nested-set_nested_example :
    try_get_nested
      (set_nested "network" ("cidr" ∷ []) (str "10.0.0.0/16") network_inputs)
      "network.cidr"
    ≡ some (str "10.0.0.0/16")
try_get_nested-set_nested_example =
    try_get_nested-set_nested "network.cidr" "network" ("cidr" ∷ []) (str "10.0.0.0/16")
      network_inputs cidr_path cidr_bare cidr_dotted cidr_absent
