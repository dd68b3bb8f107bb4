-- ===== src/Blueprint/Authorities.antt =====
-- `validate_authorities` of hyops/blueprint/schema.py: the bindings of a blueprint's authorities.
pub mod Laws
use Prim.Native.Char.{code}
use Prim.Native.String.{count, ◌++◌}
use hybridops_core.Prelude.{
  ℕ, String, Bool, true, false, Option, none, some, List, [], ◌∷◌, leb, nat_eq, insert, ◌&&◌, ◌||◌,
  if◌then◌else◌,
}
use hybridops_core.Text.{strip, lower, join}
use hybridops_core.Raises.{Raises, ok, value_error, ◌>>=◌, ◌>>◌, require}
use hybridops_core.Value.{Value, null, dict, Fields, end, field, get}
use hybridops_core.Authority.Registry.{sorted}
use hybridops_core.Blueprint.References.{list_empty}
use hybridops_core.Blueprint.Policy.{as_mapping, as_non_empty_string, unknown_keys}
use hybridops_core.Blueprint.Contracts.{AuthorityEntry}

is_letter : ℕ → Bool
is_letter c = leb 97 c && leb c 122

is_digit : ℕ → Bool
is_digit c = leb 48 c && leb c 57

-- `[a-z0-9_]*`, with `-` too when `dash` is set
all_word : Bool → String → Bool
unfolding is_letter is_digit
all_word dash String.[] = true
all_word dash (String.◌∷◌ c s) =
    let rest = all_word dash s in
    (is_letter (code c) || is_digit (code c) || nat_eq (code c) 95 || dash && nat_eq (code c) 45)
    && rest

-- `^[a-z][a-z0-9_]{0,63}$`, with `-` too when `dash` is set
unfoldable pub is_word : Bool → String → Bool
unfolding all_word
is_word dash String.[] = false
is_word dash (String.◌∷◌ c s) = is_letter (code c) && leb (count s) 63 && all_word dash s

-- `AUTHORITY_REF_RE.fullmatch`
abbrev pub is_authority_ref : String → Bool
is_authority_ref s = is_word false s

-- `AUTHORITY_TOKEN_RE.fullmatch`
abbrev pub is_authority_token : String → Bool
is_authority_token s = is_word true s

-- `declaration.get(key)`, where a missing key is `None`
abbrev pub get_or_null : String → Fields → Value
get_or_null key fs = elim (get key fs) [ none ↦ null | some v ↦ v ]

abbrev config_of : Value → String → Raises Fields
config_of null name = ok end
config_of v name = as_mapping v name

-- From the tests of the two formats on.
unfoldable pub accept_entry : String → String → String → Value → Raises AuthorityEntry
unfolding is_word
accept_entry label capability provider raw_config = do
  require (is_authority_token capability) (label ++ ".capability has invalid format")
  require (is_authority_token provider) (label ++ ".provider has invalid format")
  config ← config_of raw_config (label ++ ".config")
  ok (record { capability = capability; provider = provider; config = config })

-- The body of the loop for one reference.
unfoldable pub read_declaration : String → Value → Raises AuthorityEntry
unfolding lower unknown_keys accept_entry get
read_declaration logical_ref raw =
    let label = "authorities." ++ logical_ref in
    do
      declaration ← as_mapping raw label
      let unknown = unknown_keys ("capability" ∷ "provider" ∷ "config" ∷ []) declaration
      require (list_empty unknown) (label ++ " has unknown keys: " ++ join ", " (sorted unknown))
      capability ←
          as_non_empty_string (get_or_null "capability" declaration) (label ++ ".capability")
      provider ← as_non_empty_string (get_or_null "provider" declaration) (label ++ ".provider")
      accept_entry label (lower capability) (lower provider) (get_or_null "config" declaration)

unfoldable pub read_authorities :
    Fields → List (String × AuthorityEntry) → Raises (List (String × AuthorityEntry))
unfolding read_declaration strip insert
read_authorities end out = ok out
read_authorities (field raw_ref raw authorities) out =
    let logical_ref = lower (strip raw_ref) in
    require (is_authority_ref logical_ref) "authorities keys must match ^[a-z][a-z0-9_]{0,63}$"
    >> (read_declaration logical_ref raw >>= λ entry.
        read_authorities authorities (insert logical_ref entry out))

unfoldable pub validate_authorities : Value → Raises (List (String × AuthorityEntry))
unfolding read_authorities
validate_authorities null = ok []
validate_authorities raw = as_mapping raw "authorities" >>= λ fs. read_authorities fs []
