-- ===== src/Authority/Registry.antt =====
-- hyops/authority/registry.py: providers by name. The registry is the dict of its providers.
pub mod Laws
use Prim.Native.String.{◌++◌}
use text.Mathlib.Text.{is_lt}
use hybridops_core.Prelude.{
  String, none, some, List, [], ◌∷◌, map, if◌then◌else◌, lookup, insert, is_some,
}
use hybridops_core.Text.{is_empty, strip, lower, join, or_text}
use hybridops_core.Raises.{Raises, ok, value_error, ◌>>=◌}
use hybridops_core.Authority.Provider.{AuthorityProvider}

abbrev pub Registry : Type 0
Registry = List (String × AuthorityProvider)

-- `str(name or "").strip().lower()`
unfoldable pub normalize : String → String
unfolding strip lower
normalize name = lower (strip name)

insert_sorted : String → List String → List String
insert_sorted x [] = x ∷ []
insert_sorted x (y ∷ ys) =
    if is_lt (Prim.Native.String.compare y x) then y ∷ insert_sorted x ys else x ∷ y ∷ ys

-- `sorted(names)`
unfoldable pub sorted : List String → List String
unfolding insert_sorted
sorted [] = []
sorted (x ∷ xs) = insert_sorted x (sorted xs)

-- `tuple(sorted(self._providers))`
unfoldable pub names : Registry → List String
unfolding sorted
names registry = sorted (map (λ entry. entry.0) registry)

-- The registry after `register`, or the error that it raises.
unfoldable pub register : AuthorityProvider → Registry → Raises Registry
unfolding normalize lookup insert
register provider registry =
    let name = normalize provider.name in
    if is_empty name
    then value_error "authority provider name is required"
    else if is_some (lookup name registry)
    then value_error ("authority provider already registered: " ++ name)
    else ok (insert name provider registry)

unfoldable pub resolve : Registry → String → Raises AuthorityProvider
unfolding normalize lookup names join
resolve registry name =
    let token = normalize name in
    elim (lookup token registry) [
      | some provider ↦ ok provider
      | none ↦ value_error (
          "unknown authority provider '"
          ++ or_text token "<empty>"
          ++ "' (registered: "
          ++ or_text (join ", " (names registry)) "none"
          ++ ")")
    ]

-- `default_authority_registry` of hyops/authority/resolver.py, without its cache. The three providers
-- of the runtime are arguments.
unfoldable pub default_authority_registry :
    AuthorityProvider → AuthorityProvider → AuthorityProvider → Raises Registry
unfolding register
default_authority_registry netbox nautobot kubernetes = do
  one ← register netbox []
  two ← register nautobot one
  register kubernetes two
