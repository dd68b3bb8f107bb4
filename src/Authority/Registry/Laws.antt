-- ===== src/Authority/Registry/Laws.antt =====
-- What registration (hyops/authority/registry.py) keeps and adds.
use Prim.Native.String.{◌++◌}
use hybridops_core.Prelude.{
  String, ◌≡◌, false, none, some, arith, lookup, insert, lookup-insert, eq_iff, eq_refl,
}
use hybridops_core.Text.{is_empty}
use hybridops_core.Raises.{ok, value_error}
use hybridops_core.Authority.Provider.{AuthorityProvider}
use hybridops_core.Authority.Registry.{Registry, normalize, register, resolve}

-- What a registration that returns has tested, and what it did.
registered :
    (p : AuthorityProvider) (registry : Registry) {next : Registry}
    → register p registry ≡ ok next
    → (is_empty (normalize p.name) ≡ false)
      × (lookup (normalize p.name) registry ≡ none)
      × (next ≡ insert (normalize p.name) p registry)
unfolding register
registered p registry h = ground arith

resolve_of_lookup :
    (registry : Registry) (name : String) {p : AuthorityProvider}
    → lookup (normalize name) registry ≡ some p
    → resolve registry name ≡ ok p
unfolding resolve
resolve_of_lookup registry name h = ground arith

lookup_of_resolve :
    (registry : Registry) (name : String) {p : AuthorityProvider}
    → resolve registry name ≡ ok p
    → lookup (normalize name) registry ≡ some p
unfolding resolve
lookup_of_resolve registry name h = ground arith

module _ (p : AuthorityProvider) (registry : Registry) {next : Registry}
    (h : register p registry ≡ ok next) where
  -- After a registration the provider is found under its name, however that is spelled in case and
  -- in surrounding white space.
  pub resolve-register :
      (name : String) → normalize name ≡ normalize p.name → resolve next name ≡ ok p
  resolve-register name e =
      let (_, _, now) = registered p registry h in
      resolve_of_lookup next name (rw now (rw e (rw lookup-insert (rw eq_refl))))

  -- A registration loses no provider: a name that was found before is found with the same provider.
  pub resolve-register_kept :
      (name : String) {q : AuthorityProvider}
      → resolve registry name ≡ ok q
      → resolve next name ≡ ok q
  resolve-register_kept name {q} old =
      let (_, new, now) = registered p registry h in
      let found = lookup_of_resolve registry name old in
      resolve_of_lookup next name
        (rw now (rw lookup-insert (ground (arith, eq_iff (normalize p.name) (normalize name)))))

  -- A second registration under the same name is refused, and says under which name.
  pub register_once :
      (q : AuthorityProvider)
      → normalize q.name ≡ normalize p.name
      → register q next
        ≡ value_error ("authority provider already registered: " ++ normalize p.name)
  unfolding register
  register_once q e =
      let (named, _, now) = registered p registry h in
      rw (e, named, now) (rw lookup-insert (rw eq_refl))
