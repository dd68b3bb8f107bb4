-- ===== src/Blueprint/Contracts/Binding/Chosen.antt =====
-- The session that the contracts of a step open (hyops/blueprint/contracts.py) has the authority that
-- the step requires.
use hybridops_core.Prelude.{
  String, ◌≡◌, ◌≢◌, refl, sym, ap, ◌∙◌, false, Option, none, some, List, [], ◌∷◌, lookup, insert,
  lookup-insert, ◌==◌, ◌||◌, not, if_elim, eq_iff, arith, Bool-cases, inl, inr,
}
use hybridops_core.Text.{is_empty, strip, lower, or_text}
use hybridops_core.Raises.{ok}
use hybridops_core.Authority.Models.{AuthorityDeclaration, AuthorityRequirement, AuthoritySession}
use hybridops_core.Authority.Admission.{Declarations}
use hybridops_core.Blueprint.Step.{AuthorityRef, named, bound}
use hybridops_core.Blueprint.Policy.{Policy}
use hybridops_core.Blueprint.Contracts.{
  AuthorityEntry, legacy_authority_contract, declare, requirement_of, bind_authority,
}
use hybridops_core.Blueprint.Contracts.Binding.{
  own_requirement, own_declaration, netbox_requirement, netbox_declaration, Uses, Binds, by_name,
  by_capability, by_netbox, Carries,
}

-- An entry of the blueprint's authorities behind a declaration.
record Entry (authorities : List (String × AuthorityEntry)) (ref : String)
    (declaration : AuthorityDeclaration) : Type 0 where
  entry : AuthorityEntry
  found : lookup ref authorities ≡ some entry
  same : declaration ≡ own_declaration ref entry

lookup-declare :
    (authorities : List (String × AuthorityEntry)) (ref : String) (d : AuthorityDeclaration)
    → lookup ref (declare authorities) ≡ some d
    → Entry authorities ref d
unfolding declare lookup
lookup-declare [] ref d h = absurd (ground arith)
lookup-declare ((name, entry) ∷ authorities) ref d h = elim (Bool-cases (name == ref)) [
  | inl here ↦
      let key : name ≡ ref = ground (arith, eq_iff name ref) in
      record {
        entry = entry;
        found = rw here;
        same = sym (some_inj (rw here at h)) ∙ ap (λ r. own_declaration r entry) key;
      }
  | inr later ↦
      let rest = lookup-declare authorities ref d (rw later at h) in
      record { entry = rest.entry; found = rw later rest.found; same = rest.same }
]
  where
    some_inj : {a b : AuthorityDeclaration} → some a ≡ some b → a ≡ b
    some_inj p = cc

module _ (policy : Policy) (authorities : List (String × AuthorityEntry))
    (session : AuthoritySession) where
  record Own (ref capability : String) : Type 0 where
    entry : AuthorityEntry
    found : lookup ref authorities ≡ some entry
    capable : entry.capability ≡ capability
    uses : Uses session (own_requirement ref entry) (own_declaration ref entry)

  own :
      (ref capability : String)
      → session.requirement
        ≡ record { logical_ref = ref; capability = capability; compatibility = false }
      → lookup ref (declare authorities) ≡ some session.declaration
      → session.declaration.capability ≡ capability
      → Own ref capability
  own ref capability required declared capable =
      let e = lookup-declare authorities ref session.declaration declared in
      let same : e.entry.capability ≡ capability = sym (ap (λ d. d.capability) e.same) ∙ capable in
      record {
        entry = e.entry;
        found = e.found;
        capable = same;
        uses = record {
          required = required ∙ ap (requirement_with ref) (sym same);
          declared = e.same;
        };
      }
    where
      requirement_with : String → String → AuthorityRequirement
      requirement_with r c = record { logical_ref = r; capability = c; compatibility = false }

  entry_of_ref :
      (ref capability : String) (requirement : AuthorityRequirement) (declarations : Declarations)
      → Carries session requirement declarations
      → record { logical_ref = ref; capability = capability; compatibility = false } ≡ requirement
      → declare authorities ≡ declarations
      → Own ref capability
  entry_of_ref ref capability requirement declarations b r d =
      own ref capability (b.required ∙ sym r)
        (ap (lookup ref) d ∙ ap (λ q. lookup q.logical_ref declarations) r ∙ b.declared)
        (b.capable ∙ ap (λ q. q.capability) (sym r))

  older_form :
      (requirement : AuthorityRequirement) (declarations : Declarations)
      → Carries session requirement declarations
      → netbox_requirement ≡ requirement
      → insert "legacy_netbox" (netbox_declaration policy) (declare authorities) ≡ declarations
      → Uses session netbox_requirement (netbox_declaration policy)
  older_form requirement declarations b r d =
      let there =
        lookup-insert "legacy_netbox" "legacy_netbox" (netbox_declaration policy)
          (declare authorities) in
      record {
        required = b.required ∙ sym r;
        declared = some_inj (
            sym b.declared
            ∙ ap (λ q. lookup q.logical_ref declarations) (sym r)
            ∙ ap (lookup "legacy_netbox") (sym d)
            ∙ there);
      }
    where
      some_inj : {a b : AuthorityDeclaration} → some a ≡ some b → a ≡ b
      some_inj p = cc

  by_name_form :
      (name : String) (requirement : AuthorityRequirement) (declarations : Declarations)
      → Carries session requirement declarations
      → lower (strip name) ≢ "netbox"
      → requirement_of (named name) (declare authorities) ≡ some requirement
      → declare authorities ≡ declarations
      → Binds policy authorities (named name) session
  unfolding requirement_of
  by_name_form name requirement declarations b own_name r d =
      let ref = lower (strip (or_text name "none")) in
      if_elim (is_empty ref || ref == "none") r (λ nothing absent. absurd (ground arith))
        λ something present.
          let o = entry_of_ref ref _ requirement declarations b (some_inj present) d in
          by_name name o.entry refl own_name o.found o.uses
    where
      some_inj : {x y : AuthorityRequirement} → some x ≡ some y → x ≡ y
      some_inj p = cc

  -- The session of a step's contracts has the authority that the step requires.
  pub Carries-Binds :
      (raw : AuthorityRef) (legacy : Option (AuthorityRequirement × AuthorityDeclaration))
      (requirement : AuthorityRequirement) (declarations : Declarations)
      → legacy_authority_contract raw policy ≡ ok legacy
      → bind_authority legacy raw (declare authorities) ≡ (some requirement, declarations)
      → Carries session requirement declarations
      → Binds policy authorities raw session
  unfolding legacy_authority_contract bind_authority requirement_of
  Carries-Binds (bound ref capability) legacy requirement declarations lawful e b =
      let none_legacy : none ≡ legacy = ok_inj lawful in
      let e' : bind_authority none (bound ref capability) (declare authorities)
          ≡ (some requirement, declarations) =
        ap (λ l. bind_authority l (bound ref capability) (declare authorities)) none_legacy ∙ e in
      let o =
        entry_of_ref (lower (strip ref)) (lower (strip capability)) requirement declarations b
          (some_inj (ap (λ p. p.0) e')) (ap (λ p. p.1) e') in
      by_capability ref capability o.entry refl o.found o.capable o.uses
    where
      ok_inj : {x y : Option (AuthorityRequirement × AuthorityDeclaration)} → ok x ≡ ok y → x ≡ y
      ok_inj p = cc

      some_inj : {x y : AuthorityRequirement} → some x ≡ some y → x ≡ y
      some_inj p = cc
  Carries-Binds (named name) legacy requirement declarations lawful e b =
      if_elim (not (lower (strip name) == "netbox")) lawful
        (λ own_name h.
          let e' : bind_authority none (named name) (declare authorities)
              ≡ (some requirement, declarations) =
            ap (λ l. bind_authority l (named name) (declare authorities)) (ok_inj h) ∙ e in
          by_name_form name requirement declarations b
            (ground (arith, eq_iff (lower (strip name)) "netbox")) (ap (λ p. p.0) e')
            (ap (λ p. p.1) e'))
        λ older h1.
          if_elim (not (lower (strip (or_text policy.ipam_authority "none")) == "netbox")) h1
            (λ elsewhere h2. absurd (ground arith))
            λ netbox h2.
              let e' : bind_authority (some (netbox_requirement, netbox_declaration policy))
                    (named name) (declare authorities)
                  ≡ (some requirement, declarations) =
                ap (λ l. bind_authority l (named name) (declare authorities)) (ok_inj h2) ∙ e in
              by_netbox name refl (ground (arith, eq_iff (lower (strip name)) "netbox"))
                (ground
                  (arith, eq_iff (lower (strip (or_text policy.ipam_authority "none"))) "netbox"))
                (older_form requirement declarations b (some_inj (ap (λ p. p.0) e'))
                  (ap (λ p. p.1) e'))
    where
      ok_inj : {x y : Option (AuthorityRequirement × AuthorityDeclaration)} → ok x ≡ ok y → x ≡ y
      ok_inj p = cc

      some_inj : {x y : AuthorityRequirement} → some x ≡ some y → x ≡ y
      some_inj p = cc
