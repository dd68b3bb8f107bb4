-- ===== src/Blueprint/Authorities/Laws.antt =====
-- What the accepted authorities of a blueprint satisfy (hyops/blueprint/schema.py).
use hybridops_core.Prelude.{
  String, ◌≡◌, true, some, List, [], arith, refl, eq_iff, lookup, insert, lookup-insert, ◌==◌, inl,
  inr, Bool-cases, subst, sym, ◌∙◌,
}
use hybridops_core.Text.{strip, lower}
use hybridops_core.Raises.{ok, >>=-elim_ok, require-eq-ok}
use hybridops_core.Value.{Value, null, bool, int, str, opaque, seq, dict, Fields, end, field}
use hybridops_core.Blueprint.Contracts.{AuthorityEntry}
use hybridops_core.Blueprint.Policy.{as_mapping, as_non_empty_string}
use hybridops_core.Blueprint.Authorities.{
  is_authority_ref, is_authority_token, get_or_null, accept_entry, read_declaration,
  read_authorities, validate_authorities,
}

-- A binding in the format that the expressions of the schema ask for.
pub record EntryOk (ref : String) (entry : AuthorityEntry) : Type 0 where
  pub named : is_authority_ref ref ≡ true
  pub capability : is_authority_token entry.capability ≡ true
  pub provider : is_authority_token entry.provider ≡ true

accept_entry-tokens :
    (label capability provider : String) (config : Value) (entry : AuthorityEntry)
    → accept_entry label capability provider config ≡ ok entry
    → (is_authority_token entry.capability ≡ true) × (is_authority_token entry.provider ≡ true)
unfolding accept_entry
accept_entry-tokens label capability provider config entry h = ground arith

read_declaration-tokens :
    (ref : String) (raw : Value) (entry : AuthorityEntry)
    → read_declaration ref raw ≡ ok entry
    → (is_authority_token entry.capability ≡ true) × (is_authority_token entry.provider ≡ true)
unfolding read_declaration
read_declaration-tokens ref raw entry h = >>=-elim_ok (as_mapping raw _) _ h λ d _ h1.
    let (_, h2) = require-eq-ok _ _ _ h1 in
    >>=-elim_ok (as_non_empty_string (get_or_null "capability" d) _) _ h2 λ c _ h3.
      >>=-elim_ok (as_non_empty_string (get_or_null "provider" d) _) _ h3
        λ p _ h4. accept_entry-tokens _ (lower c) (lower p) (get_or_null "config" d) entry h4

-- Every binding of the list is in the format.
AllEntriesOk : List (String × AuthorityEntry) → Type 0
AllEntriesOk entries =
    (ref : String) (entry : AuthorityEntry) → lookup ref entries ≡ some entry → EntryOk ref entry

insert-AllEntriesOk :
    (key : String) (new : AuthorityEntry) (out : List (String × AuthorityEntry))
    → EntryOk key new
    → AllEntriesOk out
    → AllEntriesOk (insert key new out)
unfolding AllEntriesOk
insert-AllEntriesOk key new out ok_new all ref entry h = elim (Bool-cases (key == ref)) [
  | inl e ↦
      subst (λ k. EntryOk k entry) ((eq_iff key ref).0 e)
        (subst (λ v. EntryOk key v) (some_inj (sym (lookup-insert key ref new out ∙ rw e refl) ∙ h))
          ok_new)
  | inr n ↦ all ref entry (sym (lookup-insert key ref new out ∙ rw n refl) ∙ h)
]
  where
    some_inj : {a b : AuthorityEntry} → some a ≡ some b → a ≡ b
    some_inj p = cc

read_authorities-AllEntriesOk :
    (fs : Fields) (out entries : List (String × AuthorityEntry))
    → AllEntriesOk out
    → read_authorities fs out ≡ ok entries
    → AllEntriesOk entries
unfolding read_authorities
read_authorities-AllEntriesOk end out entries all h = subst AllEntriesOk (ok_inj h) all
  where
    ok_inj : {a b : List (String × AuthorityEntry)} → ok a ≡ ok b → a ≡ b
    ok_inj p = cc
read_authorities-AllEntriesOk (field raw_ref raw fs) out entries all h =
    let (named, h1) = require-eq-ok (is_authority_ref (lower (strip raw_ref))) _ _ h in
    >>=-elim_ok (read_declaration (lower (strip raw_ref)) raw) _ h1 λ entry he h2.
      let t = read_declaration-tokens (lower (strip raw_ref)) raw entry he in
      read_authorities-AllEntriesOk fs _ entries
        (insert-AllEntriesOk _ entry out
          (record { named = named; capability = t.0; provider = t.1 }) all)
        h2

validated :
    (raw : Value) (entries : List (String × AuthorityEntry))
    → validate_authorities raw ≡ ok entries
    → AllEntriesOk entries
unfolding validate_authorities AllEntriesOk lookup
validated null entries h = λ ref entry found. ground arith
validated (dict fs) entries h =
    read_authorities-AllEntriesOk fs [] entries (λ ref entry found. ground arith) h
validated (bool b) entries h = ground arith
validated (int z) entries h = ground arith
validated (str s) entries h = ground arith
validated (opaque o) entries h = ground arith
validated (seq xs) entries h = ground arith

-- Every binding that `validate_authorities` returns has a reference, a capability and a provider in
-- their formats.
pub validate_authorities-EntryOk :
    (raw : Value) (entries : List (String × AuthorityEntry)) (ref : String) (entry : AuthorityEntry)
    → validate_authorities raw ≡ ok entries
    → lookup ref entries ≡ some entry
    → EntryOk ref entry
unfolding AllEntriesOk
validate_authorities-EntryOk raw entries ref entry h found = validated raw entries h ref entry found
