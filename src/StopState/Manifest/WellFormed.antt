-- ===== src/StopState/Manifest/WellFormed.antt =====
-- What `_index_resources` of hyops/state/stop_state.py accepts.
use Prim.Native.String.{◌++◌}
use hybridops_core.Prelude.{
  ℕ, suc, ◌≡◌, refl, sym, ap, ◌∙◌, subst, String, Bool, true, false, List, [], ◌∷◌, contains,
  distinct, ◌==◌, ◌&&◌, not, arith, eq_iff, if_elim, if◌then◌else◌,
}
use hybridops_core.Text.{is_empty, lower}
use hybridops_core.Raises.{Raises, ok, ◌>>=◌, ◌>>◌, require, >>=-elim_ok, require-eq-ok}
use hybridops_core.Value.{Value, null, bool, int, str, opaque, seq, dict, Fields, get}
use hybridops_core.Blueprint.References.{list_empty}
use hybridops_core.StopState.Readers.{
  value_at, read_mapping_list, item_label, text_of, read_text, read_text_list,
}
use hybridops_core.StopState.Manifest.{
  Resource, resource_ids, read_cost_bearing, read_scopes, read_resource, read_resources,
  index_resources,
}

abbrev pub is_class : String → Bool
is_class retention_class = contains retention_class ("reproducible" ∷ "preserve" ∷ "retained" ∷ [])

-- The resource has its identifiers and its cost basis, its class is known, and it has something to
-- preserve if its class is preserve.
abbrev pub well_formed : Resource → Bool
well_formed r =
    not (is_empty r.logical_id)
    && not (is_empty r.provider_id)
    && not (is_empty r.cost_basis)
    && is_class r.retention_class
    && not (r.retention_class == "preserve" && list_empty r.archive_scopes)

abbrev pub all_well_formed : List Resource → Bool
all_well_formed [] = true
all_well_formed (r ∷ rs) = well_formed r && all_well_formed rs

read_text-text :
    (v : Value) (label token : String) → read_text v label ≡ ok token → is_empty token ≡ false
unfolding read_text
read_text-text v label token h =
    if_elim (is_empty (text_of v)) h (λ blank e. ground arith)
      λ some_text e. ap is_empty (sym (ok_inj e)) ∙ some_text
  where
    ok_inj : {a b : String} → ok a ≡ ok b → a ≡ b
    ok_inj p = cc

listed_scopes :
    (retention_class label : String) (raw : Raises (List String)) (scopes : List String)
    → (raw >>= λ found.
        (require
            (not (retention_class == "preserve" && list_empty found))
            (label ++ ".archive_scopes must not be empty for preserved resources")
          >> ok found))
      ≡ ok scopes
    → (retention_class == "preserve" && list_empty scopes) ≡ false
listed_scopes retention_class label raw scopes h = >>=-elim_ok raw _ h λ found e h'.
    let (fine, same) =
      require-eq-ok (not (retention_class == "preserve" && list_empty found)) _ _ h' in
    subst (λ l. (retention_class == "preserve" && list_empty l) ≡ false) (ok_inj same)
      (not_true fine)
  where
    ok_inj : {a b : List String} → ok a ≡ ok b → a ≡ b
    ok_inj p = cc

    not_true : {b : Bool} → not b ≡ true → b ≡ false
    not_true e = ground arith

read_scopes-preserved :
    (logical_id retention_class : String) (raw : Value) (label : String) (scopes : List String)
    → read_scopes logical_id retention_class raw label ≡ ok scopes
    → (retention_class == "preserve" && list_empty scopes) ≡ false
unfolding read_scopes
read_scopes-preserved logical_id retention_class null label scopes h =
    subst (λ l. (retention_class == "preserve" && list_empty l) ≡ false) (ok_inj h)
      (one_scope (retention_class == "preserve"))
  where
    ok_inj : {a b : List String} → ok a ≡ ok b → a ≡ b
    ok_inj p = cc

    one_scope : (b : Bool) → (b && list_empty (if b then logical_id ∷ [] else [])) ≡ false
    one_scope true = refl
    one_scope false = refl
read_scopes-preserved logical_id retention_class (bool b) label scopes h =
    listed_scopes retention_class label (read_text_list (bool b) (label ++ ".archive_scopes"))
      scopes h
read_scopes-preserved logical_id retention_class (int z) label scopes h =
    listed_scopes retention_class label (read_text_list (int z) (label ++ ".archive_scopes")) scopes
      h
read_scopes-preserved logical_id retention_class (str s) label scopes h =
    listed_scopes retention_class label (read_text_list (str s) (label ++ ".archive_scopes")) scopes
      h
read_scopes-preserved logical_id retention_class (opaque o) label scopes h =
    listed_scopes retention_class label (read_text_list (opaque o) (label ++ ".archive_scopes"))
      scopes h
read_scopes-preserved logical_id retention_class (seq xs) label scopes h =
    listed_scopes retention_class label (read_text_list (seq xs) (label ++ ".archive_scopes"))
      scopes h
read_scopes-preserved logical_id retention_class (dict fs) label scopes h =
    listed_scopes retention_class label (read_text_list (dict fs) (label ++ ".archive_scopes"))
      scopes h

-- The last part of a resource's reading.
abbrev resource_of :
    String → String → String → String → String → Bool → List String → Fields → Resource
resource_of logical_id provider_id state raw_class cost_basis cost_bearing scopes raw = record {
  logical_id = logical_id;
  provider_id = provider_id;
  state = lower state;
  retention_class = lower raw_class;
  cost_basis = cost_basis;
  cost_bearing = cost_bearing;
  owner = text_of (value_at "owner" raw);
  review_date = text_of (value_at "review_date" raw);
  next_action = text_of (value_at "next_action" raw);
  archive_scopes = scopes;
}

-- A resource that is read is well formed and new.
read_resource-well_formed :
    (seen : List String) (label : String) (raw : Fields) (r : Resource)
    → read_resource seen label raw ≡ ok r
    → (well_formed r ≡ true) × (contains r.logical_id seen ≡ false)
unfolding read_resource
read_resource-well_formed seen label raw r h =
    >>=-elim_ok (read_text (value_at "logical_id" raw) (label ++ ".logical_id")) _ h
      λ logical_id e1 h1.
        let (fresh, h2) = require-eq-ok (not (contains logical_id seen)) _ _ h1 in
        >>=-elim_ok (read_text (value_at "provider_id" raw) (label ++ ".provider_id")) _ h2
          λ provider_id e2 h3.
            >>=-elim_ok (read_text (value_at "state" raw) (label ++ ".state")) _ h3 λ state e3 h4.
              >>=-elim_ok (read_text (value_at "retention_class" raw) (label ++ ".retention_class"))
                _ h4
                λ raw_class e4 h5.
                  let (known, h6) = require-eq-ok (is_class (lower raw_class)) _ _ h5 in
                  >>=-elim_ok (read_text (value_at "cost_basis" raw) (label ++ ".cost_basis")) _ h6
                    λ cost_basis e5 h7.
                      >>=-elim_ok
                        (read_cost_bearing (get "cost_bearing" raw) (label ++ ".cost_bearing")) _ h7
                        λ cost_bearing e6 h8.
                          >>=-elim_ok
                            (read_scopes logical_id (lower raw_class)
                              (value_at "archive_scopes" raw) label)
                            _ h8
                            λ scopes e7 h9.
                              let made =
                                resource_of logical_id provider_id state raw_class cost_basis
                                  cost_bearing scopes raw in
                              let same : made ≡ r = ok_inj h9 in
                              let a =
                                read_text-text (value_at "logical_id" raw) (label ++ ".logical_id")
                                  logical_id e1 in
                              let b =
                                read_text-text (value_at "provider_id" raw)
                                  (label ++ ".provider_id") provider_id e2 in
                              let c =
                                read_text-text (value_at "cost_basis" raw) (label ++ ".cost_basis")
                                  cost_basis e5 in
                              let d =
                                read_scopes-preserved logical_id (lower raw_class)
                                  (value_at "archive_scopes" raw) label scopes e7 in
                              (
                                subst (λ x. well_formed x ≡ true) same (all_five a b c known d),
                                subst (λ x. contains x.logical_id seen ≡ false) same
                                    (not_true fresh),
                              )
  where
    ok_inj : {x y : Resource} → ok x ≡ ok y → x ≡ y
    ok_inj p = cc

    not_true : {b : Bool} → not b ≡ true → b ≡ false
    not_true e = ground arith

    all_five :
        {a b c k d : Bool}
        → a ≡ false
        → b ≡ false
        → c ≡ false
        → k ≡ true
        → d ≡ false
        → (not a && not b && not c && k && not d) ≡ true
    all_five ha hb hc hk hd = ground arith

-- No name of the first list is in the second.
abbrev none_of : List String → List String → Bool
none_of [] seen = true
none_of (x ∷ xs) seen = not (contains x seen) && none_of xs seen

none_of-weaken :
    (y : String) (xs seen : List String)
    → none_of xs (y ∷ seen) ≡ true
    → (none_of xs seen ≡ true) × (contains y xs ≡ false)
none_of-weaken y [] seen h = (refl, refl)
none_of-weaken y (x ∷ xs) seen h =
    let later = none_of-weaken y xs seen (ground arith) in
    (ground (arith, later.0), ground (arith, later.1, eq_iff x y, eq_iff y x))

-- What the loop over the resources gives.
record Accepted (seen : List String) (rs : List Resource) : Type 0 where
  formed : all_well_formed rs ≡ true
  single : distinct (resource_ids rs) ≡ true
  fresh : none_of (resource_ids rs) seen ≡ true

ok_inj : {x y : List Resource} → ok x ≡ ok y → x ≡ y
ok_inj p = cc

read_resources-Accepted :
    (index : ℕ) (seen : List String) (raws : List Fields) (rs : List Resource)
    → read_resources index seen raws ≡ ok rs
    → Accepted seen rs
unfolding read_resources
read_resources-Accepted index seen [] rs h =
    subst (Accepted seen) (ok_inj h) (record { formed = refl; single = refl; fresh = refl })
read_resources-Accepted index seen (raw ∷ raws) rs h =
    >>=-elim_ok (read_resource seen (item_label "environment.resources" index) raw) _ h λ r e h1.
      >>=-elim_ok (read_resources (suc index) (r.logical_id ∷ seen) raws) _ h1 λ rest e' h2.
        let this = read_resource-well_formed seen _ raw r e in
        let later = read_resources-Accepted (suc index) (r.logical_id ∷ seen) raws rest e' in
        let apart = none_of-weaken r.logical_id (resource_ids rest) seen later.fresh in
        subst (Accepted seen) (ok_inj h2) (record {
          formed = ground (arith, this.0, later.formed);
          single = ground (arith, apart.1, later.single);
          fresh = ground (arith, apart.0, this.1);
        })

some_resource :
    (raws : List Fields) (rs : List Resource)
    → not (list_empty raws) ≡ true
    → read_resources 0 [] raws ≡ ok rs
    → list_empty rs ≡ false
unfolding read_resources
some_resource [] rs h e = ground arith
some_resource (raw ∷ raws) rs h e =
    >>=-elim_ok (read_resource [] (item_label "environment.resources" 0) raw) _ e λ r e1 h1.
      >>=-elim_ok (read_resources 1 (r.logical_id ∷ []) raws) _ h1
        λ rest e2 h2. ap list_empty (sym (ok_inj h2))

-- The resources of an environment that is accepted are not none, have distinct logical ids, and each
-- has its identifiers, a cost basis and a known class, and, if it is of the class preserve, archive
-- scopes.
pub index_resources-well_formed :
    (environment : Fields) (rs : List Resource)
    → index_resources environment ≡ ok rs
    → (list_empty rs ≡ false) × (distinct (resource_ids rs) ≡ true) × (all_well_formed rs ≡ true)
unfolding index_resources
index_resources-well_formed environment rs h =
    >>=-elim_ok (read_mapping_list (value_at "resources" environment) "environment.resources") _ h
      λ raws e h1.
        let (some_raw, h2) = require-eq-ok (not (list_empty raws)) _ _ h1 in
        let accepted = read_resources-Accepted 0 [] raws rs h2 in
        (some_resource raws rs some_raw h2, accepted.single, accepted.formed)
