-- ===== src/State/Store/Laws.antt =====
-- What a write of a module state (hyops/runtime/module_state.py) does to later reads.
use hybridops_core.Prelude.{
  String, true, false, some, List, [], ◌∷◌, lookup, insert, lookup-insert, Option-cases, is_some,
  contains, ◌≡◌, refl, sym, ap, ◌∙◌, Bool-cases, inl, inr, arith, eq_iff, eq_refl, ◌==◌,
}
use hybridops_core.Text.{is_empty}
use hybridops_core.Raises.{ok, >>=-elim_ok}
use hybridops_core.Value.{Fields, dict}
use hybridops_core.State.Refs.{split_module_state_ref, module_id_from_ref}
use hybridops_core.State.Store.{
  File, json, Disk, loaded, candidate_module_state_paths, module_state_path, first_existing,
  read_candidates, read_module_state, write_module_state, candidate_files, aliases_of, file_of,
  state_ref_aliases,
}

candidate_paths-split :
    (module_ref instance_name : String) (parts : String × String)
    → split_module_state_ref module_ref instance_name ≡ ok parts
    → candidate_module_state_paths module_ref instance_name
      ≡ ok (candidate_files parts.1 (parts.0 ∷ aliases_of parts.0 (state_ref_aliases parts.0)))
unfolding candidate_module_state_paths
candidate_paths-split module_ref instance_name parts e = rw (e, candidate_module_state_paths)

candidate_files-named :
    (ref instance_name : String) (refs : List String)
    → is_empty (module_id_from_ref ref) ≡ false
    → candidate_files instance_name (ref ∷ refs)
      ≡ file_of (module_id_from_ref ref) instance_name ∷ candidate_files instance_name refs
unfolding candidate_files
candidate_files-named ref instance_name refs e = ground arith

-- The path that a write uses is the first that a read looks at.
pub candidate_paths-path :
    (module_ref instance_name path : String)
    → module_state_path module_ref instance_name ≡ ok path
    → (rest : List String) × (candidate_module_state_paths module_ref instance_name
        ≡ ok (path ∷ rest))
unfolding module_state_path
candidate_paths-path module_ref instance_name path h =
    >>=-elim_ok (split_module_state_ref module_ref instance_name) _ h λ parts e h'.
      elim (Bool-cases (is_empty (module_id_from_ref parts.0))) [
        | inl missing ↦ ground arith
        | inr named ↦
            let aliases = aliases_of parts.0 (state_ref_aliases parts.0) in
            let at = file_of (module_id_from_ref parts.0) parts.1 in
            let chosen : at ≡ path = ground arith in
            (
              candidate_files parts.1 aliases,
              candidate_paths-split module_ref instance_name parts e
                  ∙ ap ok (
                      candidate_files-named parts.0 parts.1 aliases named
                      ∙ ap (λ p. p ∷ candidate_files parts.1 aliases) chosen),
            )
      ]

-- A write that succeeds puts the payload at the path of its reference.
pub write_module_state-files :
    (module_ref instance_name : String) (payload : Fields) (disk after : Disk)
    → write_module_state module_ref payload instance_name disk ≡ ok after
    → (path : String) × (module_state_path module_ref instance_name ≡ ok path)
      × (after.files ≡ insert path (json (dict payload)) disk.files)
unfolding write_module_state
write_module_state-files module_ref instance_name payload disk after h =
    >>=-elim_ok (module_state_path module_ref instance_name) _ h λ path e h'.
      elim (Bool-cases (is_empty (disk.refuses path payload))) [
        | inl accepted ↦ (path, e, ground arith)
        | inr refused ↦ ground arith
      ]

first_existing-here :
    (files : List (String × File)) (path : String) (rest : List String)
    → is_some (lookup path files) ≡ true
    → first_existing files (path ∷ rest) ≡ some path
unfolding first_existing
first_existing-here files path rest h = ground arith

lookup-insert_same :
    {A : Type 0} (key : String) (new : A) (entries : List (String × A))
    → lookup key (insert key new entries) ≡ some new
lookup-insert_same key new entries = ground (arith, lookup-insert key key new entries, eq_refl key)

lookup-insert_other :
    {A : Type 0} (key other : String) (new : A) (entries : List (String × A))
    → (key == other) ≡ false
    → lookup other (insert key new entries) ≡ lookup other entries
lookup-insert_other key other new entries h = ground (arith, lookup-insert key other new entries)

read_candidates-here :
    (files : List (String × File)) (path : String) (rest : List String) (payload : Fields)
    → lookup path files ≡ some (json (dict payload))
    → read_candidates files path (path ∷ rest) ≡ loaded payload
unfolding read_candidates
read_candidates-here files path rest payload h =
    ground (arith, first_existing-here files path rest (ground arith))

read_module_state-candidates :
    (disk : Disk) (module_ref instance_name path : String) (rest : List String)
    → candidate_module_state_paths module_ref instance_name ≡ ok (path ∷ rest)
    → read_module_state disk module_ref instance_name
      ≡ read_candidates disk.files path (path ∷ rest)
unfolding read_module_state
read_module_state-candidates disk module_ref instance_name path rest h = rw (h, read_module_state)

-- A read of the reference that was written gives the payload.
pub read_module_state-write_module_state :
    (module_ref instance_name : String) (payload : Fields) (disk after : Disk)
    → write_module_state module_ref payload instance_name disk ≡ ok after
    → read_module_state after module_ref instance_name ≡ loaded payload
read_module_state-write_module_state module_ref instance_name payload disk after h =
    let (path, at, written) =
      write_module_state-files module_ref instance_name payload disk after h in
    let (rest, candidates) = candidate_paths-path module_ref instance_name path at in
    let here = lookup-insert_same path (json (dict payload)) disk.files in
    read_module_state-candidates after module_ref instance_name path rest candidates
    ∙ read_candidates-here after.files path rest payload (ap (lookup path) written ∙ here)

first_existing-insert :
    (path : String) (file : File) (files : List (String × File)) (candidates : List String)
    → contains path candidates ≡ false
    → first_existing (insert path file files) candidates ≡ first_existing files candidates
unfolding first_existing
first_existing-insert path file files [] h = refl
first_existing-insert path file files (c ∷ cs) h =
    let later = first_existing-insert path file files cs (ground arith) in
    let other = lookup-insert_other path c file files (ground arith) in rw (other, later)

first_existing-contains :
    (files : List (String × File)) (candidates : List String) (path : String)
    → first_existing files candidates ≡ some path
    → contains path candidates ≡ true
unfolding first_existing
first_existing-contains files [] path h = ground arith
first_existing-contains files (c ∷ cs) path h = elim (Bool-cases (is_some (lookup c files))) [
  | inl exists ↦ let same : c ≡ path = ground arith in ground (arith, eq_iff path c)
  | inr not_there ↦ ground (arith, first_existing-contains files cs path (ground arith))
]

contains_apart :
    (x y : String) (xs : List String)
    → contains x xs ≡ false
    → contains y xs ≡ true
    → (x == y) ≡ false
contains_apart x y [] a b = ground arith
contains_apart x y (z ∷ xs) a b = elim (Bool-cases (y == z)) [
  | inl e ↦ ground (arith, eq_iff x y, eq_iff y z, eq_iff x z)
  | inr e ↦ contains_apart x y xs (ground arith) (ground arith)
]

read_candidates-insert :
    (path first : String) (file : File) (files : List (String × File)) (candidates : List String)
    → contains path candidates ≡ false
    → read_candidates (insert path file files) first candidates
      ≡ read_candidates files first candidates
unfolding read_candidates
read_candidates-insert path first file files candidates h =
    let same = first_existing-insert path file files candidates h in
    elim (Option-cases (first_existing files candidates)) [
      | inl e ↦ ground arith
      | inr (p, e) ↦
          let present = first_existing-contains files candidates p e in
          let apart : (path == p) ≡ false = contains_apart path p candidates h present in
          let other = lookup-insert_other path p file files apart in ground arith
    ]

-- A write leaves a read of another reference as it was, when none of the files that the read looks
-- at is the file that was written.
pub read_module_state-write_module_state_other :
    (written_ref written_instance path : String) (payload : Fields) (disk after : Disk)
    (read_ref read_instance first : String) (rest : List String)
    → write_module_state written_ref payload written_instance disk ≡ ok after
    → module_state_path written_ref written_instance ≡ ok path
    → candidate_module_state_paths read_ref read_instance ≡ ok (first ∷ rest)
    → contains path (first ∷ rest) ≡ false
    → read_module_state after read_ref read_instance ≡ read_module_state disk read_ref read_instance
read_module_state-write_module_state_other written_ref written_instance path payload disk after
      read_ref read_instance first rest h at candidates apart =
    let (used, at', written) =
      write_module_state-files written_ref written_instance payload disk after h in
    let same : used ≡ path = ok_inj (sym at' ∙ at) in
    let kept =
      read_candidates-insert path first (json (dict payload)) disk.files (first ∷ rest) apart in
    let files : after.files ≡ insert path (json (dict payload)) disk.files =
      written ∙ ap (λ p. insert p (json (dict payload)) disk.files) same in
    read_module_state-candidates after read_ref read_instance first rest candidates
    ∙ ap (λ fs. read_candidates fs first (first ∷ rest)) files
    ∙ kept
    ∙ sym (read_module_state-candidates disk read_ref read_instance first rest candidates)
  where
    ok_inj : {a b : String} → ok a ≡ ok b → a ≡ b
    ok_inj p = cc
