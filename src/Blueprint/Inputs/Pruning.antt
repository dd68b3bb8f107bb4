-- ===== src/Blueprint/Inputs/Pruning.antt =====
-- What the pruning of empty inputs (hyops/blueprint/contracts.py) takes away and what it leaves.
use hybridops_core.Prelude.{
  String, ◌≡◌, Bool, true, false, List, [], ◌∷◌, ◌++◌, refl, ◌&&◌, not, if◌then◌else◌, inl, inr,
  Bool-cases, arith,
}
use hybridops_core.Value.{
  Value, null, bool, int, str, opaque, seq, dict, Items, nil, cons, Fields, end, field,
}
use hybridops_core.Blueprint.Inputs.{prune, prune_fields, prune_items}
use hybridops_core.Blueprint.Inputs.Blank.{blank, blank_fields, blank_items, is_dropped-prune}

-- No entry of a dict or a list, at any depth, is blank.
unfoldable mutual
  unfolding blank

  pub clean : Value → Bool
  clean (dict fs) = clean_fields fs
  clean (seq xs) = clean_items xs
  clean _ = true

  pub clean_fields : Fields → Bool
  clean_fields end = true
  clean_fields (field name v fs) = (not (blank v) && clean v) && clean_fields fs

  pub clean_items : Items → Bool
  clean_items nil = true
  clean_items (cons v xs) = (not (blank v) && clean v) && clean_items xs

-- A step into a dict or into a list.
pub data Turn : Type 0 where
  under : String → Turn
  among : Turn

-- What is no dict and no list, in order, each with the steps to it, the last one first.
unfoldable mutual
  pub leaves : List Turn → Value → List (List Turn × Value)
  leaves way (dict fs) = leaves_fields way fs
  leaves way (seq xs) = leaves_items way xs
  leaves way v = (way, v) ∷ []

  pub leaves_fields : List Turn → Fields → List (List Turn × Value)
  leaves_fields way end = []
  leaves_fields way (field name v fs) = leaves (under name ∷ way) v ++ leaves_fields way fs

  pub leaves_items : List Turn → Items → List (List Turn × Value)
  leaves_items way nil = []
  leaves_items way (cons v xs) = leaves (among ∷ way) v ++ leaves_items way xs

-- Those that are not blank.
unfoldable pub filled : List (List Turn × Value) → List (List Turn × Value)
unfolding blank
filled [] = []
filled ((way, v) ∷ rest) = if blank v then filled rest else (way, v) ∷ filled rest

filled-++ : (xs ys : List (List Turn × Value)) → filled (xs ++ ys) ≡ filled xs ++ filled ys
unfolding filled
filled-++ [] ys = refl
filled-++ ((way, v) ∷ xs) ys = elim (Bool-cases (blank v)) [
  | inl e ↦ rw e (filled-++ xs ys)
  | inr e ↦ rw (e, filled-++ xs ys) refl
]

-- A blank value has no leaf that is not blank.
mutual
  unfolding blank leaves filled

  blank-unfilled : (way : List Turn) (v : Value) → blank v ≡ true → filled (leaves way v) ≡ []
  blank-unfilled way null h = refl
  blank-unfilled way (str s) h = rw h refl
  blank-unfilled way (dict fs) h = blank_fields-unfilled way fs h
  blank-unfilled way (seq xs) h = blank_items-unfilled way xs h
  blank-unfilled way (bool b) h = ground arith
  blank-unfilled way (int z) h = ground arith
  blank-unfilled way (opaque o) h = ground arith

  blank_fields-unfilled :
      (way : List Turn) (fs : Fields) → blank_fields fs ≡ true → filled (leaves_fields way fs) ≡ []
  blank_fields-unfilled way end h = refl
  blank_fields-unfilled way (field name v fs) h =
      let here = blank-unfilled (under name ∷ way) v (ground arith) in
      let later = blank_fields-unfilled way fs (ground arith) in
      rw (filled-++ (leaves (under name ∷ way) v) (leaves_fields way fs), here) later

  blank_items-unfilled :
      (way : List Turn) (xs : Items) → blank_items xs ≡ true → filled (leaves_items way xs) ≡ []
  blank_items-unfilled way nil h = refl
  blank_items-unfilled way (cons v xs) h =
      let here = blank-unfilled (among ∷ way) v (ground arith) in
      let later = blank_items-unfilled way xs (ground arith) in
      rw (filled-++ (leaves (among ∷ way) v) (leaves_items way xs), here) later

-- A value that is not blank keeps its leaves that are not blank.
mutual
  unfolding blank leaves filled prune

  leaves-prune :
      (way : List Turn) (v : Value) → blank v ≡ false → leaves way (prune v) ≡ filled (leaves way v)
  leaves-prune way null h = ground arith
  leaves-prune way (str s) h = rw h refl
  leaves-prune way (dict fs) h = leaves_fields-prune_fields way fs
  leaves-prune way (seq xs) h = leaves_items-prune_items way xs
  leaves-prune way (bool b) h = refl
  leaves-prune way (int z) h = refl
  leaves-prune way (opaque o) h = refl

  leaves_fields-prune_fields :
      (way : List Turn) (fs : Fields)
      → leaves_fields way (prune_fields fs) ≡ filled (leaves_fields way fs)
  leaves_fields-prune_fields way end = refl
  leaves_fields-prune_fields way (field name v fs) =
      let here = leaves (under name ∷ way) v in
      let rest = leaves_fields-prune_fields way fs in
      elim (Bool-cases (blank v)) [
        | inl e ↦
            rw
              (
                is_dropped-prune v,
                e,
                filled-++ here (leaves_fields way fs),
                blank-unfilled (under name ∷ way) v e,
              )
              rest
        | inr e ↦
            rw
              (
                is_dropped-prune v,
                e,
                filled-++ here (leaves_fields way fs),
                leaves-prune (under name ∷ way) v e,
                rest,
              )
              refl
      ]

  leaves_items-prune_items :
      (way : List Turn) (xs : Items)
      → leaves_items way (prune_items xs) ≡ filled (leaves_items way xs)
  leaves_items-prune_items way nil = refl
  leaves_items-prune_items way (cons v xs) =
      let here = leaves (among ∷ way) v in
      let rest = leaves_items-prune_items way xs in
      elim (Bool-cases (blank v)) [
        | inl e ↦
            rw
              (
                is_dropped-prune v,
                e,
                filled-++ here (leaves_items way xs),
                blank-unfilled (among ∷ way) v e,
              )
              rest
        | inr e ↦
            rw
              (
                is_dropped-prune v,
                e,
                filled-++ here (leaves_items way xs),
                leaves-prune (among ∷ way) v e,
                rest,
              )
              refl
      ]

-- Pruning twice drops nothing more.
mutual
  unfolding blank prune

  blank-prune : (v : Value) → blank (prune v) ≡ blank v
  blank-prune null = refl
  blank-prune (str s) = refl
  blank-prune (dict fs) = blank_fields-prune_fields fs
  blank-prune (seq xs) = blank_items-prune_items xs
  blank-prune (bool b) = refl
  blank-prune (int z) = refl
  blank-prune (opaque o) = refl

  blank_fields-prune_fields : (fs : Fields) → blank_fields (prune_fields fs) ≡ blank_fields fs
  blank_fields-prune_fields end = refl
  blank_fields-prune_fields (field name v fs) = elim (Bool-cases (blank v)) [
    | inl e ↦ rw (is_dropped-prune v, e) (blank_fields-prune_fields fs)
    | inr e ↦ rw (is_dropped-prune v, e, blank-prune v, e) refl
  ]

  blank_items-prune_items : (xs : Items) → blank_items (prune_items xs) ≡ blank_items xs
  blank_items-prune_items nil = refl
  blank_items-prune_items (cons v xs) = elim (Bool-cases (blank v)) [
    | inl e ↦ rw (is_dropped-prune v, e) (blank_items-prune_items xs)
    | inr e ↦ rw (is_dropped-prune v, e, blank-prune v, e) refl
  ]

mutual
  unfolding prune clean

  clean-prune : (v : Value) → clean (prune v) ≡ true
  clean-prune null = refl
  clean-prune (str s) = refl
  clean-prune (dict fs) = clean_fields-prune_fields fs
  clean-prune (seq xs) = clean_items-prune_items xs
  clean-prune (bool b) = refl
  clean-prune (int z) = refl
  clean-prune (opaque o) = refl

  clean_fields-prune_fields : (fs : Fields) → clean_fields (prune_fields fs) ≡ true
  clean_fields-prune_fields end = refl
  clean_fields-prune_fields (field name v fs) = elim (Bool-cases (blank v)) [
    | inl e ↦ rw (is_dropped-prune v, e) (clean_fields-prune_fields fs)
    | inr e ↦
        rw (is_dropped-prune v, e, blank-prune v, e, clean-prune v) (clean_fields-prune_fields fs)
  ]

  clean_items-prune_items : (xs : Items) → clean_items (prune_items xs) ≡ true
  clean_items-prune_items nil = refl
  clean_items-prune_items (cons v xs) = elim (Bool-cases (blank v)) [
    | inl e ↦ rw (is_dropped-prune v, e) (clean_items-prune_items xs)
    | inr e ↦
        rw (is_dropped-prune v, e, blank-prune v, e, clean-prune v) (clean_items-prune_items xs)
  ]

-- After the pruning of a dict no entry of it, nor of the dicts and lists in it, is null, a blank
-- text, or without an entry that is not such; and its leaves, which are the values that are no dict
-- and no list, with the keys and lists that lead to them, are in order those of the dict that are
-- neither null nor a blank text.
pub prune_fields_lem :
    (fs : Fields)
    → (clean_fields (prune_fields fs) ≡ true)
      × (leaves_fields [] (prune_fields fs) ≡ filled (leaves_fields [] fs))
prune_fields_lem fs = (clean_fields-prune_fields fs, leaves_fields-prune_fields [] fs)
