-- ===== src/Blueprint/Destroy/Accounts.antt =====
-- Every result of a destroy run (hyops/blueprint/command.py) is accounted for: it is settled, or it
-- stands for a failure or the cancellation, or it waits for its parent.
pub mod Kept
pub mod Preserved
pub mod Outcome
pub mod Closed
use hybridops_core.Prelude.{
  ℕ, zero, suc, ◌+◌, ◌≤◌, ◌≡◌, subst, refl, String, Bool, true, false, List, [], ◌∷◌, contains,
  length, lookup, insert, snoc, ◌&&◌, ◌||◌, not, nat_eq, ◌==◌, eq_iff, arith, Bool-cases, inl, inr,
}
use hybridops_core.Blueprint.Destroy.Children.{
  DestroyResult, Child, update_at, children_of, without_parent,
}

-- The step ended well: it failed only if it is optional.
unfoldable pub is_settled : DestroyResult → Bool
is_settled r =
    contains r.status ("ok" ∷ "skipped" ∷ "retained" ∷ "subsumed" ∷ [])
    || r.status == "failed-optional" && r.optional

abbrev pub is_deferred : DestroyResult → Bool
is_deferred r = r.status == "deferred"

-- `failing` says that a required failure is noted, and `waits` which positions wait.
unfoldable pub is_accounted : Bool → Bool → Bool → DestroyResult → Bool
unfolding is_settled
is_accounted failing cancelled waits r =
    is_settled r
    || r.status == "failed" && failing
    || r.status == "cancelled" && cancelled
    || is_deferred r && waits

unfoldable pub all_accounted : Bool → Bool → (ℕ → Bool) → ℕ → List DestroyResult → Bool
all_accounted failing cancelled waits i [] = true
all_accounted failing cancelled waits i (r ∷ rs) =
    is_accounted failing cancelled (waits i) r && all_accounted failing cancelled waits (suc i) rs

abbrev pub waits_in : ℕ → List Child → Bool
waits_in i [] = false
waits_in i (child ∷ children) = nat_eq child.position i || waits_in i children

unfoldable pub waits_for : ℕ → List (String × List Child) → Bool
waits_for i [] = false
waits_for i ((parent, children) ∷ rest) = waits_in i children || waits_for i rest

waits_in-snoc :
    (i : ℕ) (children : List Child) (child : Child)
    → waits_in i (snoc children child) ≡ (waits_in i children || nat_eq child.position i)
waits_in-snoc i [] child = ground arith
waits_in-snoc i (c ∷ cs) child = ground (arith, waits_in-snoc i cs child)

pub waits_for-insert :
    (i : ℕ) (parent : String) (child : Child) (pending : List (String × List Child))
    → waits_for i (insert parent (snoc (children_of parent pending) child) pending)
      ≡ (waits_for i pending || nat_eq child.position i)
unfolding waits_for insert lookup
waits_for-insert i parent child [] = ground arith
waits_for-insert i parent child ((name, children) ∷ rest) = elim (Bool-cases (name == parent)) [
  | inl here ↦ ground (arith, waits_in-snoc i children child)
  | inr later ↦ ground (arith, waits_for-insert i parent child rest)
]

pub waits_for-without_parent :
    (i : ℕ) (parent : String) (pending : List (String × List Child))
    → waits_for i pending
      ≡ (waits_in i (children_of parent pending) || waits_for i (without_parent parent pending))
unfolding waits_for without_parent lookup
waits_for-without_parent i parent [] = refl
waits_for-without_parent i parent ((name, children) ∷ rest) = elim (Bool-cases (name == parent)) [
  | inl here ↦ ground arith
  | inr later ↦ ground (arith, waits_for-without_parent i parent rest)
]

weaken :
    (s a b d f f' c c' w w' : Bool)
    → (f ≡ true → f' ≡ true)
    → (c ≡ true → c' ≡ true)
    → (w ≡ true → w' ≡ true)
    → (s || a && f || b && c || d && w) ≡ true
    → (s || a && f' || b && c' || d && w') ≡ true
weaken s a b d f f' c c' w w' h h' h'' e = ground arith

both : {a b : Bool} → a ≡ true → b ≡ true → (a && b) ≡ true
both h h' = ground arith

module _ (f f' c c' : Bool) (w w' : ℕ → Bool) (failing : f ≡ true → f' ≡ true)
    (cancelling : c ≡ true → c' ≡ true) where
  is_accounted_mono :
      (j : ℕ) (r : DestroyResult)
      → (w j ≡ true → w' j ≡ true)
      → is_accounted f c (w j) r ≡ true
      → is_accounted f' c' (w' j) r ≡ true
  unfolding is_accounted
  is_accounted_mono j r waiting h =
      weaken (is_settled r) (r.status == "failed") (r.status == "cancelled") (is_deferred r) f f' c
        c' (w j) (w' j) failing cancelling waiting h

  pub all_accounted_mono :
      (i : ℕ) (rs : List DestroyResult)
      → ((j : ℕ) → i ≤ j → w j ≡ true → w' j ≡ true)
      → all_accounted f c w i rs ≡ true
      → all_accounted f' c' w' i rs ≡ true
  unfolding all_accounted
  all_accounted_mono i [] waiting h = refl
  all_accounted_mono i (r ∷ rs) waiting h =
      both (is_accounted_mono i r (waiting i (omega arith)) (ground arith))
        (all_accounted_mono (suc i) rs (λ j le. waiting j (omega arith)) (ground arith))

  pub all_accounted-snoc :
      (i : ℕ) (rs : List DestroyResult) (r : DestroyResult)
      → ((j : ℕ) → w j ≡ true → w' j ≡ true)
      → is_accounted f' c' (w' (length rs + i)) r ≡ true
      → all_accounted f c w i rs ≡ true
      → all_accounted f' c' w' i (snoc rs r) ≡ true
  unfolding all_accounted
  all_accounted-snoc i [] r waiting new h =
      let same : 0 + i ≡ i = omega arith in
      both (subst (λ n. is_accounted f' c' (w' n) r ≡ true) same new) refl
  all_accounted-snoc i (x ∷ rs) r waiting new h =
      both (is_accounted_mono i x (waiting i) (ground arith)) (
        all_accounted-snoc (suc i) rs r waiting
          (subst (λ n. is_accounted f' c' (w' n) r ≡ true) (omega arith) new) (ground arith))

  pub all_accounted-update_at :
      (k i : ℕ) (rs : List DestroyResult) (change : DestroyResult → DestroyResult)
      → ((j : ℕ) → nat_eq (k + i) j ≡ false → w j ≡ true → w' j ≡ true)
      → ((r : DestroyResult) (b : Bool) → is_accounted f' c' b (change r) ≡ true)
      → all_accounted f c w i rs ≡ true
      → all_accounted f' c' w' i (update_at k change rs) ≡ true
  unfolding all_accounted update_at
  all_accounted-update_at k i [] change waiting new h = refl
  all_accounted-update_at zero i (r ∷ rs) change waiting new h =
      both (new r (w' i))
        (all_accounted_mono (suc i) rs (λ j le. waiting j (ground arith)) (ground arith))
  all_accounted-update_at (suc k) i (r ∷ rs) change waiting new h =
      both (is_accounted_mono i r (waiting i (ground arith)) (ground arith)) (
        all_accounted-update_at k (suc i) rs change (λ j apart. waiting j (ground arith)) new
          (ground arith))
