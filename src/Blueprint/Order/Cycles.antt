-- ===== src/Blueprint/Order/Cycles.antt =====
-- The cycle that `topological_order` (hyops/blueprint/schema.py) reports.
use hybridops_core.Prelude.{
  ℕ, zero, suc, String, ◌≡◌, true, Option, none, some, List, [], ◌∷◌, ◌++◌, contains, arith, refl,
  Bool-cases, Option-cases, inl, inr, eq_refl,
}
use hybridops_core.Blueprint.Order.{
  Walk, Walked, done, cycle, missing, exhausted, continue, visit_all, dfs,
}

-- `y` is among the `requires` of `x`.
pub record Edge (requires : String → Option (List String)) (x y : String) : Type 0 where
  pub deps : List String
  pub known : requires x ≡ some deps
  pub listed : contains y deps ≡ true

-- Each name requires the next.
abbrev pub Chain : (String → Option (List String)) → List String → Type 0
Chain requires [] = Unit
Chain requires (x ∷ []) = Unit
Chain requires (x ∷ y ∷ rest) = Edge requires x y × Chain requires (y ∷ rest)

-- A chain whose last name stands in it before.
pub record IsCycle (requires : String → Option (List String)) (names : List String) : Type 0 where
  pub before : List String
  pub last : String
  pub ends : names ≡ before ++ last ∷ []
  pub again : contains last before ≡ true
  pub chain : Chain requires names

Chain-snoc :
    (requires : String → Option (List String)) (names : List String) (x y : String)
    → Chain requires (names ++ x ∷ [])
    → Edge requires x y
    → Chain requires ((names ++ x ∷ []) ++ y ∷ [])
Chain-snoc requires [] x y c e = (e, tt)
Chain-snoc requires (a ∷ []) x y c e = (c.0, (e, tt))
Chain-snoc requires (a ∷ b ∷ rest) x y c e = (c.0, Chain-snoc requires (b ∷ rest) x y c.1 e)

-- Where `requires` leads only to names with `P`, a call for such a name may fail with:
module _ (requires : String → Option (List String)) (P : String → Type 0)
    (close : (x y : String) → Edge requires x y → P y) where
  abbrev pub Fails : Walked → Type 0
  Fails (done w) = Unit
  Fails (cycle names) = IsCycle requires names
  Fails (missing name) = (requires name ≡ none) × P name
  Fails exhausted = Unit

  continue-Fails :
      (r : Walked) (k : Walk → Walked) → Fails r → ((w : Walk) → Fails (k w)) → Fails (continue r k)
  continue-Fails (done w) k h f = f w
  continue-Fails (cycle names) k h f = h
  continue-Fails (missing name) k h f = h
  continue-Fails exhausted k h f = h

  pub visit_all-Fails :
      (call : String → Walk → Walked) (ds : List String)
      → ((d : String) (w : Walk) → contains d ds ≡ true → Fails (call d w))
      → (w : Walk) → Fails (visit_all call ds w)
  unfolding visit_all
  visit_all-Fails call [] h w = tt
  visit_all-Fails call (d ∷ ds) h w =
      continue-Fails (call d w) _ (h d w (ground (arith, eq_refl d)))
        (visit_all-Fails call ds (λ x w' m. h x w' (ground arith)))

  pub dfs-Fails :
      (fuel : ℕ) (visiting : List String) (step_id : String) (w : Walk)
      → Chain requires (visiting ++ step_id ∷ [])
      → P step_id
      → Fails (dfs requires fuel visiting step_id w)
  unfolding dfs
  dfs-Fails zero visiting step_id w c p = tt
  dfs-Fails (suc fuel) visiting step_id w c p = elim (Bool-cases (contains step_id w.visited)) [
    | inl v ↦ rw v tt
    | inr v ↦ rw v (elim (Bool-cases (contains step_id visiting)) [
      | inl i ↦
          rw i (record { before = visiting; last = step_id; ends = refl; again = i; chain = c })
      | inr i ↦ rw i (elim (Option-cases (requires step_id)) [
        | inl n ↦ rw n (n, p)
        | inr (deps, n) ↦ rw n (
            continue-Fails (visit_all _ deps w) _
              (visit_all-Fails _ deps
                (λ d w' m.
                  let e : Edge requires step_id d = record { deps = deps; known = n; listed = m } in
                  dfs-Fails fuel (visiting ++ step_id ∷ []) d w'
                    (Chain-snoc requires visiting step_id d c e) (close step_id d e))
                w)
              (λ w'. tt))
      ])
    ])
  ]
