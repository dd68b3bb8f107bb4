-- ===== src/Blueprint/Order/Sound.antt =====
-- The order that `topological_order` (hyops/blueprint/schema.py) returns.
use hybridops_core.Prelude.{
  ℕ, zero, suc, String, ◌≡◌, true, false, Option, some, List, [], ◌∷◌, ◌++◌, contains,
  contains-append, distinct, arith, refl, sym, subst, eq_iff, eq_refl, Bool-cases, Option-cases,
  inl, inr, ◌∙◌,
}
use mathlib.Core.List.{append_assoc, append-nil}
use hybridops_core.Blueprint.Order.{
  Walk, Walked, done, cycle, missing, exhausted, continue, visit_all, finish, dfs,
}

-- Each of `names` stands in `seen`.
abbrev pub AllIn : List String → List String → Type 0
AllIn [] seen = Unit
AllIn (d ∷ ds) seen = (contains d seen ≡ true) × AllIn ds seen

-- The step is known and each of its dependencies stands in `seen`.
pub record Ready (requires : String → Option (List String)) (seen : List String) (x : String)
    : Type 0 where
  pub deps : List String
  pub known : requires x ≡ some deps
  pub met : AllIn deps seen

-- Each step of the list comes after its dependencies, given that those in `seen` came before.
abbrev pub InOrder : (String → Option (List String)) → List String → List String → Type 0
InOrder requires seen [] = Unit
InOrder requires seen (x ∷ xs) = Ready requires seen x × InOrder requires (seen ++ x ∷ []) xs

AllIn-mono :
    (ds seen more : List String)
    → ((x : String) → contains x seen ≡ true → contains x more ≡ true)
    → AllIn ds seen
    → AllIn ds more
AllIn-mono [] seen more h a = tt
AllIn-mono (d ∷ ds) seen more h a = (h d a.0, AllIn-mono ds seen more h a.1)

InOrder-snoc :
    (requires : String → Option (List String)) (seen xs : List String) (x : String)
    → InOrder requires seen xs
    → Ready requires (seen ++ xs) x
    → InOrder requires seen (xs ++ x ∷ [])
InOrder-snoc requires seen [] x o r = (subst (λ l. Ready requires l x) (append-nil seen) r, tt)
InOrder-snoc requires seen (y ∷ xs) x o r = (
  o.0,
  InOrder-snoc requires (seen ++ y ∷ []) xs x o.1
      (subst (λ l. Ready requires l x) (sym (append_assoc seen (y ∷ []) xs)) r),
)

distinct-snoc :
    (xs : List String) (x : String)
    → contains x xs ≡ false
    → distinct xs ≡ true
    → distinct (xs ++ x ∷ []) ≡ true
distinct-snoc [] x n h = refl
distinct-snoc (y ∷ xs) x n h =
    ground (arith, distinct-snoc xs x, contains-append y xs (x ∷ []), eq_iff x y, eq_iff y x)

pub continue-eq-done :
    (r : Walked) (k : Walk → Walked) {w : Walk}
    → continue r k ≡ done w
    → (u : Walk) × (r ≡ done u) × (k u ≡ done w)
continue-eq-done (done u) k h = (u, refl, h)
continue-eq-done (cycle names) k h = ground arith
continue-eq-done (missing name) k h = ground arith
continue-eq-done exhausted k h = ground arith

done_inj : {a b : Walk} → done a ≡ done b → a ≡ b
done_inj p = cc

module _ (requires : String → Option (List String)) where
  -- A walk in which `visited` is the set of `order`, and `order` is in order without repetition.
  pub record IsSound (w : Walk) : Type 0 where
    pub same : (x : String) → contains x w.visited ≡ contains x w.order
    pub in_order : InOrder requires [] w.order
    pub no_repeats : distinct w.order ≡ true

  -- What a call that returns does to the walk: it keeps what is visited, visits nothing that is
  -- being visited, and keeps the walk sound.
  pub record Grows (visiting : List String) (w w' : Walk) : Type 0 where
    pub keeps : (x : String) → contains x w.visited ≡ true → contains x w'.visited ≡ true
    pub avoids :
        (x : String)
        → contains x visiting ≡ true
        → contains x w.visited ≡ false
        → contains x w'.visited ≡ false
    pub sound : IsSound w → IsSound w'

  Grows-refl : (visiting : List String) (w : Walk) → Grows visiting w w
  Grows-refl visiting w = record { keeps = λ x h. h; avoids = λ x v h. h; sound = λ s. s }

  Grows-trans :
      (visiting : List String) (u v w : Walk)
      → Grows visiting u v
      → Grows visiting v w
      → Grows visiting u w
  Grows-trans visiting u v w g h = record {
    keeps = λ x e. h.keeps x (g.keeps x e);
    avoids = λ x i e. h.avoids x i (g.avoids x i e);
    sound = λ s. h.sound (g.sound s);
  }

  -- The walk after a call for `step_id`, or after one for each of a list.
  pub record Visits (visiting : List String) (ids : List String) (w w' : Walk) : Type 0 where
    pub grows : Grows visiting w w'
    pub visits : AllIn ids w'.visited

  pub visit_all-Visits :
      (visiting : List String) (call : String → Walk → Walked)
      → ((d : String) (w w' : Walk) → call d w ≡ done w' → Visits visiting (d ∷ []) w w')
      → (ds : List String) (w w' : Walk) → visit_all call ds w ≡ done w'
      → Visits visiting ds w w'
  unfolding visit_all
  visit_all-Visits visiting call h [] w w' e =
      subst (Visits visiting [] w) (done_inj e)
        (record { grows = Grows-refl visiting w; visits = tt })
  visit_all-Visits visiting call h (d ∷ ds) w w' e =
      let (u, first, rest) = continue-eq-done (call d w) _ e in
      let now = h d w u first in
      let later = visit_all-Visits visiting call h ds u w' rest in
      record {
        grows = Grows-trans visiting w u w' now.grows later.grows;
        visits = (later.grows.keeps d now.visits.0, later.visits);
      }

  finish-Visits :
      (visiting : List String) (step_id : String) (deps : List String) (w u : Walk)
      → requires step_id ≡ some deps
      → contains step_id w.visited ≡ false
      → contains step_id visiting ≡ false
      → Visits (visiting ++ step_id ∷ []) deps w u
      → Visits visiting (step_id ∷ []) w (finish step_id u)
  finish-Visits visiting step_id deps w u known new free v = record {
    grows = record {
      keeps = λ x h. ground (arith, v.grows.keeps x);
      avoids = λ x i h.
          ground
            (arith, v.grows.avoids x, contains-append x visiting (step_id ∷ []), eq_iff x step_id);
      sound = λ s.
          let old = v.grows.sound s in
          let fresh =
            v.grows.avoids step_id (rw contains-append (ground (arith, eq_refl step_id))) new in
          record {
            same = λ x. ground (arith, old.same x, contains-append x u.order (step_id ∷ []));
            in_order = InOrder-snoc requires [] u.order step_id old.in_order (record {
              deps = deps;
              known = known;
              met = AllIn-mono deps u.visited u.order (λ x h. sym (old.same x) ∙ h) v.visits;
            });
            no_repeats =
                distinct-snoc u.order step_id (sym (old.same step_id) ∙ fresh) old.no_repeats;
          };
    };
    visits = (ground (arith, eq_refl step_id), tt);
  }

  pub dfs-Visits :
      (fuel : ℕ) (visiting : List String) (step_id : String) (w w' : Walk)
      → dfs requires fuel visiting step_id w ≡ done w'
      → Visits visiting (step_id ∷ []) w w'
  unfolding dfs
  dfs-Visits zero visiting step_id w w' e = ground arith
  dfs-Visits (suc fuel) visiting step_id w w' e = elim (Bool-cases (contains step_id w.visited)) [
    | inl v ↦
        subst (Visits visiting (step_id ∷ []) w) (done_inj (rw v at e))
          (record { grows = Grows-refl visiting w; visits = (v, tt) })
    | inr v ↦ elim (Bool-cases (contains step_id visiting)) [
      | inl i ↦ absurd (ground arith)
      | inr i ↦ elim (Option-cases (requires step_id)) [
        | inl n ↦ absurd (ground arith)
        | inr (deps, n) ↦
            let (u, all, last) = continue-eq-done (visit_all _ deps w) _ (rw (v, i, n) at e) in
            subst (Visits visiting (step_id ∷ []) w) (done_inj last) (
              finish-Visits visiting step_id deps w u n v i (
                visit_all-Visits (visiting ++ step_id ∷ []) _
                  (dfs-Visits fuel (visiting ++ step_id ∷ [])) deps w u all))
      ]
    ]
  ]
