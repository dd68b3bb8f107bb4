-- ===== src/Blueprint/Order/Correct.antt =====
-- `topological_order` (hyops/blueprint/schema.py) against what an order of steps is.
use hybridops_core.Prelude.{
  suc, String, ◌≡◌, Bool, true, false, Option, some, List, [], ◌∷◌, contains, distinct, length,
  arith, refl, Bool-cases, Option-cases, is_some, subst, ◌≢◌, inl, inr, ◌⊎◌, ◌==◌, eq_iff, ◌∙◌, sym,
}
use hybridops_core.Blueprint.Step.{Step, step_ids, by_id, requires_of}
use hybridops_core.Blueprint.Order.{
  Walk, Walked, done, cycle, missing, exhausted, start, topological_order,
}
use hybridops_core.Blueprint.Order.Fuel.{requires_of-known, topological_order-ne-exhausted}
use hybridops_core.Blueprint.Order.Sound.{AllIn, InOrder, IsSound, visit_all-Visits, dfs-Visits}
use hybridops_core.Blueprint.Order.Cycles.{Edge, IsCycle, Fails, visit_all-Fails, dfs-Fails}
use hybridops_core.Blueprint.Order.Acyclic.{no_cycle}

-- An order of the steps: every step of the blueprint once and no other, each after all that it
-- requires.
pub record IsOrder (steps : List Step) (order : List String) : Type 0 where
  pub in_order : InOrder (requires_of steps) [] order
  pub no_repeats : distinct order ≡ true
  pub complete : (x : String) → contains x order ≡ contains x (step_ids steps)

AllIn-contains :
    (ds seen : List String) (x : String)
    → AllIn ds seen
    → contains x ds ≡ true
    → contains x seen ≡ true
AllIn-contains [] seen x a h = ground arith
AllIn-contains (d ∷ ds) seen x a h = ground (arith, AllIn-contains ds seen x, eq_iff x d)

InOrder-known :
    (steps : List Step) (seen order : List String) (x : String)
    → InOrder (requires_of steps) seen order
    → contains x order ≡ true
    → contains x (step_ids steps) ≡ true
InOrder-known steps seen [] x o h = ground arith
InOrder-known steps seen (y ∷ order) x o h = ground (
  arith,
  InOrder-known steps _ order x o.1,
  requires_of-known steps y o.0.deps o.0.known,
  eq_iff x y,
)

start-IsSound : (requires : String → Option (List String)) → IsSound requires start
start-IsSound requires = record { same = λ x. refl; in_order = tt; no_repeats = refl }

iff_eq : (a b : Bool) → (a ≡ true → b ≡ true) → (b ≡ true → a ≡ true) → a ≡ b
iff_eq true b f g = sym (f refl)
iff_eq false true f g = g refl
iff_eq false false f g = refl

-- A returned order is an order of the steps.
pub topological_order-IsOrder :
    (steps : List Step) (w : Walk) → topological_order steps ≡ done w → IsOrder steps w.order
unfolding topological_order
topological_order-IsOrder steps w h =
    let requires = requires_of steps in
    let v =
      visit_all-Visits requires [] _ (dfs-Visits requires (suc (length steps)) []) (step_ids steps)
        start w h in
    let s = v.grows.sound (start-IsSound requires) in
    record {
      in_order = s.in_order;
      no_repeats = s.no_repeats;
      complete = λ x.
          iff_eq (contains x w.order) (contains x (step_ids steps))
            (InOrder-known steps [] w.order x s.in_order)
            (λ m. sym (s.same x) ∙ AllIn-contains (step_ids steps) w.visited x v.visits m);
    }

-- Every step requires only names among `ids`.
abbrev pub AllKnown : List Step → List String → Type 0
AllKnown [] ids = Unit
AllKnown (s ∷ steps) ids = AllIn s.requires ids × AllKnown steps ids

requires_of-AllIn :
    (steps : List Step) (ids : List String) (x : String) (deps : List String)
    → AllKnown steps ids
    → requires_of steps x ≡ some deps
    → AllIn deps ids
unfolding requires_of by_id
requires_of-AllIn [] ids x deps k h = ground arith
requires_of-AllIn (s ∷ steps) ids x deps k h = elim (Option-cases (by_id steps x)) [
  | inl e ↦ elim (Bool-cases (s.id == x)) [
    | inl i ↦ let p : s.requires ≡ deps = ground arith in subst (λ ds. AllIn ds ids) p k.0
    | inr i ↦ absurd (ground arith)
  ]
  | inr (later, e) ↦ requires_of-AllIn steps ids x deps k.1 (rw (e, requires_of) (ground arith))
]

pub requires_of-some :
    (steps : List Step) (x : String)
    → contains x (step_ids steps) ≡ true
    → is_some (requires_of steps x) ≡ true
unfolding requires_of by_id
requires_of-some [] x h = ground arith
requires_of-some (s ∷ steps) x h =
    ground (arith, requires_of-some steps x, eq_iff s.id x, eq_iff x s.id)

module _ (steps : List Step) (known : AllKnown steps (step_ids steps)) where
  edge_known : (x y : String) → Edge (requires_of steps) x y → contains y (step_ids steps) ≡ true
  edge_known x y e =
      AllIn-contains e.deps (step_ids steps) y
        (requires_of-AllIn steps (step_ids steps) x e.deps known e.known) e.listed

  topological_order-Fails :
      Fails
        (requires_of steps)
        (λ x. contains x (step_ids steps) ≡ true)
        edge_known
        (topological_order steps)
  unfolding topological_order
  topological_order-Fails =
      visit_all-Fails _ _ edge_known _ (step_ids steps)
        (λ d w m. dfs-Fails _ _ edge_known (suc (length steps)) [] d w tt m) start

  Fails-cases :
      (r : Walked)
      → r ≢ exhausted
      → Fails (requires_of steps) (λ x. contains x (step_ids steps) ≡ true) edge_known r
      → ((w : Walk) × (r ≡ done w))
        ⊎ ((names : List String) × (r ≡ cycle names) × IsCycle (requires_of steps) names)
  Fails-cases (done w) n f = inl (w, refl)
  Fails-cases (cycle names) n f = inr (names, refl, f)
  Fails-cases (missing name) n f = absurd (ground (arith, requires_of-some steps name f.1))
  Fails-cases exhausted n f = absurd (n refl)

  -- For steps that require only steps of the blueprint, `topological_order` returns an order of the
  -- steps, and then no chain of requirements comes back to itself, or it raises the error that names
  -- such a chain.
  pub topological_order_decides :
      ((w : Walk) × (topological_order steps ≡ done w)
        × IsOrder steps w.order
        × ((names : List String) → ¬ IsCycle (requires_of steps) names))
      ⊎ ((names : List String) × (topological_order steps ≡ cycle names)
          × IsCycle (requires_of steps) names)
  topological_order_decides =
      elim (Fails-cases (topological_order steps) (topological_order-ne-exhausted steps)
        topological_order-Fails) [
          | inl (w, e) ↦
              let o = topological_order-IsOrder steps w e in
              inl (
                w,
                e,
                o,
                no_cycle (requires_of steps) w.order o.in_order
                    (λ x deps h. o.complete x ∙ requires_of-known steps x deps h),
              )
          | inr c ↦ inr c
        ]
