-- ===== src/Blueprint/Order/Fuel.antt =====
-- `topological_order` (hyops/blueprint/schema.py) never runs out of its fuel.
use hybridops_core.Prelude.{
  ℕ, zero, suc, ◌≤◌, ◌<◌, String, ◌≡◌, ◌≢◌, true, false, Option, some, List, [], ◌∷◌, ◌++◌,
  contains, contains-append, length, arith, refl, eq_iff, Bool-cases, Option-cases, inl, inr,
  if◌then◌else◌,
}
use hybridops_core.Blueprint.Step.{Step, step_ids, by_id, requires_of}
use hybridops_core.Blueprint.Order.{
  Walk, Walked, done, cycle, missing, exhausted, continue, visit_all, dfs, start, topological_order,
}

-- How many of `keys` are not in `names`.
unfoldable pub room : List String → List String → ℕ
room [] names = 0
room (k ∷ keys) names = if contains k names then room keys names else suc (room keys names)

pub room-le-length : (keys names : List String) → room keys names ≤ length keys
unfolding room
room-le-length [] names = omega arith
room-le-length (k ∷ keys) names = ground (arith, room-le-length keys names)

pub room-snoc-le :
    (keys names : List String) (x : String) → room keys (names ++ x ∷ []) ≤ room keys names
unfolding room
room-snoc-le [] names x = omega arith
room-snoc-le (k ∷ keys) names x =
    ground (arith, room-snoc-le keys names x, contains-append k names (x ∷ []))

-- Adding a key that is new makes less room.
pub room-snoc-lt :
    (keys names : List String) (x : String)
    → contains x keys ≡ true
    → contains x names ≡ false
    → room keys (names ++ x ∷ []) < room keys names
unfolding room
room-snoc-lt [] names x h n = ground arith
room-snoc-lt (k ∷ keys) names x h n = ground (
  arith,
  room-snoc-lt keys names x,
  room-snoc-le keys names x,
  contains-append k names (x ∷ []),
  eq_iff x k,
  eq_iff k x,
)

continue-ne-exhausted :
    (r : Walked) (k : Walk → Walked)
    → r ≢ exhausted
    → ((w : Walk) → k w ≢ exhausted)
    → continue r k ≢ exhausted
continue-ne-exhausted (done w) k n h = h w
continue-ne-exhausted (cycle names) k n h = ground arith
continue-ne-exhausted (missing name) k n h = ground arith
continue-ne-exhausted exhausted k n h = n

visit_all-ne-exhausted :
    (call : String → Walk → Walked)
    → ((d : String) (w : Walk) → call d w ≢ exhausted)
    → (ds : List String) (w : Walk) → visit_all call ds w ≢ exhausted
unfolding visit_all
visit_all-ne-exhausted call h [] w = ground arith
visit_all-ne-exhausted call h (d ∷ ds) w =
    continue-ne-exhausted (call d w) _ (h d w) (visit_all-ne-exhausted call h ds)

module _ (requires : String → Option (List String)) (keys : List String)
    (known : (x : String) (deps : List String)
      → requires x ≡ some deps
      → contains x keys ≡ true) where
  -- The nesting of `dfs` is bounded by the keys that it has not entered.
  dfs-ne-exhausted :
      (fuel : ℕ) (visiting : List String) (step_id : String) (w : Walk)
      → room keys visiting < fuel
      → dfs requires fuel visiting step_id w ≢ exhausted
  unfolding dfs
  dfs-ne-exhausted zero visiting step_id w h = absurd (omega arith)
  dfs-ne-exhausted (suc fuel) visiting step_id w h =
      elim (Bool-cases (contains step_id w.visited)) [
        | inl e ↦ rw e (ground arith)
        | inr e ↦ rw e (elim (Bool-cases (contains step_id visiting)) [
          | inl v ↦ rw v (ground arith)
          | inr v ↦ rw v (elim (Option-cases (requires step_id)) [
            | inl n ↦ rw n (ground arith)
            | inr (deps, n) ↦
                let less = room-snoc-lt keys visiting step_id (known step_id deps n) v in
                rw n (
                  continue-ne-exhausted (visit_all _ deps w) _
                    (visit_all-ne-exhausted _
                      (λ d w'. dfs-ne-exhausted fuel (visiting ++ step_id ∷ []) d w' (omega arith))
                      deps w)
                    (λ w'. ground arith))
          ])
        ])
      ]

pub requires_of-known :
    (steps : List Step) (x : String) (deps : List String)
    → requires_of steps x ≡ some deps
    → contains x (step_ids steps) ≡ true
unfolding requires_of by_id
requires_of-known [] x deps h = ground arith
requires_of-known (s ∷ steps) x deps h = elim (Option-cases (by_id steps x)) [
  | inl e ↦ ground (arith, eq_iff s.id x, eq_iff x s.id)
  | inr (later, e) ↦
      ground (
        arith,
        requires_of-known steps x later.requires (unfold requires_of in rw (e, requires_of)),
      )
]

length-step_ids : (steps : List Step) → length (step_ids steps) ≡ length steps
length-step_ids [] = refl
length-step_ids (s ∷ steps) = omega (arith, length-step_ids steps)

-- The order of any list of steps, valid or not, is computed within the fuel: one level of nesting
-- for each step and one more.
pub topological_order-ne-exhausted : (steps : List Step) → topological_order steps ≢ exhausted
unfolding topological_order
topological_order-ne-exhausted steps =
    visit_all-ne-exhausted _
      (λ d w.
        dfs-ne-exhausted (requires_of steps) (step_ids steps) (requires_of-known steps)
          (suc (length steps)) [] d w
          (omega (arith, room-le-length (step_ids steps) [], length-step_ids steps)))
      (step_ids steps) start
