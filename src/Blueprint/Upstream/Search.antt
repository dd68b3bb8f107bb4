-- ===== src/Blueprint/Upstream/Search.antt =====
-- The search of `depends_on` (hyops/blueprint/schema.py) ends, and answers whether a chain of
-- requirements leads from the step to the other.
use hybridops_core.Prelude.{
  ℕ, zero, suc, ◌+◌, ◌≤◌, String, ◌≡◌, ◌↔◌, inl, inr, Bool, true, false, Option, some, List, [],
  ◌∷◌, ◌++◌, contains, length, length-append, arith, refl, eq_iff, eq_refl, Bool-cases,
  Option-cases, ◌==◌,
}
use mathlib.Core.List.{reverse, reverse-cons}
use hybridops_core.Blueprint.Step.{Step, step_ids, requires_of}
use hybridops_core.Blueprint.Order.Fuel.{requires_of-known}
use hybridops_core.Blueprint.Upstream.{answer, search_upstream, pushes, depends_on}
use hybridops_core.Blueprint.Upstream.Chains.{
  Upstream, direct, contains-reverse, search_true, search_false, Upstream-Cleared,
}

length-reverse : (l : List String) → length (reverse l) ≡ length l
length-reverse [] = refl
length-reverse (y ∷ l) = rw reverse-cons (rw length-append (omega (arith, length-reverse l)))

module _ (requires : String → Option (List String)) where
  pushes_le :
      (keys visited : List String) (c : String)
      → pushes requires keys (c ∷ visited) ≤ pushes requires keys visited
  unfolding pushes
  pushes_le [] visited c = omega arith
  pushes_le (k ∷ keys) visited c = ground (arith, pushes_le keys visited c)

  -- Visiting a step pays for what it pushes.
  pushes_visit :
      (keys visited : List String) (c : String) (deps : List String)
      → contains c keys ≡ true
      → contains c visited ≡ false
      → requires c ≡ some deps
      → length deps + pushes requires keys (c ∷ visited) ≤ pushes requires keys visited
  unfolding pushes
  pushes_visit [] visited c deps h n r = ground arith
  pushes_visit (k ∷ keys) visited c deps h n r =
      ground
        (arith, pushes_visit keys visited c deps, pushes_le keys visited c, eq_iff c k, eq_iff k c)

  module _ (keys : List String)
      (known : (x : String) (deps : List String) → requires x ≡ some deps → contains x keys ≡ true)
      (target : String) where
    search_ends :
        (fuel : ℕ) (visited pending : List String)
        → length pending + pushes requires keys visited ≤ fuel
        → (b : Bool) × (search_upstream requires fuel target visited pending ≡ answer b)
    unfolding search_upstream
    search_ends zero visited [] h = (false, refl)
    search_ends (suc fuel) visited [] h = (false, refl)
    search_ends zero visited (c ∷ pending) h = absurd (omega arith)
    search_ends (suc fuel) visited (c ∷ pending) h = elim (Bool-cases (c == target)) [
      | inl e ↦ (true, rw e)
      | inr e ↦ elim (Bool-cases (contains c visited)) [
        | inl v ↦ rw (e, v) (search_ends fuel visited pending (omega arith))
        | inr v ↦ elim (Option-cases (requires c)) [
          | inl n ↦ rw (e, v, n) (search_ends fuel visited pending (omega arith))
          | inr (deps, n) ↦
              rw (e, v, n)
                (search_ends fuel (c ∷ visited) (reverse deps ++ pending) (
                  omega (
                    arith,
                    pushes_visit keys visited c deps (known c deps n) v n,
                    length-append (reverse deps) pending,
                    length-reverse deps,
                  )))
        ]
      ]
    ]

-- For a step of the blueprint `depends_on` ends with an answer, and it is `true` exactly if a chain
-- of one requirement or more leads from the step to the other.
pub depends_on_iff :
    (steps : List Step) (step_id required_id : String) {deps : List String}
    → requires_of steps step_id ≡ some deps
    → (b : Bool) × (depends_on steps step_id required_id ≡ some (answer b))
      × ((b ≡ true) ↔ Upstream (requires_of steps) step_id required_id)
unfolding depends_on
depends_on_iff steps step_id required_id {deps} r =
    let requires = requires_of steps in
    let (b, e) =
      search_ends requires (step_ids steps) (requires_of-known steps) required_id
        (length deps + pushes requires (step_ids steps) []) [] (reverse deps)
        (omega (arith, length-reverse deps)) in
    (b, returns b e, decided b e)
  where
    returns :
        (b : Bool)
        → search_upstream
            (requires_of steps)
            (length deps + pushes (requires_of steps) (step_ids steps) [])
            required_id
            []
            (reverse deps)
          ≡ answer b
        → depends_on steps step_id required_id ≡ some (answer b)
    returns b e = ground arith

    decided :
        (b : Bool)
        → search_upstream
            (requires_of steps)
            (length deps + pushes (requires_of steps) (step_ids steps) [])
            required_id
            []
            (reverse deps)
          ≡ answer b
        → (b ≡ true) ↔ Upstream (requires_of steps) step_id required_id
    decided true e = (
      λ _.
          search_true (requires_of steps) required_id step_id _ [] (reverse deps)
            (λ c m. direct (record { deps = deps; known = r; listed = rw contains-reverse at m }))
            e,
      λ _. refl,
    )
    decided false e = (
      λ p. absurd (ground arith),
      λ u.
          let (final, k) =
            search_false (requires_of steps) required_id step_id _ [] (reverse deps) e in
          absurd (
            ground (
              arith,
              (Upstream-Cleared (requires_of steps) required_id step_id deps final r k
                  u).not_target,
              eq_refl required_id,
            )),
    )
