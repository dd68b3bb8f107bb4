-- ===== src/Blueprint/Upstream/Chains.antt =====
-- The chains of requirements that the search of `depends_on` (hyops/blueprint/schema.py) follows.
use hybridops_core.Prelude.{
  ℕ, zero, suc, String, ◌≡◌, ◌⊎◌, inl, inr, true, false, Option, none, some, List, [], ◌∷◌, ◌++◌,
  contains, contains-append, arith, refl, subst, eq_iff, eq_refl, Bool-cases, Option-cases, ◌==◌,
}
use mathlib.Core.List.{reverse, reverse-cons}
use hybridops_core.Blueprint.Order.Cycles.{Edge}
use hybridops_core.Blueprint.Upstream.{answer, search_upstream}

-- `y` is reached from `x` by one requirement or more.
pub data Upstream (requires : String → Option (List String)) (x : String) : String → Type 0 where
  direct : {y : String} → Edge requires x y → Upstream requires x y
  further : {y z : String} → Upstream requires x y → Edge requires y z → Upstream requires x z

pub contains-reverse : (x : String) (l : List String) → contains x (reverse l) ≡ contains x l
contains-reverse x [] = refl
contains-reverse x (y ∷ l) =
    rw reverse-cons (rw contains-append (ground (arith, contains-reverse x l)))

module _ (requires : String → Option (List String)) where
  module _ (target x : String) where
    -- What is pending is upstream, so an answer `true` is right.
    pub search_true :
        (fuel : ℕ) (visited pending : List String)
        → ((c : String) → contains c pending ≡ true → Upstream requires x c)
        → search_upstream requires fuel target visited pending ≡ answer true
        → Upstream requires x target
    unfolding search_upstream
    search_true zero visited [] up h = ground arith
    search_true (suc fuel) visited [] up h = ground arith
    search_true zero visited (c ∷ pending) up h = ground arith
    search_true (suc fuel) visited (c ∷ pending) up h =
        let here : Upstream requires x c = up c (ground (arith, eq_refl c)) in
        let later = λ (d : String) (m : contains d pending ≡ true). up d (ground arith) in
        elim (Bool-cases (c == target)) [
          | inl e ↦ subst (Upstream requires x) ((eq_iff c target).0 e) here
          | inr e ↦ elim (Bool-cases (contains c visited)) [
            | inl v ↦ search_true fuel visited pending later (rw (e, v) at h)
            | inr v ↦ elim (Option-cases (requires c)) [
              | inl n ↦ search_true fuel visited pending later (rw (e, v, n) at h)
              | inr (deps, n) ↦
                  search_true fuel (c ∷ visited) (reverse deps ++ pending)
                    (λ d m. elim (Bool-cases (contains d deps)) [
                      | inl i ↦ further here (record { deps = deps; known = n; listed = i })
                      | inr i ↦ later d (
                          ground (
                            arith,
                            contains-append d (reverse deps) pending,
                            contains-reverse d deps,
                          ))
                    ])
                    (rw (e, v, n) at h)
            ]
          ]
        ]

    -- No name of the list is the target, and each stands in `final` or is no step.
    pub record Cleared (final : List String) (z : String) : Type 0 where
      pub not_target : (z == target) ≡ false
      pub settled : (contains z final ≡ true) ⊎ (requires z ≡ none)

    -- The names visited at the end of a search that answers `false`.
    pub record Closed (visited pending final : List String) : Type 0 where
      pub grown : (y : String) → contains y visited ≡ true → contains y final ≡ true
      pub pended : (c : String) → contains c pending ≡ true → Cleared final c
      pub closed :
          (y z : String)
          → contains y final ≡ true
          → contains y visited ≡ false
          → Edge requires y z
          → Cleared final z

    Closed-skip :
        (visited pending final : List String) (c : String)
        → (c == target) ≡ false
        → (contains c final ≡ true) ⊎ (requires c ≡ none)
        → Closed visited pending final
        → Closed visited (c ∷ pending) final
    Closed-skip visited pending final c e s k = record {
      grown = k.grown;
      pended = λ d m. elim (Bool-cases (d == c)) [
        | inl i ↦ let p = (eq_iff d c).0 i in record { not_target = rw p e; settled = rw p s }
        | inr i ↦ k.pended d (ground arith)
      ];
      closed = k.closed;
    }

    Closed-push :
        (visited pending final deps : List String) (c : String)
        → (c == target) ≡ false
        → requires c ≡ some deps
        → Closed (c ∷ visited) (reverse deps ++ pending) final
        → Closed visited (c ∷ pending) final
    Closed-push visited pending final deps c e n k = record {
      grown = λ y m. k.grown y (ground arith);
      pended = λ d m. elim (Bool-cases (d == c)) [
        | inl i ↦
            let p = (eq_iff d c).0 i in
            rw p (record { not_target = e; settled = inl (k.grown c (ground (arith, eq_refl c))) })
        | inr i ↦ k.pended d (rw contains-append (ground arith))
      ];
      closed = λ y z m u edge. elim (Bool-cases (y == c)) [
        | inl i ↦
            let p = (eq_iff y c).0 i in
            let same : edge.deps ≡ deps = ground (arith, edge.known) in
            k.pended z (rw contains-append (rw contains-reverse (rw (← same) (rw (edge.listed)))))
        | inr i ↦ k.closed y z m (ground arith) edge
      ];
    }

    pub search_false :
        (fuel : ℕ) (visited pending : List String)
        → search_upstream requires fuel target visited pending ≡ answer false
        → (final : List String) × Closed visited pending final
    unfolding search_upstream
    search_false zero visited [] h = (
      visited,
      record {
        grown = λ y m. m;
        pended = λ c m. absurd (ground arith);
        closed = λ y z m u edge. absurd (ground arith);
      },
    )
    search_false (suc fuel) visited [] h = (
      visited,
      record {
        grown = λ y m. m;
        pended = λ c m. absurd (ground arith);
        closed = λ y z m u edge. absurd (ground arith);
      },
    )
    search_false zero visited (c ∷ pending) h = absurd (ground arith)
    search_false (suc fuel) visited (c ∷ pending) h = elim (Bool-cases (c == target)) [
      | inl e ↦ absurd (ground arith)
      | inr e ↦ elim (Bool-cases (contains c visited)) [
        | inl v ↦
            let (final, k) = search_false fuel visited pending (rw (e, v) at h) in
            (final, Closed-skip visited pending final c e (inl (k.grown c v)) k)
        | inr v ↦ elim (Option-cases (requires c)) [
          | inl n ↦
              let (final, k) = search_false fuel visited pending (rw (e, v, n) at h) in
              (final, Closed-skip visited pending final c e (inr n) k)
          | inr (deps, n) ↦
              let (final, k) =
                search_false fuel (c ∷ visited) (reverse deps ++ pending) (rw (e, v, n) at h) in
              (final, Closed-push visited pending final deps c e n k)
        ]
      ]
    ]

    -- From an empty set of visited names, all that is upstream is cleared.
    pub Upstream-Cleared :
        (deps final : List String)
        → requires x ≡ some deps
        → Closed [] (reverse deps) final
        → {z : String} → Upstream requires x z
        → Cleared final z
    Upstream-Cleared deps final r k (direct {y = z} e) =
        let same : e.deps ≡ deps = ground (arith, e.known) in
        k.pended z (rw contains-reverse (rw (← same) (e.listed)))
    Upstream-Cleared deps final r k (further {y} {z} u e) =
        elim (Upstream-Cleared deps final r k u).settled [
          | inl m ↦ k.closed y z m refl e
          | inr n ↦ absurd (ground (arith, e.known))
        ]
