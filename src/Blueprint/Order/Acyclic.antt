-- ===== src/Blueprint/Order/Acyclic.antt =====
-- Steps that can be ordered have no dependency cycle.
use hybridops_core.Prelude.{
  ℕ, suc, ◌<◌, String, ◌≡◌, true, false, Option, some, List, [], ◌∷◌, ◌++◌, contains,
  contains-append, arith, refl, subst, Bool-cases, inl, inr, if◌then◌else◌, ◌==◌, eq_refl, eq_iff,
}
use mathlib.Core.List.{append_assoc}
use hybridops_core.Blueprint.Order.Sound.{AllIn, InOrder}
use hybridops_core.Blueprint.Order.Cycles.{Edge, Chain, IsCycle}

-- Where `x` first stands in the list.
position : String → List String → ℕ
position x [] = 0
position x (y ∷ ys) = if x == y then 0 else suc (position x ys)

AllIn-mem :
    (ds seen : List String) (y : String)
    → AllIn ds seen
    → contains y ds ≡ true
    → contains y seen ≡ true
AllIn-mem [] seen y a h = ground arith
AllIn-mem (d ∷ ds) seen y a h = ground (arith, AllIn-mem ds seen y, eq_iff y d)

position_before :
    (seen rest : List String) (x y : String)
    → contains y seen ≡ true
    → contains x seen ≡ false
    → position y (seen ++ rest) < position x (seen ++ rest)
unfolding position
position_before [] rest x y h n = ground arith
position_before (z ∷ seen) rest x y h n = ground (arith, position_before seen rest x y)

module _ (requires : String → Option (List String)) where
  -- In an order a dependency stands before the step that requires it.
  position-Edge :
      (seen xs : List String) (x y : String)
      → InOrder requires seen xs
      → contains x xs ≡ true
      → contains x seen ≡ false
      → Edge requires x y
      → position y (seen ++ xs) < position x (seen ++ xs)
  position-Edge seen [] x y o h n e = ground arith
  position-Edge seen (z ∷ zs) x y o h n e = elim (Bool-cases (x == z)) [
    | inl same ↦
        let r = o.0 in
        let deps_eq : r.deps ≡ e.deps = ground (arith, r.known, e.known, eq_iff x z) in
        position_before seen (z ∷ zs) x y (AllIn-mem r.deps seen y r.met (rw deps_eq e.listed)) n
    | inr other ↦
        subst (λ l. position y l < position x l) (append_assoc seen (z ∷ []) zs)
          (position-Edge (seen ++ z ∷ []) zs x y o.1 (ground arith)
            (rw contains-append (ground arith)) e)
  ]

  module _ (order : List String) (ordered : InOrder requires [] order)
      (full : (x : String) (deps : List String)
        → requires x ≡ some deps
        → contains x order ≡ true) where
    Edge-lt : (x y : String) → Edge requires x y → position y order < position x order
    Edge-lt x y e = position-Edge [] order x y ordered (full x e.deps e.known) refl e

    Chain-lt :
        (x : String) (rest : List String) (z : String)
        → Chain requires (x ∷ rest)
        → contains z rest ≡ true
        → position z order < position x order
    Chain-lt x [] z c h = ground arith
    Chain-lt x (y ∷ rest) z c h = ground (arith, Edge-lt x y c.0, Chain-lt y rest z c.1, eq_iff z y)

    no_return :
        (before : List String) (last : String)
        → Chain requires (before ++ last ∷ [])
        → contains last before ≡ true
        → ⊥
    no_return [] last c h = ground arith
    no_return (b ∷ bs) last c h = elim (Bool-cases (last == b)) [
      | inl same ↦ ground (
        arith,
        Chain-lt b (bs ++ last ∷ []) last c,
        contains-append last bs (last ∷ []),
        eq_refl last,
        eq_iff last b,
      )
      | inr other ↦ no_return bs last (Chain-tail b (bs ++ last ∷ []) c) (ground arith)
    ]
      where
        Chain-tail : (x : String) (xs : List String) → Chain requires (x ∷ xs) → Chain requires xs
        Chain-tail x [] c = tt
        Chain-tail x (y ∷ xs) c = c.1

    pub no_cycle : (names : List String) → IsCycle requires names → ⊥
    no_cycle names c = no_return c.before c.last (subst (Chain requires) c.ends c.chain) c.again
