-- ===== src/Prelude/Tests.antt =====
-- The conditional, Boolean tests, and case lemmas that keep the equation.
use Prim.Native.Nat.{ℕ, compare, Ordering}
use mathlib.Core.Path.{◌≡◌, refl}
use mathlib.Core.Logic.{◌⊎◌, inl, inr}
use mathlib.Core.Bool.{Bool, true, false}
use mathlib.Core.Option.{Option, none, some}

infix 1 if◌then◌else◌
abbrev pub if◌then◌else◌ {ℓ} : {A : Type ℓ} → Bool → A → A → A
if true then x else y = x
if false then x else y = y

abbrev pub ltb : ℕ → ℕ → Bool
ltb a b = elim (compare a b) [ Ordering.lt ↦ true | _ ↦ false ]

abbrev pub leb : ℕ → ℕ → Bool
leb a b = elim (compare a b) [ Ordering.gt ↦ false | _ ↦ true ]

abbrev pub nat_eq : ℕ → ℕ → Bool
nat_eq a b = elim (compare a b) [ Ordering.eq ↦ true | _ ↦ false ]

pub Bool-cases : (b : Bool) → (b ≡ true) ⊎ (b ≡ false)
Bool-cases true = inl refl
Bool-cases false = inr refl

pub Option-cases {ℓ} : {A : Type ℓ} (o : Option A) → (o ≡ none) ⊎ ((a : A) × (o ≡ some a))
Option-cases none = inl refl
Option-cases (some a) = inr (a, refl)

abbrev pub is_some {ℓ} : {A : Type ℓ} → Option A → Bool
is_some none = false
is_some (some a) = true

-- A conditional that has a value: the test decided, and the branch has it.
pub if_elim {ℓ κ} :
    {A : Type ℓ} {C : Type κ} (b : Bool) {x y r : A}
    → (if b then x else y) ≡ r
    → (b ≡ true → x ≡ r → C)
    → (b ≡ false → y ≡ r → C)
    → C
if_elim true h holds fails = holds refl h
if_elim false h holds fails = fails refl h

-- A value by cases on an option.
pub option_elim {ℓ κ μ} :
    {A : Type ℓ} {B : Type κ} {C : Type μ} (o : Option A) {absent : B} {present : A → B} {r : B}
    → (elim o [ none ↦ absent | some a ↦ present a ]) ≡ r
    → (o ≡ none → absent ≡ r → C)
    → ((a : A) → o ≡ some a → present a ≡ r → C)
    → C
option_elim none h missing found = missing refl h
option_elim (some a) h missing found = found a refl h
