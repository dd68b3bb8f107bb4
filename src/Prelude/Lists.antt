-- ===== src/Prelude/Lists.antt =====
-- Lists of texts, as the program's lists and sets of names, and association lists as its dicts.
use Prim.Native.Nat.{ℕ, suc, ◌+◌}
use Prim.Native.String.{String}
use mathlib.Core.Path.{◌≡◌, refl}
use mathlib.Core.Bool.{Bool, true, false, not, ◌&&◌, ◌||◌}
use mathlib.Core.Option.{Option, none, some}
use mathlib.Core.List.{List, [], ◌∷◌, ◌++◌}
use native.Mathlib.Omega.{arith}
use text.Mathlib.Text.{◌==◌}
use text.Mathlib.TextEquality.{eq_iff}
use hybridops_core.Prelude.Tests.{if◌then◌else◌}

module _ {ℓ} {A : Type ℓ} where
  abbrev pub length : List A → ℕ
  length [] = 0
  length (_ ∷ xs) = suc (length xs)

  pub length-append : (xs ys : List A) → length (xs ++ ys) ≡ length xs + length ys
  length-append [] ys = omega arith
  length-append (x ∷ xs) ys = omega (arith, length-append xs ys)

  -- `xs.append(x)`
  abbrev pub snoc : List A → A → List A
  snoc xs x = xs ++ x ∷ []

  abbrev pub any_of : (A → Bool) → List A → Bool
  any_of test [] = false
  any_of test (x ∷ xs) = test x || any_of test xs

  pub any_of-snoc :
      (test : A → Bool) (xs : List A) (x : A) → any_of test (snoc xs x) ≡ (any_of test xs || test x)
  any_of-snoc test [] x = ground arith
  any_of-snoc test (y ∷ xs) x = ground (arith, any_of-snoc test xs x)

  -- A Python `dict` with string keys: the first entry of a key counts.
  unfoldable pub lookup : String → List (String × A) → Option A
  lookup key [] = none
  lookup key ((name, value) ∷ rest) = if name == key then some value else lookup key rest

  -- `entries[key] = new`: the entry keeps its place, a new one goes to the end.
  unfoldable pub insert : String → A → List (String × A) → List (String × A)
  insert key new [] = (key, new) ∷ []
  insert key new ((name, value) ∷ rest) =
      if name == key then (name, new) ∷ rest else (name, value) ∷ insert key new rest

  pub lookup-insert :
      (key other : String) (new : A) (entries : List (String × A))
      → lookup other (insert key new entries)
        ≡ (if key == other then some new else lookup other entries)
  unfolding lookup insert
  lookup-insert key other new [] = refl
  lookup-insert key other new ((name, value) ∷ rest) =
      let later = lookup-insert key other new rest in
      ground (arith, later, eq_iff name key, eq_iff name other, eq_iff key other)

-- `x in xs`
abbrev pub contains : String → List String → Bool
contains x [] = false
contains x (y ∷ ys) = (x == y) || contains x ys

pub contains-append :
    (x : String) (xs ys : List String) → contains x (xs ++ ys) ≡ (contains x xs || contains x ys)
contains-append x [] ys = refl
contains-append x (y ∷ xs) ys = ground (arith, contains-append x xs ys)

-- No name stands twice.
abbrev pub distinct : List String → Bool
distinct [] = true
distinct (x ∷ xs) = not (contains x xs) && distinct xs
