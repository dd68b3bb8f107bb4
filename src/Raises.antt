-- ===== src/Raises.antt =====
-- A Python call that returns or raises. The program's handlers tell a `ValueError` from every other
-- exception; both carry the text that `str(exc)` gives.
use hybridops_core.Prelude.{◌≡◌, refl, Bool, true, false, String, arith}

pub data Raises {ℓ} (A : Type ℓ) : Type ℓ where
  ok : A → Raises A
  value_error : String → Raises A
  other_error : String → Raises A

infixl 5 ◌>>=◌
abbrev pub ◌>>=◌ {ℓ κ} : {A : Type ℓ} {B : Type κ} → Raises A → (A → Raises B) → Raises B
value_error e >>= next = value_error e
other_error e >>= next = other_error e
ok a >>= next = next a

infixl 5 ◌>>◌
abbrev pub ◌>>◌ {κ} : {B : Type κ} → Raises (Unit {0}) → Raises B → Raises B
test >> rest = test >>= λ _. rest

-- `if not test: raise ValueError(message)`
abbrev pub require : Bool → String → Raises (Unit {0})
require true message = ok tt
require false message = value_error message

-- `except ValueError as exc: raise ValueError(f(exc)) from exc`
abbrev pub relabel {ℓ} : {A : Type ℓ} → (String → String) → Raises A → Raises A
relabel f (ok a) = ok a
relabel f (value_error e) = value_error (f e)
relabel f (other_error e) = other_error e

-- A chain that returns: its first call returned, and the rest returned on what it gave.
pub >>=-eq-ok {ℓ κ} :
    {A : Type ℓ} {B : Type κ} (call : Raises A) (next : A → Raises B) {result : B}
    → (call >>= next) ≡ ok result
    → (a : A) × (call ≡ ok a) × (next a ≡ ok result)
>>=-eq-ok (value_error e) next returned = ground arith
>>=-eq-ok (other_error e) next returned = ground arith
>>=-eq-ok (ok a) next returned = (a, refl, returned)

-- The same, handing the parts on.
pub >>=-elim_ok {ℓ κ μ} :
    {A : Type ℓ} {B : Type κ} {C : Type μ} (m : Raises A) (f : A → Raises B) {b : B}
    → (m >>= f) ≡ ok b
    → ((a : A) → m ≡ ok a → f a ≡ ok b → C)
    → C
>>=-elim_ok m f h k = let (a, e, h') = >>=-eq-ok m f h in k a e h'

pub require-eq-ok :
    {B : Type 0} (test : Bool) (message : String) (k : Raises B) {b : B}
    → (require test message >> k) ≡ ok b
    → (test ≡ true) × (k ≡ ok b)
require-eq-ok true message k h = (refl, h)
require-eq-ok false message k h = ground arith
