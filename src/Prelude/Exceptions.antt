-- ===== src/Prelude/Exceptions.antt =====
-- The end of a Python call: a value, or an exception of type `E`.
use mathlib.Core.Path.{◌≡◌, refl}
use mathlib.Core.Logic.{◌⊎◌, inl, inr}
use mathlib.Core.Bool.{Bool, true, false}

pub data Outcome (E A : Type 0) : Type 0 where
  ok : A → Outcome E A
  raise : E → Outcome E A

infixl 5 ◌>>=◌ ◌>>◌
abbrev pub ◌>>=◌ : {E A B : Type 0} → Outcome E A → (A → Outcome E B) → Outcome E B
ok a >>= f = f a
raise e >>= f = raise e

abbrev pub ◌>>◌ : {E B : Type 0} → Outcome E (Unit {0}) → Outcome E B → Outcome E B
m >> k = m >>= λ _. k

-- `if b: raise e`
abbrev pub raise_if : {E : Type 0} → Bool → E → Outcome E (Unit {0})
raise_if true e = raise e
raise_if false e = ok tt

-- A chain that returns has returned at its first call.
pub >>=-eq-ok :
    {X Err Y : Type 0} (call : Outcome Err X) (next : X → Outcome Err Y) {result : Y}
    → (call >>= next) ≡ ok result
    → (x : X) × (call ≡ ok x) × (next x ≡ ok result)
>>=-eq-ok (raise err) next returned = cc
>>=-eq-ok (ok x) next returned = (x, refl, returned)

pub Outcome-cases :
    {E A : Type 0} (m : Outcome E A) → ((a : A) × (m ≡ ok a)) ⊎ ((e : E) × (m ≡ raise e))
Outcome-cases (ok a) = inl (a, refl)
Outcome-cases (raise e) = inr (e, refl)
