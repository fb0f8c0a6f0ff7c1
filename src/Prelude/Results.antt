-- ===== src/Prelude/Results.antt =====
-- A Python function that may raise: `err e` is the exception `e`.
use mathlib.Core.Path.{◌≡◌, refl}
use mathlib.Core.Bool.{Bool, true, false}

pub data Result {ι κ} (E : Type ι) (A : Type κ) : Type (ι ⊔ κ) where
  err : E → Result E A
  ok : A → Result E A

-- The next statement runs only if this one returned.
infixl 5 ◌>>=◌ ◌>>◌
abbrev pub ◌>>=◌ {ι ℓ κ} :
    {E : Type ι} {A : Type ℓ} {B : Type κ} → Result E A → (A → Result E B) → Result E B
◌>>=◌ (err raised) next = err raised
◌>>=◌ (ok value) next = next value

abbrev pub ◌>>◌ {ι ℓ} : {E : Type ι} {B : Type ℓ} → Result E (Unit {0}) → Result E B → Result E B
◌>>◌ check next = check >>= (λ done. next)

-- `if not test: raise raised`
abbrev pub guard {ι} : {E : Type ι} → Bool → E → Result E (Unit {0})
guard false raised = err raised
guard true raised = ok tt

-- A chain that returned has a first part that returned.
pub ok_of_bind {ι ℓ κ} :
    {E : Type ι} {A : Type ℓ} {B : Type κ} (first : Result E A) (next : A → Result E B) {b : B}
    → (first >>= next) ≡ ok b
    → (value : A) × (first ≡ ok value) × (next value ≡ ok b)
ok_of_bind (err raised) next h = cc
ok_of_bind (ok value) next h = (value, refl, h)

pub ok_inj {ι ℓ} : {E : Type ι} {A : Type ℓ} {a b : A} → ◌≡◌ {A = Result E A} (ok a) (ok b) → a ≡ b
ok_inj h = cc
