-- ===== src/Prelude/Outcome.antt =====
-- What a Go function comes to: its value, its error, or a run-time panic. `E` is the type of the
-- errors of one program.
use mathlib.Core.Path.{◌≡◌, refl}

pub data Result {ℓ κ} (E : Type ℓ) (A : Type κ) : Type (ℓ ⊔ κ) where
  ok : A → Result E A
  err : E → Result E A
  panic : Result E A

infixl 5 ◌>>=◌ ◌>>◌
abbrev pub ◌>>=◌ {ℓ κ μ} :
    {E : Type ℓ} {A : Type κ} {B : Type μ} → Result E A → (A → Result E B) → Result E B
ok a >>= f = f a
err e >>= f = err e
panic >>= f = panic

abbrev pub ◌>>◌ {ℓ κ μ} :
    {E : Type ℓ} {A : Type κ} {B : Type μ} → Result E A → Result E B → Result E B
m >> k = m >>= λ _. k

-- A sequence that returns a value has a first part that returns one.
pub >>=-eq-ok {ℓ κ μ} :
    {E : Type ℓ} {A : Type κ} {B : Type μ} (first : Result E A) (rest : A → Result E B) {b : B}
    → (first >>= rest) ≡ ok b
    → (value : A) × (first ≡ ok value) × (rest value ≡ ok b)
>>=-eq-ok (ok value) rest returns = (value, refl, returns)
>>=-eq-ok (err e) rest returns = cc
>>=-eq-ok panic rest returns = cc
