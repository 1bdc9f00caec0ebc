-- ===== src/Prelude/Results.antt =====
-- Exceptions as values. What was written before an exception stays written, so an operation that
-- may raise returns the state beside its outcome.
use Prim.Native.String.{String}
use mathlib.Core.Logic.{◌⊎◌, inl, inr}
use mathlib.Core.Path.{◌≡◌, refl}

pub data Error : Type 0 where
  value_error : String → Error
  type_error : String → Error
  payload_error : String → Error
  integrity_error : Error

pub data Result {ℓ} (A : Type ℓ) : Type ℓ where
  return : A → Result A
  raise : Error → Result A

infixl 5 ◌>>=◌
abbrev pub ◌>>=◌ {ℓ κ} : {A : Type ℓ} {B : Type κ} → Result A → (A → Result B) → Result B
return a >>= f = f a
raise e >>= f = raise e

-- inversion of a bind that returns
pub >>=-eq-return {ℓ κ} :
    {A : Type ℓ} {B : Type κ} (m : Result A) (f : A → Result B) {b : B}
    → (m >>= f) ≡ return b
    → (a : A) × (m ≡ return a) × (f a ≡ return b)
>>=-eq-return (return a) f h = (a, refl, h)
>>=-eq-return (raise e) f h = cc

pub return_inj {ℓ} : {A : Type ℓ} {a b : A} → return a ≡ return b → a ≡ b
return_inj h = cc

pub Result-cases {ℓ} :
    {A : Type ℓ} (m : Result A) → ((e : Error) × (m ≡ raise e)) ⊎ ((a : A) × (m ≡ return a))
Result-cases (return a) = inr (a, refl)
Result-cases (raise e) = inl (e, refl)
