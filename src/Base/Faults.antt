-- ===== src/Base/Faults.antt =====
-- Results of code that can throw, or whose behaviour the language leaves undefined.

-- The exceptions of the standard and JSON libraries that the source lets pass, and undefined
-- behaviour: a read of what was never written, or a `bool` made from a byte other than 0 and 1.
pub data Fault : Type 0 where
  invalid_argument out_of_range type_error parse_error invalid_iterator undefined : Fault

pub data Result {ℓ} (Value : Type ℓ) : Type ℓ where
  err : Fault → Result Value
  ok : Value → Result Value

module _ {ℓ κ} {A : Type ℓ} {B : Type κ} where
  infixl 5 ◌>>=◌
  -- A fault passes by the code behind it.
  abbrev pub ◌>>=◌ : Result A → (A → Result B) → Result B
  err fault >>= next = err fault
  ok value >>= next = next value

-- What holds of a result if there is one.
abbrev pub IfOk {ℓ κ} : {A : Type ℓ} → (A → Type κ) → Result A → Type κ
IfOk P (ok a) = P a
IfOk P (err e) = Unit

pub IfOk-bind {ℓ κ λ₁ λ₂} :
    {A : Type ℓ} {B : Type κ} (P : A → Type λ₁) (Q : B → Type λ₂) (m : Result A) (f : A → Result B)
    → IfOk P m
    → ((a : A) → P a → IfOk Q (f a))
    → IfOk Q (m >>= f)
IfOk-bind P Q (ok a) f h k = k a h
IfOk-bind P Q (err e) f h k = tt

-- Where nothing is known of the first step's result.
pub IfOk-bind_second {ℓ κ λ₂} :
    {A : Type ℓ} {B : Type κ} (Q : B → Type λ₂) (m : Result A) (f : A → Result B)
    → ((a : A) → IfOk Q (f a))
    → IfOk Q (m >>= f)
IfOk-bind_second Q (ok a) f k = k a
IfOk-bind_second Q (err e) f k = tt
