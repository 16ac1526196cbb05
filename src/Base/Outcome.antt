-- ===== src/Base/Outcome.antt =====
-- Python exceptions as values. A method that mutates its object returns the object beside the
-- outcome, since what was written before a raise stays written.
use aero_risk_ai.Base.{String, ◌≡◌}

pub data Error : Type 0 where
  zero_division : Error
  validation : Error
  overflow : Error
  value_error : String → Error
  runtime : String → Error

pub data Outcome {ℓ} (A : Type ℓ) : Type ℓ where
  ok : A → Outcome A
  err : Error → Outcome A

-- What `asyncio.gather` with `return_exceptions` has of a task. CancelledError is no Exception.
pub data Gathered (A : Type 0) : Type 0 where
  returned : A → Gathered A
  raised : Error → Gathered A
  cancelled : Gathered A

infixl 5 ◌>>=◌
abbrev pub ◌>>=◌ {ℓ κ} : {A : Type ℓ} {B : Type κ} → Outcome A → (A → Outcome B) → Outcome B
ok a >>= f = f a
err e >>= f = err e

pub ok-injective {ℓ} : {A : Type ℓ} {a b : A} → ok a ≡ ok b → a ≡ b
ok-injective h = cc

pub err-ne-ok {ℓ} : {A : Type ℓ} {e : Error} {a : A} → err e ≡ ok a → ⊥
err-ne-ok h = cc
