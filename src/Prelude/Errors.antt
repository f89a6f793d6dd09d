-- ===== src/Prelude/Errors.antt =====
-- Exceptions as values. The constructors are the exception classes that the code raises, with the
-- message that it gives them; a failed statement of the database is `integrity_error`, and an exception
-- of another component with a code of its own is `application_error`, by that code.
use Prim.Native.String.{String}
use mathlib.Core.Logic.{◌⊎◌, inl, inr}
use mathlib.Core.Path.{◌≡◌, refl}
use mathlib.Core.Bool.{Bool, true, false}
use agenda_agent.Prelude.Tests.{if◌then◌else◌}

pub data Error : Type 0 where
  value_error : String → Error
  domain_validation_error : String → Error
  runtime_error : String → Error
  overflow_error : String → Error
  integrity_error : String → Error
  operation_conflict : String → Error
  operation_disabled : String → Error
  operation_not_found : String → Error
  delta_state_invalid : String → Error
  calendar_event_not_found : String → Error
  brief_send_uncertain : String → Error
  application_error : String → Error

-- What a call gives: the exception that it raises, or the value that it returns.
pub data Result {ℓ} (Value : Type ℓ) : Type ℓ where
  err : Error → Result Value
  ok : Value → Result Value

infixl 5 ◌>>=◌
-- A raised exception leaves the block.
abbrev pub ◌>>=◌ {ℓ κ} :
    {Old : Type ℓ} {New : Type κ} → Result Old → (Old → Result New) → Result New
err raised >>= rest = err raised
ok value >>= rest = rest value

module _ {ℓ κ} {A : Type ℓ} {B : Type κ} where
  -- A successful bind had a successful first part.
  pub >>=-eq-ok :
      (m : Result A) (rest : A → Result B) {b : B}
      → (m >>= rest) ≡ ok b
      → (a : A) × (m ≡ ok a) × (rest a ≡ ok b)
  >>=-eq-ok (err raised) rest h = cc
  >>=-eq-ok (ok value) rest h = (value, refl, h)

module _ {ℓ} {A : Type ℓ} where
  pub Result-cases : (m : Result A) → ((a : A) × (m ≡ ok a)) ⊎ ((e : Error) × (m ≡ err e))
  Result-cases (err raised) = inr (raised, refl)
  Result-cases (ok value) = inl (value, refl)

  pub ok-injective : {a b : A} → ok a ≡ ok b → a ≡ b
  ok-injective h = cc

  -- What is returned behind a guard has passed it.
  pub passed :
      (b : Bool) (e : Error) (rest : Result A) {a : A}
      → (if b then err e else rest) ≡ ok a
      → (b ≡ false) × (rest ≡ ok a)
  passed true e rest h = cc
  passed false e rest h = (refl, h)
