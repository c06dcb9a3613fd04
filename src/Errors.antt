-- ===== src/Errors.antt =====
-- The exceptions that the services raise (backend/app/core/errors/exceptions.py), as results.
-- `value_error`, `integrity_error` and `invalid_request` are those of Python and SQLAlchemy.
use fastapi_saas_template.Prelude.{String, Bool, true, false, ◌≡◌, refl}

pub data Error : Type 0 where
  bad_request conflict forbidden not_found value_error too_many_requests : String → Error
  integrity_error invalid_request : Error

pub data Result (A : Type 0) : Type 0 where
  err : Error → Result A
  ok : A → Result A

infixl 10 ◌>>=◌ ◌>>◌
abbrev pub ◌>>=◌ : {A B : Type 0} → Result A → (A → Result B) → Result B
err e >>= next = err e
ok a >>= next = next a

abbrev pub ◌>>◌ : {B : Type 0} → Result (Unit {0}) → Result B → Result B
m >> next = m >>= λ _. next

-- `if not test: raise error`
abbrev pub require : Bool → Error → Result (Unit {0})
require true e = ok tt
require false e = err e

-- A chain that returned had each of its parts return.
pub bind-ok :
    {A B : Type 0} (r : Result A) (f : A → Result B) (b : B)
    → r >>= f ≡ ok b
    → (a : A) × (r ≡ ok a) × (f a ≡ ok b)
bind-ok (ok a) f b h = (a, refl, h)
bind-ok (err e) f b h = absurd (cc h)
