-- ===== src/Models/User.antt =====
-- backend/app/users/models/user.py, and the principal of backend/app/core/auth.py.
use fastapi_saas_template.Prelude.{ℕ, Bool, Option, Text}

pub data UserStatus : Type 0 where
  active suspended : UserStatus

abbrev pub is_suspended : UserStatus → Bool
is_suspended active = Bool.false
is_suspended suspended = Bool.true

pub record User : Type 0 where
  pub id : ℕ
  pub external_auth_id : Text
  pub email : Option Text
  pub email_verified : Bool
  pub first_name : Option Text
  pub last_name : Option Text
  pub onboarding_completed : Bool
  pub status : UserStatus
  pub suspended_at : Option ℕ
  pub suspended_reason : Option Text

-- The claims of the token that the services read.
pub record AuthenticatedPrincipal : Type 0 where
  pub external_auth_id : Text
  pub email : Option Text
  pub email_verified : Bool
  pub first_name : Option Text
  pub last_name : Option Text
