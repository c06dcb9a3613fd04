-- ===== src/Users/Writes.antt =====
-- The writes of backend/app/users/repositories/users.py.
use fastapi_saas_template.Prelude.{
  ℕ, Bool, true, false, not, ◌&&◌, List, [], ◌∷◌, ◌++◌, Option, none, any, Text, text_eq,
  if◌then◌else◌, update_row,
}
use fastapi_saas_template.Errors.{ok, err, integrity_error}
use fastapi_saas_template.Exec.{pure, ◌>>◌}
use fastapi_saas_template.Session.{Tx, modify}
use fastapi_saas_template.Models.User.{User, UserStatus, AuthenticatedPrincipal, active}

abbrev pub key : User → ℕ
key u = u.id

-- The unique constraint on `external_auth_id`.
unfoldable pub constraint_holds : List User → Bool
constraint_holds [] = true
constraint_holds (u ∷ us) =
    not (any (λ v. text_eq u.external_auth_id v.external_auth_id) us) && constraint_holds us

unfoldable pub flush : Tx (Unit {0})
flush s = (if constraint_holds s.db.users then ok tt else err integrity_error, s)

abbrev pub new_user : ℕ → AuthenticatedPrincipal → User
new_user id identity = record {
  id = id;
  external_auth_id = identity.external_auth_id;
  email = identity.email;
  email_verified = identity.email_verified;
  first_name = identity.first_name;
  last_name = identity.last_name;
  onboarding_completed = false;
  status = active;
  suspended_at = none;
  suspended_reason = none;
}

-- The new row's primary key is drawn by the caller (`uuid4`).
unfoldable pub create : ℕ → AuthenticatedPrincipal → Tx User
create id identity = do
  modify λ db. record db { users = db.users ++ new_user id identity ∷ [] }
  flush
  pure (new_user id identity)

abbrev pub with_profile : AuthenticatedPrincipal → User → User
with_profile identity u = record u {
  email = identity.email;
  email_verified = identity.email_verified;
  first_name = identity.first_name;
  last_name = identity.last_name;
}

unfoldable pub update_profile_fields : User → AuthenticatedPrincipal → Tx User
update_profile_fields user identity = do
  modify λ db. record db { users = update_row key user.id (with_profile identity) db.users }
  flush
  pure (with_profile identity user)

abbrev pub with_status : UserStatus → Option ℕ → Option Text → User → User
with_status status suspended_at suspended_reason u = record u {
  status = status;
  suspended_at = suspended_at;
  suspended_reason = suspended_reason;
}

unfoldable pub set_status : User → UserStatus → Option ℕ → Option Text → Tx User
set_status user status suspended_at suspended_reason = do
  modify λ db. record db {
    users = update_row key user.id (with_status status suspended_at suspended_reason) db.users;
  }
  flush
  pure (with_status status suspended_at suspended_reason user)
