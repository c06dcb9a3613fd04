-- ===== src/Users/Provisioning.antt =====
-- The projection of a token on the table of users, from backend/app/users/services/users.py.
use fastapi_saas_template.Prelude.{
  ℕ, Bool, true, false, not, ◌||◌, Option, none, some, Text, text_eq, if◌then◌else◌,
}
use fastapi_saas_template.Errors.{ok, conflict}
use fastapi_saas_template.Exec.{pure, raise, ◌>>=◌}
use fastapi_saas_template.Session.{Tx, ask, on_integrity_error, nested_or}
use fastapi_saas_template.Models.User.{User, AuthenticatedPrincipal}
use fastapi_saas_template.Users.{get_current_user_by_external_auth_id}
use fastapi_saas_template.Users.Writes.{create, update_profile_fields}

abbrev same_text : Option Text → Option Text → Bool
same_text none none = true
same_text (some x) (some y) = text_eq x y
same_text _ _ = false

abbrev same_bit : Bool → Bool → Bool
same_bit true b = b
same_bit false b = not b

unfoldable pub needs_update : User → AuthenticatedPrincipal → Bool
needs_update user identity =
    not (same_text user.email identity.email)
    || (not (same_bit user.email_verified identity.email_verified)
        || (not (same_text user.first_name identity.first_name)
            || not (same_text user.last_name identity.last_name)))

unfoldable pub refresh_current_user_profile : User → AuthenticatedPrincipal → Tx User
refresh_current_user_profile user identity =
    if needs_update user identity
    then on_integrity_error (conflict "User profile conflicts with existing data")
        (update_profile_fields user identity)
    else pure user

-- The `except IntegrityError` branch: another request may have created the user.
unfoldable pub existing_or_conflict : Option User → Tx User
existing_or_conflict none = raise (conflict "Unable to provision local user projection")
existing_or_conflict (some existing) = pure existing

unfoldable pub create_or_refresh : ℕ → AuthenticatedPrincipal → Option User → Tx User
create_or_refresh id identity none = nested_or (create id identity) (do
  existing ← ask (λ db. ok (get_current_user_by_external_auth_id identity db))
  existing_or_conflict existing)
create_or_refresh id identity (some user) = refresh_current_user_profile user identity

unfoldable pub get_or_create_current_user : ℕ → AuthenticatedPrincipal → Tx User
get_or_create_current_user id identity = do
  user ← ask (λ db. ok (get_current_user_by_external_auth_id identity db))
  create_or_refresh id identity user
