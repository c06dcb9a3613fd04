-- ===== src/Users.antt =====
-- backend/app/users: the repository and the service.
pub mod Writes
pub mod Provisioning
pub mod Kept
pub mod Projected
use fastapi_saas_template.Prelude.{ℕ, Option, none, some, find_first, ◌==◌, text_eq}
use fastapi_saas_template.Errors.{Result, ok, err, not_found}
use fastapi_saas_template.Models.User.{User, AuthenticatedPrincipal}
use fastapi_saas_template.Session.{Db}

-- `UserRepository.get_by_id`
unfoldable pub get_by_id : ℕ → Db → Option User
get_by_id user_id db = find_first (λ u. u.id == user_id) db.users

unfoldable pub or_not_found : Option User → Result User
or_not_found none = err (not_found "User not found")
or_not_found (some user) = ok user

-- `UserService.get_user_by_id`
unfoldable pub get_user_by_id : ℕ → Db → Result User
unfolding or_not_found
get_user_by_id user_id db = or_not_found (get_by_id user_id db)

-- `UserRepository.get_by_external_auth_id`
unfoldable pub get_current_user_by_external_auth_id : AuthenticatedPrincipal → Db → Option User
get_current_user_by_external_auth_id identity db =
    find_first (λ u. text_eq u.external_auth_id identity.external_auth_id) db.users
