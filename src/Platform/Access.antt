-- ===== src/Platform/Access.antt =====
-- backend/app/core/platform/write_context.py: who may act on the platform.
use fastapi_saas_template.Users.{get_current_user_by_external_auth_id}
use fastapi_saas_template.Prelude.{true, false, not, Option, none, some, ◌≡◌, arith}
use fastapi_saas_template.Errors.{Error, Result, ok, err, forbidden, require, ◌>>=◌, ◌>>◌}
use fastapi_saas_template.Session.{Db}
use fastapi_saas_template.Models.User
use fastapi_saas_template.Models.User.{User, AuthenticatedPrincipal}
use fastapi_saas_template.Models.PlatformStaff
use fastapi_saas_template.Models.PlatformStaff.{PlatformStaff, is_platform_admin}
use fastapi_saas_template.Platform.Permissions.{
  PlatformPermission, platform_staff_manage, has_permission,
}
use fastapi_saas_template.Platform.Repository.{get_by_user_id}

pub record PlatformActor : Type 0 where
  pub user : User
  pub staff : PlatformStaff

abbrev pub denied : Error
denied = forbidden "Platform access denied"

abbrev or_denied : {A : Type 0} → Option A → Result A
or_denied none = err denied
or_denied (some a) = ok a

unfoldable pub resolve_active_platform_actor : AuthenticatedPrincipal → Db → Result PlatformActor
resolve_active_platform_actor identity db = do
  user ← or_denied (get_current_user_by_external_auth_id identity db)
  require (not (User.is_suspended user.status)) denied
  staff ← or_denied (get_by_user_id user.id db)
  require (PlatformStaff.is_active staff.status) denied
  ok (record { user = user; staff = staff })

-- The permissions of an actor are those of the staff role.
unfoldable pub resolve_platform_actor :
    AuthenticatedPrincipal → PlatformPermission → Db → Result PlatformActor
resolve_platform_actor identity required_permission db = do
  actor ← resolve_active_platform_actor identity db
  require (has_permission actor.staff.role required_permission) denied
  ok actor

-- What a resolved actor establishes.
pub record IsEntitled (identity : AuthenticatedPrincipal) (permission : PlatformPermission)
    (db : Db) (actor : PlatformActor) : Type 0 where
  pub is_user : get_current_user_by_external_auth_id identity db ≡ some actor.user
  pub user_active : User.is_suspended actor.user.status ≡ false
  pub is_staff : get_by_user_id actor.user.id db ≡ some actor.staff
  pub staff_active : PlatformStaff.is_active actor.staff.status ≡ true
  pub permitted : has_permission actor.staff.role permission ≡ true

-- An actor is resolved exactly when the token's user is active, has an active staff record, and the
-- role of that record grants the permission.
pub resolve_platform_actor_iff :
    (identity : AuthenticatedPrincipal) (permission : PlatformPermission) (db : Db)
    (actor : PlatformActor)
    → (resolve_platform_actor identity permission db ≡ ok actor
        → IsEntitled identity permission db actor)
      × (IsEntitled identity permission db actor
          → resolve_platform_actor identity permission db ≡ ok actor)
unfolding resolve_platform_actor resolve_active_platform_actor
resolve_platform_actor_iff identity permission db actor = (λ h. ground arith, λ e. ground arith)

-- Only platform administrators manage platform staff.
pub manage_needs_admin :
    (identity : AuthenticatedPrincipal) (db : Db) (actor : PlatformActor)
    → resolve_platform_actor identity platform_staff_manage db ≡ ok actor
    → is_platform_admin actor.staff.role ≡ true
unfolding resolve_platform_actor has_permission
manage_needs_admin identity db actor h = ground arith
