-- ===== src/Tests/Platform.antt =====
-- The theorems of Platform at concrete inputs.
use fastapi_saas_template.Prelude.{
  ℕ, Bool, true, false, some, ◌==◌, ◌≡◌, refl, none, [], ◌∷◌, codes, arith, count, has_key,
  find_first, select, any, update_row, text_eq,
}
use fastapi_saas_template.Errors.{Result, ok, err}
use fastapi_saas_template.Exec.{◌>>=◌}
use fastapi_saas_template.Session.{Db, Session, on_integrity_error}
use fastapi_saas_template.Audit.Events.{record_event}
use fastapi_saas_template.Audit.Metadata.{
  validate_metadata_json, validate_no_forbidden_metadata_keys, calculate_json_depth, dumps_size,
}
use fastapi_saas_template.Models.User.{AuthenticatedPrincipal}
use fastapi_saas_template.Models.PlatformStaff.{
  PlatformStaffRole, PlatformStaff, platform_admin, support_agent, is_platform_admin,
}
use fastapi_saas_template.Users.{get_current_user_by_external_auth_id}
use fastapi_saas_template.Platform.Permissions.{platform_staff_manage, has_permission}
use fastapi_saas_template.Platform.Repository
use fastapi_saas_template.Platform.Access.{
  PlatformActor, denied, IsEntitled, resolve_platform_actor, resolve_active_platform_actor,
  resolve_platform_actor_iff, manage_needs_admin,
}
use fastapi_saas_template.Platform.Staff.{
  get_staff, has_another_active_admin, check_role_change, change_role, check_suspension,
  suspend_staff, suspend_active,
}
use fastapi_saas_template.Platform.Staff.LastAdmin.{HasAdmin}
use fastapi_saas_template.Platform.Staff.Histories.{
  StaffHistory, here, next, role_changed, stopped, StaffHistory-HasAdmin,
}
use fastapi_saas_template.Platform.Users.{suspend_user, suspend_found, restore_user, restore_found}
use fastapi_saas_template.Platform.Histories
use fastapi_saas_template.Platform.Histories.{PlatformHistory}
use fastapi_saas_template.Users.Provisioning.{
  get_or_create_current_user, create_or_refresh, refresh_current_user_profile, needs_update,
}
use fastapi_saas_template.Platform.Suspended.{suspend_user-denied}
use fastapi_saas_template.Models.User
use fastapi_saas_template.Models.User.{User}
use fastapi_saas_template.Users.{get_user_by_id}
use fastapi_saas_template.Users
use fastapi_saas_template.Users.Writes
use fastapi_saas_template.Users.Writes.{
  update_profile_fields, with_profile, set_status, with_status, constraint_holds,
}
use fastapi_saas_template.Tests.Fixture.{user, tenant_db, session, acting}

abbrev staff : ℕ → ℕ → PlatformStaffRole → PlatformStaff
staff id user_id role = Repository.new_staff id user_id role none

abbrev platform_db : Db
platform_db = record tenant_db {
  platform_staff =
      staff 30 10 platform_admin ∷ staff 31 11 platform_admin ∷ staff 32 12 support_agent ∷ [];
}

abbrev start : Session
start = session platform_db

abbrev boss : PlatformActor
boss = record { user = user 10; staff = staff 30 10 platform_admin }

abbrev token : ℕ → AuthenticatedPrincipal
token id = record {
  external_auth_id = id ∷ [];
  email = none;
  email_verified = true;
  first_name = none;
  last_name = none;
}

-- All that a run computes through.
running : Bool
unfolding suspend_user suspend_found restore_user restore_found get_or_create_current_user
    create_or_refresh refresh_current_user_profile needs_update update_profile_fields
    on_integrity_error set_status Writes.flush constraint_holds get_user_by_id Users.get_by_id
    change_role suspend_staff suspend_active get_staff has_another_active_admin check_role_change
    check_suspension Repository.get_by_id Repository.get_by_user_id
    Repository.lock_active_platform_admins Repository.update_role Repository.suspend ◌>>=◌
    record_event validate_metadata_json validate_no_forbidden_metadata_keys calculate_json_depth
    dumps_size count has_key find_first select any update_row text_eq has_permission
    get_current_user_by_external_auth_id resolve_platform_actor resolve_active_platform_actor
running = true

abbrev demoted : Session
demoted = (change_role (codes "other") (acting 10) 31 boss support_agent start).1

-- Of two administrators one is demoted; then the support agent is suspended.
history : StaffHistory start (suspend_staff (codes "other") (acting 10) 7 32 boss demoted).1
unfolding running
history =
    next
      (next here (
        role_changed (codes "other") (acting 10) 31 boss support_agent (staff 31 11 support_agent)
          refl))
      (stopped (codes "other") (acting 10) 7 32 boss
        (Repository.suspended_row 7 (codes "other") (staff 32 12 support_agent)) refl)

StaffHistory-HasAdmin_example :
    HasAdmin (suspend_staff (codes "other") (acting 10) 7 32 boss demoted).1.db
unfolding running
StaffHistory-HasAdmin_example =
    StaffHistory-HasAdmin history
      (record { distinct = (refl, (refl, (refl, tt))); some_admin = omega arith })

resolve_platform_actor_iff_example :
    (resolve_platform_actor (token 10) platform_staff_manage platform_db ≡ ok boss
      → IsEntitled (token 10) platform_staff_manage platform_db boss)
    × (IsEntitled (token 10) platform_staff_manage platform_db boss
        → resolve_platform_actor (token 10) platform_staff_manage platform_db ≡ ok boss)
resolve_platform_actor_iff_example =
    resolve_platform_actor_iff (token 10) platform_staff_manage platform_db boss

manage_needs_admin_example : is_platform_admin platform_admin ≡ true
unfolding running
manage_needs_admin_example = manage_needs_admin (token 10) platform_db boss refl

abbrev suspended_run : Result User × Session
suspended_run = suspend_user (codes "abuse") (acting 10) 500 11 boss start

abbrev suspended_user : User
suspended_user = with_status User.suspended (some 500) (some (codes "abuse")) (user 11)

-- Then the token is projected again, with a profile that changed, another user is suspended and
-- restored, and the role of the user's staff record is changed.
abbrev renamed : AuthenticatedPrincipal
renamed = record (token 11) { first_name = some (codes "Ann") }

abbrev projected_run : Result User × Session
projected_run = get_or_create_current_user 70 renamed suspended_run.1

abbrev other_run : Result User × Session
other_run = suspend_user (codes "abuse") (acting 10) 600 12 boss projected_run.1

abbrev restored_run : Result User × Session
restored_run = restore_user (codes "appeal") (acting 10) 12 other_run.1

abbrev demoted_run : Result PlatformStaff × Session
demoted_run = change_role (codes "other") (acting 10) 31 boss support_agent restored_run.1

later : PlatformHistory 11 suspended_run.1 demoted_run.1
unfolding running
later =
    Histories.next
      (Histories.next
        (Histories.next
          (Histories.next Histories.here (Histories.projected 70 renamed projected_run.0 refl refl))
          (Histories.suspended (codes "abuse") (acting 10) 600 12 boss other_run.0 refl))
        (Histories.restored (codes "appeal") (acting 10) 12 restored_run.0 refl refl))
      (Histories.role_changed (codes "other") (acting 10) 31 boss support_agent demoted_run.0 refl)

suspend_user-denied_example :
    ((boss.user.id == 11) ≡ false)
    × (resolve_active_platform_actor (token 11) demoted_run.1.db ≡ err denied)
unfolding running
suspend_user-denied_example =
    suspend_user-denied (codes "abuse") (acting 10) 500 11 boss start suspended_run.1 suspended_user
      (refl, (refl, (refl, (refl, tt)))) refl demoted_run.1 later (token 11)
      (with_profile renamed suspended_user) refl refl
