-- ===== src/Platform/Staff.antt =====
-- backend/app/platform/services/platform_staff.py
pub mod LastAdmin
pub mod Histories
use fastapi_saas_template.Prelude.{
  ℕ, Bool, true, false, not, ◌&&◌, ◌==◌, Option, none, some, any, Text, codes, if◌then◌else◌,
}
use fastapi_saas_template.Errors.{Error, Result, ok, err, conflict, not_found}
use fastapi_saas_template.Exec.{pure, raise, ◌>>=◌, ◌>>◌}
use fastapi_saas_template.Session.{Db, Session, Tx, ask}
use fastapi_saas_template.Users
use fastapi_saas_template.Audit.Json.{Json, str, uuid, dict, no_fields, entry}
use fastapi_saas_template.Audit.Events.{record_event}
use fastapi_saas_template.Models.User
use fastapi_saas_template.Models.AuditEvent.{
  AuditContext, AuditEvent, AuditAction, platform, platform_staff, platform_staff_created,
  platform_staff_role_changed, platform_staff_suspended, platform_staff_restored,
}
use fastapi_saas_template.Models.PlatformStaff.{
  PlatformStaffRole, platform_admin, support_agent, compliance_officer, PlatformStaff, is_active,
  is_platform_admin, role_eq,
}
use fastapi_saas_template.Platform.Repository
use fastapi_saas_template.Platform.Repository.{lock_active_platform_admins}
use fastapi_saas_template.Platform.Access.{PlatformActor}

abbrev role_value : PlatformStaffRole → Json
role_value platform_admin = str (codes "platform_admin")
role_value support_agent = str (codes "support_agent")
role_value compliance_officer = str (codes "compliance_officer")

abbrev event : AuditContext → AuditAction → PlatformStaff → Text → Json → AuditEvent
event audit_context action staff reason metadata = record {
  actor_user_id = audit_context.actor_user_id;
  category = platform;
  action = action;
  target_type = platform_staff;
  target_id = some staff.id;
  reason = some reason;
  metadata_json = some metadata;
}

abbrev or_not_found : Option PlatformStaff → Result PlatformStaff
or_not_found none = err (not_found "Platform staff not found")
or_not_found (some staff) = ok staff

unfoldable pub get_staff : ℕ → Db → Result PlatformStaff
get_staff staff_id db = or_not_found (Repository.get_by_id staff_id db)

-- `any(active_admin.id != staff.id for active_admin in active_admins)`
unfoldable pub has_another_active_admin : PlatformStaff → Db → Bool
has_another_active_admin staff db =
    any (λ active_admin. not (active_admin.id == staff.id)) (lock_active_platform_admins db)

-- The guards of `create_staff` on the user and on an existing record.
check_creation : Option User.User → Option PlatformStaff → Result (Unit {0})
check_creation none existing = err (not_found "User not found")
check_creation (some user) existing =
    if User.is_suspended user.status then err (conflict "User is not active") else elim existing [
      | none ↦ ok tt
      | some staff ↦ err (conflict "Platform staff already exists")
    ]

-- The guards of `change_role` on the record that was found.
unfoldable pub check_role_change :
    PlatformActor → PlatformStaffRole → PlatformStaff → Db → Result (Unit {0})
check_role_change actor role staff db =
    if not (is_active staff.status)
    then err (conflict "Platform staff is not active")
    else if role_eq staff.role role
    then err (conflict "Role is already set")
    else if (staff.user_id == actor.user.id)
        && (is_platform_admin staff.role && not (is_platform_admin role))
    then err (conflict "Cannot demote own platform admin role")
    else if (is_platform_admin staff.role && not (is_platform_admin role))
        && not (has_another_active_admin staff db)
    then err (conflict "Cannot demote last active platform admin")
    else ok tt

-- The guard of `suspend_staff` on the last administrator.
unfoldable pub check_suspension : PlatformStaff → Db → Result (Unit {0})
check_suspension staff db =
    if is_platform_admin staff.role && not (has_another_active_admin staff db)
    then err (conflict "Cannot suspend last active platform admin")
    else ok tt

module _ (reason : Text) (audit_context : AuditContext) where
  unfoldable pub create_staff : ℕ → PlatformActor → ℕ → PlatformStaffRole → Tx PlatformStaff
  unfolding check_creation
  create_staff id actor user_id role = do
    ask (λ db. check_creation (Users.get_by_id user_id db) (Repository.get_by_user_id user_id db))
    staff ← Repository.create_staff id user_id role (some actor.user.id)
    record_event (
        event audit_context platform_staff_created staff reason (
          dict (
            entry (codes "user_id") (uuid user_id)
              (entry (codes "role") (role_value role) no_fields))))
    pure staff

  unfoldable pub change_role : ℕ → PlatformActor → PlatformStaffRole → Tx PlatformStaff
  change_role staff_id actor role = do
    staff ← ask (get_staff staff_id)
    ask (check_role_change actor role staff)
    updated ← Repository.update_role staff role
    record_event (
        event audit_context platform_staff_role_changed updated reason (
          dict (
            entry (codes "old_role") (role_value staff.role) (
              entry (codes "new_role") (role_value role)
                (entry (codes "target_user_id") (uuid updated.user_id) no_fields)))))
    pure updated

  -- The metadata of a suspension and of a restoration.
  abbrev status_metadata : PlatformStaff → Json
  status_metadata staff = dict (
      entry (codes "target_user_id") (uuid staff.user_id)
        (entry (codes "role") (role_value staff.role) no_fields))

  -- The lines of `suspend_staff` after the test for a record that is suspended already.
  unfoldable pub suspend_active : ℕ → PlatformStaff → Tx PlatformStaff
  suspend_active now staff = do
    ask (check_suspension staff)
    stopped ← Repository.suspend now staff reason
    record_event
        (event audit_context platform_staff_suspended stopped reason (status_metadata stopped))
    pure stopped

  unfoldable pub suspend_staff : ℕ → ℕ → PlatformActor → Tx PlatformStaff
  suspend_staff now staff_id actor = do
    staff ← ask (get_staff staff_id)
    if staff.user_id == actor.user.id
        then raise (conflict "Cannot suspend own platform staff record")
        else if not (is_active staff.status)
        then pure staff
        else suspend_active now staff

  unfoldable pub restore_suspended : PlatformStaff → Tx PlatformStaff
  restore_suspended staff = do
    restored ← Repository.restore staff
    record_event
        (event audit_context platform_staff_restored restored reason (status_metadata restored))
    pure restored

  unfoldable pub restore_staff : ℕ → Tx PlatformStaff
  restore_staff staff_id = do
    staff ← ask (get_staff staff_id)
    if is_active staff.status then pure staff else restore_suspended staff
