-- ===== src/Platform/Users.antt =====
-- The decisions of backend/app/platform/services/platform_users.py on an account. They run in the
-- transaction of the caller.
use fastapi_saas_template.Prelude.{ℕ, not, ◌==◌, none, some, Text, if◌then◌else◌}
use fastapi_saas_template.Errors.{conflict}
use fastapi_saas_template.Exec.{pure, raise, ◌>>=◌, ◌>>◌}
use fastapi_saas_template.Session.{Tx, ask}
use fastapi_saas_template.Users.{get_user_by_id}
use fastapi_saas_template.Users.Writes.{set_status}
use fastapi_saas_template.Audit.Events.{record_event}
use fastapi_saas_template.Models.User
use fastapi_saas_template.Models.User.{User, active, suspended}
use fastapi_saas_template.Models.AuditEvent.{
  AuditContext, AuditEvent, AuditAction, platform, user_suspended, user_restored,
}
use fastapi_saas_template.Models.AuditEvent
use fastapi_saas_template.Platform.Access.{PlatformActor}

abbrev pub event : AuditContext → AuditAction → Text → User → AuditEvent
event audit_context action reason u = record {
  actor_user_id = audit_context.actor_user_id;
  category = platform;
  action = action;
  target_type = AuditEvent.AuditTargetType.user;
  target_id = some u.id;
  reason = some reason;
  metadata_json = none;
}

module _ (reason : Text) (audit_context : AuditContext) where
  unfoldable pub suspend_found : ℕ → User → Tx User
  suspend_found now user = if User.is_suspended user.status then pure user else do
    updated ← set_status user suspended (some now) (some reason)
    record_event (event audit_context user_suspended reason updated)
    pure updated

  unfoldable pub suspend_user : ℕ → ℕ → PlatformActor → Tx User
  suspend_user now user_id actor =
      if actor.user.id == user_id
      then raise (conflict "Platform actor cannot suspend own account")
      else do user ← ask (get_user_by_id user_id); suspend_found now user

  unfoldable pub restore_found : User → Tx User
  restore_found user = if not (User.is_suspended user.status) then pure user else do
    updated ← set_status user active none none
    record_event (event audit_context user_restored reason updated)
    pure updated

  unfoldable pub restore_user : ℕ → Tx User
  restore_user user_id = do user ← ask (get_user_by_id user_id); restore_found user
