-- ===== src/Platform/Permissions.antt =====
-- backend/app/core/platform/permissions.py
use fastapi_saas_template.Prelude.{Bool, true, false}
use fastapi_saas_template.Models.PlatformStaff.{
  PlatformStaffRole, platform_admin, support_agent, compliance_officer,
}

pub data PlatformPermission : Type 0 where
  users_read users_read_limited users_suspend users_restore : PlatformPermission
  users_correct_profile : PlatformPermission
  organisations_read organisations_read_limited organisations_suspend : PlatformPermission
  organisations_restore organisations_correct_profile : PlatformPermission
  organisations_emergency_owner_correction : PlatformPermission
  platform_staff_manage audit_read audit_read_limited : PlatformPermission
  privacy_requests_read privacy_requests_review : PlatformPermission
  privacy_requests_execute_erasure : PlatformPermission
  privacy_export_artifacts_read privacy_export_artifacts_manage : PlatformPermission

-- `permission in ROLE_PERMISSIONS[role]`
unfoldable pub has_permission : PlatformStaffRole → PlatformPermission → Bool
has_permission platform_admin permission = true
has_permission support_agent users_read_limited = true
has_permission support_agent organisations_read_limited = true
has_permission support_agent audit_read_limited = true
has_permission support_agent permission = false
has_permission compliance_officer users_read_limited = true
has_permission compliance_officer organisations_read_limited = true
has_permission compliance_officer audit_read = true
has_permission compliance_officer audit_read_limited = true
has_permission compliance_officer privacy_requests_read = true
has_permission compliance_officer privacy_requests_review = true
has_permission compliance_officer privacy_requests_execute_erasure = true
has_permission compliance_officer privacy_export_artifacts_read = true
has_permission compliance_officer privacy_export_artifacts_manage = true
has_permission compliance_officer permission = false
