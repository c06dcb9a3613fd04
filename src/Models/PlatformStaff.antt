-- ===== src/Models/PlatformStaff.antt =====
-- backend/app/platform/models/platform_staff.py
-- The two check constraints make `role` and `status` enumerations.
use fastapi_saas_template.Prelude.{ℕ, Bool, true, false, Option, Text, ◌&&◌}

pub data PlatformStaffRole : Type 0 where
  platform_admin support_agent compliance_officer : PlatformStaffRole

abbrev pub is_platform_admin : PlatformStaffRole → Bool
is_platform_admin platform_admin = true
is_platform_admin _ = false

abbrev pub is_support_agent : PlatformStaffRole → Bool
is_support_agent support_agent = true
is_support_agent _ = false

abbrev pub is_compliance_officer : PlatformStaffRole → Bool
is_compliance_officer compliance_officer = true
is_compliance_officer _ = false

abbrev pub role_eq : PlatformStaffRole → PlatformStaffRole → Bool
role_eq platform_admin r = is_platform_admin r
role_eq support_agent r = is_support_agent r
role_eq compliance_officer r = is_compliance_officer r

pub data PlatformStaffStatus : Type 0 where
  active suspended : PlatformStaffStatus

abbrev pub is_active : PlatformStaffStatus → Bool
is_active active = true
is_active suspended = false

pub record PlatformStaff : Type 0 where
  pub id : ℕ
  pub user_id : ℕ
  pub role : PlatformStaffRole
  pub status : PlatformStaffStatus
  pub created_by_user_id : Option ℕ
  pub suspended_at : Option ℕ
  pub suspended_reason : Option Text

abbrev pub key : PlatformStaff → ℕ
key p = p.id

abbrev pub is_active_admin : PlatformStaff → Bool
is_active_admin p = is_platform_admin p.role && is_active p.status
