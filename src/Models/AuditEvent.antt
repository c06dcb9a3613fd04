-- ===== src/Models/AuditEvent.antt =====
-- backend/app/audit/models/audit_event.py and the actor of backend/app/audit/context.py.
-- The minimised network columns (`ip_address`, `user_agent`) are left out.
use fastapi_saas_template.Prelude.{ℕ, Option, Text}
use fastapi_saas_template.Audit.Json.{Json}

pub data AuditCategory : Type 0 where
  tenant platform security compliance : AuditCategory

pub data AuditAction : Type 0 where
  organisation_updated organisation_deleted membership_role_changed : AuditAction
  membership_removed invite_created invite_revoked invite_resent user_suspended : AuditAction
  user_restored organisation_suspended organisation_restored platform_staff_created : AuditAction
  platform_staff_suspended platform_staff_restored platform_staff_role_changed : AuditAction
  consent_granted consent_withdrawn privacy_notice_accepted : AuditAction
  data_subject_request_submitted data_subject_request_under_review : AuditAction
  data_subject_request_approved data_subject_request_rejected : AuditAction
  data_subject_request_cancelled data_subject_request_fulfilled : AuditAction
  data_subject_request_erasure_executed data_subject_request_representative_verified : AuditAction
  data_subject_request_representative_rejected export_artifact_requested : AuditAction
  export_artifact_generated export_artifact_failed : AuditAction
  export_artifact_download_url_created export_artifact_delivery_confirmed : AuditAction
  export_artifact_expired : AuditAction

pub data AuditTargetType : Type 0 where
  organisation membership invite user platform_staff privacy_consent : AuditTargetType
  privacy_notice data_subject_request export_artifact : AuditTargetType

pub record AuditContext : Type 0 where
  pub actor_user_id : Option ℕ

pub record AuditEvent : Type 0 where
  pub actor_user_id : Option ℕ
  pub category : AuditCategory
  pub action : AuditAction
  pub target_type : AuditTargetType
  pub target_id : Option ℕ
  pub reason : Option Text
  pub metadata_json : Option Json
