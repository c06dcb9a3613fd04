-- ===== src/Models/ExportArtifact.antt =====
-- backend/app/privacy/models/export_artifact.py. `format` has one member and is left out.
use fastapi_saas_template.Prelude.{ℕ, Bool, true, false, Option, Text}

pub data ExportArtifactStatus : Type 0 where
  queued processing ready failed expired cancelled : ExportArtifactStatus

pub data ExportArtifactStorageBackend : Type 0 where
  local s3_compatible : ExportArtifactStorageBackend

abbrev pub is_queued : ExportArtifactStatus → Bool
is_queued queued = true
is_queued _ = false

abbrev pub is_processing : ExportArtifactStatus → Bool
is_processing processing = true
is_processing _ = false

abbrev pub is_ready : ExportArtifactStatus → Bool
is_ready ready = true
is_ready _ = false

abbrev pub is_failed : ExportArtifactStatus → Bool
is_failed failed = true
is_failed _ = false

abbrev pub is_expired : ExportArtifactStatus → Bool
is_expired expired = true
is_expired _ = false

abbrev pub is_cancelled : ExportArtifactStatus → Bool
is_cancelled cancelled = true
is_cancelled _ = false

abbrev pub backend_eq : ExportArtifactStorageBackend → ExportArtifactStorageBackend → Bool
backend_eq local local = true
backend_eq s3_compatible s3_compatible = true
backend_eq _ _ = false

abbrev pub status_eq : ExportArtifactStatus → ExportArtifactStatus → Bool
status_eq queued queued = true
status_eq processing processing = true
status_eq ready ready = true
status_eq failed failed = true
status_eq expired expired = true
status_eq cancelled cancelled = true
status_eq _ _ = false

pub record ExportArtifact : Type 0 where
  pub id : ℕ
  pub data_subject_request_id : ℕ
  pub subject_user_id : Option ℕ
  pub requester_user_id : Option ℕ
  pub status : ExportArtifactStatus
  pub storage_backend : ExportArtifactStorageBackend
  pub storage_key : Option Text
  pub filename : Option Text
  pub content_type : Option Text
  pub size_bytes : Option ℕ
  pub checksum_sha256 : Option Text
  pub schema_version : Text
  pub requested_by_user_id : Option ℕ
  pub generated_by_user_id : Option ℕ
  pub failure_reason_code : Option Text
  pub failure_detail : Option Text
  pub queued_at : ℕ
  pub started_at : Option ℕ
  pub processing_token : Option Text
  pub processing_lease_expires_at : Option ℕ
  pub completed_at : Option ℕ
  pub failed_at : Option ℕ
  pub expires_at : ℕ
  pub download_url_issued_at : Option ℕ
  pub download_url_issue_count : ℕ
  pub downloaded_at : Option ℕ
  pub download_count : ℕ
  pub created_at : ℕ

abbrev pub key : ExportArtifact → ℕ
key a = a.id
