-- ===== src/Privacy/Exports/Values.antt =====
-- The values and the guards of the operations of
-- backend/app/privacy/services/export_artifacts.py. The settings that they read are an argument.
use fastapi_saas_template.Prelude.{
  ℕ, ◌+◌, Bool, false, ◌&&◌, ◌||◌, [], ◌∷◌, Option, none, some, ◌==◌, leb, is_some, any, Text,
  codes, text_eq, if◌then◌else◌,
}
use fastapi_saas_template.Errors
use fastapi_saas_template.Errors.{Result, ok, err, conflict, not_found, value_error}
use fastapi_saas_template.Session.{Db, Tx, ask}
use fastapi_saas_template.Audit.Json.{str, dict, no_fields, entry}
use fastapi_saas_template.Models.AuditEvent.{
  AuditAction, AuditContext, AuditEvent, compliance, export_artifact,
}
use fastapi_saas_template.Models.DataSubjectRequest.{
  DataSubjectRequest, is_export, is_approved, is_fulfilled,
}
use fastapi_saas_template.Models.ExportArtifact.{
  ExportArtifact, ExportArtifactStatus, ExportArtifactStorageBackend, queued, processing, ready,
  failed, expired, cancelled, is_failed, is_expired, is_cancelled, backend_eq,
}
use fastapi_saas_template.Privacy.Requests.Repository as Requests
use fastapi_saas_template.Privacy.Requests.Submission.{days}
use fastapi_saas_template.Privacy.Exports.Repository.{get_by_id, get_processing_by_token, same_text}

abbrev pub status_value : ExportArtifactStatus → Text
status_value queued = codes "queued"
status_value processing = codes "processing"
status_value ready = codes "ready"
status_value failed = codes "failed"
status_value expired = codes "expired"
status_value cancelled = codes "cancelled"

-- The event of `_record_event`.
abbrev pub event_of : AuditContext → AuditAction → ExportArtifact → AuditEvent
event_of audit_context action a = record {
  actor_user_id = audit_context.actor_user_id;
  category = compliance;
  action = action;
  target_type = export_artifact;
  target_id = some a.id;
  reason = none;
  metadata_json = some (
      dict (
        entry (codes "status") (str (status_value a.status))
          (entry (codes "format") (str (codes "json_zip")) no_fields)));
}

abbrev pub or_missing : Option DataSubjectRequest → Result DataSubjectRequest
or_missing none = err (not_found "Data subject request not found")
or_missing (some r) = ok r

-- `min`
abbrev pub least : ℕ → ℕ → ℕ
least a b = if leb a b then a else b

-- `if not test: raise error`
abbrev pub ensure : Bool → Errors.Error → Tx (Unit {0})
ensure test e = ask (λ db. Errors.require test e)

-- `_has_export_dsr_participant_links` and the conditions beside it.
abbrev pub has_links : DataSubjectRequest → Bool
has_links r = is_some r.subject_user_id && is_some r.requester_user_id

abbrev pub is_requestable : DataSubjectRequest → Bool
is_requestable r = is_export r.request_type && (is_approved r.status && has_links r)

abbrev pub is_downloadable : Option DataSubjectRequest → Bool
is_downloadable none = false
is_downloadable (some r) =
    has_links r && (is_export r.request_type && (is_approved r.status || is_fulfilled r.status))

-- `_ensure_download_dsr_is_still_eligible`
unfoldable pub ensure_download_dsr_is_still_eligible : ExportArtifact → Tx (Unit {0})
ensure_download_dsr_is_still_eligible artifact = ask (λ db.
    Errors.require (is_downloadable (Requests.get_by_id artifact.data_subject_request_id db))
      (conflict "Export artifact is no longer eligible for download"))

-- What the settings of the exports say.
pub record Settings : Type 0 where
  pub enabled : Bool
  pub storage_backend : ExportArtifactStorageBackend
  pub schema_version : Text
  pub artifact_retention_days : ℕ
  pub download_url_ttl_seconds : ℕ

abbrev pub new_artifact : Settings → ℕ → ℕ → ℕ → DataSubjectRequest → ExportArtifact
new_artifact settings now id requested_by_user_id r = record {
  id = id;
  data_subject_request_id = r.id;
  subject_user_id = r.subject_user_id;
  requester_user_id = r.requester_user_id;
  status = queued;
  storage_backend = settings.storage_backend;
  storage_key = none;
  filename = none;
  content_type = none;
  size_bytes = none;
  checksum_sha256 = none;
  schema_version = settings.schema_version;
  requested_by_user_id = some requested_by_user_id;
  generated_by_user_id = none;
  failure_reason_code = none;
  failure_detail = none;
  queued_at = now;
  started_at = none;
  processing_token = none;
  processing_lease_expires_at = none;
  completed_at = none;
  failed_at = none;
  expires_at = now + days settings.artifact_retention_days;
  download_url_issued_at = none;
  download_url_issue_count = 0;
  downloaded_at = none;
  download_count = 0;
  created_at = now;
}

-- `PreparedExportArchive`, less the path of the temporary file.
pub record PreparedExportArchive : Type 0 where
  pub artifact_id : ℕ
  pub storage_backend : ExportArtifactStorageBackend
  pub storage_key : Text
  pub filename : Text
  pub content_type : Text
  pub size_bytes : ℕ
  pub checksum_sha256 : Text

abbrev pub same_number : Option ℕ → ℕ → Bool
same_number none n = false
same_number (some m) n = m == n

-- `_prepared_metadata_matches_artifact`
abbrev pub matches_artifact : PreparedExportArchive → ExportArtifact → Bool
matches_artifact p a =
    backend_eq a.storage_backend p.storage_backend
    && (same_text a.storage_key p.storage_key
        && (same_text a.filename p.filename
            && (same_text a.content_type p.content_type
                && (same_number a.size_bytes p.size_bytes
                    && same_text a.checksum_sha256 p.checksum_sha256))))

abbrev pub generated : PreparedExportArchive → Option ℕ → ExportArtifact → ExportArtifact
generated p user a = record a {
  filename = some p.filename;
  content_type = some p.content_type;
  size_bytes = some p.size_bytes;
  checksum_sha256 = some p.checksum_sha256;
  generated_by_user_id = user;
}

abbrev pub or_conflict : Option ExportArtifact → Result ExportArtifact
or_conflict none = err (conflict "Export artifact processing lease is no longer active")
or_conflict (some a) = ok a

-- The row by its token, where there is one, or by its id.
abbrev pub target : ℕ → Option Text → Db → Option ExportArtifact
target artifact_id none db = get_by_id artifact_id db
target artifact_id (some token) db = get_processing_by_token artifact_id token db

-- `_EXPORT_GENERATION_FAILURE_CODES`
abbrev pub failure_code : Text → Text
failure_code message =
    if any (text_eq message)
      (codes "artifact_too_large" ∷ codes "dsr_not_found" ∷ codes "dsr_not_export_eligible" ∷ [])
    then message
    else codes "generation_failed"

-- `ExportArtifactStoragePurge`
pub record ExportArtifactStoragePurge : Type 0 where
  pub artifact_id : ℕ
  pub expected_status : ExportArtifactStatus
  pub storage_backend : ExportArtifactStorageBackend
  pub storage_key : Text

-- `_is_non_downloadable_storage_purge_retry`
abbrev pub is_purge_retry : ExportArtifact → Bool
is_purge_retry a =
    (is_expired a.status || is_failed a.status)
    || (is_cancelled a.status
        && same_text a.failure_reason_code (codes "subject_erasure_requested"))

abbrev pub by_system : AuditContext
by_system = record { actor_user_id = none }
