-- ===== src/Privacy/Exports/Service.antt =====
-- The operations of backend/app/privacy/services/export_artifacts.py on the database. The settings
-- that they read, the time, primary keys and `uuid4` are arguments; each operation reads the clock
-- once. The storage of the files is outside, and so is the text of a signed URL.
use fastapi_saas_template.Prelude.{
  ℕ, ◌-◌, Bool, true, false, not, ◌&&◌, List, [], ◌∷◌, Option, none, some, ◌==◌, ltb, is_some, map,
  length, Text, codes, if◌then◌else◌,
}
use fastapi_saas_template.Errors.{ok, conflict, value_error}
use fastapi_saas_template.Exec.{pure, raise, ◌>>=◌, ◌>>◌}
use fastapi_saas_template.Session.{Db, Tx, ask}
use fastapi_saas_template.Audit.Events.{record_event}
use fastapi_saas_template.Models.AuditEvent.{
  AuditContext, export_artifact_requested, export_artifact_generated, export_artifact_failed,
  export_artifact_download_url_created, export_artifact_delivery_confirmed, export_artifact_expired,
}
use fastapi_saas_template.Models.DataSubjectRequest.{DataSubjectRequestExecutionStatus}
use fastapi_saas_template.Models.ExportArtifact.{ExportArtifact, is_ready}
use fastapi_saas_template.Privacy.Requests.Repository as Requests
use fastapi_saas_template.Privacy.Exports.Lifecycle.{clear_export_artifact_storage_metadata}
use fastapi_saas_template.Privacy.Exports.Repository.{
  create, get_storage_purge_target, claim_queued_batch, recover_stale_processing,
  list_expired_ready, mark_ready, mark_failed, mark_expired, save, record_download_url_issued,
  confirm_delivery,
}
use fastapi_saas_template.Privacy.Exports.Execution.{
  state, ExecutionState, execution_state_for_dsr, sync_export_dsr_execution_state,
}
use fastapi_saas_template.Privacy.Exports.Values.{
  event_of, or_missing, least, ensure, is_requestable, ensure_download_dsr_is_still_eligible,
  Settings, new_artifact, PreparedExportArchive, matches_artifact, generated, or_conflict, target,
  failure_code, ExportArtifactStoragePurge, is_purge_retry, by_system,
}

module _ (now : ℕ) where
  -- The loop over claimed, recovered or expired rows that writes each row's state to its request.
  unfoldable pub sync_each :
      (ExportArtifact → Db → ExecutionState) → List ExportArtifact → Tx (Unit {0})
  sync_each f [] = pure tt
  sync_each f (row ∷ rows) = do
    given ← ask (λ db. ok (f row db))
    sync_export_dsr_execution_state row given now
    sync_each f rows

  abbrev state_now : ExportArtifact → Db → ExecutionState
  state_now a db = execution_state_for_dsr a now db

  unfoldable pub recover_stale_processing_artifacts : ℕ → Tx ℕ
  recover_stale_processing_artifacts limit = do
    recovered ← recover_stale_processing now limit
    sync_each state_now recovered
    pure (length recovered)

  unfoldable pub claim_queued_artifact_leases : Settings → (ℕ → Text) → ℕ → Tx (List ExportArtifact)
  claim_queued_artifact_leases settings uuid4 batch_size =
      if not settings.enabled then pure [] else do
        recover_stale_processing_artifacts batch_size
        rows ← claim_queued_batch uuid4 now batch_size 3600
        sync_each (λ a db. state DataSubjectRequestExecutionStatus.processing now) rows
        pure rows

  unfoldable pub request_export_artifact : Settings → ℕ → ℕ → ℕ → AuditContext → Tx ExportArtifact
  request_export_artifact settings id request_id requested_by_user_id audit_context = do
    ensure settings.enabled (conflict "Privacy export artifacts are disabled")
    dsr ← ask (λ db. or_missing (Requests.get_by_id request_id db))
    ensure (is_requestable dsr)
        (conflict "Export artifact can only be requested for approved export data-subject requests")
    artifact ← create (new_artifact settings now id requested_by_user_id dsr)
    sync_export_dsr_execution_state artifact (state DataSubjectRequestExecutionStatus.queued now)
        now
    record_event (event_of audit_context export_artifact_requested artifact)
    pure artifact

  -- The seconds that the signed URL is valid for.
  unfoldable pub generate_download_url : Settings → ExportArtifact → AuditContext → Tx ℕ
  generate_download_url settings artifact audit_context = do
    ensure settings.enabled (conflict "Privacy export artifacts are disabled")
    ensure (is_ready artifact.status) (conflict "Export artifact is not available for download")
    ensure_download_dsr_is_still_eligible artifact
    ensure (ltb now artifact.expires_at) (conflict "Export artifact is expired")
    ensure (is_some artifact.storage_key) (conflict "Export artifact is missing storage key")
    issued ← record_download_url_issued now artifact
    record_event (event_of audit_context export_artifact_download_url_created issued)
    pure (least settings.download_url_ttl_seconds (artifact.expires_at - now))

  unfoldable pub after_confirmation : AuditContext → ExportArtifact × Bool → Tx ExportArtifact
  after_confirmation audit_context (delivered, false) =
      if not (is_some delivered.downloaded_at) && (delivered.download_count == 0)
      then raise (conflict "Export artifact is no longer available for delivery")
      else pure delivered
  after_confirmation audit_context (delivered, true) = do
    sync_export_dsr_execution_state delivered
        (record (state DataSubjectRequestExecutionStatus.delivered now) {
          event_at = delivered.downloaded_at;
        })
        now
    record_event (event_of audit_context export_artifact_delivery_confirmed delivered)
    pure delivered

  unfoldable pub confirm_export_delivery :
      Settings → ExportArtifact → AuditContext → Tx ExportArtifact
  confirm_export_delivery settings artifact audit_context = do
    ensure settings.enabled (conflict "Privacy export artifacts are disabled")
    ensure (is_ready artifact.status) (conflict "Export artifact is not available for delivery")
    ensure_download_dsr_is_still_eligible artifact
    ensure (ltb now artifact.expires_at)
        (conflict "Export artifact delivery cannot be confirmed after expiry")
    ensure (is_some artifact.storage_key) (conflict "Export artifact is missing storage key")
    confirmed ← confirm_delivery artifact now
    after_confirmation audit_context confirmed

  unfoldable pub mark_generated_export_artifact_ready :
      ℕ → PreparedExportArchive → Option ℕ → Option Text → Tx ExportArtifact
  mark_generated_export_artifact_ready artifact_id prepared user token = do
    artifact ← ask (λ db. or_conflict (target artifact_id token db))
    ensure (matches_artifact prepared artifact)
        (conflict "Export artifact upload intent no longer matches")
    save (generated prepared user) artifact
    marked ← mark_ready now artifact
    sync_export_dsr_execution_state marked
        (record (state DataSubjectRequestExecutionStatus.ready now) {
          event_at = marked.completed_at;
        })
        now
    record_event (event_of (record { actor_user_id = user }) export_artifact_generated marked)
    pure marked

  unfoldable pub fail_found : Text → Option ℕ → Option ExportArtifact → Tx (Option ExportArtifact)
  fail_found code user none = pure none
  fail_found code user (some artifact) = do
    marked ← mark_failed now code (codes "Export generation failed") artifact
    sync_export_dsr_execution_state marked
        (record {
          execution_status = DataSubjectRequestExecutionStatus.failed;
          event_at = marked.failed_at;
          failure_reason_code = some code;
          failure_detail = marked.failure_detail;
        })
        now
    record_event (event_of (record { actor_user_id = user }) export_artifact_failed marked)
    pure (some marked)

  -- `exc` is the text of the exception.
  unfoldable pub mark_export_artifact_failed :
      ℕ → Text → Option ℕ → Option Text → Tx (Option ExportArtifact)
  mark_export_artifact_failed artifact_id exc user token = do
    found ← ask (λ db. ok (target artifact_id token db))
    fail_found (failure_code exc) user found

  unfoldable pub expire_each : List ExportArtifact → Tx (Unit {0})
  expire_each [] = pure tt
  expire_each (row ∷ rows) = do
    marked ← mark_expired row
    given ← ask (λ db. ok (state_now marked db))
    sync_export_dsr_execution_state marked given now
    record_event (event_of by_system export_artifact_expired marked)
    expire_each rows

  unfoldable pub expire_ready_artifacts : ℕ → Tx (List ℕ)
  expire_ready_artifacts limit = do
    ensure (ltb 0 limit) (value_error "Export artifact retention limit must be positive")
    rows ← ask (λ db. ok (list_expired_ready now limit db))
    expire_each rows
    pure (map (λ a. a.id) rows)

unfoldable pub clear_found : Option ExportArtifact → Tx Bool
clear_found none = pure false
clear_found (some artifact) =
    if not (is_purge_retry artifact)
    then pure false
    else do save (λ a. (clear_export_artifact_storage_metadata a).0) artifact; pure true

unfoldable pub clear_export_storage_purge_metadata : ExportArtifactStoragePurge → Tx Bool
clear_export_storage_purge_metadata purge = do
  found ← ask (λ db. ok (
      get_storage_purge_target purge.artifact_id purge.expected_status purge.storage_backend
        purge.storage_key db))
  clear_found found
