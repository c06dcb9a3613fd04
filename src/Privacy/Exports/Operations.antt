-- ===== src/Privacy/Exports/Operations.antt =====
-- Every operation of the service of export artifacts only rewrites the table, whether it returns or
-- raises.
use fastapi_saas_template.Prelude.{
  ℕ, Bool, true, false, not, ◌&&◌, ◌≡◌, refl, List, [], ◌∷◌, Option, none, some, ◌==◌, arith,
  is_some, Text, inl, inr, Bool-cases,
}
use fastapi_saas_template.Exec.{pure, ◌>>◌}
use fastapi_saas_template.Session.{Db, Session}
use fastapi_saas_template.Audit.Events.{record_event, record_event-cases}
use fastapi_saas_template.Models.AuditEvent.{AuditContext, AuditEvent}
use fastapi_saas_template.Models.DataSubjectRequest.{DataSubjectRequest}
use fastapi_saas_template.Models.ExportArtifact.{ExportArtifact}
use fastapi_saas_template.Privacy.Requests.Repository as Requests
use fastapi_saas_template.Privacy.Exports.Execution.{
  ExecutionState, sync_export_dsr_execution_state, write_execution, current_state,
}
use fastapi_saas_template.Privacy.Exports.Service.{
  sync_each, recover_stale_processing_artifacts, claim_queued_artifact_leases,
  request_export_artifact, generate_download_url, after_confirmation, confirm_export_delivery,
  mark_generated_export_artifact_ready, fail_found, mark_export_artifact_failed, expire_each,
  expire_ready_artifacts, clear_found, clear_export_storage_purge_metadata,
}
use fastapi_saas_template.Privacy.Exports.Values.{
  Settings, new_artifact, PreparedExportArchive, ExportArtifactStoragePurge,
  ensure_download_dsr_is_still_eligible, is_purge_retry,
}
use fastapi_saas_template.Privacy.Exports.Rewrites.{same, Keeps, Keeps-bind, IsTidy}
use fastapi_saas_template.Privacy.Exports.Marked.{same-RowKept, purged-id, purged-RowKept}
use fastapi_saas_template.Privacy.Exports.Kept.{
  save-Keeps, create-Keeps, claim_queued_batch-Keeps, recover_stale_processing-Keeps,
  mark_ready-Keeps, mark_failed-Keeps, mark_expired-Keeps, record_download_url_issued-Keeps,
  confirm_delivery-Keeps,
}

record_event-Keeps : (event : AuditEvent) → Keeps (record_event event)
record_event-Keeps event s = elim (record_event-cases event s) [
  | inl e ↦ rw e (same refl)
  | inr (x, e) ↦ rw e (same refl)
]

-- Writing the state of an execution leaves the artifacts alone.
write_execution-artifacts :
    (given : ExecutionState) (now : ℕ) (found : Option DataSubjectRequest) (db : Db)
    → (write_execution (given, now) found db).export_artifacts ≡ db.export_artifacts
unfolding write_execution
write_execution-artifacts given now none db = refl
write_execution-artifacts given now (some r) db = ground arith

sync-Keeps :
    (a : ExportArtifact) (given : ExecutionState) (now : ℕ)
    → Keeps (sync_export_dsr_execution_state a given now)
unfolding sync_export_dsr_execution_state
sync-Keeps a given now s = same (
    write_execution-artifacts (current_state a given now s.db).0 (current_state a given now s.db).1
      (Requests.get_by_id a.data_subject_request_id s.db) s.db)

sync_each-Keeps :
    (now : ℕ) (f : ExportArtifact → Db → ExecutionState) (rows : List ExportArtifact)
    → Keeps (sync_each now f rows)
unfolding sync_each
sync_each-Keeps now f [] = λ s. same refl
sync_each-Keeps now f (row ∷ rows) =
    Keeps-bind _ _ (λ s. same refl)
      (λ given. Keeps-bind _ _ (sync-Keeps row given now) (λ u. sync_each-Keeps now f rows))

-- The end of an operation: the request's state, and the event.
finish-Keeps :
    {B : Type 0} (a : ExportArtifact) (given : ExecutionState) (now : ℕ) (event : AuditEvent)
    (b : B)
    → Keeps (
        sync_export_dsr_execution_state a given now >> (record_event event >> pure {S = Session} b))
finish-Keeps a given now event b =
    Keeps-bind _ _ (sync-Keeps a given now)
      (λ u. Keeps-bind _ _ (record_event-Keeps event) (λ v s. same refl))

module _ (now : ℕ) where
  pub recover-Keeps : (limit : ℕ) → Keeps (recover_stale_processing_artifacts now limit)
  unfolding recover_stale_processing_artifacts
  recover-Keeps limit =
      Keeps-bind _ _ (recover_stale_processing-Keeps now limit)
        (λ rows. Keeps-bind _ _ (sync_each-Keeps now _ rows) (λ u s. same refl))

  pub claim-Keeps :
      (settings : Settings) (uuid4 : ℕ → Text) (batch_size : ℕ)
      → Keeps (claim_queued_artifact_leases now settings uuid4 batch_size)
  unfolding claim_queued_artifact_leases
  claim-Keeps settings uuid4 batch_size = elim (Bool-cases settings.enabled) [
    | inl on ↦ rw on (
        Keeps-bind _ _ (recover-Keeps batch_size) (λ n.
          Keeps-bind _ _ (claim_queued_batch-Keeps uuid4 now batch_size 3600)
            (λ rows. Keeps-bind _ _ (sync_each-Keeps now _ rows) (λ u s. same refl))))
    | inr off ↦ rw off (λ s. same refl)
  ]

  new_artifact-IsTidy :
      (settings : Settings) (id user : ℕ) (r : DataSubjectRequest)
      → IsTidy (new_artifact settings now id user r)
  new_artifact-IsTidy settings id user r = record {
    token = refl;
    lease = refl;
    started = λ e. absurd (cc e);
    delivered = refl;
  }

  pub request_export_artifact-Keeps :
      (settings : Settings) (id request_id user : ℕ) (audit_context : AuditContext)
      → Keeps (request_export_artifact now settings id request_id user audit_context)
  unfolding request_export_artifact
  request_export_artifact-Keeps settings id request_id user audit_context =
      Keeps-bind _ _ (λ s. same refl)
        (λ u.
          Keeps-bind _ _ (λ s. same refl)
            (λ dsr.
              Keeps-bind _ _ (λ s. same refl)
                (λ v.
                  Keeps-bind _ _ (create-Keeps _ (new_artifact-IsTidy settings id user dsr))
                    (λ artifact. finish-Keeps artifact _ now _ artifact))))

  pub generate_download_url-Keeps :
      (settings : Settings) (artifact : ExportArtifact) (audit_context : AuditContext)
      → Keeps (generate_download_url now settings artifact audit_context)
  unfolding generate_download_url ensure_download_dsr_is_still_eligible
  generate_download_url-Keeps settings artifact audit_context =
      Keeps-bind _ _ (λ s. same refl)
        (λ a.
          Keeps-bind _ _ (λ s. same refl)
            (λ b.
              Keeps-bind _ _ (λ s. same refl)
                (λ c.
                  Keeps-bind _ _ (λ s. same refl)
                    (λ d.
                      Keeps-bind _ _ (λ s. same refl)
                        (λ e.
                          Keeps-bind _ _ (record_download_url_issued-Keeps now artifact) (λ issued.
                            Keeps-bind _ _ (record_event-Keeps _) (λ u s. same refl)))))))

  after_confirmation-Keeps :
      (audit_context : AuditContext) (delivered : ExportArtifact) (newly : Bool)
      → Keeps (after_confirmation now audit_context (delivered, newly))
  unfolding after_confirmation
  after_confirmation-Keeps audit_context delivered true = finish-Keeps delivered _ now _ delivered
  after_confirmation-Keeps audit_context delivered false =
      elim (Bool-cases (not (is_some delivered.downloaded_at) && (delivered.download_count == 0))) [
        | inl lost ↦ rw lost (λ s. same refl)
        | inr kept ↦ rw kept (λ s. same refl)
      ]

  pub confirm_export_delivery-Keeps :
      (settings : Settings) (artifact : ExportArtifact) (audit_context : AuditContext)
      → Keeps (confirm_export_delivery now settings artifact audit_context)
  unfolding confirm_export_delivery ensure_download_dsr_is_still_eligible
  confirm_export_delivery-Keeps settings artifact audit_context =
      Keeps-bind _ _ (λ s. same refl)
        (λ a.
          Keeps-bind _ _ (λ s. same refl)
            (λ b.
              Keeps-bind _ _ (λ s. same refl)
                (λ c.
                  Keeps-bind _ _ (λ s. same refl)
                    (λ d.
                      Keeps-bind _ _ (λ s. same refl)
                        (λ e.
                          Keeps-bind _ _ (confirm_delivery-Keeps artifact now)
                            (λ p. after_confirmation-Keeps audit_context p.0 p.1))))))

  pub ready-Keeps :
      (artifact_id : ℕ) (prepared : PreparedExportArchive) (user : Option ℕ) (token : Option Text)
      → Keeps (mark_generated_export_artifact_ready now artifact_id prepared user token)
  unfolding mark_generated_export_artifact_ready
  ready-Keeps artifact_id prepared user token =
      Keeps-bind _ _ (λ s. same refl)
        (λ artifact.
          Keeps-bind _ _ (λ s. same refl)
            (λ u.
              Keeps-bind _ _
                (save-Keeps _ artifact (λ x. refl)
                  (λ x. same-RowKept x _ refl refl refl refl refl refl refl))
                (λ saved.
                  Keeps-bind _ _ (mark_ready-Keeps now artifact)
                    (λ marked. finish-Keeps marked _ now _ marked))))

  fail_found-Keeps :
      (code : Text) (user : Option ℕ) (found : Option ExportArtifact)
      → Keeps (fail_found now code user found)
  unfolding fail_found
  fail_found-Keeps code user none = λ s. same refl
  fail_found-Keeps code user (some artifact) =
      Keeps-bind _ _ (mark_failed-Keeps now code _ artifact)
        (λ marked. finish-Keeps marked _ now _ (some marked))

  pub failed-Keeps :
      (artifact_id : ℕ) (exc : Text) (user : Option ℕ) (token : Option Text)
      → Keeps (mark_export_artifact_failed now artifact_id exc user token)
  unfolding mark_export_artifact_failed
  failed-Keeps artifact_id exc user token =
      Keeps-bind _ _ (λ s. same refl) (λ found. fail_found-Keeps _ user found)

  expire_each-Keeps : (rows : List ExportArtifact) → Keeps (expire_each now rows)
  unfolding expire_each
  expire_each-Keeps [] = λ s. same refl
  expire_each-Keeps (row ∷ rows) = Keeps-bind _ _ (mark_expired-Keeps row) (λ marked.
      Keeps-bind _ _ (λ s. same refl)
        (λ given.
          Keeps-bind _ _ (sync-Keeps marked given now)
            (λ u. Keeps-bind _ _ (record_event-Keeps _) (λ v. expire_each-Keeps rows))))

  pub expire_ready_artifacts-Keeps : (limit : ℕ) → Keeps (expire_ready_artifacts now limit)
  unfolding expire_ready_artifacts
  expire_ready_artifacts-Keeps limit =
      Keeps-bind _ _ (λ s. same refl)
        (λ u.
          Keeps-bind _ _ (λ s. same refl)
            (λ rows. Keeps-bind _ _ (expire_each-Keeps rows) (λ v s. same refl)))

clear_found-Keeps : (found : Option ExportArtifact) → Keeps (clear_found found)
unfolding clear_found
clear_found-Keeps none = λ s. same refl
clear_found-Keeps (some artifact) = elim (Bool-cases (is_purge_retry artifact)) [
  | inl retry ↦
      rw retry
        (Keeps-bind _ _ (save-Keeps _ artifact purged-id purged-RowKept) (λ saved s. same refl))
  | inr other ↦ rw other (λ s. same refl)
]

pub clear_export_storage_purge_metadata-Keeps :
    (purge : ExportArtifactStoragePurge) → Keeps (clear_export_storage_purge_metadata purge)
unfolding clear_export_storage_purge_metadata
clear_export_storage_purge_metadata-Keeps purge =
    Keeps-bind _ _ (λ s. same refl) (λ found. clear_found-Keeps found)
