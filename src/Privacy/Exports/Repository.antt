-- ===== src/Privacy/Exports/Repository.antt =====
-- backend/app/privacy/repositories/export_artifacts.py. The clock is an argument, `uuid4` gives the
-- token of each row that is claimed; row locks and `SKIP LOCKED` are not modelled.
use fastapi_saas_template.Prelude.{
  ℕ, ◌+◌, Bool, true, false, not, ◌&&◌, ◌||◌, List, [], ◌∷◌, ◌++◌, Option, none, some, ◌==◌, leb,
  ltb, if◌then◌else◌, is_some, find_first, select, order_by, any, update, has_key, take, map, Text,
  text_eq,
}
use fastapi_saas_template.Errors.{Result, ok, err, integrity_error, invalid_request, require}
use fastapi_saas_template.Exec.{pure, ◌>>=◌, ◌>>◌}
use fastapi_saas_template.Session.{Db, Tx, ask, modify}
use fastapi_saas_template.Models.DataSubjectRequest.{
  DataSubjectRequest, is_export, is_approved, is_fulfilled,
}
use fastapi_saas_template.Models.ExportArtifact.{
  ExportArtifact, ExportArtifactStatus, ExportArtifactStorageBackend, queued, processing, is_queued,
  is_processing, is_ready, backend_eq, status_eq, key,
}
use fastapi_saas_template.Privacy.Exports.Lifecycle.{
  mark_export_artifact_ready, mark_export_artifact_failed, mark_export_artifact_expired,
}

abbrev pub set_artifacts : List ExportArtifact → Db → Db
set_artifacts rows db = record db { export_artifacts = rows }

-- UPDATE … SET f WHERE p
abbrev pub write : (ExportArtifact → Bool) → (ExportArtifact → ExportArtifact) → Tx (Unit {0})
write p f = modify (λ db. set_artifacts (update p f db.export_artifacts) db)

abbrev pub has_id : ℕ → ExportArtifact → Bool
has_id id a = a.id == id

unfoldable pub get_by_id : ℕ → Db → Option ExportArtifact
get_by_id artifact_id db = find_first (has_id artifact_id) db.export_artifacts

-- `session.refresh(row)` reads the row again, and raises when it is gone.
abbrev or_gone : Option ExportArtifact → Result ExportArtifact
or_gone none = err invalid_request
or_gone (some a) = ok a

unfoldable pub refresh : ℕ → Tx ExportArtifact
refresh id = ask (λ db. or_gone (get_by_id id db))

-- The flush of an attribute's change, and the refresh after it.
unfoldable pub save : (ExportArtifact → ExportArtifact) → ExportArtifact → Tx ExportArtifact
save f artifact = do write (has_id artifact.id) f; refresh artifact.id

-- An INSERT; a primary key that is taken is an integrity error.
unfoldable pub create : ExportArtifact → Tx ExportArtifact
create row = do
  ask (λ db. require (not (has_key key row.id db.export_artifacts)) integrity_error)
  modify (λ db. set_artifacts (db.export_artifacts ++ row ∷ []) db)
  pure row

-- `ORDER BY created_at DESC`: equal times keep the order of the table.
later_first : ExportArtifact → List ExportArtifact → List ExportArtifact
later_first a [] = a ∷ []
later_first a (b ∷ bs) =
    let rest = later_first a bs in if leb b.created_at a.created_at then a ∷ b ∷ bs else b ∷ rest

unfoldable latest_first : List ExportArtifact → List ExportArtifact
unfolding later_first
latest_first [] = []
latest_first (a ∷ others) = later_first a (latest_first others)

unfoldable pub get_by_dsr_id : ℕ → Db → List ExportArtifact
unfolding latest_first
get_by_dsr_id request_id db =
    latest_first (select (λ a. a.data_subject_request_id == request_id) db.export_artifacts)

-- The rows of `claim_queued_batch`, and of `peek_queued_batch`.
unfoldable pub queued_batch : ℕ → Db → List ExportArtifact
queued_batch limit db =
    take limit (order_by (λ a. a.queued_at) (select (λ a. is_queued a.status) db.export_artifacts))

-- The loops over the rows that a query gave.
unfoldable pub write_each : (ExportArtifact → ExportArtifact) → List ExportArtifact → Tx (Unit {0})
write_each f [] = pure tt
write_each f (row ∷ rows) = do write (has_id row.id) f; write_each f rows

abbrev pub claimed_at : (ℕ → Text) → ℕ → ℕ → ExportArtifact → ExportArtifact
claimed_at uuid4 now lease_seconds a = record a {
  status = processing;
  started_at = some now;
  processing_token = some (uuid4 a.id);
  processing_lease_expires_at = some (now + lease_seconds);
}

unfoldable pub claim_queued_batch : (ℕ → Text) → ℕ → ℕ → ℕ → Tx (List ExportArtifact)
claim_queued_batch uuid4 now limit lease_seconds = do
  rows ← ask (λ db. ok (queued_batch limit db))
  write_each (claimed_at uuid4 now lease_seconds) rows
  pure (map (claimed_at uuid4 now lease_seconds) rows)

abbrev pub same_text : Option Text → Text → Bool
same_text none u = false
same_text (some t) u = text_eq t u

abbrev pub is_after : Option ℕ → ℕ → Bool
is_after none now = false
is_after (some at) now = ltb now at

abbrev pub is_before : Option ℕ → ℕ → Bool
is_before none now = false
is_before (some at) now = ltb at now

abbrev pub is_held : ℕ → Text → ExportArtifact → Bool
is_held artifact_id processing_token a =
    (a.id == artifact_id)
    && (is_processing a.status && same_text a.processing_token processing_token)

unfoldable pub get_processing_by_token : ℕ → Text → Db → Option ExportArtifact
get_processing_by_token artifact_id processing_token db =
    find_first (is_held artifact_id processing_token) db.export_artifacts

unfoldable pub renew_found : ℕ → Option ExportArtifact → Tx Bool
renew_found expires_at none = pure false
renew_found expires_at (some artifact) = do
  write (has_id artifact.id) (λ a. record a { processing_lease_expires_at = some expires_at })
  pure true

unfoldable pub renew_processing_lease : ℕ → ℕ → Text → ℕ → Tx Bool
renew_processing_lease now artifact_id processing_token lease_seconds = do
  found ← ask (λ db. ok (get_processing_by_token artifact_id processing_token db))
  renew_found (now + lease_seconds) found

-- The file that an upload intent names.
pub record UploadIntent : Type 0 where
  pub storage_key : Text
  pub filename : Text
  pub content_type : Text
  pub size_bytes : ℕ
  pub checksum_sha256 : Text

abbrev pub is_active : ℕ → Text → ℕ → ExportArtifact → Bool
is_active artifact_id processing_token now a =
    is_held artifact_id processing_token a && is_after a.processing_lease_expires_at now

unfoldable pub get_active_processing_upload_intent :
    ℕ → Text → ℕ → Option ExportArtifactStorageBackend → Option Text → Db → Option ExportArtifact
get_active_processing_upload_intent artifact_id processing_token now backend storage_key db =
    find_first
      (λ a.
        is_active artifact_id processing_token now a
        && (is_some a.storage_key
            && (elim backend [ none ↦ true | some b ↦ backend_eq a.storage_backend b ]
                && elim storage_key [ none ↦ true | some k ↦ same_text a.storage_key k ])))
      db.export_artifacts

unfoldable pub ensure_processing_upload_intent :
    ℕ → Text → UploadIntent → ℕ → Tx (Option ExportArtifact)
ensure_processing_upload_intent artifact_id processing_token intent now = do
  write (λ a. is_active artifact_id processing_token now a && not (is_some a.storage_key))
      λ a. record a {
        storage_key = some intent.storage_key;
        filename = some intent.filename;
        content_type = some intent.content_type;
        size_bytes = some intent.size_bytes;
        checksum_sha256 = some intent.checksum_sha256;
      }
  ask (λ db. ok (get_active_processing_upload_intent artifact_id processing_token now none none db))

abbrev pub is_intended : ℕ → Text → ExportArtifactStorageBackend → Text → ℕ → ExportArtifact → Bool
is_intended artifact_id processing_token backend storage_key now a =
    is_active artifact_id processing_token now a
    && (backend_eq a.storage_backend backend && same_text a.storage_key storage_key)

unfoldable pub reset_processing_upload_intent :
    ℕ → Text → ExportArtifactStorageBackend → Text → ℕ → Tx Bool
reset_processing_upload_intent artifact_id processing_token backend storage_key now = do
  changed ← ask (λ db.
      ok (
        any (is_intended artifact_id processing_token backend storage_key now) db.export_artifacts))
  write (is_intended artifact_id processing_token backend storage_key now) λ a. record a {
    storage_key = none;
    filename = none;
    content_type = none;
    size_bytes = none;
    checksum_sha256 = none;
  }
  pure changed

abbrev lease_or_zero : ExportArtifact → ℕ
lease_or_zero a = elim a.processing_lease_expires_at [ none ↦ 0 | some at ↦ at ]

unfoldable pub stale_processing : ℕ → ℕ → Db → List ExportArtifact
stale_processing now limit db = take limit (
    order_by lease_or_zero (
      select (λ a. is_processing a.status && is_before a.processing_lease_expires_at now)
        db.export_artifacts))

abbrev pub requeued : ExportArtifact → ExportArtifact
requeued a = record a {
  status = queued;
  started_at = none;
  processing_token = none;
  processing_lease_expires_at = none;
}

unfoldable pub recover_stale_processing : ℕ → ℕ → Tx (List ExportArtifact)
recover_stale_processing now limit = do
  stale ← ask (λ db. ok (stale_processing now limit db))
  write_each requeued stale
  pure (map requeued stale)

unfoldable pub list_expired_ready : ℕ → ℕ → Db → List ExportArtifact
list_expired_ready now limit db = take limit (
    order_by (λ a. a.expires_at)
      (select (λ a. is_ready a.status && leb a.expires_at now) db.export_artifacts))

unfoldable pub get_storage_purge_target :
    ℕ → ExportArtifactStatus → ExportArtifactStorageBackend → Text → Db → Option ExportArtifact
get_storage_purge_target artifact_id expected_status backend storage_key db =
    find_first
      (λ a.
        (a.id == artifact_id)
        && (status_eq a.status expected_status
            && (backend_eq a.storage_backend backend && same_text a.storage_key storage_key)))
      db.export_artifacts

unfoldable pub mark_ready : ℕ → ExportArtifact → Tx ExportArtifact
mark_ready now artifact = save (λ a. (mark_export_artifact_ready now a).0) artifact

unfoldable pub mark_failed : ℕ → Text → Text → ExportArtifact → Tx ExportArtifact
mark_failed now reason_code detail artifact =
    save (λ a. (mark_export_artifact_failed reason_code detail now a).0) artifact

unfoldable pub mark_expired : ExportArtifact → Tx ExportArtifact
mark_expired artifact = save (λ a. (mark_export_artifact_expired a).0) artifact

unfoldable pub record_download_url_issued : ℕ → ExportArtifact → Tx ExportArtifact
record_download_url_issued now artifact =
    save
      (λ a. record a {
        download_url_issue_count = a.download_url_issue_count + 1;
        download_url_issued_at = some now;
      })
      artifact

-- The subquery `eligible_dsr`.
abbrev pub is_eligible : ExportArtifact → DataSubjectRequest → Bool
is_eligible a r =
    (r.id == a.data_subject_request_id)
    && (is_export r.request_type
        && ((is_approved r.status || is_fulfilled r.status)
            && (is_some r.subject_user_id && is_some r.requester_user_id)))

-- The conditions of `confirm_delivery`.
abbrev pub is_deliverable : ℕ → ℕ → List DataSubjectRequest → ExportArtifact → Bool
is_deliverable artifact_id at requests a =
    (a.id == artifact_id)
    && (not (is_some a.downloaded_at)
        && ((a.download_count == 0)
            && (is_ready a.status
                && (ltb at a.expires_at
                    && (is_some a.storage_key && any (is_eligible a) requests)))))

abbrev pub delivered_at : ℕ → ExportArtifact → ExportArtifact
delivered_at at a = record a { download_count = 1; downloaded_at = some at }

-- The row that is refreshed, and whether the UPDATE changed it.
unfoldable pub confirm_delivery : ExportArtifact → ℕ → Tx (ExportArtifact × Bool)
confirm_delivery artifact at = do
  changed ←
      ask (λ db.
        ok (any (is_deliverable artifact.id at db.data_subject_requests) db.export_artifacts))
  modify λ db.
      set_artifacts
        (update (is_deliverable artifact.id at db.data_subject_requests) (delivered_at at)
          db.export_artifacts)
        db
  fresh ← refresh artifact.id
  pure (fresh, changed)
