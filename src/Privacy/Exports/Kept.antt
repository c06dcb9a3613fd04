-- ===== src/Privacy/Exports/Kept.antt =====
-- The writes of the repository of export artifacts only rewrite the table.
use fastapi_saas_template.Prelude.{
  ℕ, ◌+◌, Bool, true, ◌≡◌, refl, List, [], ◌∷◌, Option, none, some, ◌==◌, arith, Text,
  find_first-holds, find_first-InTable, InTable-unique, has_key, inl, inr, Bool-cases,
}
use fastapi_saas_template.Exec.{◌>>=◌}
use fastapi_saas_template.Session.{Session}
use fastapi_saas_template.Models.ExportArtifact.{
  ExportArtifact, ExportArtifactStorageBackend, key, is_processing,
}
use fastapi_saas_template.Privacy.Exports.Repository.{
  write, has_id, refresh, save, create, write_each, claimed_at, claim_queued_batch, requeued,
  recover_stale_processing, renew_found, renew_processing_lease, get_processing_by_token, is_held,
  UploadIntent, ensure_processing_upload_intent, reset_processing_upload_intent, mark_ready,
  mark_failed, mark_expired, record_download_url_issued, confirm_delivery, is_deliverable,
  delivered_at,
}
use fastapi_saas_template.Privacy.Exports.Rewrites.{
  IsTidy, RowKept, Rewrites, same, set, insert, Keeps, Keeps-bind,
}
use fastapi_saas_template.Privacy.Exports.Marked.{
  same-RowKept, released-RowKept, expired-id, expired-RowKept, ready-id, ready-RowKept, failed-id,
  failed-RowKept,
}

pub write-Keeps :
    (p : ExportArtifact → Bool) (f : ExportArtifact → ExportArtifact)
    → ((x : ExportArtifact) → (f x).id ≡ x.id)
    → ((x : ExportArtifact) → RowKept x (f x))
    → Keeps (write p f)
write-Keeps p f ids kept s = set p f ids (λ x d i h. kept x) refl

pub refresh-Keeps : (id : ℕ) → Keeps (refresh id)
unfolding refresh
refresh-Keeps id s = same refl

pub save-Keeps :
    (f : ExportArtifact → ExportArtifact) (artifact : ExportArtifact)
    → ((x : ExportArtifact) → (f x).id ≡ x.id)
    → ((x : ExportArtifact) → RowKept x (f x))
    → Keeps (save f artifact)
unfolding save
save-Keeps f artifact ids kept =
    Keeps-bind _ _ (write-Keeps (has_id artifact.id) f ids kept) (λ u. refresh-Keeps artifact.id)

pub write_each-Keeps :
    (f : ExportArtifact → ExportArtifact) (rows : List ExportArtifact)
    → ((x : ExportArtifact) → (f x).id ≡ x.id)
    → ((x : ExportArtifact) → RowKept x (f x))
    → Keeps (write_each f rows)
unfolding write_each
write_each-Keeps f [] ids kept = λ s. same refl
write_each-Keeps f (row ∷ rows) ids kept =
    Keeps-bind _ _ (write-Keeps (has_id row.id) f ids kept) (λ u. write_each-Keeps f rows ids kept)

pub create-Keeps : (row : ExportArtifact) → IsTidy row → Keeps (create row)
unfolding create ◌>>=◌
create-Keeps row tidy s = elim (Bool-cases (has_key key row.id s.db.export_artifacts)) [
  | inl taken ↦ rw taken (same refl)
  | inr fresh ↦ rw fresh (insert row fresh tidy refl)
]

claimed-RowKept :
    (uuid4 : ℕ → Text) (now lease_seconds : ℕ) (x : ExportArtifact)
    → RowKept x (claimed_at uuid4 now lease_seconds x)
claimed-RowKept uuid4 now lease_seconds x = record {
  id = refl;
  tidy = λ t. record { token = refl; lease = refl; started = λ e. refl; delivered = t.delivered };
  counted = λ t. omega arith;
}

pub claim_queued_batch-Keeps :
    (uuid4 : ℕ → Text) (now limit lease_seconds : ℕ)
    → Keeps (claim_queued_batch uuid4 now limit lease_seconds)
unfolding claim_queued_batch
claim_queued_batch-Keeps uuid4 now limit lease_seconds =
    Keeps-bind _ _ (λ s. same refl)
      (λ rows.
        Keeps-bind _ _
          (write_each-Keeps (claimed_at uuid4 now lease_seconds) rows (λ x. refl)
            (claimed-RowKept uuid4 now lease_seconds))
          (λ u s. same refl))

pub recover_stale_processing-Keeps : (now limit : ℕ) → Keeps (recover_stale_processing now limit)
unfolding recover_stale_processing
recover_stale_processing-Keeps now limit =
    Keeps-bind _ _ (λ s. same refl)
      (λ rows.
        Keeps-bind _ _
          (write_each-Keeps requeued rows (λ x. refl)
            (λ x. released-RowKept x _ refl refl refl refl refl refl))
          (λ u s. same refl))

-- A held artifact's lease may be renewed.
renewed-RowKept :
    (expires_at : ℕ) (x : ExportArtifact)
    → is_processing x.status ≡ true
    → RowKept x (record x { processing_lease_expires_at = some expires_at })
renewed-RowKept expires_at x h = record {
  id = refl;
  tidy = λ t. record {
    token = t.token;
    lease = rw h refl;
    started = t.started;
    delivered = t.delivered;
  };
  counted = λ t. omega arith;
}

equal_keys : (j k : ℕ) → (j == k) ≡ true → j ≡ k
equal_keys j k h = ground arith

held_is_processing :
    (artifact_id : ℕ) (processing_token : Text) (a : ExportArtifact)
    → is_held artifact_id processing_token a ≡ true
    → is_processing a.status ≡ true
held_is_processing artifact_id processing_token a h = ground arith

renew_found-Keeps :
    (artifact_id : ℕ) (processing_token : Text) (expires_at : ℕ) (s : Session)
    (found : Option ExportArtifact)
    → get_processing_by_token artifact_id processing_token s.db ≡ found
    → Rewrites s.db.export_artifacts (renew_found expires_at found s).1.db.export_artifacts
unfolding renew_found ◌>>=◌ get_processing_by_token
renew_found-Keeps artifact_id processing_token expires_at s none e = same refl
renew_found-Keeps artifact_id processing_token expires_at s (some a) e =
    let rows = s.db.export_artifacts in
    let p = is_held artifact_id processing_token in
    let holds = find_first-holds p rows a e in
    let stored = find_first-InTable p rows a e in
    set (has_id a.id) _ (λ x. refl)
      (λ x d i h.
        let same_id : x.id ≡ a.id = equal_keys x.id a.id h in
        let one : x ≡ a = InTable-unique key rows x a d i stored same_id in
        renewed-RowKept expires_at x
          (rw one (held_is_processing artifact_id processing_token a holds)))
      refl

pub renew_processing_lease-Keeps :
    (now artifact_id : ℕ) (processing_token : Text) (lease_seconds : ℕ)
    → Keeps (renew_processing_lease now artifact_id processing_token lease_seconds)
unfolding renew_processing_lease ◌>>=◌
renew_processing_lease-Keeps now artifact_id processing_token lease_seconds s =
    renew_found-Keeps artifact_id processing_token (now + lease_seconds) s _ refl

pub ensure_processing_upload_intent-Keeps :
    (artifact_id : ℕ) (processing_token : Text) (intent : UploadIntent) (now : ℕ)
    → Keeps (ensure_processing_upload_intent artifact_id processing_token intent now)
unfolding ensure_processing_upload_intent
ensure_processing_upload_intent-Keeps artifact_id processing_token intent now =
    Keeps-bind _ _
      (write-Keeps _ _ (λ x. refl) (λ x. same-RowKept x _ refl refl refl refl refl refl refl))
      (λ u s. same refl)

pub reset_processing_upload_intent-Keeps :
    (artifact_id : ℕ) (processing_token : Text) (backend : ExportArtifactStorageBackend)
    (storage_key : Text) (now : ℕ)
    → Keeps (reset_processing_upload_intent artifact_id processing_token backend storage_key now)
unfolding reset_processing_upload_intent
reset_processing_upload_intent-Keeps artifact_id processing_token backend storage_key now =
    Keeps-bind _ _ (λ s. same refl)
      (λ changed.
        Keeps-bind _ _
          (write-Keeps _ _ (λ x. refl) (λ x. same-RowKept x _ refl refl refl refl refl refl refl))
          (λ u s. same refl))

pub mark_ready-Keeps : (now : ℕ) (a : ExportArtifact) → Keeps (mark_ready now a)
unfolding mark_ready
mark_ready-Keeps now a = save-Keeps _ a (ready-id now) (ready-RowKept now)

pub mark_failed-Keeps :
    (now : ℕ) (reason_code detail : Text) (a : ExportArtifact)
    → Keeps (mark_failed now reason_code detail a)
unfolding mark_failed
mark_failed-Keeps now reason_code detail a =
    save-Keeps _ a (failed-id reason_code detail now) (failed-RowKept reason_code detail now)

pub mark_expired-Keeps : (a : ExportArtifact) → Keeps (mark_expired a)
unfolding mark_expired
mark_expired-Keeps a = save-Keeps _ a expired-id expired-RowKept

pub record_download_url_issued-Keeps :
    (now : ℕ) (a : ExportArtifact) → Keeps (record_download_url_issued now a)
unfolding record_download_url_issued
record_download_url_issued-Keeps now a =
    save-Keeps _ a (λ x. refl) (λ x. same-RowKept x _ refl refl refl refl refl refl refl)

delivered-RowKept :
    (at : ℕ) (x : ExportArtifact) → x.download_count ≡ 0 → RowKept x (delivered_at at x)
delivered-RowKept at x h = record {
  id = refl;
  tidy = λ t. record { token = t.token; lease = t.lease; started = t.started; delivered = refl };
  counted = λ t. omega (arith, h);
}

pub confirm_delivery-Keeps : (a : ExportArtifact) (at : ℕ) → Keeps (confirm_delivery a at)
unfolding confirm_delivery
confirm_delivery-Keeps a at =
    Keeps-bind _ _ (λ s. same refl)
      (λ changed.
        Keeps-bind _ _
          (λ s.
            set (is_deliverable a.id at s.db.data_subject_requests) (delivered_at at) (λ x. refl)
              (λ x d i h. delivered-RowKept at x (ground arith)) refl)
          (λ u. Keeps-bind _ _ (refresh-Keeps a.id) (λ fresh s. same refl)))
