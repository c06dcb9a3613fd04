-- ===== src/Privacy/Exports/Histories.antt =====
-- Every history of the operations on export artifacts keeps them in order, and confirms the delivery
-- of an artifact at most once.
use fastapi_saas_template.Prelude.{
  ℕ, ◌≤◌, Bool, true, false, ◌≡◌, ◌≢◌, refl, sym, subst, ◌∙◌, List, Option, arith, Text, any,
  any-InTable, update, has_key-update, InTable-has_key, InTable-unique, AllRows-InTable,
  AllRows-updated,
}
use fastapi_saas_template.Errors.{Result, ok}
use fastapi_saas_template.Exec.{bind-eq-ok}
use fastapi_saas_template.Session.{Session}
use fastapi_saas_template.Models.AuditEvent.{AuditContext}
use fastapi_saas_template.Models.ExportArtifact.{ExportArtifact, ExportArtifactStorageBackend, key}
use fastapi_saas_template.Privacy.Exports.Repository.{
  UploadIntent, renew_processing_lease, ensure_processing_upload_intent,
  reset_processing_upload_intent, confirm_delivery, is_deliverable, delivered_at, refresh,
}
use fastapi_saas_template.Privacy.Exports.Service.{
  recover_stale_processing_artifacts, claim_queued_artifact_leases, request_export_artifact,
  generate_download_url, confirm_export_delivery, mark_generated_export_artifact_ready,
  mark_export_artifact_failed, expire_ready_artifacts, clear_export_storage_purge_metadata,
}
use fastapi_saas_template.Privacy.Exports.Values.{
  Settings, PreparedExportArchive, ExportArtifactStoragePurge,
}
use fastapi_saas_template.Privacy.Exports.Rewrites.{
  Rewrites, same, both, ArtifactsSound, Rewrites-Sound, WasDelivered, CountedAs,
  Rewrites-WasDelivered,
}
use fastapi_saas_template.Privacy.Exports.Kept.{
  renew_processing_lease-Keeps, ensure_processing_upload_intent-Keeps,
  reset_processing_upload_intent-Keeps, confirm_delivery-Keeps,
}
use fastapi_saas_template.Privacy.Exports.Operations.{
  request_export_artifact-Keeps, claim-Keeps, recover-Keeps, generate_download_url-Keeps,
  confirm_export_delivery-Keeps, ready-Keeps, failed-Keeps, expire_ready_artifacts-Keeps,
  clear_export_storage_purge_metadata-Keeps,
}

-- An operation on export artifacts, whether it returned or raised, in a transaction of its own.
pub data ArtifactStep (s t : Session) : Type 0 where
  requested :
      (now : ℕ) (settings : Settings) (id request_id user : ℕ) (audit_context : AuditContext)
      (r : Result ExportArtifact)
      → request_export_artifact now settings id request_id user audit_context s ≡ (r, t)
      → ArtifactStep s t
  claimed :
      (now : ℕ) (settings : Settings) (uuid4 : ℕ → Text) (batch_size : ℕ)
      (r : Result (List ExportArtifact))
      → claim_queued_artifact_leases now settings uuid4 batch_size s ≡ (r, t)
      → ArtifactStep s t
  renewed :
      (now artifact_id : ℕ) (processing_token : Text) (lease_seconds : ℕ) (r : Result Bool)
      → renew_processing_lease now artifact_id processing_token lease_seconds s ≡ (r, t)
      → ArtifactStep s t
  recovered :
      (now limit : ℕ) (r : Result ℕ)
      → recover_stale_processing_artifacts now limit s ≡ (r, t)
      → ArtifactStep s t
  intended :
      (now artifact_id : ℕ) (processing_token : Text) (intent : UploadIntent)
      (r : Result (Option ExportArtifact))
      → ensure_processing_upload_intent artifact_id processing_token intent now s ≡ (r, t)
      → ArtifactStep s t
  reset :
      (now artifact_id : ℕ) (processing_token : Text) (backend : ExportArtifactStorageBackend)
      (storage_key : Text) (r : Result Bool)
      → reset_processing_upload_intent artifact_id processing_token backend storage_key now s
        ≡ (r, t)
      → ArtifactStep s t
  generated :
      (now artifact_id : ℕ) (prepared : PreparedExportArchive) (user : Option ℕ)
      (token : Option Text) (r : Result ExportArtifact)
      → mark_generated_export_artifact_ready now artifact_id prepared user token s ≡ (r, t)
      → ArtifactStep s t
  given_up :
      (now artifact_id : ℕ) (exc : Text) (user : Option ℕ) (token : Option Text)
      (r : Result (Option ExportArtifact))
      → mark_export_artifact_failed now artifact_id exc user token s ≡ (r, t)
      → ArtifactStep s t
  url_issued :
      (now : ℕ) (settings : Settings) (artifact : ExportArtifact) (audit_context : AuditContext)
      (r : Result ℕ)
      → generate_download_url now settings artifact audit_context s ≡ (r, t)
      → ArtifactStep s t
  confirmed :
      (now : ℕ) (settings : Settings) (artifact : ExportArtifact) (audit_context : AuditContext)
      (r : Result ExportArtifact)
      → confirm_export_delivery now settings artifact audit_context s ≡ (r, t)
      → ArtifactStep s t
  run_out :
      (now limit : ℕ) (r : Result (List ℕ))
      → expire_ready_artifacts now limit s ≡ (r, t)
      → ArtifactStep s t
  purged :
      (purge : ExportArtifactStoragePurge) (r : Result Bool)
      → clear_export_storage_purge_metadata purge s ≡ (r, t)
      → ArtifactStep s t

pub data ArtifactHistory (s : Session) : Session → Type 0 where
  here : ArtifactHistory s s
  next : {t u : Session} → ArtifactHistory s t → ArtifactStep t u → ArtifactHistory s u

abbrev artifacts : Session → List ExportArtifact
artifacts s = s.db.export_artifacts

ended :
    {A : Type 0} {xs : List ExportArtifact} {t : Session} {p : Result A × Session} {r : Result A}
    → Rewrites xs p.1.db.export_artifacts
    → p ≡ (r, t)
    → Rewrites xs t.db.export_artifacts
ended {A} {xs} k e = subst (λ (q : Result A × Session). Rewrites xs q.1.db.export_artifacts) e k

ArtifactStep-Rewrites : {s t : Session} → ArtifactStep s t → Rewrites (artifacts s) (artifacts t)
ArtifactStep-Rewrites {s = s} (requested now settings id request_id user c r e) =
    ended (request_export_artifact-Keeps now settings id request_id user c s) e
ArtifactStep-Rewrites {s = s} (claimed now settings uuid4 n r e) =
    ended (claim-Keeps now settings uuid4 n s) e
ArtifactStep-Rewrites {s = s} (renewed now id token n r e) =
    ended (renew_processing_lease-Keeps now id token n s) e
ArtifactStep-Rewrites {s = s} (recovered now n r e) = ended (recover-Keeps now n s) e
ArtifactStep-Rewrites {s = s} (intended now id token intent r e) =
    ended (ensure_processing_upload_intent-Keeps id token intent now s) e
ArtifactStep-Rewrites {s = s} (reset now id token backend k r e) =
    ended (reset_processing_upload_intent-Keeps id token backend k now s) e
ArtifactStep-Rewrites {s = s} (generated now id prepared user token r e) =
    ended (ready-Keeps now id prepared user token s) e
ArtifactStep-Rewrites {s = s} (given_up now id exc user token r e) =
    ended (failed-Keeps now id exc user token s) e
ArtifactStep-Rewrites {s = s} (url_issued now settings a c r e) =
    ended (generate_download_url-Keeps now settings a c s) e
ArtifactStep-Rewrites {s = s} (confirmed now settings a c r e) =
    ended (confirm_export_delivery-Keeps now settings a c s) e
ArtifactStep-Rewrites {s = s} (run_out now n r e) = ended (expire_ready_artifacts-Keeps now n s) e
ArtifactStep-Rewrites {s = s} (purged purge r e) =
    ended (clear_export_storage_purge_metadata-Keeps purge s) e

ArtifactHistory-Rewrites :
    {s t : Session} → ArtifactHistory s t → Rewrites (artifacts s) (artifacts t)
ArtifactHistory-Rewrites here = same refl
ArtifactHistory-Rewrites (next h st) = both (ArtifactHistory-Rewrites h) (ArtifactStep-Rewrites st)

-- From a table in order, no sequence of the operations on export artifacts, whether each returns or
-- raises, breaks the order: primary keys are distinct, an artifact has a worker's token and a lease
-- just while it is processed, which has a start time, and its download count is one when it has a
-- time of delivery and zero when it has none.
pub ArtifactHistory-Sound :
    {s t : Session}
    → ArtifactHistory s t
    → ArtifactsSound s.db.export_artifacts
    → ArtifactsSound t.db.export_artifacts
ArtifactHistory-Sound h q = Rewrites-Sound (ArtifactHistory-Rewrites h) q

module _ (a : ExportArtifact) (at : ℕ) (s t : Session) (delivered : ExportArtifact) where
  -- The table before and after a confirmation that changed a row.
  record Confirmed : Type 0 where
    some_row : any (is_deliverable a.id at s.db.data_subject_requests) s.db.export_artifacts ≡ true
    leaves :
        t.db.export_artifacts
        ≡ update
            (is_deliverable a.id at s.db.data_subject_requests)
            (delivered_at at)
            s.db.export_artifacts

  confirm_delivery-Confirmed : confirm_delivery a at s ≡ (ok (delivered, true), t) → Confirmed
  unfolding confirm_delivery refresh
  confirm_delivery-Confirmed h =
      let (changed, s1, e1, h1) = bind-eq-ok _ _ s t (delivered, true) h in
      let (done, s2, e2, h2) = bind-eq-ok _ _ s1 t (delivered, true) h1 in
      let (fresh, s3, e3, h3) = bind-eq-ok _ _ s2 t (delivered, true) h2 in
      let same1 : s1 ≡ s = ground arith in
      let same3 : s3 ≡ s2 = ground arith in
      let end : t ≡ s3 = ground arith in
      let yes : changed ≡ true = ground arith in
      record { some_row = ground arith; leaves = rw (end, same3) (ground (arith, same1)) }

  Confirmed-WasDelivered :
      Confirmed → ArtifactsSound s.db.export_artifacts → WasDelivered a.id t.db.export_artifacts
  Confirmed-WasDelivered c q =
      let rows = s.db.export_artifacts in
      let p = is_deliverable a.id at s.db.data_subject_requests in
      let (x, i, hit) = any-InTable p rows c.some_row in
      let x_id : x.id ≡ a.id = ground arith in
      subst (WasDelivered a.id) (sym c.leaves) (record {
        there =
            rw (has_key-update key p (delivered_at at) (λ y. refl) a.id rows, ← x_id)
              (InTable-has_key key rows x i);
        counted =
            AllRows-updated (CountedAs a.id) p (delivered_at at) rows (λ y j k e. omega arith)
              (λ y j miss e.
                let y_id : y.id ≡ a.id = ground arith in
                let one : y ≡ x = InTable-unique key rows y x q.distinct j i (y_id ∙ sym x_id) in
                let missed : p x ≡ false = rw one at miss in absurd (cc (hit, missed)));
      })

  Confirmed-not : Confirmed → WasDelivered a.id s.db.export_artifacts → ⊥
  Confirmed-not c d =
      let rows = s.db.export_artifacts in
      let p = is_deliverable a.id at s.db.data_subject_requests in
      let (x, i, hit) = any-InTable p rows c.some_row in
      let counted : 1 ≤ x.download_count =
        AllRows-InTable (CountedAs a.id) rows x d.counted i (ground arith) in
      ground arith

-- When the delivery of an artifact was newly confirmed from a table in order, no later confirmation
-- of that artifact, whatever operations come in between and whatever the caller has read, is
-- reported as new.
pub delivery_confirmed_once :
    (a delivered : ExportArtifact) (at : ℕ) (s t u : Session)
    → ArtifactsSound s.db.export_artifacts
    → confirm_delivery a at s ≡ (ok (delivered, true), t)
    → ArtifactHistory t u
    → (b again : ExportArtifact) (later : ℕ) (v : Session) → b.id ≡ a.id
    → confirm_delivery b later u ≢ (ok (again, true), v)
delivery_confirmed_once a delivered at s t u q h history b again later v same_id k =
    let first = confirm_delivery-Confirmed a at s t delivered h in
    let after = Rewrites-Sound (ended (confirm_delivery-Keeps a at s) h) q in
    let kept =
      Rewrites-WasDelivered a.id (ArtifactHistory-Rewrites history) after
        (Confirmed-WasDelivered a at s t delivered first q) in
    Confirmed-not b later u v again (confirm_delivery-Confirmed b later u v again k)
      (rw same_id kept)
