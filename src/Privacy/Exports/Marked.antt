-- ===== src/Privacy/Exports/Marked.antt =====
-- The transitions of backend/app/privacy/export_artifact_lifecycle.py keep an artifact in order.
use fastapi_saas_template.Prelude.{ℕ, false, ◌≡◌, refl, none, arith, Text}
use fastapi_saas_template.Models.ExportArtifact.{ExportArtifact, is_processing}
use fastapi_saas_template.Privacy.Exports.Lifecycle.{
  mark_export_artifact_ready, mark_export_artifact_failed, mark_export_artifact_expired,
  clear_export_artifact_storage_metadata, set_fields, set_if_changed,
}
use fastapi_saas_template.Privacy.Exports.Rewrites.{RowKept}

-- Two artifacts that agree on all that the invariant reads.
pub same-RowKept :
    (x y : ExportArtifact)
    → y.id ≡ x.id
    → y.status ≡ x.status
    → y.processing_token ≡ x.processing_token
    → y.processing_lease_expires_at ≡ x.processing_lease_expires_at
    → y.started_at ≡ x.started_at
    → y.downloaded_at ≡ x.downloaded_at
    → y.download_count ≡ x.download_count
    → RowKept x y
same-RowKept x y i s k l b d c = record {
  id = i;
  tidy = λ t. record {
    token = rw (k, s) t.token;
    lease = rw (l, s) t.lease;
    started = rw (s, b) t.started;
    delivered = rw (c, d) t.delivered;
  };
  counted = λ t. omega arith;
}

-- An artifact that no worker holds.
pub released-RowKept :
    (x y : ExportArtifact)
    → y.id ≡ x.id
    → is_processing y.status ≡ false
    → y.processing_token ≡ none
    → y.processing_lease_expires_at ≡ none
    → y.downloaded_at ≡ x.downloaded_at
    → y.download_count ≡ x.download_count
    → RowKept x y
released-RowKept x y i s k l d c = record {
  id = i;
  tidy = λ t. record {
    token = rw (k, s) refl;
    lease = rw (l, s) refl;
    started = λ e. absurd (cc (s, e));
    delivered = rw (c, d) t.delivered;
  };
  counted = λ t. omega arith;
}

pub expired-id : (a : ExportArtifact) → (mark_export_artifact_expired a).0.id ≡ a.id
unfolding mark_export_artifact_expired set_fields set_if_changed
expired-id a = ground arith

pub expired-RowKept : (a : ExportArtifact) → RowKept a (mark_export_artifact_expired a).0
unfolding mark_export_artifact_expired set_fields set_if_changed
expired-RowKept a =
    released-RowKept a _ (expired-id a) (ground arith) (ground arith) (ground arith) (ground arith)
      (ground arith)

pub ready-id : (now : ℕ) (a : ExportArtifact) → (mark_export_artifact_ready now a).0.id ≡ a.id
unfolding mark_export_artifact_ready set_fields set_if_changed
ready-id now a = ground arith

pub ready-RowKept : (now : ℕ) (a : ExportArtifact) → RowKept a (mark_export_artifact_ready now a).0
unfolding mark_export_artifact_ready set_fields set_if_changed
ready-RowKept now a =
    released-RowKept a _ (ready-id now a) (ground arith) (ground arith) (ground arith)
      (ground arith) (ground arith)

module _ (reason_code detail : Text) (now : ℕ) (a : ExportArtifact) where
  pub failed-id : (mark_export_artifact_failed reason_code detail now a).0.id ≡ a.id
  unfolding mark_export_artifact_failed set_fields set_if_changed
  failed-id = ground arith

  pub failed-RowKept : RowKept a (mark_export_artifact_failed reason_code detail now a).0
  unfolding mark_export_artifact_failed set_fields set_if_changed
  failed-RowKept =
      released-RowKept a _ failed-id (ground arith) (ground arith) (ground arith) (ground arith)
        (ground arith)

pub purged-id : (a : ExportArtifact) → (clear_export_artifact_storage_metadata a).0.id ≡ a.id
unfolding clear_export_artifact_storage_metadata set_fields set_if_changed
purged-id a = ground arith

pub purged-RowKept : (a : ExportArtifact) → RowKept a (clear_export_artifact_storage_metadata a).0
unfolding clear_export_artifact_storage_metadata set_fields set_if_changed
purged-RowKept a =
    same-RowKept a _ (purged-id a) (ground arith) (ground arith) (ground arith) (ground arith)
      (ground arith) (ground arith)
