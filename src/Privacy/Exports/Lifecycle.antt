-- ===== src/Privacy/Exports/Lifecycle.antt =====
-- backend/app/privacy/export_artifact_lifecycle.py. Each function gives the changed artifact and
-- the names of the fields that it changed.
use fastapi_saas_template.Prelude.{
  ℕ, Bool, true, false, List, [], ◌∷◌, ◌++◌, Option, none, some, ◌==◌, Text, codes, text_eq, any,
  take, if◌then◌else◌,
}
use fastapi_saas_template.Models.ExportArtifact.{
  ExportArtifact, ExportArtifactStatus, ready, failed, expired, cancelled, is_ready, is_failed,
  is_expired, is_cancelled,
}

-- A field with the value that `_set_if_changed` gives it: whether it has the value already, and
-- the artifact with it.
pub record Assignment : Type 0 where
  pub field_name : Text
  pub holds : ExportArtifact → Bool
  pub assign : ExportArtifact → ExportArtifact

abbrev pub Change : Type 0
Change = ExportArtifact × List Text

-- `_set_if_changed`
unfoldable pub set_if_changed : Assignment → Change → Change
set_if_changed x (a, changed) =
    if x.holds a then (a, changed) else (x.assign a, changed ++ x.field_name ∷ [])

-- `_clear_fields`, and the calls of `_set_if_changed` in a row.
unfoldable pub set_fields : List Assignment → Change → Change
unfolding set_if_changed
set_fields [] c = c
set_fields (x ∷ xs) c = set_fields xs (set_if_changed x c)

abbrev is_none {ℓ} : {A : Type ℓ} → Option A → Bool
is_none none = true
is_none (some a) = false

abbrev is_number : ℕ → Option ℕ → Bool
is_number n none = false
is_number n (some m) = m == n

abbrev pub is_text : Text → Option Text → Bool
is_text t none = false
is_text t (some u) = text_eq u t

abbrev pub to_status : (ExportArtifactStatus → Bool) → ExportArtifactStatus → Assignment
to_status test status = record {
  field_name = codes "status";
  holds = λ a. test a.status;
  assign = λ a. record a { status = status };
}

abbrev pub to_reason : Text → Assignment
to_reason reason_code = record {
  field_name = codes "failure_reason_code";
  holds = λ a. is_text reason_code a.failure_reason_code;
  assign = λ a. record a { failure_reason_code = some reason_code };
}

abbrev pub lease_cleared : List Assignment
lease_cleared =
    record {
      field_name = codes "processing_token";
      holds = λ a. is_none a.processing_token;
      assign = λ a. record a { processing_token = none };
    }
    ∷ record {
      field_name = codes "processing_lease_expires_at";
      holds = λ a. is_none a.processing_lease_expires_at;
      assign = λ a. record a { processing_lease_expires_at = none };
    }
    ∷ []

-- `_CONTENT_METADATA_FIELDS`
abbrev pub content_cleared : List Assignment
content_cleared =
    record {
      field_name = codes "filename";
      holds = λ a. is_none a.filename;
      assign = λ a. record a { filename = none };
    }
    ∷ record {
      field_name = codes "content_type";
      holds = λ a. is_none a.content_type;
      assign = λ a. record a { content_type = none };
    }
    ∷ record {
      field_name = codes "size_bytes";
      holds = λ a. is_none a.size_bytes;
      assign = λ a. record a { size_bytes = none };
    }
    ∷ record {
      field_name = codes "checksum_sha256";
      holds = λ a. is_none a.checksum_sha256;
      assign = λ a. record a { checksum_sha256 = none };
    }
    ∷ []

abbrev pub detail_cleared : Assignment
detail_cleared = record {
  field_name = codes "failure_detail";
  holds = λ a. is_none a.failure_detail;
  assign = λ a. record a { failure_detail = none };
}

unfoldable pub mark_export_artifact_ready : ℕ → ExportArtifact → Change
unfolding set_fields
mark_export_artifact_ready completed_at a =
    set_fields
      (to_status is_ready ready
        ∷ record {
          field_name = codes "completed_at";
          holds = λ x. is_number completed_at x.completed_at;
          assign = λ x. record x { completed_at = some completed_at };
        }
        ∷ lease_cleared)
      (a, [])

unfoldable pub mark_export_artifact_failed : Text → Text → ℕ → ExportArtifact → Change
unfolding set_fields
mark_export_artifact_failed reason_code detail failed_at a =
    set_fields
      (to_status is_failed failed
        ∷ to_reason reason_code
        ∷ record {
          field_name = codes "failure_detail";
          holds = λ x. is_text (take 255 detail) x.failure_detail;
          assign = λ x. record x { failure_detail = some (take 255 detail) };
        }
        ∷ record {
          field_name = codes "failed_at";
          holds = λ x. is_number failed_at x.failed_at;
          assign = λ x. record x { failed_at = some failed_at };
        }
        ∷ lease_cleared)
      (a, [])

unfoldable pub mark_export_artifact_expired : ExportArtifact → Change
unfolding set_fields
mark_export_artifact_expired a = set_fields (to_status is_expired expired ∷ lease_cleared) (a, [])

unfoldable pub clear_export_artifact_subject_file_metadata : ExportArtifact → Change
unfolding set_fields
clear_export_artifact_subject_file_metadata a =
    set_fields (content_cleared ++ (detail_cleared ∷ lease_cleared)) (a, [])

unfoldable pub clear_export_artifact_storage_metadata : ExportArtifact → Change
unfolding set_fields
clear_export_artifact_storage_metadata a =
    set_fields
      (record {
        field_name = codes "storage_key";
        holds = λ x. is_none x.storage_key;
        assign = λ x. record x { storage_key = none };
      }
        ∷ content_cleared)
      (a, [])

-- `_unique_in_order`: `seen` are the values that were kept.
unfoldable pub keep_unseen : List Text → List Text → List Text
unfolding any text_eq
keep_unseen seen [] = []
keep_unseen seen (x ∷ xs) = elim (any (λ y. text_eq x y) seen) [
  | true ↦ keep_unseen seen xs
  | false ↦ x ∷ keep_unseen (x ∷ seen) xs
]

abbrev cancelled_change : ExportArtifact × List Text → Change → Change
cancelled_change (a, first) (b, later) = (b, keep_unseen [] (first ++ later))

unfoldable pub cancel_export_artifact_for_subject_erasure : Text → ExportArtifact → Change
unfolding set_fields keep_unseen clear_export_artifact_subject_file_metadata
cancel_export_artifact_for_subject_erasure reason_code a =
    let first =
      set_fields (to_status is_cancelled cancelled ∷ to_reason reason_code ∷ []) (a, []) in
    cancelled_change first (clear_export_artifact_subject_file_metadata first.0)
