-- ===== src/Tests/Exports.antt =====
-- The theorems of Privacy.Exports at concrete inputs.
use fastapi_saas_template.Prelude.{
  Bool, true, ◌≡◌, ◌≢◌, refl, none, some, [], ◌∷◌, codes, any, update, find_first, has_key, text_eq,
}
use fastapi_saas_template.Errors.{Result, ok}
use fastapi_saas_template.Exec.{◌>>=◌}
use fastapi_saas_template.Session.{Session}
use fastapi_saas_template.Audit.Events.{record_event}
use fastapi_saas_template.Audit.Metadata.{
  validate_metadata_json, validate_no_forbidden_metadata_keys, calculate_json_depth, dumps_size,
}
use fastapi_saas_template.Models.DataSubjectRequest.{
  DataSubjectRequest, export, approved, self, not_required,
}
use fastapi_saas_template.Models.ExportArtifact.{ExportArtifact, local, ready}
use fastapi_saas_template.Privacy.Requests.Repository as Requests
use fastapi_saas_template.Privacy.Requests.Submission.{new_request}
use fastapi_saas_template.Privacy.Exports.Repository
use fastapi_saas_template.Privacy.Exports.Repository.{confirm_delivery, refresh, delivered_at}
use fastapi_saas_template.Privacy.Exports.Lifecycle.{cancel_export_artifact_for_subject_erasure}
use fastapi_saas_template.Privacy.Exports.Cancelled.{erased, cancel_for_erasure}
use fastapi_saas_template.Privacy.Exports.Rewrites.{ArtifactsSound}
use fastapi_saas_template.Privacy.Exports.Service.{request_export_artifact}
use fastapi_saas_template.Privacy.Exports.Values.{Settings, new_artifact}
use fastapi_saas_template.Privacy.Exports.Histories.{
  here, next, requested, ArtifactHistory-Sound, delivery_confirmed_once,
}
use fastapi_saas_template.Tests.Fixture.{tenant_db, session, acting}

abbrev settings : Settings
settings = record {
  enabled = true;
  storage_backend = local;
  schema_version = codes "1";
  artifact_retention_days = 7;
  download_url_ttl_seconds = 300;
}

-- The approved request of user 12 for an export.
abbrev request : DataSubjectRequest
request =
    record (new_request (λ t. t) (λ id. []) 1000 40 12
      (record {
        request_type = export;
        requester_note = none;
        representation = record {
          subject_user_id = 12;
          requester_role = self;
          representative_status = not_required;
          representative_relationship = none;
          representative_authority_note = none;
        };
        key = none;
      })) { status = approved }

abbrev artifact : ExportArtifact
artifact = record (new_artifact settings 2000 60 11 request) {
  status = ready;
  storage_key = some (codes "exports/60.zip");
  completed_at = some 2100;
}

abbrev start : Session
start = session (record tenant_db { data_subject_requests = request ∷ [] })

abbrev stored : Session
stored =
    session
      (record tenant_db { data_subject_requests = request ∷ []; export_artifacts = artifact ∷ [] })

-- All that a run computes through.
running : Bool
unfolding request_export_artifact confirm_delivery refresh Repository.get_by_id Repository.create
    Requests.get_by_id record_event validate_metadata_json validate_no_forbidden_metadata_keys
    calculate_json_depth dumps_size ◌>>=◌ any update find_first has_key text_eq
running = true

abbrev asked : Result ExportArtifact × Session
asked = request_export_artifact 2000 settings 60 40 11 (acting 11) start

ArtifactHistory-Sound_example : ArtifactsSound asked.1.db.export_artifacts
unfolding running
ArtifactHistory-Sound_example =
    ArtifactHistory-Sound {s = start} {t = asked.1}
      (next here (requested 2000 settings 60 40 11 (acting 11) asked.0 refl))
      (record { distinct = tt; rows = tt })

abbrev confirmed_run : Result (ExportArtifact × Bool) × Session
confirmed_run = confirm_delivery artifact 3000 stored

stored-Sound : ArtifactsSound stored.db.export_artifacts
unfolding has_key
stored-Sound = record {
  distinct = (refl, tt);
  rows =
      (record { token = refl; lease = refl; started = λ e. absurd (cc e); delivered = refl }, tt);
}

delivery_confirmed_once_example :
    confirm_delivery artifact 3001 confirmed_run.1
    ≢ (ok (delivered_at 3001 artifact, true), confirmed_run.1)
unfolding running
delivery_confirmed_once_example =
    delivery_confirmed_once artifact (delivered_at 3000 artifact) 3000 stored confirmed_run.1
      confirmed_run.1 stored-Sound refl here artifact (delivered_at 3001 artifact) 3001
      confirmed_run.1 refl

cancel_for_erasure_example :
    ((cancel_export_artifact_for_subject_erasure (codes "subject_erasure_requested") artifact).0
      ≡ erased (codes "subject_erasure_requested") artifact)
    × (cancel_export_artifact_for_subject_erasure
          (codes "subject_erasure_requested")
          (cancel_export_artifact_for_subject_erasure
            (codes "subject_erasure_requested")
            artifact).0
        ≡ (
          (cancel_export_artifact_for_subject_erasure
              (codes "subject_erasure_requested")
              artifact).0,
          [],
        ))
cancel_for_erasure_example = cancel_for_erasure (codes "subject_erasure_requested") artifact
