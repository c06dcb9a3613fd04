-- ===== src/Privacy/Exports/Execution.antt =====
-- What an export's artifacts say of the execution of its request:
-- `_latest_export_artifact_for_dsr`, `_execution_state_for_dsr` and
-- `_sync_export_dsr_execution_state` of backend/app/privacy/services/export_artifacts.py.
use fastapi_saas_template.Prelude.{
  ℕ, ◌||◌, List, [], ◌∷◌, Option, none, some, ◌==◌, ltb, is_some, if◌then◌else◌, update, Text,
  codes,
}
use fastapi_saas_template.Session.{Db, Tx, modify}
use fastapi_saas_template.Models.DataSubjectRequest.{
  DataSubjectRequest, DataSubjectRequestExecutionStatus, is_export,
}
use fastapi_saas_template.Models.ExportArtifact.{
  ExportArtifact, ExportArtifactStatus, queued, processing, ready, failed, expired, cancelled,
}
use fastapi_saas_template.Privacy.Requests.Repository as Requests
use fastapi_saas_template.Privacy.Requests.Repository.{set_requests}
use fastapi_saas_template.Privacy.Exports.Repository.{get_by_dsr_id, is_after}

-- The loop of `_latest_export_artifact_for_dsr`, with the artifact it has kept so far.
unfoldable latest_queued : Option ExportArtifact → List ExportArtifact → Option ExportArtifact
latest_queued kept [] = kept
latest_queued none (a ∷ rest) = latest_queued (some a) rest
latest_queued (some b) (a ∷ rest) =
    latest_queued (some (if ltb b.queued_at a.queued_at then a else b)) rest

unfoldable pub latest_export_artifact : ℕ → Db → Option ExportArtifact
unfolding latest_queued
latest_export_artifact data_subject_request_id db =
    latest_queued none (get_by_dsr_id data_subject_request_id db)

pub record ExecutionState : Type 0 where
  pub execution_status : DataSubjectRequestExecutionStatus
  pub event_at : Option ℕ
  pub failure_reason_code : Option Text
  pub failure_detail : Option Text

abbrev pub state : DataSubjectRequestExecutionStatus → ℕ → ExecutionState
state execution_status at = record {
  execution_status = execution_status;
  event_at = some at;
  failure_reason_code = none;
  failure_detail = none;
}

-- `x or y`
abbrev pub or_else : Option ℕ → ℕ → ℕ
or_else none y = y
or_else (some x) y = x

abbrev pub expired_state : ExportArtifact → ExecutionState
expired_state a = record {
  execution_status = DataSubjectRequestExecutionStatus.failed;
  event_at = some a.expires_at;
  failure_reason_code = some (codes "artifact_expired");
  failure_detail = some (codes "Export artifact expired before delivery");
}

abbrev by_status : ExportArtifactStatus → ExportArtifact → ℕ → ExecutionState
by_status ready a now =
    if ltb now a.expires_at
    then state DataSubjectRequestExecutionStatus.ready (or_else a.completed_at now)
    else expired_state a
by_status processing a now =
    if is_after a.processing_lease_expires_at now
    then state DataSubjectRequestExecutionStatus.processing (or_else a.started_at now)
    else state DataSubjectRequestExecutionStatus.queued a.queued_at
by_status queued a now = state DataSubjectRequestExecutionStatus.queued a.queued_at
by_status expired a now = expired_state a
by_status failed a now = record {
  execution_status = DataSubjectRequestExecutionStatus.failed;
  event_at = some (or_else a.failed_at (or_else a.started_at now));
  failure_reason_code = a.failure_reason_code;
  failure_detail = a.failure_detail;
}
by_status cancelled a now = state DataSubjectRequestExecutionStatus.not_started now

-- `_execution_state_for_dsr` on the latest artifact.
unfoldable pub state_of : ExportArtifact → ℕ → ExecutionState
state_of a now =
    if is_some a.downloaded_at || ltb 0 a.download_count
    then state DataSubjectRequestExecutionStatus.delivered
        (or_else a.downloaded_at (or_else a.completed_at now))
    else by_status a.status a now

abbrev state_of_latest : Option ExportArtifact → ℕ → ExecutionState
state_of_latest none now = state DataSubjectRequestExecutionStatus.not_started now
state_of_latest (some a) now = state_of a now

unfoldable pub execution_state_for_dsr : ExportArtifact → ℕ → Db → ExecutionState
execution_state_for_dsr artifact now db =
    state_of_latest (latest_export_artifact artifact.data_subject_request_id db) now

abbrev cleared : DataSubjectRequest → DataSubjectRequest
cleared r = record r {
  execution_failed_at = none;
  execution_failure_reason_code = none;
  execution_failure_detail = none;
}

abbrev by_execution :
    DataSubjectRequestExecutionStatus → ExecutionState → ℕ → DataSubjectRequest → DataSubjectRequest
by_execution DataSubjectRequestExecutionStatus.queued s now r = record (cleared r) {
  execution_started_at = none;
  execution_completed_at = none;
}
by_execution DataSubjectRequestExecutionStatus.processing s now r = record (cleared r) {
  execution_started_at = some (or_else r.execution_started_at now);
  execution_completed_at = none;
}
by_execution DataSubjectRequestExecutionStatus.ready s now r = record (cleared r) {
  execution_completed_at = some now;
}
by_execution DataSubjectRequestExecutionStatus.failed s now r = record r {
  execution_completed_at = none;
  execution_failed_at = some now;
  execution_failure_reason_code = s.failure_reason_code;
  execution_failure_detail = s.failure_detail;
}
by_execution DataSubjectRequestExecutionStatus.delivered s now r = record (cleared r) {
  execution_completed_at = some (or_else r.execution_completed_at now);
}
by_execution _ s now r = r

-- The assignments of `_sync_export_dsr_execution_state` to the request.
unfoldable pub set_execution : ExecutionState → ℕ → DataSubjectRequest → DataSubjectRequest
set_execution s now r =
    by_execution s.execution_status s now (record r { execution_status = s.execution_status })

-- The state and its time, of the latest artifact when that is another one.
unfoldable pub current_state : ExportArtifact → ExecutionState → ℕ → Db → ExecutionState × ℕ
current_state artifact given now db =
    let reference_now = or_else given.event_at now in
    elim (latest_export_artifact artifact.data_subject_request_id db) [
      | none ↦ (given, reference_now)
      | some latest ↦
          let of_latest = execution_state_for_dsr latest reference_now db in
          if latest.id == artifact.id
          then (given, reference_now)
          else (of_latest, or_else of_latest.event_at reference_now)
    ]

unfoldable pub write_execution : ExecutionState × ℕ → Option DataSubjectRequest → Db → Db
write_execution (s, now) none db = db
write_execution (s, now) (some r) db =
    if is_export r.request_type
    then set_requests (update (λ x. x.id == r.id) (set_execution s now) db.data_subject_requests) db
    else db

unfoldable pub sync_export_dsr_execution_state : ExportArtifact → ExecutionState → ℕ → Tx (Unit {0})
unfolding write_execution
sync_export_dsr_execution_state artifact given now = modify (λ db.
    write_execution (current_state artifact given now db)
      (Requests.get_by_id artifact.data_subject_request_id db) db)
