-- ===== src/Privacy/Requests/Checks.antt =====
-- The guards of backend/app/privacy/services/data_subject_requests.py on a request that was read.
use fastapi_saas_template.Prelude.{
  ℕ, Bool, true, false, not, ◌&&◌, ◌||◌, Option, none, some, ◌==◌, ltb, any,
}
use fastapi_saas_template.Errors.{Result, ok, err, conflict, not_found, require, ◌>>=◌, ◌>>◌}
use fastapi_saas_template.Session.{Db}
use fastapi_saas_template.Models.ExportArtifact
use fastapi_saas_template.Models.ExportArtifact.{ExportArtifact}
use fastapi_saas_template.Models.DataSubjectRequest.{
  DataSubjectRequest, DataSubjectRequestType, DataSubjectRequestStatus, submitted, under_review,
  approved, is_export, is_erase, is_ready, is_self, is_submitted, is_under_review, is_approved,
  is_rejected, is_fulfilled, is_cancelled, allows_approval,
}
use fastapi_saas_template.Privacy.Requests.Repository.{get_by_id, get_by_id_for_requester}

or_not_found : Option DataSubjectRequest → Result DataSubjectRequest
or_not_found none = err (not_found "Data subject request not found")
or_not_found (some r) = ok r

-- `get_request`
unfoldable pub get_request : ℕ → Db → Result DataSubjectRequest
unfolding or_not_found
get_request request_id db = or_not_found (get_by_id request_id db)

-- `get_own_request`
unfoldable pub get_own_request : ℕ → ℕ → Db → Result DataSubjectRequest
unfolding or_not_found
get_own_request requester_user_id request_id db =
    or_not_found (get_by_id_for_requester request_id requester_user_id db)

-- `_ALLOWED_TRANSITIONS`, read as a test; a status that is no key allows nothing.
unfoldable pub is_allowed : DataSubjectRequestStatus → DataSubjectRequestStatus → Bool
is_allowed submitted next = is_under_review next || (is_approved next || is_cancelled next)
is_allowed under_review next = is_approved next || (is_rejected next || is_cancelled next)
is_allowed approved next = is_fulfilled next || is_cancelled next
is_allowed _ next = false

-- `_APPROVABLE_REQUEST_TYPES`, which are the types with a fulfilment pipeline.
abbrev pub is_approvable : DataSubjectRequestType → Bool
is_approvable t = is_export t || is_erase t

-- The two guards of an approval.
unfoldable pub ensure_can_be_approved : DataSubjectRequest → Result (Unit {0})
ensure_can_be_approved r = do
  require (is_approvable r.request_type)
      (conflict "Data-subject request type has no execution policy and cannot be approved")
  require (allows_approval r.representative_status)
      (conflict "Authorised representative authority must be verified before approval")

unfoldable pub ensure_approval : DataSubjectRequestStatus → DataSubjectRequest → Result (Unit {0})
ensure_approval approved r = ensure_can_be_approved r
ensure_approval _ r = ok tt

-- What `_transition_status` reads and decides before its UPDATE.
unfoldable pub check_transition :
    ℕ → DataSubjectRequestStatus → Bool → Db → Result DataSubjectRequest
check_transition request_id target_status execution_verified db = do
  request ← get_request request_id db
  require (not (is_fulfilled target_status) || execution_verified)
      (conflict "Use fulfil_request() to fulfil data-subject requests")
  require (is_allowed request.status target_status) (conflict "Invalid transition")
  ensure_approval target_status request
  ok request

-- `_is_ready_export_artifact_usable`
abbrev pub is_usable : ℕ → ExportArtifact → Bool
is_usable now a = ExportArtifact.is_ready a.status && ltb now a.expires_at

-- The loop of `_ensure_export_ready_for_fulfilment` over the request's artifacts.
unfoldable pub ensure_export_ready : ℕ → DataSubjectRequest → Db → Result (Unit {0})
ensure_export_ready now r db =
    require (any (λ a. (a.data_subject_request_id == r.id) && is_usable now a) db.export_artifacts)
      (conflict
        "Export data-subject requests require a ready, non-expired export artifact before fulfilment")

-- `_ensure_execution_ready_for_fulfilment`
unfoldable pub ensure_execution_ready : ℕ → DataSubjectRequest → Db → Result (Unit {0})
ensure_execution_ready now r db = do
  require (is_approvable r.request_type) (conflict "Execution pipeline is not implemented")
  elim (is_erase r.request_type) [
    | true ↦ require (is_ready r.execution_status) (
        conflict
          "Erase data-subject requests require successful erasure execution before fulfilment")
    | false ↦ ensure_export_ready now r db
  ]

-- What `fulfil_request` reads and decides before the transition.
unfoldable pub check_fulfilment : ℕ → ℕ → Db → Result DataSubjectRequest
check_fulfilment now request_id db = do
  request ← get_request request_id db
  require (is_approved request.status) (conflict "Only approved requests can be fulfilled")
  ensure_execution_ready now request db
  ok request

-- The guard of `cancel_own_request`.
unfoldable pub check_own_cancellation : ℕ → ℕ → Db → Result DataSubjectRequest
check_own_cancellation requester_user_id request_id db = do
  request ← get_own_request requester_user_id request_id db
  require (is_submitted request.status || is_under_review request.status)
      (conflict "Request cannot be cancelled in current state")
  ok request

-- `_ensure_representative_authority_reviewable`
unfoldable pub check_reviewable : ℕ → Db → Result DataSubjectRequest
check_reviewable request_id db = do
  request ← get_request request_id db
  require (not (is_self request.requester_role)) (
      conflict
        "Representative authority review is only valid for authorised-representative requests")
  require (is_submitted request.status || is_under_review request.status) (
      conflict
        "Representative authority cannot be changed after the request has been decided, fulfilled or cancelled")
  ok request
