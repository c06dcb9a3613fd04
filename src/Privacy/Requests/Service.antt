-- ===== src/Privacy/Requests/Service.antt =====
-- The operations of backend/app/privacy/services/data_subject_requests.py on a stored request.
-- Between the read of a request and its UPDATE other sessions may commit: `others` is what they
-- change. The time is read once in each operation, and is an argument.
use fastapi_saas_template.Prelude.{
  ℕ, Bool, true, false, Option, none, some, Text, codes, if◌then◌else◌,
}
use fastapi_saas_template.Errors.{Error, ok, err, conflict, not_found}
use fastapi_saas_template.Exec.{pure, raise, ◌>>=◌, ◌>>◌}
use fastapi_saas_template.Session.{Db, Tx, ask, modify}
use fastapi_saas_template.Audit.Json.{Json, null, str, dict, no_fields, entry}
use fastapi_saas_template.Audit.Events.{record_event}
use fastapi_saas_template.Models.AuditEvent.{
  AuditAction, AuditContext, AuditEvent, compliance, data_subject_request,
  data_subject_request_submitted, data_subject_request_under_review, data_subject_request_approved,
  data_subject_request_rejected, data_subject_request_cancelled, data_subject_request_fulfilled,
  data_subject_request_representative_verified, data_subject_request_representative_rejected,
}
use fastapi_saas_template.Models.DataSubjectRequest
use fastapi_saas_template.Models.DataSubjectRequest.{
  DataSubjectRequest, DataSubjectRequestStatus, submitted, under_review, approved, fulfilled,
  cancelled, verified, is_erase, is_under_review, is_approved, is_rejected, is_fulfilled,
  is_cancelled, type_value, status_value, representative_value, status_eq,
}
use fastapi_saas_template.Privacy.Requests.Repository.{
  get_by_id, transition_status_if_current, update_representative_authority_if_current,
}
use fastapi_saas_template.Privacy.Requests.Checks.{
  check_transition, check_fulfilment, check_own_cancellation, check_reviewable,
}

abbrev set_if : Bool → Option ℕ → Option ℕ → Option ℕ
set_if true new old = new
set_if false new old = old

abbrev set_text_if : Bool → Option Text → Option Text → Option Text
set_text_if true new old = new
set_text_if false new old = old

-- `_build_transition_values`, as the change that the UPDATE makes.
abbrev pub transition_values :
    DataSubjectRequestStatus → Option ℕ → Option Text → ℕ → DataSubjectRequest → DataSubjectRequest
transition_values next reviewer_user_id reason_code now r = record r {
  status = next;
  reviewer_user_id = reviewer_user_id;
  reviewed_at = set_if (is_under_review next) (some now) r.reviewed_at;
  decided_at =
      set_if (is_rejected next) (some now) (set_if (is_approved next) (some now) r.decided_at);
  fulfilled_at = set_if (is_fulfilled next) (some now) r.fulfilled_at;
  cancelled_at = set_if (is_cancelled next) (some now) r.cancelled_at;
  rejection_reason_code = set_text_if (is_rejected next) reason_code r.rejection_reason_code;
  decision_reason_code = set_text_if (is_approved next) reason_code r.decision_reason_code;
}

-- `_action_for_status`; no transition ends in `submitted`.
abbrev pub action_for_status : DataSubjectRequestStatus → AuditAction
action_for_status submitted = data_subject_request_submitted
action_for_status under_review = data_subject_request_under_review
action_for_status approved = data_subject_request_approved
action_for_status DataSubjectRequestStatus.rejected = data_subject_request_rejected
action_for_status fulfilled = data_subject_request_fulfilled
action_for_status cancelled = data_subject_request_cancelled

abbrev optional_text : Option Text → Json
optional_text none = null
optional_text (some t) = str t

-- The event of `_record_status_event`.
abbrev pub status_event : AuditContext → AuditAction → DataSubjectRequest → AuditEvent
status_event audit_context action r = record {
  actor_user_id = audit_context.actor_user_id;
  category = compliance;
  action = action;
  target_type = data_subject_request;
  target_id = some r.id;
  reason = none;
  metadata_json = some (
      dict (
        entry (codes "request_type") (str (type_value r.request_type))
          (entry (codes "status") (str (status_value r.status)) no_fields)));
}

-- The event of `_record_representative_authority_event`.
abbrev pub authority_event :
    AuditContext → AuditAction → Option Text → DataSubjectRequest → AuditEvent
authority_event audit_context action reason_code r = record {
  actor_user_id = audit_context.actor_user_id;
  category = compliance;
  action = action;
  target_type = data_subject_request;
  target_id = some r.id;
  reason = none;
  metadata_json = some (
      dict (
        entry (codes "request_type") (str (type_value r.request_type)) (
          entry (codes "status") (str (status_value r.status)) (
            entry (codes "representative_status")
              (str (representative_value r.representative_status))
              (entry (codes "reason_code") (optional_text reason_code) no_fields)))));
}

-- The branch `updated is None`: the request is read again.
unfoldable pub require_updated :
    ℕ → Option DataSubjectRequest → (DataSubjectRequest → Error) → Tx DataSubjectRequest
require_updated request_id (some updated) e s = (ok updated, s)
require_updated request_id none e s = elim (get_by_id request_id s.db) [
  | none ↦ (err (not_found "Data subject request not found"), s)
  | some latest ↦ (err (e latest), s)
]

-- What ended a review: another change of the status, or another review.
abbrev review_conflict : Bool → Error
review_conflict true = conflict "Representative authority status changed during review"
review_conflict false =
    conflict "Data subject request status changed during representative authority review"

module _ (others : Db → Db) (now : ℕ) (audit_context : AuditContext) where
  -- `_transition_status` from its UPDATE on.
  unfoldable pub apply_transition :
      ℕ
      → DataSubjectRequestStatus
      → DataSubjectRequestStatus
      → Option ℕ
      → Option Text
      → Tx DataSubjectRequest
  apply_transition request_id current_status next reviewer_user_id reason_code = do
    found ←
        transition_status_if_current request_id current_status next
          (transition_values next reviewer_user_id reason_code now)
    updated ←
        require_updated request_id found
          (λ latest. conflict "Data subject request status changed during transition")
    record_event (status_event audit_context (action_for_status next) updated)
    pure updated

  -- `_transition_status`
  unfoldable pub transition :
      ℕ → DataSubjectRequestStatus → Option ℕ → Option Text → Bool → Tx DataSubjectRequest
  transition request_id target_status reviewer_user_id reason_code execution_verified = do
    request ← ask (check_transition request_id target_status execution_verified)
    modify others
    apply_transition request_id request.status target_status reviewer_user_id reason_code

  unfoldable pub transition_status :
      ℕ → DataSubjectRequestStatus → Option ℕ → Option Text → Tx DataSubjectRequest
  transition_status request_id target_status reviewer_user_id reason_code =
      if is_fulfilled target_status
      then raise (conflict "Use fulfil_request() to fulfil data-subject requests")
      else transition request_id target_status reviewer_user_id reason_code false

  unfoldable pub mark_under_review : ℕ → ℕ → Tx DataSubjectRequest
  mark_under_review request_id reviewer_user_id =
      transition_status request_id under_review (some reviewer_user_id) none

  unfoldable pub approve_request : ℕ → ℕ → Option Text → Tx DataSubjectRequest
  approve_request request_id reviewer_user_id reason_code =
      transition_status request_id approved (some reviewer_user_id) reason_code

  unfoldable pub reject_request : ℕ → ℕ → Text → Tx DataSubjectRequest
  reject_request request_id reviewer_user_id reason_code =
      transition_status request_id DataSubjectRequestStatus.rejected (some reviewer_user_id)
        (some reason_code)

  unfoldable pub cancel_platform_request : ℕ → ℕ → Tx DataSubjectRequest
  cancel_platform_request request_id reviewer_user_id =
      transition_status request_id cancelled (some reviewer_user_id) none

  unfoldable pub cancel_own_request : ℕ → ℕ → Tx DataSubjectRequest
  cancel_own_request requester_user_id request_id = do
    ask (check_own_cancellation requester_user_id request_id)
    transition_status request_id cancelled (some requester_user_id) none

  -- `_fulfilment_reviewer_user_id`
  abbrev pub fulfilment_reviewer : DataSubjectRequest → ℕ → Option ℕ
  fulfilment_reviewer r reviewer_user_id =
      if is_erase r.request_type then none else some reviewer_user_id

  unfoldable pub fulfil_request : ℕ → ℕ → Tx DataSubjectRequest
  fulfil_request request_id reviewer_user_id = do
    request ← ask (check_fulfilment now request_id)
    transition request_id fulfilled (fulfilment_reviewer request reviewer_user_id) none true

  -- The guard, the UPDATE and the event of a review of the representative's authority.
  unfoldable pub review_authority :
      ℕ
      → AuditAction
      → Option Text
      → (DataSubjectRequest → DataSubjectRequest)
      → Tx DataSubjectRequest
  review_authority request_id action reason_code values = do
    request ← ask (check_reviewable request_id)
    modify others
    found ←
        update_representative_authority_if_current request.id request.status
          request.representative_status values
    updated ←
        require_updated request.id found
          (λ latest. review_conflict (status_eq latest.status request.status))
    record_event (authority_event audit_context action reason_code updated)
    pure updated

  unfoldable pub verify_representative_authority : ℕ → ℕ → Option Text → Tx DataSubjectRequest
  verify_representative_authority request_id reviewer_user_id reason_code =
      review_authority request_id data_subject_request_representative_verified reason_code λ r.
        record r {
          representative_status = verified;
          representative_verified_at = some now;
          representative_verified_by_user_id = some reviewer_user_id;
          representative_rejection_reason_code = none;
        }

  unfoldable pub reject_representative_authority : ℕ → Text → Tx DataSubjectRequest
  reject_representative_authority request_id reason_code =
      review_authority request_id data_subject_request_representative_rejected (some reason_code)
        λ r. record r {
          representative_status =
              DataSubjectRequest.DataSubjectRequestRepresentativeStatus.rejected;
          representative_verified_at = none;
          representative_verified_by_user_id = none;
          representative_rejection_reason_code = some reason_code;
        }
