-- ===== src/Privacy/Requests/Submission.antt =====
-- `submit_request` of backend/app/privacy/services/data_subject_requests.py. The time, the new
-- row's primary key, the hash function (SHA-256) and the text of a UUID are arguments; the lock on
-- the requester's row is not modelled.
use fastapi_saas_template.Prelude.{
  ℕ, ◌+◌, ◌*◌, Bool, true, false, not, ◌&&◌, ◌||◌, Option, none, some, ◌==◌, is_some, Text,
  if◌then◌else◌,
}
use fastapi_saas_template.Errors.{ok, conflict}
use fastapi_saas_template.Exec.{pure, raise, ◌>>=◌, ◌>>◌}
use fastapi_saas_template.Session.{Db, Tx, ask}
use fastapi_saas_template.Audit.Events.{record_event}
use fastapi_saas_template.Models.AuditEvent.{AuditContext, data_subject_request_submitted}
use fastapi_saas_template.Models.DataSubjectRequest.{
  DataSubjectRequest, submitted, not_started, is_self,
}
use fastapi_saas_template.Privacy.Requests.Repository.{
  create, get_non_expired_by_idempotency_key_hash, same_hash,
}
use fastapi_saas_template.Privacy.Requests.Service.{status_event}
use fastapi_saas_template.Privacy.Requests.Intake.{
  Submission, Intake, check_submission, build_fingerprint, build_pre_representative_fingerprint,
}

abbrev pub days : ℕ → ℕ
days n = n * 86400

-- `_is_legacy_self_service_idempotency_row`
abbrev same_user : Option ℕ → Option ℕ → Bool
same_user none none = true
same_user (some a) (some b) = a == b
same_user _ _ = false

unfoldable pub is_legacy_row : DataSubjectRequest → Bool
is_legacy_row r =
    (is_self r.requester_role && same_user r.subject_user_id r.requester_user_id)
    && (not (is_some r.representative_relationship)
        && not (is_some r.representative_authority_note))

module _ (hash : Text → Text) (uuid_text : ℕ → Text) where
  abbrev pub fingerprint : Intake → Text
  fingerprint i = build_fingerprint hash uuid_text i.request_type i.requester_note i.representation

  -- `_idempotency_fingerprint_matches`; only a request for oneself has a legacy fingerprint.
  unfoldable pub fingerprint_matches : Intake → DataSubjectRequest → Bool
  fingerprint_matches i existing =
      same_hash existing.idempotency_fingerprint (fingerprint i)
      || (is_self i.representation.requester_role
          && (same_hash existing.idempotency_fingerprint (
                build_pre_representative_fingerprint hash uuid_text i.request_type i.requester_note)
              && is_legacy_row existing))

  abbrev with_key : Option Text → Text → Option Text
  with_key none t = none
  with_key (some key) t = some t

  abbrev key_hash : Option Text → Option Text
  key_hash none = none
  key_hash (some key) = some (hash key)

  abbrev expiry : Option Text → ℕ → Option ℕ
  expiry none now = none
  expiry (some key) now = some (now + 24 * 3600)

  abbrev pub new_request : ℕ → ℕ → ℕ → Intake → DataSubjectRequest
  new_request now id requester_user_id i = record {
    id = id;
    request_type = i.request_type;
    status = submitted;
    execution_status = not_started;
    requester_role = i.representation.requester_role;
    representative_status = i.representation.representative_status;
    representative_relationship = i.representation.representative_relationship;
    representative_authority_note = i.representation.representative_authority_note;
    representative_verified_at = none;
    representative_verified_by_user_id = none;
    representative_rejection_reason_code = none;
    requester_user_id = some requester_user_id;
    subject_user_id = some i.representation.subject_user_id;
    reviewer_user_id = none;
    submitted_at = now;
    reviewed_at = none;
    decided_at = none;
    fulfilled_at = none;
    cancelled_at = none;
    execution_started_at = none;
    execution_completed_at = none;
    execution_failed_at = none;
    execution_failure_reason_code = none;
    execution_failure_detail = none;
    decision_reason_code = none;
    rejection_reason_code = none;
    requester_note = i.requester_note;
    due_at = now + days 30;
    idempotency_key_hash = key_hash i.key;
    idempotency_fingerprint = with_key i.key (fingerprint i);
    idempotency_key_expires_at = expiry i.key now;
    created_at = now;
  }

  module _ (now id requester_user_id : ℕ) (audit_context : AuditContext) where
    -- The request that the key was used for already.
    unfoldable pub lookup_key : Option Text → Db → Option DataSubjectRequest
    lookup_key none db = none
    lookup_key (some key) db =
        get_non_expired_by_idempotency_key_hash requester_user_id (hash key) now db

    unfoldable pub create_request : Intake → Tx DataSubjectRequest
    create_request i = do
      request ← create (new_request now id requester_user_id i)
      record_event (status_event audit_context data_subject_request_submitted request)
      pure request

    unfoldable pub reuse_or_create : Intake → Option DataSubjectRequest → Tx DataSubjectRequest
    reuse_or_create i (some existing) =
        if fingerprint_matches i existing
        then pure existing
        else raise (conflict "Idempotency key is already used for another request payload")
    reuse_or_create i none = create_request i

    unfoldable pub submit_request : Submission → Tx DataSubjectRequest
    submit_request submission = do
      i ← ask (check_submission requester_user_id submission)
      existing ← ask (λ db. ok (lookup_key i.key db))
      reuse_or_create i existing
