-- ===== src/Privacy/Requests/Histories.antt =====
-- Every history of the operations on data-subject requests, one at a time, keeps them lawful.
use fastapi_saas_template.Prelude.{ℕ, false, ◌≡◌, refl, Option, Text, has_key}
use fastapi_saas_template.Errors.{ok}
use fastapi_saas_template.Session.{Session}
use fastapi_saas_template.Models.AuditEvent.{AuditContext}
use fastapi_saas_template.Models.DataSubjectRequest.{
  DataSubjectRequest, DataSubjectRequestStatus, key,
}
use fastapi_saas_template.Privacy.Requests.Service.{
  transition_status, cancel_own_request, fulfil_request, verify_representative_authority,
  reject_representative_authority,
}
use fastapi_saas_template.Privacy.Requests.Intake.{Submission}
use fastapi_saas_template.Privacy.Requests.Submission.{submit_request}
use fastapi_saas_template.Privacy.Requests.Preserved.{
  RequestsSound, alone, transition_status-Sound, fulfil_request-Sound, cancel_own_request-Sound,
  review_authority-Sound, submit_request-Sound,
}

-- An operation on data-subject requests that returned, while no other session committed. A
-- submission draws a primary key not in use.
pub data RequestStep (s t : Session) : Type 0 where
  submitted :
      (hash : Text → Text) (uuid_text : ℕ → Text) (now id requester_user_id : ℕ)
      (audit_context : AuditContext) (submission : Submission) (m : DataSubjectRequest)
      → has_key key id s.db.data_subject_requests ≡ false
      → submit_request hash uuid_text now id requester_user_id audit_context submission s
        ≡ (ok m, t)
      → RequestStep s t
  moved :
      (now : ℕ) (audit_context : AuditContext) (request_id : ℕ) (next : DataSubjectRequestStatus)
      (reviewer_user_id : Option ℕ) (reason_code : Option Text) (m : DataSubjectRequest)
      → transition_status alone now audit_context request_id next reviewer_user_id reason_code s
        ≡ (ok m, t)
      → RequestStep s t
  withdrawn :
      (now : ℕ) (audit_context : AuditContext) (requester_user_id request_id : ℕ)
      (m : DataSubjectRequest)
      → cancel_own_request alone now audit_context requester_user_id request_id s ≡ (ok m, t)
      → RequestStep s t
  fulfilled_by :
      (now : ℕ) (audit_context : AuditContext) (request_id reviewer_user_id : ℕ)
      (m : DataSubjectRequest)
      → fulfil_request alone now audit_context request_id reviewer_user_id s ≡ (ok m, t)
      → RequestStep s t
  authority_verified :
      (now : ℕ) (audit_context : AuditContext) (request_id reviewer_user_id : ℕ)
      (reason_code : Option Text) (m : DataSubjectRequest)
      → verify_representative_authority alone now audit_context request_id reviewer_user_id
          reason_code s
        ≡ (ok m, t)
      → RequestStep s t
  authority_rejected :
      (now : ℕ) (audit_context : AuditContext) (request_id : ℕ) (reason_code : Text)
      (m : DataSubjectRequest)
      → reject_representative_authority alone now audit_context request_id reason_code s ≡ (ok m, t)
      → RequestStep s t

pub data RequestHistory (s : Session) : Session → Type 0 where
  here : RequestHistory s s
  next : {t u : Session} → RequestHistory s t → RequestStep t u → RequestHistory s u

RequestStep-Sound : {s t : Session} → RequestStep s t → RequestsSound s.db → RequestsSound t.db
unfolding verify_representative_authority reject_representative_authority
RequestStep-Sound {s = s} {t = t} (submitted hash uuid_text now id user c submission m fresh h) q =
    submit_request-Sound hash uuid_text now id user c s t m submission h fresh q
RequestStep-Sound {s = s} {t = t} (moved now c request_id n reviewer reason m h) q =
    transition_status-Sound now c s t q m request_id n reviewer reason h
RequestStep-Sound {s = s} {t = t} (withdrawn now c user request_id m h) q =
    cancel_own_request-Sound now c s t q m user request_id h
RequestStep-Sound {s = s} {t = t} (fulfilled_by now c request_id reviewer m h) q =
    fulfil_request-Sound now c s t q m request_id reviewer h
RequestStep-Sound {s = s} {t = t} (authority_verified now c request_id reviewer reason m h) q =
    review_authority-Sound now c s t q m request_id _ _ _ (λ x. refl) (λ x. refl) h
RequestStep-Sound {s = s} {t = t} (authority_rejected now c request_id reason m h) q =
    review_authority-Sound now c s t q m request_id _ _ _ (λ x. refl) (λ x. refl) h

-- From a table with distinct primary keys whose requests are lawful, no sequence of submissions,
-- transitions, cancellations, fulfilments and reviews of a representative, one at a time, makes a
-- request unlawful: a request that is approved or fulfilled has a type with an execution pipeline,
-- and needs no representative or has one whose authority was verified; a fulfilled erasure was
-- carried out; and a decided request has the time of its decision.
pub RequestHistory-Sound :
    {s t : Session} → RequestHistory s t → RequestsSound s.db → RequestsSound t.db
RequestHistory-Sound here q = q
RequestHistory-Sound (next r st) q = RequestStep-Sound st (RequestHistory-Sound r q)
