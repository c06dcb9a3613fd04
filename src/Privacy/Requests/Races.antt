-- ===== src/Privacy/Requests/Races.antt =====
-- What other sessions commit between a transition's read and its UPDATE cannot make it unlawful.
use fastapi_saas_template.Prelude.{
  ℕ, Bool, true, false, ◌≡◌, Option, arith, Text, InTable, find_first-holds, find_first-InTable,
  Bool-cases, inl, inr,
}
use fastapi_saas_template.Errors.{ok}
use fastapi_saas_template.Session.{Db, Session}
use fastapi_saas_template.Models.AuditEvent.{AuditContext}
use fastapi_saas_template.Models.DataSubjectRequest.{
  DataSubjectRequest, DataSubjectRequestStatus, is_approved, is_fulfilled, allows_approval,
}
use fastapi_saas_template.Privacy.Requests.Repository.{is_current}
use fastapi_saas_template.Privacy.Requests.Checks.{is_allowed}
use fastapi_saas_template.Privacy.Requests.Service.{
  transition, transition_status, transition_values,
}
use fastapi_saas_template.Privacy.Requests.Outcome.{transition-Moved}
use fastapi_saas_template.Privacy.Requests.Lawful.{check_transition-ok}

-- The row that the UPDATE changed, as it stood when the other sessions had committed.
pub record Admits (request_id : ℕ) (next : DataSubjectRequestStatus)
    (values : DataSubjectRequest → DataSubjectRequest) (between : Db) (m : DataSubjectRequest)
    : Type 0 where
  pub row : DataSubjectRequest
  pub stored : InTable row between.data_subject_requests
  pub has_id : row.id ≡ request_id
  pub allowed : is_allowed row.status next ≡ true
  pub authorised : is_approved next ≡ true → allows_approval row.representative_status ≡ true
  pub returned : m ≡ values row

module _ (request_id : ℕ) (current next : DataSubjectRequestStatus) (row : DataSubjectRequest) where
  current-allowed :
      is_current request_id current next row ≡ true
      → is_allowed current next ≡ true
      → is_allowed row.status next ≡ true
  unfolding is_allowed
  current-allowed c a = ground arith

  current-authorised :
      is_current request_id current next row ≡ true
      → is_approved next ≡ true
      → allows_approval row.representative_status ≡ true
  current-authorised c e = ground arith

  current-id : is_current request_id current next row ≡ true → row.id ≡ request_id
  current-id c = ground arith

module _ (others : Db → Db) (now : ℕ) (audit_context : AuditContext) (request_id : ℕ)
    (next : DataSubjectRequestStatus) (reviewer_user_id : Option ℕ) (reason_code : Option Text)
    (s t : Session) (m : DataSubjectRequest) where
  transition-Admits :
      (verified : Bool)
      → transition others now audit_context request_id next reviewer_user_id reason_code verified s
        ≡ (ok m, t)
      → Admits request_id next
          (transition_values next reviewer_user_id reason_code now)
          (others s.db)
          m
  transition-Admits verified h =
      let moved =
        transition-Moved others now audit_context request_id next reviewer_user_id reason_code
          verified s t m h in
      let read = check_transition-ok request_id s.db moved.request next verified moved.checked in
      let p = is_current request_id moved.request.status next in
      let rows = (others s.db).data_subject_requests in
      let row = moved.changed.row in
      let holds = find_first-holds p rows row moved.changed.found in
      record {
        row = row;
        stored = find_first-InTable p rows row moved.changed.found;
        has_id = current-id request_id moved.request.status next row holds;
        allowed = current-allowed request_id moved.request.status next row holds read.allowed;
        authorised = current-authorised request_id moved.request.status next row holds;
        returned = moved.changed.returned;
      }

  -- Whatever other sessions commit between the read of a request and its UPDATE, a transition that
  -- returns has changed a row with the request's id whose status at the UPDATE admits the new one;
  -- an approval has found there a representative who is verified or not required; and the row that
  -- it returns is that row with the transition's values.
  pub transition_status-Admits :
      transition_status others now audit_context request_id next reviewer_user_id reason_code s
        ≡ (ok m, t)
      → Admits request_id next
          (transition_values next reviewer_user_id reason_code now)
          (others s.db)
          m
  unfolding transition_status
  transition_status-Admits h = elim (Bool-cases (is_fulfilled next)) [
    | inl f ↦ let k = rw f at h in absurd (cc k)
    | inr o ↦ transition-Admits false (rw o at h)
  ]
