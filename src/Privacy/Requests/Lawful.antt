-- ===== src/Privacy/Requests/Lawful.antt =====
-- What holds of every stored data-subject request, and that each write keeps it.
use fastapi_saas_template.Prelude.{
  ℕ, Bool, true, false, ◌||◌, ◌≡◌, Option, some, arith, Text, is_some, Bool-cases, inl, inr,
}
use fastapi_saas_template.Errors.{ok}
use fastapi_saas_template.Session.{Db}
use fastapi_saas_template.Models.DataSubjectRequest.{
  DataSubjectRequest, DataSubjectRequestStatus, submitted, under_review, approved, fulfilled,
  cancelled, is_approved, is_rejected, is_fulfilled, is_submitted, is_under_review, is_erase,
  is_ready, is_self, status_eq, allows_approval,
}
use fastapi_saas_template.Privacy.Requests.Repository.{get_by_id}
use fastapi_saas_template.Privacy.Requests.Checks.{
  get_request, is_allowed, is_approvable, ensure_can_be_approved, ensure_approval, check_transition,
  check_reviewable,
}
use fastapi_saas_template.Privacy.Requests.Service.{transition_values}

-- The request was approved, and perhaps fulfilled since.
abbrev pub is_granted : DataSubjectRequestStatus → Bool
is_granted s = is_approved s || is_fulfilled s

-- A granted request has a type with an execution pipeline and needs no representative or has one
-- whose authority was verified; a fulfilled erasure was carried out; and a decision has a time.
pub record IsLawful (r : DataSubjectRequest) : Type 0 where
  pub approvable : is_granted r.status ≡ true → is_approvable r.request_type ≡ true
  pub authorised : is_granted r.status ≡ true → allows_approval r.representative_status ≡ true
  pub executed :
      is_fulfilled r.status ≡ true
      → is_erase r.request_type ≡ true
      → is_ready r.execution_status ≡ true
  pub decided : (is_granted r.status || is_rejected r.status) ≡ true → is_some r.decided_at ≡ true

-- What the guards of a transition establish when they pass.
pub record MayMove (request_id : ℕ) (next : DataSubjectRequestStatus) (db : Db)
    (request : DataSubjectRequest) : Type 0 where
  pub found : get_by_id request_id db ≡ some request
  pub allowed : is_allowed request.status next ≡ true
  pub approvable : is_approved next ≡ true → is_approvable request.request_type ≡ true
  pub authorised : is_approved next ≡ true → allows_approval request.representative_status ≡ true

module _ (request_id : ℕ) (db : Db) (request : DataSubjectRequest) where
  get_request-ok : get_request request_id db ≡ ok request → get_by_id request_id db ≡ some request
  unfolding get_request
  get_request-ok h = ground arith

  ensure_approval-ok :
      (next : DataSubjectRequestStatus)
      → ensure_approval next request ≡ ok tt
      → is_approved next ≡ true
      → (is_approvable request.request_type ≡ true)
        × (allows_approval request.representative_status ≡ true)
  unfolding ensure_approval ensure_can_be_approved
  ensure_approval-ok approved h e = (ground arith, ground arith)
  ensure_approval-ok submitted h e = absurd (ground arith)
  ensure_approval-ok under_review h e = absurd (ground arith)
  ensure_approval-ok DataSubjectRequestStatus.rejected h e = absurd (ground arith)
  ensure_approval-ok fulfilled h e = absurd (ground arith)
  ensure_approval-ok cancelled h e = absurd (ground arith)

  pub check_transition-ok :
      (next : DataSubjectRequestStatus) (verified : Bool)
      → check_transition request_id next verified db ≡ ok request
      → MayMove request_id next db request
  unfolding check_transition
  check_transition-ok next verified h =
      let guarded : ensure_approval next request ≡ ok tt = ground arith in
      record {
        found = get_request-ok (ground arith);
        allowed = ground arith;
        approvable = λ e. (ensure_approval-ok next guarded e).0;
        authorised = λ e. (ensure_approval-ok next guarded e).1;
      }

  -- A request under review of its representative is not decided.
  pub check_reviewable-ok :
      check_reviewable request_id db ≡ ok request
      → (get_by_id request_id db ≡ some request)
        × ((is_submitted request.status || is_under_review request.status) ≡ true)
        × (is_self request.requester_role ≡ false)
  unfolding check_reviewable
  check_reviewable-ok h = (get_request-ok (ground arith), ground arith, ground arith)

module _ (next current : DataSubjectRequestStatus) (r : DataSubjectRequest) where
  -- Only an approved request is fulfilled.
  was_granted :
      is_allowed current next ≡ true
      → status_eq r.status current ≡ true
      → is_approved next ≡ false
      → is_granted next ≡ true
      → is_granted r.status ≡ true
  unfolding is_allowed
  was_granted a s n g = ground arith

  -- A transition of the table of transitions keeps the row lawful, if an approval has an approvable
  -- type and a fulfilled erasure was carried out.
  pub transition_values-IsLawful :
      (reviewer_user_id : Option ℕ) (reason_code : Option Text) (now : ℕ)
      → is_allowed current next ≡ true
      → status_eq r.status current ≡ true
      → (is_approved next ≡ true → is_approvable r.request_type ≡ true)
      → (is_approved next ≡ true → allows_approval r.representative_status ≡ true)
      → (is_fulfilled next ≡ true
          → is_erase r.request_type ≡ true
          → is_ready r.execution_status ≡ true)
      → IsLawful r
      → IsLawful (transition_values next reviewer_user_id reason_code now r)
  unfolding is_allowed
  transition_values-IsLawful reviewer_user_id reason_code now a s t q x l = record {
    approvable = λ g. elim (Bool-cases (is_approved next)) [
      | inl e ↦ t e
      | inr e ↦ l.approvable (was_granted a s e g)
    ];
    authorised = λ g. elim (Bool-cases (is_approved next)) [
      | inl e ↦ q e
      | inr e ↦ l.authorised (was_granted a s e g)
    ];
    executed = x;
    decided = λ d. elim (Bool-cases (is_approved next)) [
      | inl e ↦ ground arith
      | inr e ↦ ground (arith, was_granted a s e)
    ];
  }
