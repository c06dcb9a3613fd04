-- ===== src/Privacy/Requests/Preserved.antt =====
-- Each operation on data-subject requests, alone, keeps the requests lawful.
use fastapi_saas_template.Prelude.{
  ℕ, Bool, true, false, ◌||◌, ◌≡◌, refl, sym, subst, ap, Option, some, none, arith, Text, InTable,
  [], ◌∷◌, ◌++◌, update, has_key, DistinctKeys, DistinctKeys-append, DistinctKeys-update, AllRows,
  AllRows-append, AllRows-update, find_first_unique, Bool-cases, inl, inr,
}
use fastapi_saas_template.Errors.{ok}
use fastapi_saas_template.Exec.{bind-eq-ok}
use fastapi_saas_template.Session.{Db, Session}
use fastapi_saas_template.Models.AuditEvent.{AuditAction, AuditContext}
use fastapi_saas_template.Models.DataSubjectRequest.{
  DataSubjectRequest, DataSubjectRequestStatus, fulfilled, cancelled, key, is_submitted,
  is_under_review, is_fulfilled, is_erase, is_ready,
}
use fastapi_saas_template.Privacy.Requests.Repository.{get_by_id, is_current, is_reviewed}
use fastapi_saas_template.Privacy.Requests.Checks.{
  get_request, check_fulfilment, ensure_execution_ready,
}
use fastapi_saas_template.Privacy.Requests.Service.{
  transition, transition_status, transition_values, cancel_own_request, fulfil_request,
  review_authority,
}
use fastapi_saas_template.Privacy.Requests.Intake.{Submission, Intake}
use fastapi_saas_template.Privacy.Requests.Submission.{submit_request, new_request}
use fastapi_saas_template.Privacy.Requests.Submitted.{submit_request-ok}
use fastapi_saas_template.Privacy.Requests.Outcome.{transition-Moved, review_authority-Reviewed}
use fastapi_saas_template.Privacy.Requests.Lawful.{
  IsLawful, check_transition-ok, check_reviewable-ok, transition_values-IsLawful,
}

-- The primary keys are distinct, and every request is lawful.
pub record RequestsSound (db : Db) : Type 0 where
  pub distinct : DistinctKeys key db.data_subject_requests
  pub lawful : AllRows IsLawful db.data_subject_requests

-- No other session commits during the operation.
abbrev pub alone : Db → Db
alone db = db

-- A guarded UPDATE that keeps the rows it changes lawful.
Changed-Sound :
    (p : DataSubjectRequest → Bool) (f : DataSubjectRequest → DataSubjectRequest) (old new : Db)
    → ((x : DataSubjectRequest) → (f x).id ≡ x.id)
    → ((x : DataSubjectRequest)
        → InTable x old.data_subject_requests
        → p x ≡ true
        → IsLawful x
        → IsLawful (f x))
    → new.data_subject_requests ≡ update p f old.data_subject_requests
    → RequestsSound old
    → RequestsSound new
Changed-Sound p f old new same keep e q = record {
  distinct =
      subst (DistinctKeys key) (sym e)
        (DistinctKeys-update key p f same old.data_subject_requests q.distinct);
  lawful =
      subst (AllRows IsLawful) (sym e)
        (AllRows-update IsLawful p f old.data_subject_requests keep q.lawful);
}

module _ (now : ℕ) (audit_context : AuditContext) (s t : Session) (q : RequestsSound s.db)
    (m : DataSubjectRequest) where
  pub transition-Sound :
      (request_id : ℕ) (next : DataSubjectRequestStatus) (reviewer_user_id : Option ℕ)
      (reason_code : Option Text) (by_execution : Bool)
      → ((r : DataSubjectRequest)
          → get_by_id request_id s.db ≡ some r
          → is_fulfilled next ≡ true
          → is_erase r.request_type ≡ true
          → is_ready r.execution_status ≡ true)
      → transition alone now audit_context request_id next reviewer_user_id reason_code by_execution
          s
        ≡ (ok m, t)
      → RequestsSound t.db
  unfolding get_by_id
  transition-Sound request_id next reviewer_user_id reason_code by_execution executed h =
      let moved =
        transition-Moved alone now audit_context request_id next reviewer_user_id reason_code
          by_execution s t m h in
      let read =
        check_transition-ok request_id s.db moved.request next by_execution moved.checked in
      let rows = s.db.data_subject_requests in
      let only : (x : DataSubjectRequest) → InTable x rows → x.id ≡ request_id → x ≡ moved.request =
        λ x i e. find_first_unique key request_id rows x moved.request q.distinct i e read.found in
      Changed-Sound (is_current request_id moved.request.status next)
        (transition_values next reviewer_user_id reason_code now) s.db t.db (λ x. refl)
        (λ x i p l.
          let e : x ≡ moved.request = only x i (ground arith) in
          transition_values-IsLawful next moved.request.status x reviewer_user_id reason_code now
            read.allowed (ground arith) (λ a. rw e (read.approvable a))
            (λ a. rw e (read.authorised a)) (λ f. rw e (executed moved.request read.found f)) l)
        (ap (λ (d : Db). d.data_subject_requests) moved.changed.leaves) q

  pub transition_status-Sound :
      (request_id : ℕ) (next : DataSubjectRequestStatus) (reviewer_user_id : Option ℕ)
      (reason_code : Option Text)
      → transition_status alone now audit_context request_id next reviewer_user_id reason_code s
        ≡ (ok m, t)
      → RequestsSound t.db
  unfolding transition_status
  transition_status-Sound request_id next reviewer_user_id reason_code h =
      elim (Bool-cases (is_fulfilled next)) [
        | inl f ↦ let k = rw f at h in absurd (cc k)
        | inr o ↦
            transition-Sound request_id next reviewer_user_id reason_code false
              (λ r e f. absurd (ground arith)) (rw o at h)
      ]

  check_fulfilment-ok :
      (request_id : ℕ) (r : DataSubjectRequest)
      → check_fulfilment now request_id s.db ≡ ok r
      → (get_by_id request_id s.db ≡ some r)
        × (is_erase r.request_type ≡ true → is_ready r.execution_status ≡ true)
  unfolding check_fulfilment get_request ensure_execution_ready
  check_fulfilment-ok request_id r h = (ground arith, λ e. ground arith)

  pub fulfil_request-Sound :
      (request_id reviewer_user_id : ℕ)
      → fulfil_request alone now audit_context request_id reviewer_user_id s ≡ (ok m, t)
      → RequestsSound t.db
  unfolding fulfil_request
  fulfil_request-Sound request_id reviewer_user_id h =
      let (r, s1, e1, h1) = bind-eq-ok _ _ s t m h in
      let same : s1 ≡ s = ground arith in
      let (found, executed) = check_fulfilment-ok request_id r (ground arith) in
      transition-Sound request_id fulfilled _ none true
        (λ x e f erased.
          let one : x ≡ r = ground (arith, e, found) in rw one (executed (rw (← one) erased)))
        (rw same at h1)

  pub cancel_own_request-Sound :
      (requester_user_id request_id : ℕ)
      → cancel_own_request alone now audit_context requester_user_id request_id s ≡ (ok m, t)
      → RequestsSound t.db
  unfolding cancel_own_request
  cancel_own_request-Sound requester_user_id request_id h =
      let (r, s1, e1, h1) = bind-eq-ok _ _ s t m h in
      let same : s1 ≡ s = ground arith in
      transition_status-Sound request_id cancelled _ none (rw same at h1)

  review-IsLawful :
      (x y : DataSubjectRequest)
      → (is_submitted x.status || is_under_review x.status) ≡ true
      → y.status ≡ x.status
      → IsLawful y
  review-IsLawful x y u e = record {
    approvable = λ g. absurd (ground arith);
    authorised = λ g. absurd (ground arith);
    executed = λ g w. absurd (ground arith);
    decided = λ g. absurd (ground arith);
  }

  pub review_authority-Sound :
      (request_id : ℕ) (action : AuditAction) (reason_code : Option Text)
      (values : DataSubjectRequest → DataSubjectRequest)
      → ((x : DataSubjectRequest) → (values x).id ≡ x.id)
      → ((x : DataSubjectRequest) → (values x).status ≡ x.status)
      → review_authority alone now audit_context request_id action reason_code values s ≡ (ok m, t)
      → RequestsSound t.db
  review_authority-Sound request_id action reason_code values ids statuses h =
      let r =
        review_authority-Reviewed alone now audit_context request_id action reason_code values s t m
          h in
      let (found, undecided, by_other) = check_reviewable-ok request_id s.db r.request r.checked in
      Changed-Sound (is_reviewed r.request.id r.request.status r.request.representative_status)
        values s.db t.db ids (λ x i p l. review-IsLawful x (values x) (ground arith) (statuses x))
        (ap (λ (d : Db). d.data_subject_requests) r.changed.leaves) q

module _ (hash : Text → Text) (uuid_text : ℕ → Text) (now id requester_user_id : ℕ)
    (audit_context : AuditContext) (s t : Session) (m : DataSubjectRequest) where
  new_request-IsLawful :
      (i : Intake) → IsLawful (new_request hash uuid_text now id requester_user_id i)
  new_request-IsLawful i = record {
    approvable = λ g. absurd (ground arith);
    authorised = λ g. absurd (ground arith);
    executed = λ g w. absurd (ground arith);
    decided = λ g. absurd (ground arith);
  }

  pub submit_request-Sound :
      (submission : Submission)
      → submit_request hash uuid_text now id requester_user_id audit_context submission s
        ≡ (ok m, t)
      → has_key key id s.db.data_subject_requests ≡ false
      → RequestsSound s.db
      → RequestsSound t.db
  submit_request-Sound submission h fresh q =
      let (i, checked, either) =
        submit_request-ok hash uuid_text now id requester_user_id audit_context submission s t m
          h in
      elim either [
        | inl reused ↦ subst RequestsSound (sym reused.unchanged) q
        | inr created ↦
            let rows = s.db.data_subject_requests in
            let now_stored : t.db.data_subject_requests ≡ rows ++ m ∷ [] =
              ap (λ (d : Db). d.data_subject_requests) created.leaves in
            let with_id : m.id ≡ id = ap key created.returned in
            record {
              distinct =
                  subst (DistinctKeys key) (sym now_stored)
                    (DistinctKeys-append key rows m (rw with_id fresh) q.distinct);
              lawful = subst (AllRows IsLawful) (sym now_stored) (
                  AllRows-append IsLawful rows m q.lawful
                    (subst IsLawful (sym created.returned) (new_request-IsLawful i)));
            }
      ]
