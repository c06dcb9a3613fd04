-- ===== src/Privacy/Requests/Board.antt =====
-- The detailed operations on data-subject requests as moves on the board of their statuses.
use mathlib.Core.Path.{fun_ext}
use fastapi_saas_template.Prelude.{
  ℕ, Bool, true, false, ◌≡◌, refl, ap, Option, none, arith, Text, Bool-cases, inl, inr,
}
use fastapi_saas_template.Errors.{ok}
use fastapi_saas_template.Exec.{bind-eq-ok}
use fastapi_saas_template.Session.{Db, Session}
use fastapi_saas_template.Models.AuditEvent.{AuditAction, AuditContext}
use fastapi_saas_template.Models.DataSubjectRequest.{
  DataSubjectRequest, DataSubjectRequestStatus, key, fulfilled, cancelled, is_fulfilled,
}
use fastapi_saas_template.Privacy.Requests.Repository.{get_by_id}
use fastapi_saas_template.Privacy.Requests.Service.{
  transition, transition_status, transition_values, cancel_own_request, fulfil_request,
  review_authority, verify_representative_authority, reject_representative_authority,
}
use fastapi_saas_template.Privacy.Requests.Outcome.{transition-Moved, review_authority-Reviewed}
use fastapi_saas_template.Privacy.Requests.Submitted.{submit_request-ok}
use fastapi_saas_template.Privacy.Requests.Lawful.{check_transition-ok}
use fastapi_saas_template.Privacy.Requests.Histories
use fastapi_saas_template.Privacy.Requests.Histories.{RequestStep}
use fastapi_saas_template.Privacy.Requests.Preserved.{alone}
use fastapi_saas_template.Privacy.Requests.Statuses.{
  shown, board, BoardStep, stay, move, moved_board, kept_status, created_board,
}

module _ (now : ℕ) (audit_context : AuditContext) (s t : Session) (m : DataSubjectRequest) where
  transition-BoardStep :
      (request_id : ℕ) (next : DataSubjectRequestStatus) (reviewer_user_id : Option ℕ)
      (reason_code : Option Text) (by_execution : Bool)
      → transition alone now audit_context request_id next reviewer_user_id reason_code by_execution
          s
        ≡ (ok m, t)
      → BoardStep (board s.db) (board t.db)
  transition-BoardStep request_id next reviewer_user_id reason_code by_execution h =
      let moved =
        transition-Moved alone now audit_context request_id next reviewer_user_id reason_code
          by_execution s t m h in
      let may = check_transition-ok request_id s.db moved.request next by_execution moved.checked in
      move request_id moved.request.status next (ap shown may.found) may.allowed (
        moved_board request_id next s.db moved.request t.db
          (transition_values next reviewer_user_id reason_code now) may (λ x. refl) (λ x. refl)
          (ap (λ (d : Db). d.data_subject_requests) moved.changed.leaves))

  transition_status-BoardStep :
      (request_id : ℕ) (next : DataSubjectRequestStatus) (reviewer_user_id : Option ℕ)
      (reason_code : Option Text)
      → transition_status alone now audit_context request_id next reviewer_user_id reason_code s
        ≡ (ok m, t)
      → BoardStep (board s.db) (board t.db)
  unfolding transition_status
  transition_status-BoardStep request_id next reviewer_user_id reason_code h =
      elim (Bool-cases (is_fulfilled next)) [
        | inl f ↦ let k = rw f at h in absurd (cc k)
        | inr o ↦
            transition-BoardStep request_id next reviewer_user_id reason_code false (rw o at h)
      ]

  cancel_own_request-BoardStep :
      (requester_user_id request_id : ℕ)
      → cancel_own_request alone now audit_context requester_user_id request_id s ≡ (ok m, t)
      → BoardStep (board s.db) (board t.db)
  unfolding cancel_own_request
  cancel_own_request-BoardStep requester_user_id request_id h =
      let (r, s1, e1, h1) = bind-eq-ok _ _ s t m h in
      let same : s1 ≡ s = ground arith in
      transition_status-BoardStep request_id cancelled _ none (rw same at h1)

  fulfil_request-BoardStep :
      (request_id reviewer_user_id : ℕ)
      → fulfil_request alone now audit_context request_id reviewer_user_id s ≡ (ok m, t)
      → BoardStep (board s.db) (board t.db)
  unfolding fulfil_request
  fulfil_request-BoardStep request_id reviewer_user_id h =
      let (r, s1, e1, h1) = bind-eq-ok _ _ s t m h in
      let same : s1 ≡ s = ground arith in
      transition-BoardStep request_id fulfilled _ none true (rw same at h1)

  review_authority-BoardStep :
      (request_id : ℕ) (action : AuditAction) (reason_code : Option Text)
      (values : DataSubjectRequest → DataSubjectRequest)
      → ((x : DataSubjectRequest) → (values x).id ≡ x.id)
      → ((x : DataSubjectRequest) → (values x).status ≡ x.status)
      → review_authority alone now audit_context request_id action reason_code values s ≡ (ok m, t)
      → BoardStep (board s.db) (board t.db)
  unfolding get_by_id
  review_authority-BoardStep request_id action reason_code values ids statuses h =
      let r =
        review_authority-Reviewed alone now audit_context request_id action reason_code values s t m
          h in
      stay (
        fun_ext λ j.
          rw (ap (λ (d : Db). d.data_subject_requests) r.changed.leaves)
            (kept_status _ values j s.db.data_subject_requests ids statuses))

-- Every operation on data-subject requests that returns, while no other session commits, does to
-- the statuses shown on the board what the board allows: nothing, one new submitted request under
-- an unused id, or one move of the table of transitions, with all other statuses unchanged.
pub RequestStep-BoardStep : {s t : Session} → RequestStep s t → BoardStep (board s.db) (board t.db)
unfolding verify_representative_authority reject_representative_authority
RequestStep-BoardStep {s = s} {t = t}
      (Histories.submitted hash uuid_text now id user c submission m fresh h) =
    let (i, checked, either) = submit_request-ok hash uuid_text now id user c submission s t m h in
    elim either [
      | inl reused ↦ stay (ap board reused.unchanged)
      | inr created ↦
          created_board s.db t.db m id fresh (ap key created.returned)
            (ap (λ (r : DataSubjectRequest). r.status) created.returned)
            (ap (λ (d : Db). d.data_subject_requests) created.leaves)
    ]
RequestStep-BoardStep {s = s} {t = t} (Histories.moved now c request_id n reviewer reason m h) =
    transition_status-BoardStep now c s t m request_id n reviewer reason h
RequestStep-BoardStep {s = s} {t = t} (Histories.withdrawn now c user request_id m h) =
    cancel_own_request-BoardStep now c s t m user request_id h
RequestStep-BoardStep {s = s} {t = t} (Histories.fulfilled_by now c request_id reviewer m h) =
    fulfil_request-BoardStep now c s t m request_id reviewer h
RequestStep-BoardStep {s = s} {t = t}
      (Histories.authority_verified now c request_id reviewer reason m h) =
    review_authority-BoardStep now c s t m request_id _ _ _ (λ x. refl) (λ x. refl) h
RequestStep-BoardStep {s = s} {t = t} (Histories.authority_rejected now c request_id reason m h) =
    review_authority-BoardStep now c s t m request_id _ _ _ (λ x. refl) (λ x. refl) h
