-- ===== src/Privacy/Requests/Submitted.antt =====
-- The parts of a submission that returned.
use fastapi_saas_template.Prelude.{
  ℕ, true, ◌≡◌, ap, sym, ◌∙◌, [], ◌∷◌, ◌++◌, Option, some, none, arith, Text, ◌⊎◌, inl, inr,
  Bool-cases,
}
use fastapi_saas_template.Errors.{Result, ok}
use fastapi_saas_template.Exec.{bind-eq-ok, ◌>>=◌, pure}
use fastapi_saas_template.Session.{Db, Session}
use fastapi_saas_template.Audit.Events.{record_event, record_event-ok}
use fastapi_saas_template.Models.AuditEvent.{AuditContext, data_subject_request_submitted}
use fastapi_saas_template.Models.DataSubjectRequest.{DataSubjectRequest}
use fastapi_saas_template.Privacy.Requests.Repository.{create}
use fastapi_saas_template.Privacy.Requests.Service.{status_event}
use fastapi_saas_template.Privacy.Requests.Intake.{Submission, Intake, check_submission}
use fastapi_saas_template.Privacy.Requests.Submission.{
  submit_request, reuse_or_create, create_request, new_request, lookup_key, fingerprint_matches,
}

create-ok :
    (request m : DataSubjectRequest) (s t : Session)
    → create request s ≡ (ok m, t)
    → (m ≡ request)
      × (t.db ≡ record s.db { data_subject_requests = s.db.data_subject_requests ++ request ∷ [] })
unfolding create ◌>>=◌
create-ok request m s t h = (
  sym (cc (ap (λ (p : Result DataSubjectRequest × Session). p.0) h)),
  sym (ap (λ (p : Result DataSubjectRequest × Session). p.1.db) h),
)

module _ (hash : Text → Text) (uuid_text : ℕ → Text) (now id requester_user_id : ℕ)
    (audit_context : AuditContext) where
  -- A submission that was stored.
  pub record Created (i : Intake) (old new : Db) (m : DataSubjectRequest) : Type 0 where
    pub unused : lookup_key hash uuid_text now id requester_user_id audit_context i.key old ≡ none
    pub returned : m ≡ new_request hash uuid_text now id requester_user_id i
    pub leaves : new ≡ record old {
      data_subject_requests = old.data_subject_requests ++ m ∷ [];
      audit_events =
          old.audit_events ++ status_event audit_context data_subject_request_submitted m ∷ [];
    }

  -- A submission whose key was used before for the same payload.
  pub record Reused (i : Intake) (old new : Db) (m : DataSubjectRequest) : Type 0 where
    pub used : lookup_key hash uuid_text now id requester_user_id audit_context i.key old ≡ some m
    pub matches : fingerprint_matches hash uuid_text i m ≡ true
    pub unchanged : new ≡ old

  module _ (s t : Session) (m : DataSubjectRequest) where
    stored-Created :
        (i : Intake) (request : DataSubjectRequest) (s1 s2 : Session)
        → lookup_key hash uuid_text now id requester_user_id audit_context i.key s.db ≡ none
        → create (new_request hash uuid_text now id requester_user_id i) s ≡ (ok request, s1)
        → record_event (status_event audit_context data_subject_request_submitted request) s1
          ≡ (ok tt, s2)
        → pure {S = Session} request s2 ≡ (ok m, t)
        → Created i s.db t.db m
    stored-Created i request s1 s2 free e1 e2 h =
        let stored = create-ok _ request s s1 e1 in
        let recorded = record_event-ok _ s1 s2 e2 in
        let same : m ≡ request = ground arith in
        record { unused = free; returned = same ∙ stored.0; leaves = ground arith }

    reuse_or_create-ok :
        (i : Intake) (found : Option DataSubjectRequest)
        → lookup_key hash uuid_text now id requester_user_id audit_context i.key s.db ≡ found
        → reuse_or_create hash uuid_text now id requester_user_id audit_context i found s
          ≡ (ok m, t)
        → Reused i s.db t.db m ⊎ Created i s.db t.db m
    unfolding reuse_or_create create_request
    reuse_or_create-ok i none e h =
        let (request, s1, e1, h1) = bind-eq-ok _ _ s t m h in
        let (done, s2, e2, h2) = bind-eq-ok _ _ s1 t m h1 in
        inr (stored-Created i request s1 s2 e e1 e2 h2)
    reuse_or_create-ok i (some x) e h = elim (Bool-cases (fingerprint_matches hash uuid_text i x)) [
      | inl fits ↦
          let k : (ok x, s) ≡ (ok m, t) = rw fits at h in
          let same : x ≡ m = cc (ap (λ (p : Result DataSubjectRequest × Session). p.0) k) in
          inl (record {
            used = e ∙ ap some same;
            matches = rw (← same) fits;
            unchanged = sym (ap (λ (p : Result DataSubjectRequest × Session). p.1.db) k);
          })
      | inr differs ↦ let k = rw differs at h in absurd (cc k)
    ]

  pub submit_request-ok :
      (submission : Submission) (s t : Session) (m : DataSubjectRequest)
      → submit_request hash uuid_text now id requester_user_id audit_context submission s
        ≡ (ok m, t)
      → (i : Intake) × (check_submission requester_user_id submission s.db ≡ ok i)
        × (Reused i s.db t.db m ⊎ Created i s.db t.db m)
  unfolding submit_request
  submit_request-ok submission s t m h =
      let (i, s1, e1, h1) = bind-eq-ok _ _ s t m h in
      let (found, s2, e2, h2) = bind-eq-ok _ _ s1 t m h1 in
      let read : s1 ≡ s = ground arith in
      let again : s2 ≡ s = ground arith in
      (i, ground arith, reuse_or_create-ok s t m i found (ground arith) (rw again at h2))
