-- ===== src/Privacy/Requests/Outcome.antt =====
-- The parts of an operation on a data-subject request that returned.
use fastapi_saas_template.Prelude.{
  ℕ, Bool, ◌≡◌, refl, [], ◌∷◌, ◌++◌, Option, some, none, arith, Text, find_first, update, map_found,
}
use fastapi_saas_template.Errors.{Error, ok}
use fastapi_saas_template.Exec.{bind-eq-ok, ◌>>=◌, pure}
use fastapi_saas_template.Session.{Db, Session}
use fastapi_saas_template.Audit.Events.{record_event, record_event-ok}
use fastapi_saas_template.Models.AuditEvent.{AuditAction, AuditContext, AuditEvent}
use fastapi_saas_template.Models.DataSubjectRequest.{DataSubjectRequest, DataSubjectRequestStatus}
use fastapi_saas_template.Privacy.Requests.Repository.{
  set_requests, update_returning, is_current, is_reviewed, transition_status_if_current,
  update_representative_authority_if_current,
}
use fastapi_saas_template.Privacy.Requests.Checks.{check_transition, check_reviewable}
use fastapi_saas_template.Privacy.Requests.Service.{
  transition_values, action_for_status, status_event, authority_event, require_updated,
  apply_transition, transition, review_authority,
}

update_returning-ok :
    (p : DataSubjectRequest → Bool) (f : DataSubjectRequest → DataSubjectRequest) (s t : Session)
    (r : Option DataSubjectRequest)
    → update_returning p f s ≡ (ok r, t)
    → (r ≡ map_found f (find_first p s.db.data_subject_requests))
      × (t ≡ record s { db = set_requests (update p f s.db.data_subject_requests) s.db })
unfolding update_returning ◌>>=◌
update_returning-ok p f s t r h = (ground arith, ground arith)

require_updated-ok :
    (id : ℕ) (found : Option DataSubjectRequest) (e : DataSubjectRequest → Error) (s t : Session)
    (m : DataSubjectRequest)
    → require_updated id found e s ≡ (ok m, t)
    → (found ≡ some m) × (t ≡ s)
unfolding require_updated
require_updated-ok id (some x) e s t m h = (ground arith, ground arith)
require_updated-ok id none e s t m h = absurd (ground arith)

-- What a guarded UPDATE left: the first row that met its conditions was changed and is returned,
-- and one audit event was added.
pub record Changed (p : DataSubjectRequest → Bool) (f : DataSubjectRequest → DataSubjectRequest)
    (event : DataSubjectRequest → AuditEvent) (old new : Db) (m : DataSubjectRequest) : Type 0 where
  pub row : DataSubjectRequest
  pub found : find_first p old.data_subject_requests ≡ some row
  pub returned : m ≡ f row
  pub leaves : new ≡ record old {
    data_subject_requests = update p f old.data_subject_requests;
    audit_events = old.audit_events ++ event m ∷ [];
  }

module _ (p : DataSubjectRequest → Bool) (f : DataSubjectRequest → DataSubjectRequest)
    (event : DataSubjectRequest → AuditEvent) (id : ℕ) (e : DataSubjectRequest → Error) where
  found_row :
      (o : Option DataSubjectRequest) (m : DataSubjectRequest)
      → map_found f o ≡ some m
      → (row : DataSubjectRequest) × (o ≡ some row) × (m ≡ f row)
  found_row none m h = absurd (ground arith)
  found_row (some x) m h = (x, refl, ground arith)

  -- The tail that the operations share: an UPDATE, the test of its result, and an event.
  tail-Changed :
      (s s1 s2 s3 t : Session) (found : Option DataSubjectRequest) (updated m : DataSubjectRequest)
      (old : Db)
      → s.db ≡ old
      → update_returning p f s ≡ (ok found, s1)
      → require_updated id found e s1 ≡ (ok updated, s2)
      → record_event (event updated) s2 ≡ (ok tt, s3)
      → pure {S = Session} updated s3 ≡ (ok m, t)
      → Changed p f event old t.db m
  tail-Changed s s1 s2 s3 t found updated m old start e1 e2 e3 h =
      let stored = update_returning-ok p f s s1 found e1 in
      let passed = require_updated-ok id found e s1 s2 updated e2 in
      let recorded = record_event-ok (event updated) s2 s3 e3 in
      let same : m ≡ updated = ground arith in
      let got : map_found f (find_first p old.data_subject_requests) ≡ some m = ground arith in
      let (row, found', returned) = found_row (find_first p old.data_subject_requests) m got in
      record { row = row; found = found'; returned = returned; leaves = ground arith }

module _ (others : Db → Db) (now : ℕ) (audit_context : AuditContext) (request_id : ℕ) where
  -- A transition that returned: what it read, and what its UPDATE found and left.
  pub record Moved (next : DataSubjectRequestStatus) (reviewer_user_id : Option ℕ)
      (reason_code : Option Text) (verified : Bool) (old new : Db) (m : DataSubjectRequest)
      : Type 0 where
    pub request : DataSubjectRequest
    pub checked : check_transition request_id next verified old ≡ ok request
    pub changed :
        Changed
          (is_current request_id request.status next)
          (transition_values next reviewer_user_id reason_code now)
          (status_event audit_context (action_for_status next))
          (others old)
          new
          m

  pub transition-Moved :
      (next : DataSubjectRequestStatus) (reviewer_user_id : Option ℕ) (reason_code : Option Text)
      (verified : Bool) (s t : Session) (m : DataSubjectRequest)
      → transition others now audit_context request_id next reviewer_user_id reason_code verified s
        ≡ (ok m, t)
      → Moved next reviewer_user_id reason_code verified s.db t.db m
  unfolding transition apply_transition transition_status_if_current
  transition-Moved next reviewer_user_id reason_code verified s t m h =
      let (request, s1, e1, h1) = bind-eq-ok _ _ s t m h in
      let (done, s2, e2, h2) = bind-eq-ok _ _ s1 t m h1 in
      let (found, s3, e3, h3) = bind-eq-ok _ _ s2 t m h2 in
      let (updated, s4, e4, h4) = bind-eq-ok _ _ s3 t m h3 in
      let (done', s5, e5, h5) = bind-eq-ok _ _ s4 t m h4 in
      let read : s1 ≡ s = ground arith in
      let between : s2.db ≡ others s.db = ground arith in
      record {
        request = request;
        checked = ground arith;
        changed =
            tail-Changed _ _ _ request_id _ s2 s3 s4 s5 t found updated m (others s.db) between e3
              e4 e5 h5;
      }

  -- A review of the representative's authority that returned.
  pub record Reviewed (values : DataSubjectRequest → DataSubjectRequest) (action : AuditAction)
      (reason_code : Option Text) (old new : Db) (m : DataSubjectRequest) : Type 0 where
    pub request : DataSubjectRequest
    pub checked : check_reviewable request_id old ≡ ok request
    pub changed :
        Changed
          (is_reviewed request.id request.status request.representative_status)
          values
          (authority_event audit_context action reason_code)
          (others old)
          new
          m

  pub review_authority-Reviewed :
      (action : AuditAction) (reason_code : Option Text)
      (values : DataSubjectRequest → DataSubjectRequest) (s t : Session) (m : DataSubjectRequest)
      → review_authority others now audit_context request_id action reason_code values s ≡ (ok m, t)
      → Reviewed values action reason_code s.db t.db m
  unfolding review_authority update_representative_authority_if_current
  review_authority-Reviewed action reason_code values s t m h =
      let (request, s1, e1, h1) = bind-eq-ok _ _ s t m h in
      let (done, s2, e2, h2) = bind-eq-ok _ _ s1 t m h1 in
      let (found, s3, e3, h3) = bind-eq-ok _ _ s2 t m h2 in
      let (updated, s4, e4, h4) = bind-eq-ok _ _ s3 t m h3 in
      let (done', s5, e5, h5) = bind-eq-ok _ _ s4 t m h4 in
      let read : s1 ≡ s = ground arith in
      let between : s2.db ≡ others s.db = ground arith in
      record {
        request = request;
        checked = ground arith;
        changed =
            tail-Changed _ _ _ request.id _ s2 s3 s4 s5 t found updated m (others s.db) between e3
              e4 e5 h5;
      }
