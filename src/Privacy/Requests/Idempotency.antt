-- ===== src/Privacy/Requests/Idempotency.antt =====
-- A submission that is sent again with its idempotency key is answered with the request it made.
use fastapi_saas_template.Prelude.{
  ℕ, ◌+◌, ◌*◌, ◌≤◌, ◌<◌, true, false, ◌≡◌, refl, ap, ◌∙◌, List, [], ◌∷◌, ◌++◌, Option, some, none,
  arith, Text, text_eq_refl, select, Bool-cases, inl, inr,
}
use fastapi_saas_template.Errors.{ok}
use fastapi_saas_template.Exec.{◌>>=◌}
use fastapi_saas_template.Session.{Db, Session}
use fastapi_saas_template.Users
use fastapi_saas_template.Models.AuditEvent.{AuditContext}
use fastapi_saas_template.Models.DataSubjectRequest.{DataSubjectRequest}
use fastapi_saas_template.Privacy.Requests.Repository.{
  uses_key, latest, newer, get_non_expired_by_idempotency_key_hash,
}
use fastapi_saas_template.Privacy.Requests.Intake.{
  Submission, Intake, check_submission, normalise_idempotency_key,
  ensure_representative_subject_exists, build_fingerprint,
}
use fastapi_saas_template.Privacy.Requests.Submission.{
  submit_request, reuse_or_create, new_request, lookup_key, fingerprint_matches,
}
use fastapi_saas_template.Privacy.Requests.Submitted.{Created, submit_request-ok}

newer-ne-none : (r : DataSubjectRequest) (o : Option DataSubjectRequest) → newer r o ≡ none → ⊥
newer-ne-none r none h = ground arith
newer-ne-none r (some x) h = ground arith

latest-none : (rs : List DataSubjectRequest) → latest rs ≡ none → rs ≡ []
unfolding latest
latest-none [] h = refl
latest-none (r ∷ rs) h = absurd (newer-ne-none r (latest rs) h)

-- Once a key is free it stays free of the requests that were there.
uses_key-later :
    (user : ℕ) (hash : Text) (now later : ℕ) (r : DataSubjectRequest)
    → now ≤ later
    → uses_key user hash now r ≡ false
    → uses_key user hash later r ≡ false
uses_key-later user hash now later r ordered h = split r.idempotency_key_expires_at refl
  where
    split : (x : Option ℕ) → r.idempotency_key_expires_at ≡ x → uses_key user hash later r ≡ false
    split none e = ground arith
    split (some at) e = ground arith

select-append_last :
    (user : ℕ) (hash : Text) (now later : ℕ) (rs : List DataSubjectRequest) (m : DataSubjectRequest)
    → now ≤ later
    → select (uses_key user hash now) rs ≡ []
    → uses_key user hash later m ≡ true
    → select (uses_key user hash later) (rs ++ m ∷ []) ≡ m ∷ []
unfolding select
select-append_last user hash now later [] m ordered h own = rw own
select-append_last user hash now later (r ∷ rs) m ordered h own =
    elim (Bool-cases (uses_key user hash now r)) [
      | inl used ↦ absurd (ground arith)
      | inr free ↦
          let rest : select (uses_key user hash now) rs ≡ [] = rw free at h in
          rw (uses_key-later user hash now later r ordered free)
            (select-append_last user hash now later rs m ordered rest own)
    ]

check_submission-key :
    (user : ℕ) (submission : Submission) (db : Db) (i : Intake)
    → check_submission user submission db ≡ ok i
    → i.key ≡ normalise_idempotency_key submission.idempotency_key
unfolding check_submission
check_submission-key user submission db i h = ground arith

module _ (hash : Text → Text) (uuid_text : ℕ → Text) (user : ℕ) (i : Intake) (key : Text) where
  keyed_uses_key :
      (now id later : ℕ)
      → i.key ≡ some key
      → later < now + 24 * 3600
      → uses_key user (hash key) later (new_request hash uuid_text now id user i) ≡ true
  keyed_uses_key now id later e soon = ground (arith, text_eq_refl (hash key))

  keyed_matches :
      (now id : ℕ)
      → i.key ≡ some key
      → fingerprint_matches hash uuid_text i (new_request hash uuid_text now id user i) ≡ true
  unfolding fingerprint_matches
  keyed_matches now id e = ground (
    arith,
    e,
    text_eq_refl
        (build_fingerprint hash uuid_text i.request_type i.requester_note i.representation),
  )

  -- What a repeated submission finds and returns.
  repeated :
      (now id : ℕ) (audit_context : AuditContext) (later id' : ℕ) (audit_context' : AuditContext)
      (s t : Session) (m : DataSubjectRequest)
      → i.key ≡ some key
      → Created hash uuid_text now id user audit_context i s.db t.db m
      → now ≤ later
      → later < now + 24 * 3600
      → (lookup_key hash uuid_text later id' user audit_context' i.key t.db ≡ some m)
        × (reuse_or_create hash uuid_text later id' user audit_context' i (some m) t ≡ (ok m, t))
  unfolding lookup_key get_non_expired_by_idempotency_key_hash reuse_or_create latest
  repeated now id audit_context later id' audit_context' s t m e created ordered soon =
      let rows = s.db.data_subject_requests in
      let unused : get_non_expired_by_idempotency_key_hash user (hash key) now s.db ≡ none =
        rw e at created.unused in
      let free = latest-none (select (uses_key user (hash key) now) rows) unused in
      let own : uses_key user (hash key) later m ≡ true =
        rw created.returned (keyed_uses_key now id later e soon) in
      let stored : t.db.data_subject_requests ≡ rows ++ m ∷ [] =
        ap (λ (d : Db). d.data_subject_requests) created.leaves in
      let found = select-append_last user (hash key) now later rows m ordered free own in
      let fits : fingerprint_matches hash uuid_text i m ≡ true =
        rw created.returned (keyed_matches now id e) in
      (rw (e, stored, found) refl, rw fits refl)

same_check :
    (user : ℕ) (submission : Submission) (old new : Db)
    → new.users ≡ old.users
    → check_submission user submission new ≡ check_submission user submission old
unfolding check_submission ensure_representative_subject_exists Users.get_by_id
same_check user submission old new e = rw e refl

-- When a submission with an idempotency key that the requester had not in use has returned a
-- request, the same submission within the key's 24 hours, whatever primary key and time it comes
-- with, returns that request and changes nothing.
pub submit_request-again :
    (hash : Text → Text) (uuid_text : ℕ → Text) (now id user : ℕ) (audit_context : AuditContext)
    (submission : Submission) (key : Text) (s t : Session) (m : DataSubjectRequest)
    → submit_request hash uuid_text now id user audit_context submission s ≡ (ok m, t)
    → normalise_idempotency_key submission.idempotency_key ≡ some key
    → lookup_key hash uuid_text now id user audit_context (some key) s.db ≡ none
    → (later id' : ℕ) (audit_context' : AuditContext) → now ≤ later
    → later < now + 24 * 3600
    → submit_request hash uuid_text later id' user audit_context' submission t ≡ (ok m, t)
unfolding submit_request ◌>>=◌
submit_request-again hash uuid_text now id user c submission key s t m h keyed unused later id' c'
      ordered soon =
    let (i, checked, either) = submit_request-ok hash uuid_text now id user c submission s t m h in
    let i_key : i.key ≡ some key = check_submission-key user submission s.db i checked ∙ keyed in
    elim either [
      | inl reused ↦ absurd (cc (rw i_key at reused.used, unused))
      | inr created ↦
          let (found, answered) =
            repeated hash uuid_text user i key now id c later id' c' s t m i_key created ordered
              soon in
          let again : check_submission user submission t.db ≡ ok i =
            same_check user submission s.db t.db (ap (λ (d : Db). d.users) created.leaves)
            ∙ checked in
          rw (again, found) answered
    ]
