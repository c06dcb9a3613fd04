-- ===== src/Privacy/Requests/Represented.antt =====
-- Whom a submitted request is for, and which request answers it.
use fastapi_saas_template.Prelude.{ℕ, true, ◌≡◌, some, Text, InTable}
use fastapi_saas_template.Session.{Db, Session}
use fastapi_saas_template.Models.DataSubjectRequest.{DataSubjectRequest}
use fastapi_saas_template.Privacy.Requests.Repository.{uses_key}
use fastapi_saas_template.Privacy.Requests.Intake.{Submission, Intake}
use fastapi_saas_template.Privacy.Requests.Submission.{fingerprint_matches}

-- A request that was stored before, by the same requester with the same key, which has not expired,
-- and for the same payload.
pub record IsAnswer (hash : Text → Text) (uuid_text : ℕ → Text) (now user : ℕ) (i : Intake)
    (db : Db) (m : DataSubjectRequest) : Type 0 where
  pub key : Text
  pub keyed : i.key ≡ some key
  pub stored : InTable m db.data_subject_requests
  pub used : uses_key user (hash key) now m ≡ true
  pub matches : fingerprint_matches hash uuid_text i m ≡ true
