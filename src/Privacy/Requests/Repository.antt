-- ===== src/Privacy/Requests/Repository.antt =====
-- backend/app/privacy/repositories/data_subject_requests.py
use fastapi_saas_template.Prelude.{
  ℕ, Bool, false, not, ◌&&◌, ◌||◌, List, [], ◌∷◌, ◌++◌, Option, none, some, ◌==◌, leb, ltb, Text,
  text_eq, if◌then◌else◌, find_first, select, update, map_found,
}
use fastapi_saas_template.Errors.{ok}
use fastapi_saas_template.Exec.{pure, ◌>>=◌, ◌>>◌}
use fastapi_saas_template.Session.{Db, Tx, ask, modify}
use fastapi_saas_template.Models.DataSubjectRequest.{
  DataSubjectRequest, DataSubjectRequestStatus, DataSubjectRequestRepresentativeStatus, is_approved,
  status_eq, representative_eq, allows_approval,
}

abbrev pub is_of : ℕ → Option ℕ → Bool
is_of user_id none = false
is_of user_id (some id) = id == user_id

unfoldable pub get_by_id : ℕ → Db → Option DataSubjectRequest
get_by_id request_id db = find_first (λ r. r.id == request_id) db.data_subject_requests

unfoldable pub get_by_id_for_requester : ℕ → ℕ → Db → Option DataSubjectRequest
get_by_id_for_requester request_id requester_user_id db =
    find_first (λ r. (r.id == request_id) && is_of requester_user_id r.requester_user_id)
      db.data_subject_requests

abbrev pub same_hash : Option Text → Text → Bool
same_hash none hash = false
same_hash (some h) hash = text_eq h hash

abbrev pub is_after : Option ℕ → ℕ → Bool
is_after none now = false
is_after (some at) now = ltb now at

-- The `WHERE` clause of `get_non_expired_by_idempotency_key_hash`.
abbrev pub uses_key : ℕ → Text → ℕ → DataSubjectRequest → Bool
uses_key requester_user_id hash now r =
    is_of requester_user_id r.requester_user_id
    && (same_hash r.idempotency_key_hash hash && is_after r.idempotency_key_expires_at now)

abbrev pub newer : DataSubjectRequest → Option DataSubjectRequest → Option DataSubjectRequest
newer r none = some r
newer r (some x) = if leb x.created_at r.created_at then some r else some x

-- `ORDER BY created_at DESC LIMIT 1`
unfoldable pub latest : List DataSubjectRequest → Option DataSubjectRequest
latest [] = none
latest (r ∷ rs) = newer r (latest rs)

unfoldable pub get_non_expired_by_idempotency_key_hash :
    ℕ → Text → ℕ → Db → Option DataSubjectRequest
get_non_expired_by_idempotency_key_hash requester_user_id hash now db =
    latest (select (uses_key requester_user_id hash now) db.data_subject_requests)

abbrev pub set_requests : List DataSubjectRequest → Db → Db
set_requests rs db = record db { data_subject_requests = rs }

unfoldable pub create : DataSubjectRequest → Tx DataSubjectRequest
create request = do
  modify (λ db. set_requests (db.data_subject_requests ++ request ∷ []) db)
  pure request

-- `update(DataSubjectRequest).where(p).values(…).returning(DataSubjectRequest)`; the primary key is
-- in every `WHERE`, so one row at most is changed.
unfoldable pub update_returning :
    (DataSubjectRequest → Bool)
    → (DataSubjectRequest → DataSubjectRequest)
    → Tx (Option DataSubjectRequest)
update_returning p f = do
  found ← ask (λ db. ok (find_first p db.data_subject_requests))
  modify (λ db. set_requests (update p f db.data_subject_requests) db)
  pure (map_found f found)

-- The conditions of `transition_status_if_current`.
abbrev pub is_current :
    ℕ → DataSubjectRequestStatus → DataSubjectRequestStatus → DataSubjectRequest → Bool
is_current request_id expected_status next r =
    (r.id == request_id)
    && (status_eq r.status expected_status
        && (not (is_approved next) || allows_approval r.representative_status))

unfoldable pub transition_status_if_current :
    ℕ
    → DataSubjectRequestStatus
    → DataSubjectRequestStatus
    → (DataSubjectRequest → DataSubjectRequest)
    → Tx (Option DataSubjectRequest)
transition_status_if_current request_id expected_status next values =
    update_returning (is_current request_id expected_status next) values

-- The conditions of `update_representative_authority_if_current`.
abbrev pub is_reviewed :
    ℕ
    → DataSubjectRequestStatus
    → DataSubjectRequestRepresentativeStatus
    → DataSubjectRequest
    → Bool
is_reviewed request_id expected_status expected_representative_status r =
    (r.id == request_id)
    && (status_eq r.status expected_status
        && representative_eq r.representative_status expected_representative_status)

unfoldable pub update_representative_authority_if_current :
    ℕ
    → DataSubjectRequestStatus
    → DataSubjectRequestRepresentativeStatus
    → (DataSubjectRequest → DataSubjectRequest)
    → Tx (Option DataSubjectRequest)
update_representative_authority_if_current request_id expected_status expected values =
    update_returning (is_reviewed request_id expected_status expected) values
