-- ===== src/Privacy/Requests/Intake.antt =====
-- What `submit_request` of backend/app/privacy/services/data_subject_requests.py checks and
-- normalises before it writes. The hash function (SHA-256) and the text of a UUID are arguments.
use fastapi_saas_template.Prelude.{
  ℕ, Bool, true, false, not, ◌&&◌, List, [], ◌∷◌, ◌++◌, Option, none, some, ◌==◌, leb, is_some,
  Text, codes, text_eq, strip, any, length, if◌then◌else◌,
}
use fastapi_saas_template.Errors.{Result, ok, err, bad_request, require, ◌>>=◌, ◌>>◌}
use fastapi_saas_template.Session.{Db}
use fastapi_saas_template.Users
use fastapi_saas_template.Models.DataSubjectRequest.{
  DataSubjectRequestType, access, export, erase, rectify, restrict, object, portability,
  DataSubjectRequestRequesterRole, self, authorised_representative,
  DataSubjectRequestRepresentativeStatus, not_required, pending_verification, type_value,
  role_value, is_self,
}
use fastapi_saas_template.Privacy.Requests.Patterns.{email_like, search_in, looks_like_credentials}

-- `DataSubjectRequestType(request_type)`: the member with this value.
unfoldable pub find_type : Text → List DataSubjectRequestType → Result DataSubjectRequestType
unfolding type_value text_eq
find_type value [] = err (
    bad_request
      "Invalid request_type. Supported values: access, export, erase, rectify, restrict, object, portability")
find_type value (t ∷ ts) =
    let rest = find_type value ts in if text_eq value (type_value t) then ok t else rest

unfoldable pub normalise_request_type : Text → Result DataSubjectRequestType
unfolding find_type
normalise_request_type value =
    find_type value (access ∷ export ∷ erase ∷ rectify ∷ restrict ∷ object ∷ portability ∷ [])

unfoldable pub normalise_requester_role : Text → Result DataSubjectRequestRequesterRole
unfolding role_value text_eq
normalise_requester_role value =
    if text_eq value (role_value self)
    then ok self
    else if text_eq value (role_value authorised_representative)
    then ok authorised_representative
    else err
        (bad_request "Invalid requester_role. Supported values: self, authorised_representative")

-- `_normalise_optional_text`
abbrev non_empty : Text → Option Text
non_empty [] = none
non_empty (c ∷ cs) = some (c ∷ cs)

unfoldable pub normalise_optional_text : Option Text → Option Text
normalise_optional_text none = none
normalise_optional_text (some t) = non_empty (strip t)

unfoldable pub normalise_idempotency_key : Option Text → Option Text
normalise_idempotency_key none = none
normalise_idempotency_key (some key) = some (strip key)

abbrev is_empty : Text → Bool
is_empty [] = true
is_empty (c ∷ cs) = false

contains_char : ℕ → Text → Bool
contains_char c text = any (λ d. d == c) text

-- `_validate_idempotency_key_safety` on a key that is there.
unfoldable pub validate_key : Text → Result (Unit {0})
unfolding contains_char
validate_key candidate = do
  require (not (is_empty candidate)) (bad_request "Idempotency key must not be empty")
  require (leb (length candidate) 512) (bad_request "Idempotency key is too long")
  require (not (search_in email_like candidate))
      (bad_request "Idempotency key must not contain email-like values")
  require (not (looks_like_credentials candidate))
      (bad_request "Idempotency key appears to contain credential or token-like content")
  require (not (contains_char b':' candidate && contains_char b'=' candidate))
      (bad_request "Idempotency key appears to contain sensitive structured data")

unfoldable pub validate_idempotency_key_safety : Option Text → Result (Unit {0})
validate_idempotency_key_safety none = ok tt
validate_idempotency_key_safety (some key) = validate_key (strip key)

-- The values of `_build_representative_intake_values`.
pub record Representation : Type 0 where
  pub subject_user_id : ℕ
  pub requester_role : DataSubjectRequestRequesterRole
  pub representative_status : DataSubjectRequestRepresentativeStatus
  pub representative_relationship : Option Text
  pub representative_authority_note : Option Text

abbrev is_other : ℕ → Option ℕ → Bool
is_other user_id none = false
is_other user_id (some id) = not (id == user_id)

unfoldable pub self_values : ℕ → Option ℕ → Option Text → Option Text → Result Representation
self_values requester_user_id subject_user_id relationship note = do
  require (not (is_other requester_user_id subject_user_id))
      (bad_request "subject_user_id is only allowed for representative requests")
  require (not (is_some relationship))
      (bad_request "representative_relationship is only allowed for representative requests")
  require (not (is_some note))
      (bad_request "representative_authority_note is only allowed for representative requests")
  ok (record {
    subject_user_id = requester_user_id;
    requester_role = self;
    representative_status = not_required;
    representative_relationship = none;
    representative_authority_note = none;
  })

unfoldable pub representative_values :
    ℕ → Option ℕ → Option Text → Option Text → Result Representation
representative_values requester_user_id none relationship authority =
    err (bad_request "subject_user_id is required for representative requests")
representative_values requester_user_id (some subject_user_id) none authority =
    if subject_user_id == requester_user_id
    then err (bad_request "Representative requests must target a different subject user")
    else err (bad_request "representative_relationship is required for representative requests")
representative_values requester_user_id (some subject_user_id) (some relationship) none =
    if subject_user_id == requester_user_id
    then err (bad_request "Representative requests must target a different subject user")
    else err (bad_request "representative_authority_note is required for representative requests")
representative_values requester_user_id (some subject_user_id) (some relationship) (some note) = do
  require (not (subject_user_id == requester_user_id))
      (bad_request "Representative requests must target a different subject user")
  require (leb (length relationship) 64)
      (bad_request "Representative relationship exceeds maximum length of 64 characters")
  require (leb (length note) 2000)
      (bad_request "Representative authority note exceeds maximum length of 2000 characters")
  ok (record {
    subject_user_id = subject_user_id;
    requester_role = authorised_representative;
    representative_status = pending_verification;
    representative_relationship = some relationship;
    representative_authority_note = some note;
  })

unfoldable pub build_representative_intake_values :
    DataSubjectRequestRequesterRole
    → ℕ
    → Option ℕ
    → Option Text
    → Option Text
    → Result Representation
build_representative_intake_values self = self_values
build_representative_intake_values authorised_representative = representative_values

-- `_ensure_representative_subject_exists`
unfoldable pub ensure_representative_subject_exists : Representation → Db → Result (Unit {0})
ensure_representative_subject_exists r db =
    if is_self r.requester_role
    then ok tt
    else require (is_some (Users.get_by_id r.subject_user_id db))
        (bad_request "Representative subject user was not found")

abbrev or_empty : Option Text → Text
or_empty none = []
or_empty (some t) = t

module _ (hash : Text → Text) (uuid_text : ℕ → Text) where
  -- `_build_fingerprint`
  unfoldable pub build_fingerprint : DataSubjectRequestType → Option Text → Representation → Text
  build_fingerprint request_type note r = hash (
      codes "request_type="
      ++ (type_value request_type
          ++ (codes "|requester_note="
              ++ (or_empty note
                  ++ (codes "|subject_user_id="
                      ++ (uuid_text r.subject_user_id
                          ++ (codes "|requester_role="
                              ++ (role_value r.requester_role
                                  ++ (codes "|representative_relationship="
                                      ++ (or_empty r.representative_relationship
                                          ++ (codes "|representative_authority_note="
                                              ++ or_empty r.representative_authority_note)))))))))))

  -- `_build_pre_representative_fingerprint`
  unfoldable pub build_pre_representative_fingerprint : DataSubjectRequestType → Option Text → Text
  build_pre_representative_fingerprint request_type note = hash (
      codes "request_type="
      ++ (type_value request_type ++ (codes "|requester_note=" ++ or_empty note)))

-- The arguments of `submit_request` that come from the request's body and headers.
pub record Submission : Type 0 where
  pub request_type : Text
  pub requester_note : Option Text
  pub subject_user_id : Option ℕ
  pub requester_role : Text
  pub representative_relationship : Option Text
  pub representative_authority_note : Option Text
  pub idempotency_key : Option Text

abbrev pub note_fits : Option Text → Bool
note_fits none = true
note_fits (some note) = leb (length note) 2000

-- What the submission amounts to, once it is checked.
pub record Intake : Type 0 where
  pub request_type : DataSubjectRequestType
  pub requester_note : Option Text
  pub representation : Representation
  pub key : Option Text

-- The lines of `submit_request` up to the fingerprints.
unfoldable pub check_submission : ℕ → Submission → Db → Result Intake
check_submission requester_user_id s db = do
  request_type ← normalise_request_type s.request_type
  role ← normalise_requester_role s.requester_role
  require (note_fits s.requester_note)
      (bad_request "Requester note exceeds maximum length of 2000 characters")
  validate_idempotency_key_safety (normalise_idempotency_key s.idempotency_key)
  representation ←
      build_representative_intake_values role requester_user_id s.subject_user_id
        (normalise_optional_text s.representative_relationship)
        (normalise_optional_text s.representative_authority_note)
  ensure_representative_subject_exists representation db
  ok (record {
    request_type = request_type;
    requester_note = s.requester_note;
    representation = representation;
    key = normalise_idempotency_key s.idempotency_key;
  })
