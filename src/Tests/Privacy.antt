-- ===== src/Tests/Privacy.antt =====
-- The theorems of Privacy.Requests at concrete inputs.
use fastapi_saas_template.Prelude.{
  ℕ, Bool, true, ◌≡◌, refl, Text, none, some, [], ◌∷◌, codes, arith, has_key, count, find_first,
  select, update, any, text_eq, strip, lower,
}
use fastapi_saas_template.Errors.{Result, ok}
use fastapi_saas_template.Exec.{◌>>=◌}
use fastapi_saas_template.Session.{Session}
use fastapi_saas_template.Users
use fastapi_saas_template.Audit.Events.{record_event}
use fastapi_saas_template.Audit.Metadata.{
  validate_metadata_json, validate_no_forbidden_metadata_keys, calculate_json_depth, dumps_size,
}
use fastapi_saas_template.Models.DataSubjectRequest.{
  DataSubjectRequest, export, authorised_representative, pending_verification, verified, approved,
  type_value, role_value,
}
use fastapi_saas_template.Privacy.Requests.Repository
use fastapi_saas_template.Privacy.Requests.Checks.{
  get_request, is_allowed, ensure_can_be_approved, ensure_approval, check_transition,
  check_reviewable,
}
use fastapi_saas_template.Privacy.Requests.Service.{
  require_updated, apply_transition, transition, transition_status, transition_values,
  review_authority, verify_representative_authority,
}
use fastapi_saas_template.Privacy.Requests.Patterns
use fastapi_saas_template.Privacy.Requests.Intake.{
  find_type, normalise_request_type, normalise_requester_role, normalise_optional_text,
  normalise_idempotency_key, validate_key, validate_idempotency_key_safety, self_values,
  representative_values, build_representative_intake_values, ensure_representative_subject_exists,
  build_fingerprint, build_pre_representative_fingerprint, check_submission, Submission, Intake,
}
use fastapi_saas_template.Privacy.Requests.Submission.{
  fingerprint_matches, is_legacy_row, lookup_key, create_request, reuse_or_create, submit_request,
  new_request,
}
use fastapi_saas_template.Privacy.Requests.Races.{Admits, transition_status-Admits}
use fastapi_saas_template.Privacy.Requests.Histories.{
  RequestHistory, here, next, submitted, authority_verified, moved, RequestHistory-Sound,
}
use fastapi_saas_template.Privacy.Requests.Preserved.{RequestsSound, alone}
use fastapi_saas_template.Privacy.Requests.Board.{RequestStep-BoardStep}
use fastapi_saas_template.Privacy.Requests.Statuses.{board, BoardStep}
use fastapi_saas_template.Privacy.Requests.Idempotency.{submit_request-again}
use fastapi_saas_template.Tests.Fixture.{tenant_db, session, acting}

-- A hash function and a text of an id for the tests.
abbrev hash : Text → Text
hash token = 0 ∷ token

abbrev uuid_text : ℕ → Text
uuid_text id = id ∷ []

-- User 10 asks for the data of user 12.
abbrev submission : Submission
submission = record {
  request_type = codes "export";
  requester_note = none;
  subject_user_id = some 12;
  requester_role = codes "authorised_representative";
  representative_relationship = some (codes "parent");
  representative_authority_note = some (codes "court order");
  idempotency_key = some (codes " k7 ");
}

abbrev start : Session
start = session tenant_db

abbrev intake : Intake
intake = record {
  request_type = export;
  requester_note = none;
  representation = record {
    subject_user_id = 12;
    requester_role = authorised_representative;
    representative_status = pending_verification;
    representative_relationship = some (codes "parent");
    representative_authority_note = some (codes "court order");
  };
  key = some (codes "k7");
}

-- All that a run computes through.
running : Bool
unfolding submit_request lookup_key create_request reuse_or_create fingerprint_matches is_legacy_row
    check_submission find_type normalise_request_type normalise_requester_role
    normalise_optional_text normalise_idempotency_key validate_key validate_idempotency_key_safety
    self_values representative_values build_representative_intake_values
    ensure_representative_subject_exists build_fingerprint build_pre_representative_fingerprint
    transition transition_status apply_transition require_updated review_authority
    verify_representative_authority get_request is_allowed ensure_can_be_approved ensure_approval
    check_transition check_reviewable Patterns.search_in Patterns.email_like
    Patterns.looks_like_credentials Repository.get_by_id Repository.create
    Repository.get_non_expired_by_idempotency_key_hash Repository.latest Repository.update_returning
    Repository.transition_status_if_current Repository.update_representative_authority_if_current
    Users.get_by_id type_value role_value record_event validate_metadata_json
    validate_no_forbidden_metadata_keys calculate_json_depth dumps_size ◌>>=◌ has_key find_first
    select update any count text_eq strip lower
running = true

abbrev submitted_run : Result DataSubjectRequest × Session
submitted_run = submit_request hash uuid_text 1000 40 10 (acting 10) submission start

abbrev stored : DataSubjectRequest
stored = new_request hash uuid_text 1000 40 10 intake

abbrev after : Session
after = submitted_run.1

abbrev verified_run : Result DataSubjectRequest × Session
verified_run = verify_representative_authority alone 2000 (acting 11) 40 11 none after

abbrev with_authority : DataSubjectRequest
with_authority = record stored {
  representative_status = verified;
  representative_verified_at = some 2000;
  representative_verified_by_user_id = some 11;
}

abbrev approved_run : Result DataSubjectRequest × Session
approved_run = transition_status alone 3000 (acting 11) 40 approved (some 11) none verified_run.1

submit_request-again_example :
    submit_request hash uuid_text 5000 41 10 (acting 10) submission after ≡ (ok stored, after)
unfolding running
submit_request-again_example =
    submit_request-again hash uuid_text 1000 40 10 (acting 10) submission (codes "k7") start after
      stored refl refl refl 5000 41 (acting 10) (omega arith) (omega arith)

transition_status-Admits_example :
    Admits 40 approved
      (transition_values approved (some 11) none 3000)
      verified_run.1.db
      (transition_values approved (some 11) none 3000 with_authority)
unfolding running
transition_status-Admits_example =
    transition_status-Admits alone 3000 (acting 11) 40 approved (some 11) none verified_run.1
      approved_run.1 (transition_values approved (some 11) none 3000 with_authority) refl

history : RequestHistory start approved_run.1
unfolding running
history =
    next
      (next
        (next here (submitted hash uuid_text 1000 40 10 (acting 10) submission stored refl refl))
        (authority_verified 2000 (acting 11) 40 11 none with_authority refl))
      (moved 3000 (acting 11) 40 approved (some 11) none
        (transition_values approved (some 11) none 3000 with_authority) refl)

RequestHistory-Sound_example : RequestsSound approved_run.1.db
RequestHistory-Sound_example = RequestHistory-Sound history (record { distinct = tt; lawful = tt })

RequestStep-BoardStep_example : BoardStep (board start.db) (board after.db)
unfolding running
RequestStep-BoardStep_example =
    RequestStep-BoardStep {s = start} {t = after}
      (submitted hash uuid_text 1000 40 10 (acting 10) submission stored refl refl)
