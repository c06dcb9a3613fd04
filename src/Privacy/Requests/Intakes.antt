-- ===== src/Privacy/Requests/Intakes.antt =====
-- What a submitted request is read as.
use fastapi_saas_template.Prelude.{
  ℕ, ◌≤◌, true, false, ◌≡◌, ap, Option, some, none, arith, ◌==◌, Text, is_some, length, ◌⊎◌, inl,
  inr, refl,
}
use fastapi_saas_template.Errors.{
  Error, Result, ok, err, bad_request, require, bind-ok, ◌>>=◌, ◌>>◌,
}
use fastapi_saas_template.Session.{Db}
use fastapi_saas_template.Users
use fastapi_saas_template.Models.DataSubjectRequest.{
  DataSubjectRequestType, DataSubjectRequestRequesterRole, self, authorised_representative, is_self,
  is_not_required, is_pending_verification,
}
use fastapi_saas_template.Privacy.Requests.Intake.{
  Submission, Intake, Representation, check_submission, self_values, representative_values,
  note_fits, normalise_request_type, normalise_requester_role, normalise_optional_text,
  normalise_idempotency_key, validate_idempotency_key_safety, build_representative_intake_values,
  ensure_representative_subject_exists,
}

-- A text that is there and no longer than the bound.
pub record IsText (bound : ℕ) (text : Option Text) : Type 0 where
  pub value : Text
  pub present : text ≡ some value
  pub fits : length value ≤ bound

-- Whom a submission by this user is for. For oneself, it names its requester, needs no verification
-- and has no relationship and no authority. For somebody else, it names the user that was submitted,
-- who is another one and known, gives the relationship and the authority that were submitted, less
-- the space around them, and awaits verification.
pub record IsRepresented (user : ℕ) (submission : Submission) (db : Db) (r : Representation)
    : Type 0 where
  pub own :
      is_self r.requester_role ≡ true
      → (r.subject_user_id ≡ user)
        × ((submission.subject_user_id ≡ none) ⊎ (submission.subject_user_id ≡ some user))
        × (is_not_required r.representative_status ≡ true)
        × (r.representative_relationship ≡ none)
        × (r.representative_authority_note ≡ none)
        × (normalise_optional_text submission.representative_relationship ≡ none)
        × (normalise_optional_text submission.representative_authority_note ≡ none)
  pub other :
      is_self r.requester_role ≡ false
      → (submission.subject_user_id ≡ some r.subject_user_id)
        × ((r.subject_user_id == user) ≡ false)
        × (is_some (Users.get_by_id r.subject_user_id db) ≡ true)
        × (is_pending_verification r.representative_status ≡ true)
        × (r.representative_relationship
            ≡ normalise_optional_text submission.representative_relationship)
        × IsText 64 r.representative_relationship
        × (r.representative_authority_note
            ≡ normalise_optional_text submission.representative_authority_note)
        × IsText 2000 r.representative_authority_note

-- What a submission by this user is read as.
pub record IsIntake (user : ℕ) (submission : Submission) (db : Db) (i : Intake) : Type 0 where
  pub kind : normalise_request_type submission.request_type ≡ ok i.request_type
  pub role : normalise_requester_role submission.requester_role ≡ ok i.representation.requester_role
  pub words : i.requester_note ≡ submission.requester_note
  pub words_fit : note_fits submission.requester_note ≡ true
  pub key : i.key ≡ normalise_idempotency_key submission.idempotency_key
  pub represented : IsRepresented user submission db i.representation

module _ (user : ℕ) (submission : Submission) (db : Db) (r : Representation) where
  subject_own :
      (subject : Option ℕ) (relationship authority : Option Text)
      → self_values user subject relationship authority ≡ ok r
      → (subject ≡ none) ⊎ (subject ≡ some user)
  unfolding self_values
  subject_own none relationship authority h = inl refl
  subject_own (some x) relationship authority h = inr (ground arith)

  self_values-role :
      (subject : Option ℕ) (relationship authority : Option Text)
      → self_values user subject relationship authority ≡ ok r
      → r.requester_role ≡ self
  unfolding self_values
  self_values-role subject relationship authority h = ground arith

  self_values-IsRepresented :
      (relationship authority : Option Text)
      → relationship ≡ normalise_optional_text submission.representative_relationship
      → authority ≡ normalise_optional_text submission.representative_authority_note
      → self_values user submission.subject_user_id relationship authority ≡ ok r
      → IsRepresented user submission db r
  unfolding self_values
  self_values-IsRepresented relationship authority a b h = record {
    own = λ e. (
      ground arith,
      subject_own submission.subject_user_id relationship authority h,
      ground arith,
      ground arith,
      ground arith,
      ground arith,
      ground arith,
    );
    other = λ e. absurd (ground arith);
  }

  representative_values-role :
      (subject : Option ℕ) (relationship authority : Option Text)
      → representative_values user subject relationship authority ≡ ok r
      → r.requester_role ≡ authorised_representative
  unfolding representative_values
  representative_values-role none relationship authority h = absurd (cc h)
  representative_values-role (some x) none authority h = absurd (ground arith)
  representative_values-role (some x) (some y) none h = absurd (ground arith)
  representative_values-role (some x) (some y) (some z) h = ground arith

  representative_values-IsRepresented :
      (subject : Option ℕ) (relationship authority : Option Text)
      → submission.subject_user_id ≡ subject
      → relationship ≡ normalise_optional_text submission.representative_relationship
      → authority ≡ normalise_optional_text submission.representative_authority_note
      → representative_values user subject relationship authority ≡ ok r
      → ensure_representative_subject_exists r db ≡ ok tt
      → IsRepresented user submission db r
  unfolding representative_values ensure_representative_subject_exists
  representative_values-IsRepresented none relationship authority c a b h k = absurd (cc h)
  representative_values-IsRepresented (some x) none authority c a b h k = absurd (ground arith)
  representative_values-IsRepresented (some x) (some y) none c a b h k = absurd (ground arith)
  representative_values-IsRepresented (some x) (some y) (some z) c a b h k = record {
    own = λ e. absurd (ground arith);
    other = λ e. (
      ground arith,
      ground arith,
      ground arith,
      ground arith,
      ground arith,
      record { value = y; present = ground arith; fits = ground arith },
      ground arith,
      record { value = z; present = ground arith; fits = ground arith },
    );
  }

  build-IsRepresented :
      (role : DataSubjectRequestRequesterRole) (relationship authority : Option Text)
      → relationship ≡ normalise_optional_text submission.representative_relationship
      → authority ≡ normalise_optional_text submission.representative_authority_note
      → build_representative_intake_values role user submission.subject_user_id relationship
          authority
        ≡ ok r
      → ensure_representative_subject_exists r db ≡ ok tt
      → (r.requester_role ≡ role) × IsRepresented user submission db r
  unfolding build_representative_intake_values
  build-IsRepresented self relationship authority a b h k = (
    self_values-role submission.subject_user_id relationship authority h,
    self_values-IsRepresented relationship authority a b h,
  )
  build-IsRepresented authorised_representative relationship authority a b h k = (
    representative_values-role submission.subject_user_id relationship authority h,
    representative_values-IsRepresented submission.subject_user_id relationship authority refl a b h
        k,
  )

-- The parts of a check that returned, with the results of its calls for those calls.
record Parts (kind : Result DataSubjectRequestType) (role : Result DataSubjectRequestRequesterRole)
    (fits : Result (Unit {0})) (build : DataSubjectRequestRequesterRole → Result Representation)
    (known : Representation → Result (Unit {0})) (words key : Option Text) (i : Intake)
    : Type 0 where
  read_role : DataSubjectRequestRequesterRole
  kind_ok : kind ≡ ok i.request_type
  role_ok : role ≡ ok read_role
  fits_ok : fits ≡ ok tt
  built : build read_role ≡ ok i.representation
  known_ok : known i.representation ≡ ok tt
  words_kept : i.requester_note ≡ words
  key_kept : i.key ≡ key

check-Parts :
    (kind : Result DataSubjectRequestType) (role : Result DataSubjectRequestRequesterRole)
    (fits safe : Result (Unit {0}))
    (build : DataSubjectRequestRequesterRole → Result Representation)
    (known : Representation → Result (Unit {0})) (words key : Option Text) (i : Intake)
    → (kind >>= λ k. role >>= λ x.
        fits
        >> (safe
            >> (build x >>= λ r.
                known r
                >> ok (record {
                  request_type = k;
                  requester_note = words;
                  representation = r;
                  key = key;
                }))))
      ≡ ok i
    → Parts kind role fits build known words key i
check-Parts (ok k) (ok x) (ok a) (ok b) build known words key i h =
    let (r, e1, h1) = bind-ok (build x) _ i h in
    let (u, e2, h2) = bind-ok (known r) _ i h1 in
    let same : r ≡ i.representation = cc (ap (λ (y : Result Intake). y) h2) in
    record {
      read_role = x;
      kind_ok = cc (ap (λ (y : Result Intake). y) h2);
      role_ok = refl;
      fits_ok = refl;
      built = rw (← same) e1;
      known_ok = rw (← same) e2;
      words_kept = cc (ap (λ (y : Result Intake). y) h2);
      key_kept = cc (ap (λ (y : Result Intake). y) h2);
    }
check-Parts (err e) role fits safe build known words key i h = absurd (cc h)
check-Parts (ok k) (err e) fits safe build known words key i h = absurd (cc h)
check-Parts (ok k) (ok x) (err e) safe build known words key i h = absurd (cc h)
check-Parts (ok k) (ok x) (ok a) (err e) build known words key i h = absurd (cc h)

fits-ok :
    (words : Option Text) (e : Error) → require (note_fits words) e ≡ ok tt → note_fits words ≡ true
fits-ok words e h = ground arith

pub check_submission-IsIntake :
    (user : ℕ) (submission : Submission) (db : Db) (i : Intake)
    → check_submission user submission db ≡ ok i
    → IsIntake user submission db i
unfolding check_submission
check_submission-IsIntake user submission db i h =
    let parts =
      check-Parts (normalise_request_type submission.request_type)
        (normalise_requester_role submission.requester_role)
        (require (note_fits submission.requester_note)
          (bad_request "Requester note exceeds maximum length of 2000 characters"))
        (validate_idempotency_key_safety (normalise_idempotency_key submission.idempotency_key))
        (λ role.
          build_representative_intake_values role user submission.subject_user_id
            (normalise_optional_text submission.representative_relationship)
            (normalise_optional_text submission.representative_authority_note))
        (λ r. ensure_representative_subject_exists r db) submission.requester_note
        (normalise_idempotency_key submission.idempotency_key) i h in
    let (same_role, whom) =
      build-IsRepresented user submission db i.representation parts.read_role _ _ refl refl
        parts.built parts.known_ok in
    record {
      kind = parts.kind_ok;
      role = rw same_role parts.role_ok;
      words = parts.words_kept;
      words_fit = fits-ok submission.requester_note _ parts.fits_ok;
      key = parts.key_kept;
      represented = whom;
    }
