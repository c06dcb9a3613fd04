-- ===== src/Models/DataSubjectRequest.antt =====
-- backend/app/privacy/models/data_subject_request.py. The check constraints keep the columns to the
-- members of the enumerations. Columns that no code writes (`acknowledged_at`, `internal_note`,
-- `extended_until`, `extension_reason_code` and the two legacy pointers) are left out.
use fastapi_saas_template.Prelude.{ℕ, Bool, true, false, Option, Text, codes}

pub data DataSubjectRequestType : Type 0 where
  access export erase rectify restrict object portability : DataSubjectRequestType

pub data DataSubjectRequestStatus : Type 0 where
  submitted under_review approved rejected fulfilled cancelled : DataSubjectRequestStatus

pub data DataSubjectRequestExecutionStatus : Type 0 where
  not_started queued processing ready failed : DataSubjectRequestExecutionStatus
  partially_fulfilled delivered : DataSubjectRequestExecutionStatus

pub data DataSubjectRequestRequesterRole : Type 0 where
  self authorised_representative : DataSubjectRequestRequesterRole

pub data DataSubjectRequestRepresentativeStatus : Type 0 where
  not_required pending_verification verified rejected : DataSubjectRequestRepresentativeStatus

-- The members' values.
unfoldable pub type_value : DataSubjectRequestType → Text
type_value access = codes "access"
type_value export = codes "export"
type_value erase = codes "erase"
type_value rectify = codes "rectify"
type_value restrict = codes "restrict"
type_value object = codes "object"
type_value portability = codes "portability"

abbrev pub status_value : DataSubjectRequestStatus → Text
status_value submitted = codes "submitted"
status_value under_review = codes "under_review"
status_value approved = codes "approved"
status_value DataSubjectRequestStatus.rejected = codes "rejected"
status_value fulfilled = codes "fulfilled"
status_value cancelled = codes "cancelled"

unfoldable pub role_value : DataSubjectRequestRequesterRole → Text
role_value self = codes "self"
role_value authorised_representative = codes "authorised_representative"

abbrev pub representative_value : DataSubjectRequestRepresentativeStatus → Text
representative_value not_required = codes "not_required"
representative_value pending_verification = codes "pending_verification"
representative_value verified = codes "verified"
representative_value DataSubjectRequestRepresentativeStatus.rejected = codes "rejected"

abbrev pub is_export : DataSubjectRequestType → Bool
is_export export = true
is_export _ = false

abbrev pub is_erase : DataSubjectRequestType → Bool
is_erase erase = true
is_erase _ = false

abbrev pub is_ready : DataSubjectRequestExecutionStatus → Bool
is_ready ready = true
is_ready _ = false

abbrev pub is_self : DataSubjectRequestRequesterRole → Bool
is_self self = true
is_self authorised_representative = false

abbrev pub is_submitted : DataSubjectRequestStatus → Bool
is_submitted submitted = true
is_submitted _ = false

abbrev pub is_under_review : DataSubjectRequestStatus → Bool
is_under_review under_review = true
is_under_review _ = false

abbrev pub is_approved : DataSubjectRequestStatus → Bool
is_approved approved = true
is_approved _ = false

abbrev pub is_rejected : DataSubjectRequestStatus → Bool
is_rejected DataSubjectRequestStatus.rejected = true
is_rejected _ = false

abbrev pub is_fulfilled : DataSubjectRequestStatus → Bool
is_fulfilled fulfilled = true
is_fulfilled _ = false

abbrev pub is_cancelled : DataSubjectRequestStatus → Bool
is_cancelled cancelled = true
is_cancelled _ = false

abbrev pub status_eq : DataSubjectRequestStatus → DataSubjectRequestStatus → Bool
status_eq submitted s = is_submitted s
status_eq under_review s = is_under_review s
status_eq approved s = is_approved s
status_eq DataSubjectRequestStatus.rejected s = is_rejected s
status_eq fulfilled s = is_fulfilled s
status_eq cancelled s = is_cancelled s

-- `_REPRESENTATIVE_APPROVAL_STATUSES`
abbrev pub allows_approval : DataSubjectRequestRepresentativeStatus → Bool
allows_approval not_required = true
allows_approval verified = true
allows_approval _ = false

abbrev pub is_pending_verification : DataSubjectRequestRepresentativeStatus → Bool
is_pending_verification pending_verification = true
is_pending_verification _ = false

abbrev pub is_verified : DataSubjectRequestRepresentativeStatus → Bool
is_verified verified = true
is_verified _ = false

abbrev pub is_not_required : DataSubjectRequestRepresentativeStatus → Bool
is_not_required not_required = true
is_not_required _ = false

abbrev is_refused : DataSubjectRequestRepresentativeStatus → Bool
is_refused DataSubjectRequestRepresentativeStatus.rejected = true
is_refused _ = false

abbrev pub representative_eq :
    DataSubjectRequestRepresentativeStatus → DataSubjectRequestRepresentativeStatus → Bool
representative_eq not_required s = is_not_required s
representative_eq pending_verification s = is_pending_verification s
representative_eq verified s = is_verified s
representative_eq DataSubjectRequestRepresentativeStatus.rejected s = is_refused s

pub record DataSubjectRequest : Type 0 where
  pub id : ℕ
  pub request_type : DataSubjectRequestType
  pub status : DataSubjectRequestStatus
  pub execution_status : DataSubjectRequestExecutionStatus
  pub requester_role : DataSubjectRequestRequesterRole
  pub representative_status : DataSubjectRequestRepresentativeStatus
  pub representative_relationship : Option Text
  pub representative_authority_note : Option Text
  pub representative_verified_at : Option ℕ
  pub representative_verified_by_user_id : Option ℕ
  pub representative_rejection_reason_code : Option Text
  pub requester_user_id : Option ℕ
  pub subject_user_id : Option ℕ
  pub reviewer_user_id : Option ℕ
  pub submitted_at : ℕ
  pub reviewed_at : Option ℕ
  pub decided_at : Option ℕ
  pub fulfilled_at : Option ℕ
  pub cancelled_at : Option ℕ
  pub execution_started_at : Option ℕ
  pub execution_completed_at : Option ℕ
  pub execution_failed_at : Option ℕ
  pub execution_failure_reason_code : Option Text
  pub execution_failure_detail : Option Text
  pub decision_reason_code : Option Text
  pub rejection_reason_code : Option Text
  pub requester_note : Option Text
  pub due_at : ℕ
  pub idempotency_key_hash : Option Text
  pub idempotency_fingerprint : Option Text
  pub idempotency_key_expires_at : Option ℕ
  pub created_at : ℕ

abbrev pub key : DataSubjectRequest → ℕ
key r = r.id
