-- ===== src/Privacy/Exports/Cancelled.antt =====
-- What `cancel_export_artifact_for_subject_erasure` leaves of an artifact.
use fastapi_saas_template.Prelude.{
  true, ◌≡◌, refl, sym, ◌∙◌, ap, List, [], ◌∷◌, ◌++◌, Option, none, some, arith, Text,
  text_eq_sound, text_eq_refl, Bool-cases, inl, inr,
}
use fastapi_saas_template.Models.ExportArtifact.{
  ExportArtifact, ExportArtifactStatus, cancelled, is_cancelled,
}
use fastapi_saas_template.Privacy.Exports.Lifecycle.{
  Assignment, Change, set_fields, set_if_changed, to_status, to_reason, lease_cleared,
  content_cleared, detail_cleared, is_text, clear_export_artifact_subject_file_metadata,
  cancel_export_artifact_for_subject_erasure, keep_unseen,
}

-- An assignment that leaves an artifact which has the value already as it is.
abbrev IsIdle : Assignment → Type 0
IsIdle x = (a : ExportArtifact) → x.holds a ≡ true → x.assign a ≡ a

abbrev AllIdle : List Assignment → Type 0
AllIdle [] = Unit
AllIdle (x ∷ xs) = IsIdle x × AllIdle xs

-- All the assignments, whether they change anything or not.
unfoldable assign_all : List Assignment → ExportArtifact → ExportArtifact
assign_all [] a = a
assign_all (x ∷ xs) a = assign_all xs (x.assign a)

set_if_changed-assign :
    (x : Assignment) (c : Change) → IsIdle x → (set_if_changed x c).0 ≡ x.assign c.0
unfolding set_if_changed
set_if_changed-assign x (a, changed) idle = elim (Bool-cases (x.holds a)) [
  | inl e ↦ rw e (sym (idle a e))
  | inr e ↦ rw e refl
]

set_fields-assign_all :
    (xs : List Assignment) (c : Change) → AllIdle xs → (set_fields xs c).0 ≡ assign_all xs c.0
unfolding set_fields assign_all
set_fields-assign_all [] c idle = refl
set_fields-assign_all (x ∷ xs) c idle =
    set_fields-assign_all xs (set_if_changed x c) idle.1
    ∙ ap (assign_all xs) (set_if_changed-assign x c idle.0)

-- All the assignments have their values already.
abbrev AllHold : List Assignment → ExportArtifact → Type 0
AllHold [] a = Unit
AllHold (x ∷ xs) a = (x.holds a ≡ true) × AllHold xs a

set_fields-AllHold :
    (xs : List Assignment) (a : ExportArtifact) (changed : List Text)
    → AllHold xs a
    → set_fields xs (a, changed) ≡ (a, changed)
unfolding set_fields set_if_changed
set_fields-AllHold [] a changed h = refl
set_fields-AllHold (x ∷ xs) a changed h = rw h.0 (set_fields-AllHold xs a changed h.1)

abbrev pub erased : Text → ExportArtifact → ExportArtifact
erased reason_code a = record a {
  status = cancelled;
  failure_reason_code = some reason_code;
  filename = none;
  content_type = none;
  size_bytes = none;
  checksum_sha256 = none;
  failure_detail = none;
  processing_token = none;
  processing_lease_expires_at = none;
}

is_cancelled_sound : (x : ExportArtifactStatus) → is_cancelled x ≡ true → cancelled ≡ x
is_cancelled_sound x h = ground arith

status-IsIdle : IsIdle (to_status is_cancelled cancelled)
status-IsIdle a h = ap (λ x. record a { status = x }) (is_cancelled_sound a.status h)

is_text_sound : (t : Text) (o : Option Text) → is_text t o ≡ true → some t ≡ o
is_text_sound t none h = absurd (cc h)
is_text_sound t (some u) h = ap some (sym (text_eq_sound u t h))

reason-IsIdle : (reason_code : Text) → IsIdle (to_reason reason_code)
reason-IsIdle reason_code a h =
    ap (λ x. record a { failure_reason_code = x })
      (is_text_sound reason_code a.failure_reason_code h)

metadata-AllIdle : AllIdle (content_cleared ++ (detail_cleared ∷ lease_cleared))
metadata-AllIdle = (
  λ a h. ground arith,
  (
    λ a h. ground arith,
    (
      λ a h. ground arith,
      (
        λ a h. ground arith,
        (λ a h. ground arith, (λ a h. ground arith, (λ a h. ground arith, tt))),
      ),
    ),
  ),
)

cancelled_artifact :
    (reason_code : Text) (a : ExportArtifact)
    → (cancel_export_artifact_for_subject_erasure reason_code a).0 ≡ erased reason_code a
unfolding cancel_export_artifact_for_subject_erasure clear_export_artifact_subject_file_metadata
    assign_all
cancelled_artifact reason_code a =
    let head = to_status is_cancelled cancelled ∷ to_reason reason_code ∷ [] in
    let first =
      set_fields-assign_all head (a, []) (status-IsIdle, (reason-IsIdle reason_code, tt)) in
    set_fields-assign_all (content_cleared ++ (detail_cleared ∷ lease_cleared))
      ((set_fields head (a, [])).0, []) metadata-AllIdle
    ∙ ap (assign_all (content_cleared ++ (detail_cleared ∷ lease_cleared))) first

cancelled_again :
    (reason_code : Text) (a : ExportArtifact)
    → cancel_export_artifact_for_subject_erasure reason_code (erased reason_code a)
      ≡ (erased reason_code a, [])
unfolding cancel_export_artifact_for_subject_erasure clear_export_artifact_subject_file_metadata
    keep_unseen
cancelled_again reason_code a =
    let b = erased reason_code a in
    let head = to_status is_cancelled cancelled ∷ to_reason reason_code ∷ [] in
    let still = set_fields-AllHold head b [] (refl, (text_eq_refl reason_code, tt)) in
    let bare =
      set_fields-AllHold (content_cleared ++ (detail_cleared ∷ lease_cleared)) b []
        (refl, (refl, (refl, (refl, (refl, (refl, (refl, tt))))))) in
    rw (still, bare) refl

-- Cancelling an artifact for its subject's erasure leaves it cancelled for the reason given, with no
-- description of the file, no detail of a failure and no worker's token or lease, and otherwise as
-- it was, the storage key for the purge included; and doing it again reports no change.
pub cancel_for_erasure :
    (reason_code : Text) (a : ExportArtifact)
    → ((cancel_export_artifact_for_subject_erasure reason_code a).0 ≡ record a {
      status = cancelled;
      failure_reason_code = some reason_code;
      filename = none;
      content_type = none;
      size_bytes = none;
      checksum_sha256 = none;
      failure_detail = none;
      processing_token = none;
      processing_lease_expires_at = none;
    })
      × (cancel_export_artifact_for_subject_erasure reason_code
            (cancel_export_artifact_for_subject_erasure reason_code a).0
          ≡ ((cancel_export_artifact_for_subject_erasure reason_code a).0, []))
cancel_for_erasure reason_code a =
    let e = cancelled_artifact reason_code a in (e, rw e (cancelled_again reason_code a))
