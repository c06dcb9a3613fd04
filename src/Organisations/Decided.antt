-- ===== src/Organisations/Decided.antt =====
-- The decisions of the platform's staff on organisations keep the table of organisations in order.
use fastapi_saas_template.Prelude.{
  ℕ, not, ◌||◌, ◌≡◌, refl, Option, none, some, Text, is_some, AllRows-update, arith, inl, inr,
  Bool-cases,
}
use fastapi_saas_template.Errors.{ok}
use fastapi_saas_template.Session.{Db}
use fastapi_saas_template.Session.Preserved.{bind-Preserves, on_integrity_error-Preserves}
use fastapi_saas_template.Models.AuditEvent.{AuditContext}
use fastapi_saas_template.Models.Organisation.{
  Organisation, OrganisationStatus, active, suspended, is_suspended,
}
use fastapi_saas_template.Organisations.Repository.{set_status}
use fastapi_saas_template.Organisations.Service.{Update, differs}
use fastapi_saas_template.Platform.Organisations.{
  suspend_found, suspend_organisation, restore_found, restore_organisation, if_differs,
  check_correction, apply_correction, correct_organisation_profile,
}
use fastapi_saas_template.Organisations.Slugs.{
  OrganisationsSound, IsWellFormed, IsNormal, Keeps, write-Keeps, record_event-Keeps,
  update_details-Keeps, normalize_optional-name, normalize_optional-slug,
}

set_status-Keeps :
    (o : Organisation) (status : OrganisationStatus) (suspended_at : Option ℕ)
    (reason : Option Text)
    → is_some suspended_at ≡ is_suspended status
    → Keeps (set_status o status suspended_at reason)
unfolding set_status
set_status-Keeps o status suspended_at reason marked =
    bind-Preserves OrganisationsSound _ _
      (write-Keeps _ (λ rows a.
        AllRows-update IsWellFormed _ _ rows
          (λ x i h q. record { name = q.name; slug = q.slug; marked = marked }) a))
      (λ s v e s' q. q)

if_differs-some : (new : Option Text) (old t : Text) → if_differs new old ≡ some t → new ≡ some t
if_differs-some none old t h = absurd (cc h)
if_differs-some (some x) old t h = ground arith

check_correction-IsNormal :
    (organisation_id : ℕ) (name slug : Option Text) (db : Db) (u : Update)
    → check_correction organisation_id name slug db ≡ ok u
    → IsNormal u
unfolding check_correction
check_correction-IsNormal organisation_id name slug db u h = record {
  name = λ t e. normalize_optional-name name u.name (ground arith) t e;
  slug = λ t e. normalize_optional-slug slug u.slug (ground arith) t e;
}

module _ (reason : Text) (audit_context : AuditContext) where
  pub suspend_organisation-Keeps :
      (now organisation_id : ℕ)
      → Keeps (suspend_organisation reason audit_context now organisation_id)
  unfolding suspend_organisation suspend_found
  suspend_organisation-Keeps now organisation_id =
      bind-Preserves OrganisationsSound _ _ (λ s q. q)
        (λ s org e. elim (Bool-cases (is_suspended org.status)) [
          | inl already ↦ rw already (λ s' q. q)
          | inr other ↦ rw other (
              bind-Preserves OrganisationsSound _ _
                (set_status-Keeps org suspended (some now) (some reason) refl)
                (λ s' updated e'.
                  bind-Preserves OrganisationsSound _ _ (record_event-Keeps _)
                    (λ s'' v e'' t q. q)))
        ])

  pub restore_organisation-Keeps :
      (organisation_id : ℕ) → Keeps (restore_organisation reason audit_context organisation_id)
  unfolding restore_organisation restore_found
  restore_organisation-Keeps organisation_id =
      bind-Preserves OrganisationsSound _ _ (λ s q. q)
        (λ s org e. elim (Bool-cases (is_suspended org.status)) [
          | inr already ↦ rw already (λ s' q. q)
          | inl other ↦ rw other (
              bind-Preserves OrganisationsSound _ _ (set_status-Keeps org active none none refl)
                (λ s' updated e'.
                  bind-Preserves OrganisationsSound _ _ (record_event-Keeps _)
                    (λ s'' v e'' t q. q)))
        ])

  apply_correction-Keeps :
      (u : Update) → IsNormal u → Keeps (apply_correction reason audit_context u)
  unfolding apply_correction
  apply_correction-Keeps u normal =
      elim (Bool-cases
        (not (differs u.name u.organisation.name || differs u.slug u.organisation.slug))) [
          | inl same ↦ rw same (λ s q. q)
          | inr other ↦ rw other (
              bind-Preserves OrganisationsSound _ _
                (on_integrity_error-Preserves OrganisationsSound _ _ (
                  update_details-Keeps u.organisation (if_differs u.name u.organisation.name)
                    (if_differs u.slug u.organisation.slug)
                    (λ t e. normal.name t (if_differs-some u.name u.organisation.name t e))
                    (λ t e. normal.slug t (if_differs-some u.slug u.organisation.slug t e))))
                (λ s updated e'.
                  bind-Preserves OrganisationsSound _ _ (record_event-Keeps _)
                    (λ s'' v e'' t q. q)))
        ]

  pub correct_organisation_profile-Keeps :
      (organisation_id : ℕ) (name slug : Option Text)
      → Keeps (correct_organisation_profile reason audit_context organisation_id name slug)
  unfolding correct_organisation_profile
  correct_organisation_profile-Keeps organisation_id name slug =
      bind-Preserves OrganisationsSound _ _ (λ s q. q)
        (λ s u e.
          apply_correction-Keeps u (check_correction-IsNormal organisation_id name slug s.db u e))
