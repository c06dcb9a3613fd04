-- ===== src/Organisations/Histories.antt =====
-- Every history of the writes of organisations keeps their slugs apart and well formed.
use fastapi_saas_template.Prelude.{ℕ, ◌≡◌, Option, Text}
use fastapi_saas_template.Errors.{Result}
use fastapi_saas_template.Session.{Session}
use fastapi_saas_template.Models.AuditEvent.{AuditContext}
use fastapi_saas_template.Models.Organisation.{Organisation}
use fastapi_saas_template.Organisations.Service.{
  create_organisation, update_organisation_details, soft_delete,
}
use fastapi_saas_template.Platform.Organisations.{
  suspend_organisation, restore_organisation, correct_organisation_profile,
}

-- A write of the organisations, whether it returned or raised.
pub data OrganisationStep (s t : Session) : Type 0 where
  created :
      (id : ℕ) (name slug : Text) (r : Result Organisation)
      → create_organisation id name slug s ≡ (r, t)
      → OrganisationStep s t
  updated :
      (audit_context : AuditContext) (limiter : Option (Result (Unit {0})))
      (organisation_id actor_user_id : ℕ) (name slug : Option Text) (r : Result Organisation)
      → update_organisation_details audit_context limiter organisation_id actor_user_id name slug s
        ≡ (r, t)
      → OrganisationStep s t
  soft_deleted :
      (audit_context : AuditContext) (limiter : Option (Result (Unit {0})))
      (now organisation_id actor_user_id : ℕ) (reason : Option Text) (r : Result Organisation)
      → soft_delete audit_context limiter now organisation_id actor_user_id reason s ≡ (r, t)
      → OrganisationStep s t
  suspended :
      (reason : Text) (audit_context : AuditContext) (now organisation_id : ℕ)
      (r : Result Organisation)
      → suspend_organisation reason audit_context now organisation_id s ≡ (r, t)
      → OrganisationStep s t
  restored :
      (reason : Text) (audit_context : AuditContext) (organisation_id : ℕ) (r : Result Organisation)
      → restore_organisation reason audit_context organisation_id s ≡ (r, t)
      → OrganisationStep s t
  corrected :
      (reason : Text) (audit_context : AuditContext) (organisation_id : ℕ) (name slug : Option Text)
      (r : Result Organisation)
      → correct_organisation_profile reason audit_context organisation_id name slug s ≡ (r, t)
      → OrganisationStep s t

pub data OrganisationHistory (s : Session) : Session → Type 0 where
  here : OrganisationHistory s s
  next : {t u : Session} → OrganisationHistory s t → OrganisationStep t u → OrganisationHistory s u
