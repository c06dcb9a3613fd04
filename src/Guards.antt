-- ===== src/Guards.antt =====
-- backend/app/access_control/guards.py, and the guards that the services repeat.
use fastapi_saas_template.Prelude.{ℕ, Bool, false, not, Option, none, some, ◌==◌}
use fastapi_saas_template.Errors.{Result, forbidden, value_error, require}
use fastapi_saas_template.Models.User
use fastapi_saas_template.Models.User.{User, AuthenticatedPrincipal}
use fastapi_saas_template.Models.Organisation
use fastapi_saas_template.Models.Organisation.{Organisation}
use fastapi_saas_template.Models.AuditEvent.{AuditContext}

abbrev pub ensure_user_active : User → Result (Unit {0})
ensure_user_active user =
    require (not (User.is_suspended user.status)) (forbidden "User is suspended")

abbrev pub ensure_organisation_active : Organisation → Result (Unit {0})
ensure_organisation_active organisation =
    require (not (Organisation.is_suspended organisation.status))
      (forbidden "Organisation is suspended")

abbrev pub ensure_email_verified : AuthenticatedPrincipal → Result (Unit {0})
ensure_email_verified identity =
    require identity.email_verified (forbidden "Email verification is required")

abbrev is_actor : ℕ → Option ℕ → Bool
is_actor actor none = false
is_actor actor (some id) = id == actor

-- `_ensure_audit_actor_matches`
unfoldable pub ensure_audit_actor_matches : ℕ → AuditContext → Result (Unit {0})
ensure_audit_actor_matches actor_user_id audit_context =
    require (is_actor actor_user_id audit_context.actor_user_id)
      (value_error "Audit actor does not match action actor")
