-- ===== src/Tests/Organisations.antt =====
-- The theorem of Organisations at a concrete input.
use fastapi_saas_template.Prelude.{
  Bool, true, ◌≡◌, refl, none, some, [], ◌∷◌, codes, find_first, any, update, has_key, text_eq,
  strip, lower,
}
use fastapi_saas_template.Errors.{Result, ok}
use fastapi_saas_template.Exec.{◌>>=◌}
use fastapi_saas_template.Session.{
  Session, join_or_begin, on_integrity_error, run_business_rate_limiter,
}
use fastapi_saas_template.Guards.{ensure_audit_actor_matches}
use fastapi_saas_template.Users
use fastapi_saas_template.Users.{get_user_by_id}
use fastapi_saas_template.Audit.Events.{record_event}
use fastapi_saas_template.Audit.Metadata.{
  validate_metadata_json, validate_no_forbidden_metadata_keys, calculate_json_depth, dumps_size,
}
use fastapi_saas_template.Models.Organisation
use fastapi_saas_template.Models.Organisation.{Organisation, index_holds}
use fastapi_saas_template.Memberships.Repository.{get_membership}
use fastapi_saas_template.Organisations
use fastapi_saas_template.Organisations.{get_organisation, or_not_found, get_by_id_with_deleted}
use fastapi_saas_template.Organisations.Names.{normalize_name, normalize_slug, matches_slug}
use fastapi_saas_template.Organisations.Repository
use fastapi_saas_template.Organisations.Repository.{get_by_slug, create, update_details}
use fastapi_saas_template.Organisations.Service.{
  create_organisation, create_organisation_in_transaction, create_unless_taken, normalized,
  update_organisation_details, update_organisation_details_in_transaction, check_update,
  apply_update,
}
use fastapi_saas_template.Platform.Organisations as Staff
use fastapi_saas_template.Platform.Organisations.{suspend_organisation, suspend_found}
use fastapi_saas_template.Tests.Fixture.{organisation, tenant_db, session, acting}

abbrev start : Session
start = session (record tenant_db { organisations = organisation 1 ∷ [] })

abbrev created_run : Result Organisation × Session
created_run = create_organisation 3 (codes " Beta ") (codes "Beta-1") start

abbrev updated_run : Result Organisation × Session
updated_run =
    update_organisation_details (acting 10) none 1 10 none (some (codes "gamma")) created_run.1

-- The staff suspend an organisation that its owner deleted before.
abbrev deleted : Organisation
deleted = record (organisation 7) { slug = codes "gone"; deleted_at = some 3 }

abbrev with_deleted : Session
with_deleted = session (record tenant_db { organisations = organisation 1 ∷ deleted ∷ [] })

abbrev suspended_run : Result Organisation × Session
suspended_run = suspend_organisation (codes "abuse") (acting 10) 9 7 with_deleted

-- All that a run computes through.
running : Bool
unfolding create_organisation create_organisation_in_transaction create_unless_taken normalized
    update_organisation_details update_organisation_details_in_transaction check_update apply_update
    normalize_name normalize_slug matches_slug get_by_slug create update_details Repository.write
    suspend_organisation suspend_found Staff.get_organisation Organisations.get_by_id_with_deleted
    Organisations.or_not_found Repository.set_status get_organisation Organisations.get_by_id
    get_user_by_id Users.get_by_id get_membership ensure_audit_actor_matches
    run_business_rate_limiter join_or_begin on_integrity_error record_event validate_metadata_json
    validate_no_forbidden_metadata_keys calculate_json_depth dumps_size index_holds ◌>>=◌ find_first
    any update has_key text_eq strip lower
running = true

updated_ok : updated_run.0 ≡ ok (record (organisation 1) { slug = codes "gamma" })
unfolding running
updated_ok = refl

suspended_deleted :
    suspended_run.0
    ≡ ok (Repository.with_status Organisation.suspended (some 9) (some (codes "abuse")) deleted)
unfolding running
suspended_deleted = refl
