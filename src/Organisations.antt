-- ===== src/Organisations.antt =====
-- backend/app/organisations: the lookups that the other services call. The writes are below it.
pub mod Names
pub mod Repository
pub mod Service
pub mod Slugs
pub mod Decided
pub mod Histories
use fastapi_saas_template.Prelude.{ℕ, not, Option, none, some, is_some, find_first, ◌==◌, ◌&&◌}
use fastapi_saas_template.Errors.{Result, ok, err, not_found}
use fastapi_saas_template.Models.Organisation.{Organisation}
use fastapi_saas_template.Session.{Db}

-- `OrganisationRepository.get_by_id` with `include_deleted` false
unfoldable pub get_by_id : ℕ → Db → Option Organisation
get_by_id organisation_id db =
    find_first (λ o. (o.id == organisation_id) && not (is_some o.deleted_at)) db.organisations

-- `OrganisationRepository.get_by_id` with `include_deleted` true
unfoldable pub get_by_id_with_deleted : ℕ → Db → Option Organisation
get_by_id_with_deleted organisation_id db =
    find_first (λ o. o.id == organisation_id) db.organisations

unfoldable pub or_not_found : Option Organisation → Result Organisation
or_not_found none = err (not_found "Organisation not found")
or_not_found (some organisation) = ok organisation

-- `OrganisationService.get_organisation`
unfoldable pub get_organisation : ℕ → Db → Result Organisation
unfolding or_not_found
get_organisation organisation_id db = or_not_found (get_by_id organisation_id db)
