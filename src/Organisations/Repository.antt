-- ===== src/Organisations/Repository.antt =====
-- The writes of backend/app/organisations/repositories/organisations.py. A statement that the unique
-- index refuses changes nothing.
use fastapi_saas_template.Prelude.{
  ℕ, not, ◌&&◌, List, [], ◌∷◌, ◌++◌, Option, none, some, ◌==◌, Text, text_eq, find_first, update,
  has_key,
}
use fastapi_saas_template.Errors.{integrity_error, require}
use fastapi_saas_template.Exec.{pure, ◌>>◌}
use fastapi_saas_template.Session.{Db, Tx, ask, modify}
use fastapi_saas_template.Models.Organisation.{
  Organisation, OrganisationStatus, active, is_live, index_holds, key,
}

abbrev pub set_organisations : List Organisation → Db → Db
set_organisations rows db = record db { organisations = rows }

-- A flush whose statements leave the table with these rows.
unfoldable pub write : (List Organisation → List Organisation) → Tx (Unit {0})
write f = do
  ask (λ db. require (index_holds (f db.organisations)) integrity_error)
  modify (λ db. set_organisations (f db.organisations) db)

unfoldable pub get_by_slug : Text → Db → Option Organisation
get_by_slug slug db = find_first (λ o. text_eq o.slug slug && is_live o) db.organisations

abbrev pub new_organisation : ℕ → Text → Text → Organisation
new_organisation id name slug = record {
  id = id;
  name = name;
  slug = slug;
  deleted_at = none;
  status = active;
  suspended_at = none;
  suspended_reason = none;
}

unfoldable pub create : ℕ → Text → Text → Tx Organisation
create id name slug = do
  ask (λ db. require (not (has_key key id db.organisations)) integrity_error)
  write (λ rows. rows ++ new_organisation id name slug ∷ [])
  pure (new_organisation id name slug)

abbrev or_kept : Option Text → Text → Text
or_kept none old = old
or_kept (some new) old = new

abbrev pub with_details : Option Text → Option Text → Organisation → Organisation
with_details name slug o = record o { name = or_kept name o.name; slug = or_kept slug o.slug }

unfoldable pub update_details : Organisation → Option Text → Option Text → Tx Organisation
update_details organisation name slug = do
  write (update (λ o. o.id == organisation.id) (with_details name slug))
  pure (with_details name slug organisation)

abbrev pub deleted : ℕ → Organisation → Organisation
deleted now o = record o { deleted_at = some now }

unfoldable pub soft_delete : ℕ → Organisation → Tx Organisation
soft_delete now organisation = do
  write (update (λ o. o.id == organisation.id) (deleted now))
  pure (deleted now organisation)

abbrev pub with_status : OrganisationStatus → Option ℕ → Option Text → Organisation → Organisation
with_status status suspended_at suspended_reason o = record o {
  status = status;
  suspended_at = suspended_at;
  suspended_reason = suspended_reason;
}

unfoldable pub set_status :
    Organisation → OrganisationStatus → Option ℕ → Option Text → Tx Organisation
set_status organisation status suspended_at suspended_reason = do
  write (update (λ o. o.id == organisation.id) (with_status status suspended_at suspended_reason))
  pure (with_status status suspended_at suspended_reason organisation)
