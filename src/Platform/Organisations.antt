-- ===== src/Platform/Organisations.antt =====
-- The decisions of backend/app/platform/services/platform_organisations.py on an organisation. They
-- run in the transaction of the caller.
use fastapi_saas_template.Prelude.{
  ℕ, Bool, true, false, not, ◌||◌, Option, none, some, Text, codes, if◌then◌else◌,
}
use fastapi_saas_template.Errors
use fastapi_saas_template.Errors.{Result, ok, err, conflict}
use fastapi_saas_template.Exec.{pure, raise, ◌>>=◌, ◌>>◌}
use fastapi_saas_template.Session.{Db, Tx, ask, on_integrity_error}
use fastapi_saas_template.Audit.Json.{Json, Fields, str, list, dict, entry}
use fastapi_saas_template.Audit.Events.{record_event}
use fastapi_saas_template.Models.AuditEvent.{
  AuditContext, AuditEvent, AuditAction, platform, organisation_suspended, organisation_restored,
  organisation_updated,
}
use fastapi_saas_template.Models.AuditEvent
use fastapi_saas_template.Models.Organisation.{Organisation, active, suspended, is_suspended}
use fastapi_saas_template.Organisations.{get_by_id_with_deleted, or_not_found}
use fastapi_saas_template.Organisations.Names.{normalize_name, normalize_slug}
use fastapi_saas_template.Organisations.Repository.{set_status, update_details}
use fastapi_saas_template.Organisations.Service.{
  Update, normalize_optional, differs, changed_fields, slug_fields,
}

abbrev pub event : AuditContext → AuditAction → Text → Option Json → Organisation → AuditEvent
event audit_context action reason metadata o = record {
  actor_user_id = audit_context.actor_user_id;
  category = platform;
  action = action;
  target_type = AuditEvent.AuditTargetType.organisation;
  target_id = some o.id;
  reason = some reason;
  metadata_json = metadata;
}

abbrev name_fields : Bool → Text → Text → Fields → Fields
name_fields false old new rest = rest
name_fields true old new rest =
    entry (codes "old_name") (str old) (entry (codes "new_name") (str new) rest)

-- The value, where it is there and another than the stored one.
abbrev pub if_differs : Option Text → Text → Option Text
if_differs none old = none
if_differs (some new) old = if differs (some new) old then some new else none

abbrev or_empty : Option Text → Text
or_empty none = codes ""
or_empty (some t) = t

abbrev correction : Update → Json
correction u =
    let name_changed = differs u.name u.organisation.name in
    let slug_changed = differs u.slug u.organisation.slug in
    dict (
      entry (codes "correction_type") (str (codes "platform_profile_correction")) (
        entry (codes "changed_fields") (list (changed_fields name_changed slug_changed)) (
          name_fields name_changed u.organisation.name (or_empty u.name)
            (slug_fields slug_changed u.organisation.slug (or_empty u.slug)))))

-- The platform's staff act on deleted organisations too.
unfoldable pub get_organisation : ℕ → Db → Result Organisation
get_organisation organisation_id db = or_not_found (get_by_id_with_deleted organisation_id db)

-- What `_correct_organisation_profile` reads and normalises.
unfoldable pub check_correction : ℕ → Option Text → Option Text → Db → Result Update
check_correction organisation_id name slug db =
    Errors.◌>>=◌ (get_organisation organisation_id db) (λ organisation.
      Errors.◌>>=◌ (normalize_optional normalize_name name) (λ normalized_name.
        Errors.◌>>=◌ (normalize_optional normalize_slug slug) (λ normalized_slug. ok (record {
          organisation = organisation;
          name = normalized_name;
          slug = normalized_slug;
        }))))

module _ (reason : Text) (audit_context : AuditContext) where
  unfoldable pub suspend_found : ℕ → Organisation → Tx Organisation
  suspend_found now org = if is_suspended org.status then pure org else do
    updated ← set_status org suspended (some now) (some reason)
    record_event (event audit_context organisation_suspended reason none updated)
    pure updated

  unfoldable pub suspend_organisation : ℕ → ℕ → Tx Organisation
  suspend_organisation now organisation_id = do
    org ← ask (get_organisation organisation_id)
    suspend_found now org

  unfoldable pub restore_found : Organisation → Tx Organisation
  restore_found org = if not (is_suspended org.status) then pure org else do
    updated ← set_status org active none none
    record_event (event audit_context organisation_restored reason none updated)
    pure updated

  unfoldable pub restore_organisation : ℕ → Tx Organisation
  restore_organisation organisation_id = do
    org ← ask (get_organisation organisation_id)
    restore_found org

  unfoldable pub apply_correction : Update → Tx Organisation
  apply_correction u =
      if not (differs u.name u.organisation.name || differs u.slug u.organisation.slug)
      then raise (conflict "No profile changes")
      else do
        updated ← on_integrity_error (conflict "Organisation slug already exists") (
            update_details u.organisation (if_differs u.name u.organisation.name)
              (if_differs u.slug u.organisation.slug))
        record_event (event audit_context organisation_updated reason (some (correction u)) updated)
        pure updated

  unfoldable pub correct_organisation_profile : ℕ → Option Text → Option Text → Tx Organisation
  correct_organisation_profile organisation_id name slug = do
    u ← ask (check_correction organisation_id name slug)
    apply_correction u
