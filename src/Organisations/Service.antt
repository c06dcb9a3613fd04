-- ===== src/Organisations/Service.antt =====
-- The writes of backend/app/organisations/services/organisations.py. Primary keys and the time are
-- arguments.
use fastapi_saas_template.Prelude.{
  ℕ, Bool, true, false, not, ◌||◌, Option, none, some, leb, Text, codes, text_eq, if◌then◌else◌,
}
use fastapi_saas_template.Errors.{Result, ok, conflict, forbidden, require, ◌>>=◌, ◌>>◌}
use fastapi_saas_template.Exec
use fastapi_saas_template.Exec.{Exec, pure, raise}
use fastapi_saas_template.Session.{
  Db, Tx, ask, join_or_begin, on_integrity_error, run_business_rate_limiter,
}
use fastapi_saas_template.Guards.{
  ensure_audit_actor_matches, ensure_user_active, ensure_organisation_active,
}
use fastapi_saas_template.Users.{get_user_by_id}
use fastapi_saas_template.Audit.Json.{
  Items, Fields, str, bool, list, dict, no_items, item, no_fields, entry,
}
use fastapi_saas_template.Audit.Events.{record_event}
use fastapi_saas_template.Models.AuditEvent.{
  AuditContext, AuditEvent, tenant, organisation_updated, organisation_deleted,
}
use fastapi_saas_template.Models.AuditEvent
use fastapi_saas_template.Models.Membership.{Membership, is_owner, is_admin}
use fastapi_saas_template.Models.Organisation.{Organisation}
use fastapi_saas_template.Memberships.Repository.{
  get_membership, count_active_owners, deactivate_organisation_memberships,
}
use fastapi_saas_template.Organisations.{get_organisation}
use fastapi_saas_template.Organisations.Names.{normalize_name, normalize_slug}
use fastapi_saas_template.Organisations.Repository
use fastapi_saas_template.Organisations.Repository.{get_by_slug, create, update_details}

unfoldable pub create_unless_taken : ℕ → Text × Text → Option Organisation → Tx Organisation
create_unless_taken id (name, slug) (some existing) =
    raise (conflict "Organisation slug already exists")
create_unless_taken id (name, slug) none =
    on_integrity_error (conflict "Organisation slug already exists") (create id name slug)

-- The normalised name and slug of `_create_organisation`.
unfoldable pub normalized : Text → Text → Result (Text × Text)
normalized name slug = do
  normalized_name ← normalize_name name
  normalized_slug ← normalize_slug slug
  ok (normalized_name, normalized_slug)

unfoldable pub create_organisation_in_transaction : ℕ → Text → Text → Tx Organisation
create_organisation_in_transaction id name slug =
    Exec.◌>>=◌ (ask (λ db. normalized name slug)) (λ names.
      Exec.◌>>=◌ (ask (λ db. ok (get_by_slug names.1 db)))
        (λ existing. create_unless_taken id names existing))

unfoldable pub create_organisation : ℕ → Text → Text → Tx Organisation
create_organisation id name slug = join_or_begin (create_organisation_in_transaction id name slug)

abbrev may_update : Option Membership → Bool
may_update none = false
may_update (some m) = is_owner m.role || is_admin m.role

abbrev owns : Option Membership → Bool
owns none = false
owns (some m) = is_owner m.role

abbrev pub normalize_optional : (Text → Result Text) → Option Text → Result (Option Text)
normalize_optional f none = ok none
normalize_optional f (some t) = f t >>= λ n. ok (some n)

abbrev pub differs : Option Text → Text → Bool
differs none old = false
differs (some new) old = not (text_eq new old)

-- What `_update_organisation_details` reads, checks and normalises.
pub record Update : Type 0 where
  pub organisation : Organisation
  pub name : Option Text
  pub slug : Option Text

unfoldable pub check_update : ℕ → ℕ → Option Text → Option Text → Db → Result Update
check_update organisation_id actor_user_id name slug db = do
  organisation ← get_organisation organisation_id db
  actor_user ← get_user_by_id actor_user_id db
  ensure_user_active actor_user
  ensure_organisation_active organisation
  require (may_update (get_membership actor_user_id organisation_id db))
      (forbidden "You are not allowed to update organisation details")
  normalized_name ← normalize_optional normalize_name name
  normalized_slug ← normalize_optional normalize_slug slug
  ok (record { organisation = organisation; name = normalized_name; slug = normalized_slug })

abbrev pub changed_fields : Bool → Bool → Items
changed_fields true true = item (str (codes "name")) (item (str (codes "slug")) no_items)
changed_fields true false = item (str (codes "name")) no_items
changed_fields false true = item (str (codes "slug")) no_items
changed_fields false false = no_items

abbrev pub slug_fields : Bool → Text → Text → Fields
slug_fields false old new = no_fields
slug_fields true old new =
    entry (codes "old_slug") (str old) (entry (codes "new_slug") (str new) no_fields)

abbrev pub updated_event : AuditContext → Update → Organisation → AuditEvent
updated_event audit_context u updated = record {
  actor_user_id = audit_context.actor_user_id;
  category = tenant;
  action = organisation_updated;
  target_type = AuditEvent.AuditTargetType.organisation;
  target_id = some updated.id;
  reason = none;
  metadata_json = some (
      dict (
        entry (codes "changed_fields")
          (list (
            changed_fields (differs u.name u.organisation.name)
              (differs u.slug u.organisation.slug)))
          (slug_fields (differs u.slug u.organisation.slug) u.organisation.slug updated.slug)));
}

abbrev pub deleted_event : AuditContext → Option Text → Text → Organisation → AuditEvent
deleted_event audit_context reason previous_slug deleted = record {
  actor_user_id = audit_context.actor_user_id;
  category = tenant;
  action = organisation_deleted;
  target_type = AuditEvent.AuditTargetType.organisation;
  target_id = some deleted.id;
  reason = reason;
  metadata_json = some (
      dict (
        entry (codes "slug") (str previous_slug)
          (entry (codes "soft_delete") (bool true) no_fields)));
}

unfoldable pub check_deletion : ℕ → ℕ → Db → Result Organisation
check_deletion organisation_id actor_user_id db = do
  organisation ← get_organisation organisation_id db
  actor_user ← get_user_by_id actor_user_id db
  ensure_user_active actor_user
  ensure_organisation_active organisation
  require (owns (get_membership actor_user_id organisation_id db))
      (forbidden "Only owner can delete organisation")
  require (leb 1 (count_active_owners organisation_id db))
      (conflict "Organisation must always have at least one owner")
  ok organisation

module _ (audit_context : AuditContext) (business_rate_limiter : Option (Result (Unit {0}))) where
  unfoldable pub apply_update : Update → Tx Organisation
  apply_update u =
      if not (differs u.name u.organisation.name || differs u.slug u.organisation.slug)
      then pure u.organisation
      else Exec.◌>>◌ (run_business_rate_limiter business_rate_limiter) (
          Exec.◌>>=◌
            (on_integrity_error (conflict "Organisation slug already exists")
              (update_details u.organisation u.name u.slug))
            (λ updated.
              Exec.◌>>◌ (record_event (updated_event audit_context u updated)) (pure updated)))

  unfoldable pub update_organisation_details_in_transaction :
      ℕ → ℕ → Option Text → Option Text → Tx Organisation
  update_organisation_details_in_transaction organisation_id actor_user_id name slug =
      Exec.◌>>=◌ (ask (check_update organisation_id actor_user_id name slug)) apply_update

  unfoldable pub update_organisation_details : ℕ → ℕ → Option Text → Option Text → Tx Organisation
  update_organisation_details organisation_id actor_user_id name slug =
      Exec.◌>>◌ (ask (λ db. ensure_audit_actor_matches actor_user_id audit_context)) (
        join_or_begin
          (update_organisation_details_in_transaction organisation_id actor_user_id name slug))

  unfoldable pub apply_deletion : ℕ → ℕ → Option Text → Organisation → Tx Organisation
  apply_deletion now organisation_id reason organisation =
      Exec.◌>>◌ (run_business_rate_limiter business_rate_limiter) (
        Exec.◌>>◌ (deactivate_organisation_memberships organisation_id) (
          Exec.◌>>=◌ (Repository.soft_delete now organisation) (λ deleted.
            Exec.◌>>◌ (record_event (deleted_event audit_context reason organisation.slug deleted))
              (pure deleted))))

  unfoldable pub soft_delete_in_transaction : ℕ → ℕ → ℕ → Option Text → Tx Organisation
  soft_delete_in_transaction now organisation_id actor_user_id reason =
      Exec.◌>>=◌ (ask (check_deletion organisation_id actor_user_id))
        (apply_deletion now organisation_id reason)

  unfoldable pub soft_delete : ℕ → ℕ → ℕ → Option Text → Tx Organisation
  soft_delete now organisation_id actor_user_id reason =
      Exec.◌>>◌ (ask (λ db. ensure_audit_actor_matches actor_user_id audit_context))
        (join_or_begin (soft_delete_in_transaction now organisation_id actor_user_id reason))
