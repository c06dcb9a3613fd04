-- ===== src/Memberships.antt =====
-- backend/app/memberships/services/memberships.py
pub mod Repository
pub mod Checks
pub mod Authorised
pub mod Outcome
pub mod Owners
pub mod Creation
pub mod Replacement
pub mod Refusals
use fastapi_saas_template.Prelude.{
  ℕ, Bool, true, false, not, List, [], ◌∷◌, Option, none, some, ◌==◌, ◌&&◌, Text, codes,
  if◌then◌else◌, is_some,
}
use fastapi_saas_template.Errors.{Result, ok, err, conflict, integrity_error}
use fastapi_saas_template.Exec.{pure, raise, ◌>>=◌, ◌>>◌}
use fastapi_saas_template.Session.{
  Db, Session, Tx, ask, join_or_begin, on_integrity_error, run_business_rate_limiter,
}
use fastapi_saas_template.Guards.{ensure_audit_actor_matches}
use fastapi_saas_template.Audit.Json.{Json, str, uuid, dict, no_fields, entry}
use fastapi_saas_template.Audit.Events.{record_event}
use fastapi_saas_template.Models.AuditEvent.{
  AuditContext, AuditEvent, tenant, membership_role_changed, membership_removed,
}
use fastapi_saas_template.Models.AuditEvent
use fastapi_saas_template.Models.Membership.{
  MembershipRole, owner, admin, member, Membership, is_owner,
}
use fastapi_saas_template.Memberships.Repository
use fastapi_saas_template.Memberships.Repository.{get_membership_for_user, update_role}
use fastapi_saas_template.Memberships.Checks.{
  check_role_change, check_removal, check_replacement, ensure_exactly_one_active_owner,
  ensure_owner_invariant_before_deactivation,
}

abbrev pub role_value : MembershipRole → Json
role_value owner = str (codes "owner")
role_value admin = str (codes "admin")
role_value member = str (codes "member")

abbrev pub role_changed_event : AuditContext → ℕ → Membership → MembershipRole → AuditEvent
role_changed_event audit_context organisation_id updated old_role = record {
  actor_user_id = audit_context.actor_user_id;
  category = tenant;
  action = membership_role_changed;
  target_type = AuditEvent.AuditTargetType.membership;
  target_id = some updated.id;
  reason = none;
  metadata_json = some (
      dict (
        entry (codes "organisation_id") (uuid organisation_id) (
          entry (codes "old_role") (role_value old_role)
            (entry (codes "new_role") (role_value updated.role) no_fields))));
}

abbrev pub removed_event : AuditContext → ℕ → Option Text → Membership → AuditEvent
removed_event audit_context organisation_id reason removed = record {
  actor_user_id = audit_context.actor_user_id;
  category = tenant;
  action = membership_removed;
  target_type = AuditEvent.AuditTargetType.membership;
  target_id = some removed.id;
  reason = reason;
  metadata_json = some (
      dict (
        entry (codes "organisation_id") (uuid organisation_id) (
          entry (codes "removed_user_id") (uuid removed.user_id)
            (entry (codes "previous_role") (role_value removed.role) no_fields))));
}

-- The `except IntegrityError` branches of `_create_membership` depend on the role.
abbrev create_conflict : MembershipRole → Tx Membership → Tx Membership
create_conflict role = on_integrity_error (
    if is_owner role
    then conflict "Organisation already has an active owner"
    else conflict "User already belongs to an organisation")

unfoldable pub create_unless_member : ℕ → ℕ → ℕ → MembershipRole → Option Membership → Tx Membership
create_unless_member id user_id organisation_id role (some existing_membership) =
    raise (conflict "User already belongs to an organisation")
create_unless_member id user_id organisation_id role none = create_conflict role (do
  membership ← Repository.create_membership id user_id organisation_id role
  ask (ensure_exactly_one_active_owner organisation_id)
  pure membership)

unfoldable pub create_membership_in_transaction : ℕ → ℕ → ℕ → MembershipRole → Tx Membership
create_membership_in_transaction id user_id organisation_id role = do
  existing_membership ← ask (λ db. ok (get_membership_for_user user_id db))
  create_unless_member id user_id organisation_id role existing_membership

unfoldable pub create_membership : ℕ → ℕ → ℕ → MembershipRole → Tx Membership
create_membership id user_id organisation_id role =
    join_or_begin (create_membership_in_transaction id user_id organisation_id role)

module _ (organisation_id actor_user_id : ℕ) (audit_context : AuditContext)
    (membership_id : ℕ) where
  unfoldable pub change_membership_role_in_transaction :
      MembershipRole → Option (Result (Unit {0})) → Tx Membership
  change_membership_role_in_transaction role business_rate_limiter = do
    target ← ask (check_role_change organisation_id actor_user_id membership_id role)
    run_business_rate_limiter business_rate_limiter
    updated ← update_role target role
    record_event (role_changed_event audit_context organisation_id updated target.role)
    pure updated

  unfoldable pub change_membership_role :
      MembershipRole → Option (Result (Unit {0})) → Tx Membership
  change_membership_role role business_rate_limiter = do
    ask (λ db. ensure_audit_actor_matches actor_user_id audit_context)
    join_or_begin (change_membership_role_in_transaction role business_rate_limiter)

  unfoldable pub remove_membership_in_transaction :
      Option Text → Option (Result (Unit {0})) → Tx Membership
  remove_membership_in_transaction reason business_rate_limiter = do
    target ← ask (check_removal organisation_id actor_user_id membership_id)
    run_business_rate_limiter business_rate_limiter
    removed ← Repository.deactivate_membership target
    record_event (removed_event audit_context organisation_id reason removed)
    pure removed

  unfoldable pub remove_membership : Option Text → Option (Result (Unit {0})) → Tx Membership
  remove_membership reason business_rate_limiter = do
    ask (λ db. ensure_audit_actor_matches actor_user_id audit_context)
    join_or_begin (remove_membership_in_transaction reason business_rate_limiter)

-- `existing is not None`: the old membership is closed, and the organisation it leaves must still
-- have its owner.
leave_existing : ℕ → Option Membership → Tx (Unit {0})
leave_existing organisation_id none = pure tt
leave_existing organisation_id (some existing) =
    if is_owner existing.role && not (existing.organisation_id == organisation_id)
    then raise (
        conflict
          "Cross-organisation owner transfer is unsupported without atomic owner replacement")
    else do
      Repository.deactivate_membership existing
      ask (ensure_exactly_one_active_owner existing.organisation_id)

-- In `_transfer_membership` an `IntegrityError` for another role is raised again.
unfoldable pub transfer_membership_in_transaction : ℕ → ℕ → ℕ → MembershipRole → Tx Membership
unfolding leave_existing
transfer_membership_in_transaction id user_id organisation_id role = do
  existing ← ask (λ db. ok (get_membership_for_user user_id db))
  leave_existing organisation_id existing
  on_integrity_error
      (if is_owner role
        then conflict "Organisation already has an active owner"
        else integrity_error)
      (do
        membership ← Repository.create_membership id user_id organisation_id role
        ask (ensure_exactly_one_active_owner organisation_id)
        pure membership)

unfoldable pub transfer_membership : ℕ → ℕ → ℕ → MembershipRole → Tx Membership
transfer_membership id user_id organisation_id role =
    join_or_begin (transfer_membership_in_transaction id user_id organisation_id role)

-- The source is demoted and flushed before the replacement is promoted, so that the index on
-- active owners holds at both flushes.
unfoldable pub replace_owner_membership_in_transaction : ℕ → ℕ → ℕ → Tx Membership
replace_owner_membership_in_transaction organisation_id source_id replacement_id = do
  (source, replacement) ← ask (check_replacement organisation_id source_id replacement_id)
  update_role source admin
  promoted ← update_role replacement owner
  ask (ensure_exactly_one_active_owner organisation_id)
  pure promoted

unfoldable pub replace_owner_membership : ℕ → ℕ → ℕ → Tx Membership
replace_owner_membership organisation_id source_id replacement_id =
    if source_id == replacement_id
    then raise (conflict "Source and replacement owner must be different")
    else join_or_begin
        (replace_owner_membership_in_transaction organisation_id source_id replacement_id)

unfoldable pub deactivate_membership_in_transaction : Membership → Tx Membership
deactivate_membership_in_transaction membership = do
  ask (ensure_owner_invariant_before_deactivation membership)
  Repository.deactivate_membership membership

unfoldable pub deactivate_membership : Membership → Tx Membership
deactivate_membership membership = join_or_begin (deactivate_membership_in_transaction membership)
