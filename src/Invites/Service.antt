-- ===== src/Invites/Service.antt =====
-- Accepting and revoking an invite, from backend/app/invites/services/invites.py. The time, the
-- primary keys and the hash function (`_token_hash`, SHA-256) are arguments.
use fastapi_saas_template.Prelude.{ℕ, Option, none, some, codes, Text}
use fastapi_saas_template.Errors.{bad_request, conflict}
use fastapi_saas_template.Exec.{pure, raise, ◌>>=◌, ◌>>◌}
use fastapi_saas_template.Session.{Tx, ask, join_or_begin}
use fastapi_saas_template.Guards.{ensure_audit_actor_matches}
use fastapi_saas_template.Audit.Json.{str, uuid, dict, no_fields, entry}
use fastapi_saas_template.Audit.Events.{record_event}
use fastapi_saas_template.Users.Provisioning.{get_or_create_current_user}
use fastapi_saas_template.Memberships.{create_membership, role_value}
use fastapi_saas_template.Models.User.{AuthenticatedPrincipal}
use fastapi_saas_template.Models.AuditEvent.{
  AuditContext, AuditEvent, tenant, invite, invite_revoked,
}
use fastapi_saas_template.Models.Membership.{Membership}
use fastapi_saas_template.Models.Invite.{Invite}
use fastapi_saas_template.Invites.Repository.{
  accept_pending_invite_by_token_hash, mark_pending_invite_expired_by_token_hash,
  revoke_pending_invite,
}
use fastapi_saas_template.Invites.Checks.{check_identity, check_accepting, check_revocation}

-- `_raise_invalid_invite_token`
abbrev pub raise_invalid_invite_token : {A : Type 0} → Tx A
raise_invalid_invite_token = raise (bad_request "Invalid or expired invite")

module _ (token_hash : Text → Text) where
  -- The lines of `accept_invite` after the UPDATE, on its result.
  unfoldable pub accept_found :
      ℕ → ℕ → ℕ → Text → AuthenticatedPrincipal → Option Invite → Tx Membership
  accept_found now user_id membership_id token identity none = do
    mark_pending_invite_expired_by_token_hash (token_hash token) now
    raise_invalid_invite_token
  accept_found now user_id membership_id token identity (some i) = do
    ask (λ db. check_identity identity i)
    user ← get_or_create_current_user user_id identity
    ask (check_accepting user i)
    create_membership membership_id user.id i.organisation_id i.role

  unfoldable pub accept_in_transaction : ℕ → ℕ → ℕ → Text → AuthenticatedPrincipal → Tx Membership
  accept_in_transaction now user_id membership_id token identity = do
    found ← accept_pending_invite_by_token_hash (token_hash token) now
    accept_found now user_id membership_id token identity found

  unfoldable pub accept_invite : ℕ → ℕ → ℕ → Text → AuthenticatedPrincipal → Tx Membership
  accept_invite now user_id membership_id token identity =
      join_or_begin (accept_in_transaction now user_id membership_id token identity)

abbrev revoked_event : AuditContext → ℕ → Option Text → Invite → AuditEvent
revoked_event audit_context organisation_id reason i = record {
  actor_user_id = audit_context.actor_user_id;
  category = tenant;
  action = invite_revoked;
  target_type = invite;
  target_id = some i.id;
  reason = reason;
  metadata_json = some (
      dict (
        entry (codes "organisation_id") (uuid organisation_id) (
          entry (codes "invite_role") (role_value i.role)
            (entry (codes "invite_status_before") (str (codes "pending")) no_fields))));
}

-- `if updated is None`
unfoldable pub ensure_updated : Option Invite → Tx (Unit {0})
ensure_updated none = raise (conflict "Only pending invite can be revoked")
ensure_updated (some i) = pure tt

unfoldable pub revoke_in_transaction : ℕ → ℕ → ℕ → ℕ → AuditContext → Option Text → Tx (Unit {0})
revoke_in_transaction now organisation_id invite_id actor_user_id audit_context reason = do
  i ← ask (check_revocation organisation_id invite_id actor_user_id)
  updated ← revoke_pending_invite i.id organisation_id actor_user_id now
  ensure_updated updated
  record_event (revoked_event audit_context organisation_id reason i)

unfoldable pub revoke_invite : ℕ → ℕ → ℕ → ℕ → AuditContext → Option Text → Tx (Unit {0})
revoke_invite now organisation_id invite_id actor_user_id audit_context reason = do
  ask (λ db. ensure_audit_actor_matches actor_user_id audit_context)
  join_or_begin
      (revoke_in_transaction now organisation_id invite_id actor_user_id audit_context reason)
