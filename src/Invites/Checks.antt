-- ===== src/Invites/Checks.antt =====
-- The guards of backend/app/invites/services/invites.py: what each operation decides before it
-- writes.
use fastapi_saas_template.Prelude.{
  ℕ, Bool, false, not, ◌&&◌, Option, none, some, Text, text_eq, lower,
}
use fastapi_saas_template.Errors.{
  Result, ok, err, conflict, forbidden, not_found, require, ◌>>=◌, ◌>>◌,
}
use fastapi_saas_template.Session.{Db}
use fastapi_saas_template.Guards.{
  ensure_user_active, ensure_organisation_active, ensure_email_verified,
}
use fastapi_saas_template.Organisations.{get_organisation}
use fastapi_saas_template.Memberships.Checks.{ensure_active}
use fastapi_saas_template.Memberships.Repository.{get_membership}
use fastapi_saas_template.Models.User.{User, AuthenticatedPrincipal}
use fastapi_saas_template.Models.Membership.{Membership, is_admin, is_member}
use fastapi_saas_template.Models.Invite.{Invite, is_pending}
use fastapi_saas_template.Invites.Repository.{get_invite_for_organisation}

or_forbidden : Option Membership → Result Membership
or_forbidden none = err (forbidden "You are not allowed to invite users")
or_forbidden (some m) = ok m

or_not_found : Option Invite → Result Invite
or_not_found none = err (not_found "Invite not found")
or_not_found (some i) = ok i

-- `_get_actor_membership`
unfoldable pub get_actor_membership : ℕ → ℕ → Db → Result Membership
unfolding or_forbidden
get_actor_membership organisation_id actor_user_id db = do
  ensure_active organisation_id actor_user_id db
  or_forbidden (get_membership actor_user_id organisation_id db)

abbrev pub email_matches : Option Text → Text → Bool
email_matches none invited = false
email_matches (some email) invited = text_eq (lower invited) (lower email)

-- The guards on the identity.
unfoldable pub check_identity : AuthenticatedPrincipal → Invite → Result (Unit {0})
check_identity identity i = do
  require (email_matches identity.email i.email)
      (forbidden "Invite email does not match authenticated user")
  ensure_email_verified identity

-- The guards on the user, and on the organisation of the invite.
unfoldable pub check_accepting : User → Invite → Db → Result (Unit {0})
check_accepting user i db = do
  ensure_user_active user
  organisation ← get_organisation i.organisation_id db
  ensure_organisation_active organisation

-- The guards of `revoke_invite`; returns the invite.
unfoldable pub check_revocation : ℕ → ℕ → ℕ → Db → Result Invite
unfolding or_not_found
check_revocation organisation_id invite_id actor_user_id db = do
  actor ← get_actor_membership organisation_id actor_user_id db
  i ← or_not_found (get_invite_for_organisation invite_id organisation_id db)
  require (is_pending i.status) (conflict "Only pending invite can be revoked")
  require (not (is_member actor.role)) (forbidden "You are not allowed to revoke invites")
  require (not (is_admin actor.role && is_admin i.role))
      (forbidden "Admin can revoke member invites only")
  ok i
