-- ===== src/Tests/Invites.antt =====
-- The theorems of Invites at concrete inputs.
use fastapi_saas_template.Prelude.{
  Bool, true, ◌≡◌, refl, Text, none, some, [], ◌∷◌, codes, arith, count, find_first, update, any,
  text_eq, lower,
}
use fastapi_saas_template.Errors.{Error, err}
use fastapi_saas_template.Exec.{◌>>=◌}
use fastapi_saas_template.Session.{Session, join_or_begin, on_integrity_error, nested_or}
use fastapi_saas_template.Users.{get_current_user_by_external_auth_id}
use fastapi_saas_template.Users.Provisioning.{
  get_or_create_current_user, create_or_refresh, refresh_current_user_profile, needs_update,
}
use fastapi_saas_template.Organisations
use fastapi_saas_template.Organisations.{get_organisation}
use fastapi_saas_template.Models.User.{AuthenticatedPrincipal}
use fastapi_saas_template.Models.Membership
use fastapi_saas_template.Models.Membership.{member}
use fastapi_saas_template.Models.Invite
use fastapi_saas_template.Models.Invite.{Invite}
use fastapi_saas_template.Memberships.{
  create_membership, create_membership_in_transaction, create_unless_member,
}
use fastapi_saas_template.Memberships.Checks.{ensure_exactly_one_active_owner}
use fastapi_saas_template.Memberships.Repository as Rows
use fastapi_saas_template.Memberships.Repository.{get_membership_for_user, count_active_owners}
use fastapi_saas_template.Invites.Repository
use fastapi_saas_template.Invites.Repository.{
  update_returning, accept_pending_invite_by_token_hash, new_invite,
}
use fastapi_saas_template.Invites.Checks.{check_identity, check_accepting}
use fastapi_saas_template.Invites.Service.{accept_found, accept_in_transaction, accept_invite}
use fastapi_saas_template.Invites.Acceptance.{
  Accepted, accept_invite-Accepted, accept_unusable, accept_once,
}
use fastapi_saas_template.Tests.Fixture.{tenant_db, session, membership}

-- A hash function for the tests.
abbrev hash : Text → Text
hash token = 0 ∷ token

abbrev secret : Text
secret = codes "secret"

-- User 13, who belongs to no organisation.
abbrev identity : AuthenticatedPrincipal
identity = record {
  external_auth_id = 13 ∷ [];
  email = some (codes "ann@example.com");
  email_verified = true;
  first_name = none;
  last_name = none;
}

abbrev start : Session
start = session (record tenant_db {
  invites = new_invite 5 50 (codes "Ann@example.com") 1 member (hash secret) 100 ∷ [];
})

-- All that a run computes through.
running : Bool
unfolding accept_invite accept_in_transaction accept_found accept_pending_invite_by_token_hash
    update_returning Repository.flush Invite.indexes_hold check_identity check_accepting
    get_or_create_current_user create_or_refresh refresh_current_user_profile needs_update
    get_current_user_by_external_auth_id get_organisation Organisations.get_by_id join_or_begin
    ◌>>=◌ on_integrity_error nested_or Rows.create_membership Rows.flush Membership.indexes_hold
    create_membership create_membership_in_transaction create_unless_member
    ensure_exactly_one_active_owner get_membership_for_user count_active_owners count find_first
    update any text_eq lower
running = true

abbrev after : Session
after = (accept_invite hash 20 60 23 secret identity start).1

accept_invite-Accepted_example :
    Accepted (hash secret) 20 23 identity start.db after.db (membership 23 13 1 member)
unfolding running
accept_invite-Accepted_example =
    accept_invite-Accepted hash 20 60 23 secret identity start after (membership 23 13 1 member)
      refl

accept_unusable_example :
    (e : Error) × (t : Session) × (accept_invite hash 100 60 23 secret identity start ≡ (err e, t))
    × (t.db ≡ start.db)
unfolding running
accept_unusable_example = accept_unusable hash 100 60 23 secret identity start refl refl

accept_once_example :
    (e : Error) × (t : Session) × (accept_invite hash 30 61 24 secret identity after ≡ (err e, t))
    × (t.db ≡ after.db)
unfolding running
accept_once_example =
    accept_once hash 20 60 23 secret identity start after (membership 23 13 1 member) refl refl 30
      61 24 identity (omega arith)
