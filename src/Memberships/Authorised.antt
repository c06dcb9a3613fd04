-- ===== src/Memberships/Authorised.antt =====
-- What the guards of the membership operations establish when they pass.
use fastapi_saas_template.Prelude.{
  ℕ, true, false, ◌≡◌, ◌⊎◌, inl, inr, Option, none, some, refl, arith,
}
use fastapi_saas_template.Errors.{ok, bind-ok}
use fastapi_saas_template.Guards.{ensure_audit_actor_matches}
use fastapi_saas_template.Users
use fastapi_saas_template.Users.{get_user_by_id}
use fastapi_saas_template.Organisations
use fastapi_saas_template.Organisations.{get_organisation}
use fastapi_saas_template.Models.User
use fastapi_saas_template.Models.User.{User}
use fastapi_saas_template.Models.Organisation
use fastapi_saas_template.Models.Organisation.{Organisation}
use fastapi_saas_template.Models.AuditEvent.{AuditContext}
use fastapi_saas_template.Session.{Db}
use fastapi_saas_template.Models.Membership.{
  MembershipRole, Membership, is_owner, is_admin, is_member, role_eq,
}
use fastapi_saas_template.Memberships.Repository.{get_membership, get_membership_by_id}
use fastapi_saas_template.Memberships.Checks.{
  ensure_active, get_membership_for_organisation, check_role_change, check_removal,
}

pub audit_actor-passes :
    (actor_user_id : ℕ) (audit_context : AuditContext)
    → audit_context.actor_user_id ≡ some actor_user_id
    → ensure_audit_actor_matches actor_user_id audit_context ≡ ok tt
unfolding ensure_audit_actor_matches
audit_actor-passes actor_user_id audit_context e = ground arith

-- The actor is a user who is not suspended, and the organisation is not deleted and not suspended.
pub record IsActive (organisation_id actor_user_id : ℕ) (db : Db) : Type 0 where
  pub user : User
  pub found_user : Users.get_by_id actor_user_id db ≡ some user
  pub user_active : User.is_suspended user.status ≡ false
  pub organisation : Organisation
  pub found_organisation : Organisations.get_by_id organisation_id db ≡ some organisation
  pub organisation_active : Organisation.is_suspended organisation.status ≡ false

ensure_active-ok :
    (organisation_id actor_user_id : ℕ) (db : Db)
    → ensure_active organisation_id actor_user_id db ≡ ok tt
    → IsActive organisation_id actor_user_id db
unfolding ensure_active get_user_by_id get_organisation Organisations.or_not_found
ensure_active-ok organisation_id actor_user_id db h = ground arith

IsActive-passes :
    (organisation_id actor_user_id : ℕ) (db : Db)
    → IsActive organisation_id actor_user_id db
    → ensure_active organisation_id actor_user_id db ≡ ok tt
unfolding ensure_active get_user_by_id get_organisation Organisations.or_not_found
IsActive-passes organisation_id actor_user_id db a =
    rw (a.found_user, a.user_active, a.found_organisation, a.organisation_active) refl

pub audit_actor :
    (actor_user_id : ℕ) (audit_context : AuditContext)
    → ensure_audit_actor_matches actor_user_id audit_context ≡ ok tt
    → audit_context.actor_user_id ≡ some actor_user_id
unfolding ensure_audit_actor_matches
audit_actor actor_user_id audit_context h = go audit_context.actor_user_id refl
  where
    go :
        (x : Option ℕ)
        → audit_context.actor_user_id ≡ x
        → audit_context.actor_user_id ≡ some actor_user_id
    go none e = absurd (ground arith)
    go (some x) e = ground arith

pub record MayChangeRole (organisation_id actor_user_id membership_id : ℕ) (role : MembershipRole)
    (db : Db) (target : Membership) : Type 0 where
  pub active : IsActive organisation_id actor_user_id db
  pub actor : Membership
  pub found_actor : get_membership actor_user_id organisation_id db ≡ some actor
  pub actor_owner : is_owner actor.role ≡ true
  pub found_target : get_membership_by_id membership_id organisation_id db ≡ some target
  pub target_not_owner : is_owner target.role ≡ false
  pub role_not_owner : is_owner role ≡ false
  pub role_differs : role_eq target.role role ≡ false

pub check_role_change-ok :
    (organisation_id actor_user_id membership_id : ℕ) (role : MembershipRole) (db : Db)
    (target : Membership)
    → check_role_change organisation_id actor_user_id membership_id role db ≡ ok target
    → MayChangeRole organisation_id actor_user_id membership_id role db target
unfolding check_role_change get_membership_for_organisation
check_role_change-ok organisation_id actor_user_id membership_id role db target h =
    let (done, opened, rest) =
      bind-ok (ensure_active organisation_id actor_user_id db) _ target h in
    let active = ensure_active-ok organisation_id actor_user_id db opened in ground arith

pub record MayRemove (organisation_id actor_user_id membership_id : ℕ) (db : Db)
    (target : Membership) : Type 0 where
  pub active : IsActive organisation_id actor_user_id db
  pub actor : Membership
  pub found_actor : get_membership actor_user_id organisation_id db ≡ some actor
  -- the owner, or an administrator who removes a plain member
  pub actor_outranks :
      (is_owner actor.role ≡ true) ⊎ ((is_admin actor.role ≡ true) × (is_member target.role ≡ true))
  pub found_target : get_membership_by_id membership_id organisation_id db ≡ some target
  pub target_not_owner : is_owner target.role ≡ false

pub check_removal-ok :
    (organisation_id actor_user_id membership_id : ℕ) (db : Db) (target : Membership)
    → check_removal organisation_id actor_user_id membership_id db ≡ ok target
    → MayRemove organisation_id actor_user_id membership_id db target
unfolding check_removal get_membership_for_organisation
check_removal-ok organisation_id actor_user_id membership_id db target h =
    let (done, opened, rest) =
      bind-ok (ensure_active organisation_id actor_user_id db) _ target h in
    let active = ensure_active-ok organisation_id actor_user_id db opened in ground arith

pub MayRemove-passes :
    (organisation_id actor_user_id membership_id : ℕ) (db : Db) (target : Membership)
    → MayRemove organisation_id actor_user_id membership_id db target
    → check_removal organisation_id actor_user_id membership_id db ≡ ok target
unfolding check_removal get_membership_for_organisation
MayRemove-passes organisation_id actor_user_id membership_id db target may =
    let active = IsActive-passes organisation_id actor_user_id db may.active in
    elim may.actor_outranks [ inl owns ↦ ground arith | inr administers ↦ ground arith ]
