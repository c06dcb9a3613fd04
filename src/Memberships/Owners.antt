-- ===== src/Memberships/Owners.antt =====
-- Active owners under the membership operations.
use fastapi_saas_template.Prelude.{
  ℕ, false, ◌≡◌, ◌∙◌, ap, Option, some, Text, arith, List, count, find_first, count-update_row,
  DistinctKeys,
}
use fastapi_saas_template.Errors.{Result, ok}
use fastapi_saas_template.Session.{Session}
use fastapi_saas_template.Models.AuditEvent.{AuditContext}
use fastapi_saas_template.Models.Membership.{MembershipRole, Membership, key, is_owner}
use fastapi_saas_template.Memberships.Repository.{
  with_id_in, owner_of, get_membership_by_id, count_active_owners,
}
use fastapi_saas_template.Memberships.Repository.Writes.{role_set, deactivated}
use fastapi_saas_template.Memberships.Authorised.{check_role_change-ok, check_removal-ok}
use fastapi_saas_template.Memberships.Outcome.{
  change_membership_role-RoleChanged, remove_membership-Removed,
}
use fastapi_saas_template.Memberships.{change_membership_role, remove_membership}

-- Rewriting a row that is no owner before and after changes no count of owners.
owners-role_set :
    (o membership_id organisation_id : ℕ) (role : MembershipRole) (ms : List Membership)
    (m : Membership)
    → DistinctKeys key ms
    → find_first (with_id_in membership_id organisation_id) ms ≡ some m
    → is_owner m.role ≡ false
    → is_owner role ≡ false
    → count (owner_of o) (role_set m role ms) ≡ count (owner_of o) ms
owners-role_set o membership_id organisation_id role ms m d f old new =
    let c =
      count-update_row key (owner_of o) (with_id_in membership_id organisation_id)
        (λ r. record r { role = role }) ms m d f in
    ground arith

owners-deactivated :
    (o membership_id organisation_id : ℕ) (ms : List Membership) (m : Membership)
    → DistinctKeys key ms
    → find_first (with_id_in membership_id organisation_id) ms ≡ some m
    → is_owner m.role ≡ false
    → count (owner_of o) (deactivated m ms) ≡ count (owner_of o) ms
owners-deactivated o membership_id organisation_id ms m d f old =
    let c =
      count-update_row key (owner_of o) (with_id_in membership_id organisation_id)
        (λ r. record r { is_active = false }) ms m d f in
    ground arith

module _ (organisation_id actor_user_id : ℕ) (audit_context : AuditContext) (membership_id : ℕ)
    (limiter : Option (Result (Unit {0}))) (s t : Session) (m : Membership) where
  -- A role change that returns leaves the number of active owners of every organisation as it was.
  pub change_membership_role-owners :
      (role : MembershipRole)
      → DistinctKeys key s.db.memberships
      → change_membership_role organisation_id actor_user_id audit_context membership_id role
          limiter s
        ≡ (ok m, t)
      → (o : ℕ) → count_active_owners o t.db ≡ count_active_owners o s.db
  unfolding count_active_owners get_membership_by_id
  change_membership_role-owners role d h o =
      let r =
        change_membership_role-RoleChanged organisation_id actor_user_id audit_context membership_id
          role limiter s t m h in
      let a =
        check_role_change-ok organisation_id actor_user_id membership_id role s.db r.target
          r.checked in
      ap (count (owner_of o)) r.wrote.memberships_are
      ∙ owners-role_set o membership_id organisation_id role s.db.memberships r.target d
          a.found_target a.target_not_owner a.role_not_owner

  -- A removal that returns leaves the number of active owners of every organisation as it was.
  pub remove_membership-owners :
      (reason : Option Text)
      → DistinctKeys key s.db.memberships
      → remove_membership organisation_id actor_user_id audit_context membership_id reason limiter s
        ≡ (ok m, t)
      → (o : ℕ) → count_active_owners o t.db ≡ count_active_owners o s.db
  unfolding count_active_owners get_membership_by_id
  remove_membership-owners reason d h o =
      let r =
        remove_membership-Removed organisation_id actor_user_id audit_context membership_id reason
          limiter s t m h in
      let a =
        check_removal-ok organisation_id actor_user_id membership_id s.db r.target r.checked in
      ap (count (owner_of o)) r.wrote.memberships_are
      ∙ owners-deactivated o membership_id organisation_id s.db.memberships r.target d
          a.found_target a.target_not_owner
