-- ===== src/Memberships/Checks.antt =====
-- The reads and guards of backend/app/memberships/services/memberships.py: what each operation
-- decides before it writes.
use fastapi_saas_template.Prelude.{
  ℕ, not, Option, none, some, ◌==◌, leb, find_first, if◌then◌else◌, is_some,
}
use fastapi_saas_template.Errors.{
  Error, Result, ok, err, conflict, forbidden, not_found, require, ◌>>=◌, ◌>>◌,
}
use fastapi_saas_template.Session.{Db}
use fastapi_saas_template.Guards.{ensure_user_active, ensure_organisation_active}
use fastapi_saas_template.Users.{get_user_by_id}
use fastapi_saas_template.Organisations.{get_organisation}
use fastapi_saas_template.Models.Membership.{
  MembershipRole, owner, admin, member, Membership, is_owner, is_member, role_eq,
}
use fastapi_saas_template.Memberships.Repository.{
  get_membership_for_user, get_membership, get_membership_by_id, count_active_owners,
  lock_active_memberships,
}

abbrev pub or_raise : Option Membership → Error → Result Membership
or_raise none e = err e
or_raise (some m) e = ok m

unfoldable pub get_membership_for_organisation : ℕ → ℕ → Db → Result Membership
get_membership_for_organisation membership_id organisation_id db =
    or_raise (get_membership_by_id membership_id organisation_id db)
      (not_found "Membership not found")

-- The lines that open every tenant operation: neither the actor nor the organisation is suspended.
unfoldable pub ensure_active : ℕ → ℕ → Db → Result (Unit {0})
ensure_active organisation_id actor_user_id db = do
  actor_user ← get_user_by_id actor_user_id db
  ensure_user_active actor_user
  organisation ← get_organisation organisation_id db
  ensure_organisation_active organisation

-- The guards of `_change_membership_role`; returns the target.
unfoldable pub check_role_change : ℕ → ℕ → ℕ → MembershipRole → Db → Result Membership
check_role_change organisation_id actor_user_id membership_id role db = do
  ensure_active organisation_id actor_user_id db
  actor_membership ←
      or_raise (get_membership actor_user_id organisation_id db)
        (forbidden "You are not a member of this organisation")
  target_membership ← get_membership_for_organisation membership_id organisation_id db
  require (not (is_owner role)) (forbidden "Tenant API cannot assign owner role")
  require (not (is_owner target_membership.role)) (forbidden "Owner role cannot be modified")
  require (is_owner actor_membership.role) (forbidden "Only owner can change membership roles")
  require (not (role_eq target_membership.role role)) (conflict "Membership already has this role")
  ok target_membership

-- The branches of `_remove_membership` on the two roles.
check_may_remove : MembershipRole → MembershipRole → Result (Unit {0})
check_may_remove owner target = ok tt
check_may_remove admin target =
    require (is_member target) (forbidden "Admin can remove only members")
check_may_remove member target = err (forbidden "You are not allowed to remove memberships")

-- The guards of `_remove_membership`; returns the target.
unfoldable pub check_removal : ℕ → ℕ → ℕ → Db → Result Membership
unfolding check_may_remove
check_removal organisation_id actor_user_id membership_id db = do
  ensure_active organisation_id actor_user_id db
  actor_membership ←
      or_raise (get_membership actor_user_id organisation_id db)
        (forbidden "You are not a member of this organisation")
  target_membership ← get_membership_for_organisation membership_id organisation_id db
  require (not (is_owner target_membership.role)) (forbidden "Owner membership cannot be removed")
  check_may_remove actor_membership.role target_membership.role
  ok target_membership

-- `_ensure_exactly_one_active_owner`
unfoldable pub ensure_exactly_one_active_owner : ℕ → Db → Result (Unit {0})
ensure_exactly_one_active_owner organisation_id db =
    require (count_active_owners organisation_id db == 1)
      (conflict "Organisation must have exactly one active owner")

-- The first lines of `_replace_owner_membership`: the source and the replacement.
unfoldable pub check_replacement : ℕ → ℕ → ℕ → Db → Result (Membership × Membership)
check_replacement organisation_id source_id replacement_id db =
    let memberships = lock_active_memberships organisation_id db in
    do
      source ←
          or_raise (find_first (λ m. m.id == source_id) memberships)
            (not_found "Membership not found")
      replacement ←
          or_raise (find_first (λ m. m.id == replacement_id) memberships)
            (not_found "Membership not found")
      require (is_owner source.role) (conflict "Source membership is not owner")
      require (not (is_owner replacement.role)) (conflict "Replacement membership is already owner")
      ok (source, replacement)

-- `ensure_owner_invariant_before_deactivation`
unfoldable pub ensure_owner_invariant_before_deactivation : Membership → Db → Result (Unit {0})
ensure_owner_invariant_before_deactivation membership db =
    if is_owner membership.role
    then require (not (leb (count_active_owners membership.organisation_id db) 1))
        (conflict "Organisation must always have at least one owner")
    else ok tt

-- `ensure_user_can_create_organisation`
unfoldable pub ensure_user_can_create_organisation : ℕ → Db → Result (Unit {0})
ensure_user_can_create_organisation user_id db =
    require (not (is_some (get_membership_for_user user_id db)))
      (conflict "You already belong to an organisation")
