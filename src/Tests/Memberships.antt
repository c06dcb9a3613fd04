-- ===== src/Tests/Memberships.antt =====
-- The theorems of Memberships and of the modules below it, at concrete inputs.
use fastapi_saas_template.Prelude.{
  ℕ, suc, Bool, true, false, ◌≡◌, ◌⊎◌, refl, none, some, arith, count, has_key, find_first, select,
  update_row, any,
}
use fastapi_saas_template.Errors.{Error, ok, err, conflict}
use fastapi_saas_template.Exec.{◌>>=◌}
use fastapi_saas_template.Session.{
  Session, join_or_begin, on_integrity_error, run_business_rate_limiter,
}
use fastapi_saas_template.Guards.{ensure_audit_actor_matches}
use fastapi_saas_template.Users.{get_user_by_id, get_by_id}
use fastapi_saas_template.Organisations
use fastapi_saas_template.Audit.Events.{record_event}
use fastapi_saas_template.Audit.Metadata.{
  validate_metadata_json, validate_no_forbidden_metadata_keys, calculate_json_depth, dumps_size,
}
use fastapi_saas_template.Models.Membership.{Membership, owner, admin, member, indexes_hold}
use fastapi_saas_template.Memberships.Repository
use fastapi_saas_template.Memberships.Repository.{
  get_membership, get_membership_by_id, get_membership_for_user, lock_active_memberships,
  count_active_owners, update_role, flush,
}
use fastapi_saas_template.Memberships.Checks.{
  get_membership_for_organisation, ensure_active, check_role_change, check_removal,
  check_replacement, ensure_exactly_one_active_owner,
}
use fastapi_saas_template.Memberships.{
  change_membership_role, change_membership_role_in_transaction, remove_membership,
  remove_membership_in_transaction, create_membership, create_membership_in_transaction,
  create_unless_member, replace_owner_membership, replace_owner_membership_in_transaction,
}
use fastapi_saas_template.Memberships.Owners.{
  change_membership_role-owners, remove_membership-owners,
}
use fastapi_saas_template.Memberships.Creation.{Created, create_membership-Created}
use fastapi_saas_template.Memberships.Replacement.{replace_owner_membership-owners}
use fastapi_saas_template.Memberships.Refusals.{
  Permitted, change_membership_role_refused, remove_membership_refused,
}
use fastapi_saas_template.Memberships.Authorised.{MayChangeRole}
use fastapi_saas_template.Tests.Fixture.{tenant_db, session, acting, membership}

abbrev start : Session
start = session tenant_db

-- All that a run of an operation computes through.
running : Bool
unfolding change_membership_role change_membership_role_in_transaction remove_membership
    remove_membership_in_transaction create_membership create_membership_in_transaction
    create_unless_member replace_owner_membership replace_owner_membership_in_transaction
    join_or_begin on_integrity_error ◌>>=◌ run_business_rate_limiter check_role_change check_removal
    check_replacement ensure_exactly_one_active_owner ensure_active get_membership_for_organisation
    get_user_by_id get_by_id Organisations.get_organisation Organisations.get_by_id get_membership
    get_membership_by_id get_membership_for_user lock_active_memberships count_active_owners count
    find_first select update_role Repository.deactivate_membership Repository.create_membership
    update_row has_key flush indexes_hold any record_event validate_metadata_json
    validate_no_forbidden_metadata_keys calculate_json_depth dumps_size ensure_audit_actor_matches
running = true

change_role_test :
    (change_membership_role 1 10 (acting 10) 22 admin none start).0 ≡ ok (membership 22 12 1 admin)
unfolding running
change_role_test = refl

change_membership_role-owners_example :
    count_active_owners 1 (change_membership_role 1 10 (acting 10) 22 admin none start).1.db
    ≡ count_active_owners 1 tenant_db
unfolding running
change_membership_role-owners_example =
    change_membership_role-owners 1 10 (acting 10) 22 none start
      (change_membership_role 1 10 (acting 10) 22 admin none start).1 (membership 22 12 1 admin)
      admin (refl, (refl, (refl, tt))) refl 1

remove_membership-owners_example :
    count_active_owners 1 (remove_membership 1 11 (acting 11) 22 none none start).1.db
    ≡ count_active_owners 1 tenant_db
unfolding running
remove_membership-owners_example =
    remove_membership-owners 1 11 (acting 11) 22 none start
      (remove_membership 1 11 (acting 11) 22 none none start).1
      (record (membership 22 12 1 member) { is_active = false }) none (refl, (refl, (refl, tt)))
      refl 1

create_membership-Created_example :
    Created 23 13 1 member tenant_db
      (create_membership 23 13 1 member start).1.db
      (membership 23 13 1 member)
unfolding running
create_membership-Created_example =
    create_membership-Created 23 13 1 member start (create_membership 23 13 1 member start).1
      (membership 23 13 1 member) refl

replace_owner_membership-owners_example :
    ((o : ℕ)
      → count_active_owners o (replace_owner_membership 1 20 21 start).1.db
        ≡ count_active_owners o tenant_db)
    × (count_active_owners 1 (replace_owner_membership 1 20 21 start).1.db ≡ 1)
    × (◌≡◌ {A = ℕ} 21 21)
    × (owner ≡ owner)
unfolding running
replace_owner_membership-owners_example =
    replace_owner_membership-owners 1 20 21 start (replace_owner_membership 1 20 21 start).1
      (membership 21 11 1 owner) (refl, (refl, (refl, tt))) refl

-- An administrator may not change roles.
nobody :
    (target : Membership)
    → (acting 11).actor_user_id ≡ some 11
    → ¬ MayChangeRole 1 11 22 admin start.db target
unfolding running
nobody target e may = let found = may.found_actor in let owns = may.actor_owner in ground arith

change_membership_role_refused_example :
    (e : Error) × (change_membership_role 1 11 (acting 11) 22 admin none start ≡ (err e, start))
unfolding running
change_membership_role_refused_example =
    change_membership_role_refused 1 11 (acting 11) 22 start none admin refl nobody

remove_membership_refused_example :
    ((target : Membership) × Permitted 1 11 (acting 11) 22 start target
      × (remove_membership 1 11 (acting 11) 22 none (some (err (conflict "Busy"))) start
          ≡ (err (conflict "Busy"), record start { limiter_calls = suc start.limiter_calls })))
    ⊎ (((target : Membership) → ¬ Permitted 1 11 (acting 11) 22 start target)
        × (x : Error) × (remove_membership 1 11
              (acting 11)
              22
              none
              (some (err (conflict "Busy")))
              start
            ≡ (err x, start)))
unfolding running
remove_membership_refused_example =
    remove_membership_refused 1 11 (acting 11) 22 start none (conflict "Busy") refl
