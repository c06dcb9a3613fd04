-- ===== src/Memberships/Repository.antt =====
-- backend/app/memberships/repositories/memberships.py
pub mod Writes
use fastapi_saas_template.Prelude.{
  ℕ, Bool, true, false, List, [], ◌∷◌, ◌++◌, Option, ◌==◌, ◌&&◌, if◌then◌else◌, find_first, select,
  count, update, update_row,
}
use fastapi_saas_template.Errors.{ok, err, integrity_error}
use fastapi_saas_template.Exec.{pure, ◌>>◌}
use fastapi_saas_template.Session.{Db, Tx, modify}
use fastapi_saas_template.Models.Membership.{
  MembershipRole, Membership, key, is_owner, indexes_hold,
}

-- The `WHERE` clauses of the repository.
abbrev pub of_user : ℕ → Membership → Bool
of_user user_id m = (m.user_id == user_id) && m.is_active

abbrev pub of_organisation : ℕ → Membership → Bool
of_organisation organisation_id m = (m.organisation_id == organisation_id) && m.is_active

abbrev pub of_user_in : ℕ → ℕ → Membership → Bool
of_user_in user_id organisation_id m =
    (m.user_id == user_id) && ((m.organisation_id == organisation_id) && m.is_active)

abbrev pub with_id_in : ℕ → ℕ → Membership → Bool
with_id_in membership_id organisation_id m =
    (m.id == membership_id) && ((m.organisation_id == organisation_id) && m.is_active)

abbrev pub owner_of : ℕ → Membership → Bool
owner_of organisation_id m =
    (m.organisation_id == organisation_id) && (is_owner m.role && m.is_active)

unfoldable pub get_membership_for_user : ℕ → Db → Option Membership
get_membership_for_user user_id db = find_first (of_user user_id) db.memberships

unfoldable pub get_membership : ℕ → ℕ → Db → Option Membership
get_membership user_id organisation_id db =
    find_first (of_user_in user_id organisation_id) db.memberships

unfoldable pub get_membership_by_id : ℕ → ℕ → Db → Option Membership
get_membership_by_id membership_id organisation_id db =
    find_first (with_id_in membership_id organisation_id) db.memberships

unfoldable pub count_active_owners : ℕ → Db → ℕ
count_active_owners organisation_id db = count (owner_of organisation_id) db.memberships

-- `list_active_memberships_for_organisation_for_update`; the row lock is not modelled.
unfoldable pub lock_active_memberships : ℕ → Db → List Membership
lock_active_memberships organisation_id db = select (of_organisation organisation_id) db.memberships

-- `session.flush()` after a write to the table: the database checks its unique indexes.
unfoldable pub flush : Tx (Unit {0})
flush s = (if indexes_hold s.db.memberships then ok tt else err integrity_error, s)

abbrev pub set_memberships : List Membership → Db → Db
set_memberships ms db = record db { memberships = ms }

-- The new row's primary key is drawn by the caller (`uuid4`).
unfoldable pub create_membership : ℕ → ℕ → ℕ → MembershipRole → Tx Membership
create_membership id user_id organisation_id role =
    let membership : Membership = record {
      id = id;
      user_id = user_id;
      organisation_id = organisation_id;
      role = role;
      is_active = true;
    } in
    do modify (λ db. set_memberships (db.memberships ++ membership ∷ []) db); flush; pure membership

unfoldable pub update_role : Membership → MembershipRole → Tx Membership
update_role membership role = do
  modify λ db.
      set_memberships (update_row key membership.id (λ m. record m { role = role }) db.memberships)
        db
  flush
  pure (record membership { role = role })

unfoldable pub deactivate_membership : Membership → Tx Membership
deactivate_membership membership = do
  modify λ db.
      set_memberships
        (update_row key membership.id (λ m. record m { is_active = false }) db.memberships) db
  flush
  pure (record membership { is_active = false })

-- One `UPDATE` statement; the database checks the unique indexes at its end.
unfoldable pub deactivate_organisation_memberships : ℕ → Tx (Unit {0})
deactivate_organisation_memberships organisation_id = do
  modify λ db.
      set_memberships
        (update (of_organisation organisation_id) (λ m. record m { is_active = false })
          db.memberships)
        db
  flush
