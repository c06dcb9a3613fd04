-- ===== src/Memberships/Repository/Writes.antt =====
-- What the repository's writes leave in the table.
use fastapi_saas_template.Prelude.{ℕ, true, false, ◌≡◌, List, [], ◌∷◌, ◌++◌, update_row, arith}
use fastapi_saas_template.Errors.{ok}
use fastapi_saas_template.Exec.{◌>>=◌}
use fastapi_saas_template.Session.{Session}
use fastapi_saas_template.Models.Membership.{MembershipRole, Membership, key, indexes_hold}
use fastapi_saas_template.Memberships.Repository.{
  create_membership, update_role, deactivate_membership, flush, set_memberships,
}

abbrev pub with_memberships : Session → List Membership → Session
with_memberships s ms = record s { db = set_memberships ms s.db }

abbrev pub role_set : Membership → MembershipRole → List Membership → List Membership
role_set m role = update_row key m.id (λ r. record r { role = role })

abbrev pub deactivated : Membership → List Membership → List Membership
deactivated m = update_row key m.id (λ r. record r { is_active = false })

abbrev pub new_membership : ℕ → ℕ → ℕ → MembershipRole → Membership
new_membership id user_id organisation_id role = record {
  id = id;
  user_id = user_id;
  organisation_id = organisation_id;
  role = role;
  is_active = true;
}

module _ (s t : Session) (m' : Membership) where
  pub update_role-ok :
      (m : Membership) (role : MembershipRole)
      → update_role m role s ≡ (ok m', t)
      → (t ≡ with_memberships s (role_set m role s.db.memberships))
        × (m' ≡ record m { role = role })
        × (indexes_hold t.db.memberships ≡ true)
  unfolding update_role flush ◌>>=◌
  update_role-ok m role h = (ground arith, ground arith, ground arith)

  pub deactivate_membership-ok :
      (m : Membership)
      → deactivate_membership m s ≡ (ok m', t)
      → (t ≡ with_memberships s (deactivated m s.db.memberships))
        × (m' ≡ record m { is_active = false })
        × (indexes_hold t.db.memberships ≡ true)
  unfolding deactivate_membership flush ◌>>=◌
  deactivate_membership-ok m h = (ground arith, ground arith, ground arith)

  pub create_membership-ok :
      (id user_id organisation_id : ℕ) (role : MembershipRole)
      → create_membership id user_id organisation_id role s ≡ (ok m', t)
      → (t
          ≡ with_memberships s
              (s.db.memberships ++ new_membership id user_id organisation_id role ∷ []))
        × (m' ≡ new_membership id user_id organisation_id role)
        × (indexes_hold t.db.memberships ≡ true)
  unfolding create_membership flush ◌>>=◌
  create_membership-ok id user_id organisation_id role h =
      (ground arith, ground arith, ground arith)
