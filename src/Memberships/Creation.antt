-- ===== src/Memberships/Creation.antt =====
-- Creating a membership.
use fastapi_saas_template.Prelude.{
  ℕ, ◌≡◌, ◌∙◌, ap, sym, subst, subst₂, Option, none, some, arith, [], ◌∷◌, ◌++◌, count,
  count-append, find_first-none-count,
}
use fastapi_saas_template.Errors.{ok}
use fastapi_saas_template.Exec.{bind-eq-ok, pure}
use fastapi_saas_template.Session.{Db, Session, ask}
use fastapi_saas_template.Session.Transactions.{join_or_begin-ok, on_integrity_error-ok, opened}
use fastapi_saas_template.Models.Membership.{MembershipRole, Membership}
use fastapi_saas_template.Memberships.Repository
use fastapi_saas_template.Memberships.Repository.{
  of_user, owner_of, get_membership_for_user, count_active_owners,
}
use fastapi_saas_template.Memberships.Repository.Writes.{new_membership, create_membership-ok}
use fastapi_saas_template.Memberships.Checks.{ensure_exactly_one_active_owner}
use fastapi_saas_template.Memberships.{
  create_membership, create_membership_in_transaction, create_unless_member,
}

pub ensure_exactly_one-ok :
    (organisation_id : ℕ) (db : Db)
    → ensure_exactly_one_active_owner organisation_id db ≡ ok tt
    → count_active_owners organisation_id db ≡ 1
unfolding ensure_exactly_one_active_owner
ensure_exactly_one-ok organisation_id db h = ground arith

-- What a successful creation establishes.
pub record Created (id user_id organisation_id : ℕ) (role : MembershipRole) (old new : Db)
    (m : Membership) : Type 0 where
  pub returned : m ≡ new_membership id user_id organisation_id role
  pub appended : new.memberships ≡ old.memberships ++ m ∷ []
  pub only_memberships : new ≡ record old { memberships = new.memberships }
  pub one_owner : count_active_owners organisation_id new ≡ 1
  pub one_membership : count (of_user user_id) new.memberships ≡ 1

module _ (id user_id organisation_id : ℕ) (role : MembershipRole) where
  own_count :
      (m : Membership)
      → m ≡ new_membership id user_id organisation_id role
      → count (of_user user_id) (m ∷ []) ≡ 1
  unfolding count
  own_count m e = ground arith

  inserted :
      (s s1 s2 t : Session) (a m : Membership)
      → get_membership_for_user user_id s.db ≡ none
      → Repository.create_membership id user_id organisation_id role s ≡ (ok a, s1)
      → ask (ensure_exactly_one_active_owner organisation_id) s1 ≡ (ok tt, s2)
      → pure {S = Session} a s2 ≡ (ok m, t)
      → Created id user_id organisation_id role s.db t.db m
  unfolding get_membership_for_user
  inserted s s1 s2 t a m free e1 e2 h =
      let stored = create_membership-ok s s1 a id user_id organisation_id role e1 in
      let one = ensure_exactly_one-ok organisation_id s1.db (ground arith) in
      let empty = find_first-none-count (of_user user_id) s.db.memberships free in
      let same : t.db ≡ s1.db = ground arith in
      let new : m ≡ new_membership id user_id organisation_id role = ground arith in
      let added : t.db.memberships ≡ s.db.memberships ++ m ∷ [] = ground arith in
      let split = count-append (of_user user_id) s.db.memberships (m ∷ []) in
      let own = own_count m new in
      record {
        returned = new;
        appended = added;
        only_memberships = ground arith;
        one_owner = subst (λ d. count_active_owners organisation_id d ≡ 1) (sym same) one;
        one_membership = ap (count (of_user user_id)) added ∙ (split ∙ (omega (arith, empty, own)));
      }

  unless_member :
      (s t : Session) (m : Membership) (existing : Option Membership)
      → get_membership_for_user user_id s.db ≡ existing
      → create_unless_member id user_id organisation_id role existing s ≡ (ok m, t)
      → Created id user_id organisation_id role s.db t.db m
  unfolding create_unless_member
  unless_member s t m (some x) free h = absurd (cc)
  unless_member s t m none free h =
      let k = on_integrity_error-ok _ _ s m t h in
      let (a, s1, e1, h1) = bind-eq-ok _ _ s t m k in
      let (done, s2, e2, h2) = bind-eq-ok _ _ s1 t m h1 in inserted s s1 s2 t a m free e1 e2 h2

  -- When creating a membership returns, the row it returns is active and holds the role asked
  -- for, it is the only row added and no other table changes, the organisation has exactly one
  -- active owner, and the user has no other active membership.
  pub create_membership-Created :
      (s t : Session) (m : Membership)
      → create_membership id user_id organisation_id role s ≡ (ok m, t)
      → Created id user_id organisation_id role s.db t.db m
  unfolding create_membership create_membership_in_transaction
  create_membership-Created s t m h =
      let (u, e, d, l) = join_or_begin-ok _ s m t h in
      let (existing, s1, e1, h1) = bind-eq-ok _ _ (opened s) u m e in
      let same : s1 ≡ opened s = ground arith in
      let seen : get_membership_for_user user_id s1.db ≡ existing = ground arith in
      let c = unless_member s1 u m existing seen h1 in
      subst₂ (λ old new. Created id user_id organisation_id role old new m)
        (ap (λ (x : Session). x.db) same) (sym d) c
