-- ===== src/Memberships/Replacement.antt =====
-- Handing the ownership of an organisation over.
use fastapi_saas_template.Prelude.{
  ℕ, Bool, true, false, ◌≡◌, ◌∙◌, ap, sym, subst, refl, some, arith, List, ◌&&◌, ◌==◌, count,
  find_first, find_first-select, find_first-holds, find_first-InTable, InTable, InTable-update_row,
  count-update_of, DistinctKeys, DistinctKeys-update_row,
}
use fastapi_saas_template.Errors.{ok}
use fastapi_saas_template.Exec.{bind-eq-ok, pure}
use fastapi_saas_template.Session.{Db, Session, ask}
use fastapi_saas_template.Session.Transactions.{join_or_begin-ok, opened}
use fastapi_saas_template.Models.Membership.{owner, admin, Membership, key, is_owner}
use fastapi_saas_template.Memberships.Repository.{
  of_organisation, owner_of, count_active_owners, lock_active_memberships, update_role,
}
use fastapi_saas_template.Memberships.Repository.Writes.{role_set, update_role-ok}
use fastapi_saas_template.Memberships.Checks.{check_replacement, ensure_exactly_one_active_owner}
use fastapi_saas_template.Memberships.Creation.{ensure_exactly_one-ok}
use fastapi_saas_template.Memberships.{
  replace_owner_membership, replace_owner_membership_in_transaction,
}

-- The source is an active owner of the organisation, the replacement an active other member.
pub record Replaceable (organisation_id source_id replacement_id : ℕ) (ms : List Membership)
    (source replacement : Membership) : Type 0 where
  pub source_in : InTable source ms
  pub source_is : source.id ≡ source_id
  pub source_owner : owner_of organisation_id source ≡ true
  pub replacement_in : InTable replacement ms
  pub replacement_is : replacement.id ≡ replacement_id
  pub replacement_active : of_organisation organisation_id replacement ≡ true
  pub replacement_not_owner : is_owner replacement.role ≡ false

abbrev by_id : ℕ → ℕ → Membership → Bool
by_id organisation_id id m = of_organisation organisation_id m && (m.id == id)

check_replacement-found :
    (organisation_id source_id replacement_id : ℕ) (db : Db) (source replacement : Membership)
    → check_replacement organisation_id source_id replacement_id db ≡ ok (source, replacement)
    → (find_first (by_id organisation_id source_id) db.memberships ≡ some source)
      × (find_first (by_id organisation_id replacement_id) db.memberships ≡ some replacement)
      × (is_owner source.role ≡ true)
      × (is_owner replacement.role ≡ false)
unfolding check_replacement lock_active_memberships
check_replacement-found organisation_id source_id replacement_id db source replacement h =
    let a =
      find_first-select (λ m. m.id == source_id) (of_organisation organisation_id) db.memberships in
    let b =
      find_first-select (λ m. m.id == replacement_id) (of_organisation organisation_id)
        db.memberships in
    ground arith

check_replacement-ok :
    (organisation_id source_id replacement_id : ℕ) (db : Db) (source replacement : Membership)
    → check_replacement organisation_id source_id replacement_id db ≡ ok (source, replacement)
    → Replaceable organisation_id source_id replacement_id db.memberships source replacement
check_replacement-ok organisation_id source_id replacement_id db source replacement h =
    let (fs, fr, so, ro) =
      check_replacement-found organisation_id source_id replacement_id db source replacement h in
    let hs = find_first-holds (by_id organisation_id source_id) db.memberships source fs in
    let hr =
      find_first-holds (by_id organisation_id replacement_id) db.memberships replacement fr in
    record {
      source_in = find_first-InTable (by_id organisation_id source_id) db.memberships source fs;
      source_is = ground arith;
      source_owner = ground arith;
      replacement_in =
          find_first-InTable (by_id organisation_id replacement_id) db.memberships replacement fr;
      replacement_is = ground arith;
      replacement_active = ground arith;
      replacement_not_owner = ro;
    }

-- What a successful replacement leaves.
pub record Replaced (organisation_id source_id replacement_id : ℕ) (old new : Db) (m : Membership)
    : Type 0 where
  pub source : Membership
  pub replacement : Membership
  pub replaceable :
      Replaceable organisation_id source_id replacement_id old.memberships source replacement
  pub returned : m ≡ record replacement { role = owner }
  pub memberships_are :
      new.memberships ≡ role_set replacement owner (role_set source admin old.memberships)
  pub one_owner : count_active_owners organisation_id new ≡ 1

Replaced-parts :
    (organisation_id source_id replacement_id : ℕ) (s s1 s2 s3 s4 t : Session)
    (source replacement demoted promoted m : Membership)
    → ask (check_replacement organisation_id source_id replacement_id) s
      ≡ (ok (source, replacement), s1)
    → update_role source admin s1 ≡ (ok demoted, s2)
    → update_role replacement owner s2 ≡ (ok promoted, s3)
    → ask (ensure_exactly_one_active_owner organisation_id) s3 ≡ (ok tt, s4)
    → pure {S = Session} promoted s4 ≡ (ok m, t)
    → Replaced organisation_id source_id replacement_id s.db t.db m
Replaced-parts organisation_id source_id replacement_id s s1 s2 s3 s4 t source replacement demoted
      promoted m e1 e2 e3 e4 h =
    let w1 = update_role-ok s1 s2 demoted source admin e2 in
    let w2 = update_role-ok s2 s3 promoted replacement owner e3 in
    let one = ensure_exactly_one-ok organisation_id s3.db (ground arith) in
    let same : t.db ≡ s3.db = ground arith in
    record {
      source = source;
      replacement = replacement;
      replaceable =
          check_replacement-ok organisation_id source_id replacement_id s.db source replacement
            (ground arith);
      returned = ground arith;
      memberships_are = ground arith;
      one_owner = subst (λ d. count_active_owners organisation_id d ≡ 1) (sym same) one;
    }

module _ (organisation_id source_id replacement_id : ℕ) (s t : Session) (m : Membership) where
  pub replace_owner_membership-Replaced :
      replace_owner_membership organisation_id source_id replacement_id s ≡ (ok m, t)
      → ((source_id == replacement_id) ≡ false)
        × Replaced organisation_id source_id replacement_id s.db t.db m
  unfolding replace_owner_membership replace_owner_membership_in_transaction
  replace_owner_membership-Replaced h = go (source_id == replacement_id) refl
    where
      go :
          (b : Bool)
          → (source_id == replacement_id) ≡ b
          → ((source_id == replacement_id) ≡ false)
            × Replaced organisation_id source_id replacement_id s.db t.db m
      go true e = absurd (ground arith)
      go false e =
          let (u, k, d, l) = join_or_begin-ok _ s m t (rw (e, replace_owner_membership) at h) in
          let (pair, s1, e1, h1) = bind-eq-ok _ _ (opened s) u m k in
          let (demoted, s2, e2, h2) = bind-eq-ok _ _ s1 u m h1 in
          let (promoted, s3, e3, h3) = bind-eq-ok _ _ s2 u m h2 in
          let (done, s4, e4, h4) = bind-eq-ok _ _ s3 u m h3 in
          (
            e,
            subst (λ new. Replaced organisation_id source_id replacement_id s.db new m) (sym d)
                (Replaced-parts organisation_id source_id replacement_id (opened s) s1 s2 s3 s4 u
                  pair.0 pair.1 demoted promoted m e1 e2 e3 e4 h4),
          )

  -- Handing ownership over changes no organisation's number of active owners, and leaves exactly
  -- one in the organisation: the row returned, with the role `owner`.
  pub replace_owner_membership-owners :
      DistinctKeys key s.db.memberships
      → replace_owner_membership organisation_id source_id replacement_id s ≡ (ok m, t)
      → ((o : ℕ) → count_active_owners o t.db ≡ count_active_owners o s.db)
        × (count_active_owners organisation_id t.db ≡ 1)
        × (m.id ≡ replacement_id)
        × (m.role ≡ owner)
  unfolding count_active_owners
  replace_owner_membership-owners d h =
      let (distinct, r) = replace_owner_membership-Replaced h in
      let p = r.replaceable in
      let ms = s.db.memberships in
      let demoted = role_set r.source admin ms in
      let there : InTable r.replacement demoted =
        InTable-update_row key r.source.id (λ x. record x { role = admin }) ms r.replacement
          (ground arith) p.replacement_in in
      let still =
        DistinctKeys-update_row key r.source.id (λ x. record x { role = admin }) ms (λ x. refl) d in
      (
        λ o.
            let c1 =
              count-update_of key (owner_of o) (λ x. record x { role = admin }) ms r.source d
                p.source_in in
            let c2 =
              count-update_of key (owner_of o) (λ x. record x { role = owner }) demoted
                r.replacement still there in
            ap (count (owner_of o)) r.memberships_are ∙ (ground arith),
        r.one_owner,
        ground arith,
        ground arith,
      )
