-- ===== src/Memberships/Outcome.antt =====
-- The parts of a tenant operation that returned: its guards passed, and what it wrote.
use fastapi_saas_template.Prelude.{
  ℕ, false, ◌≡◌, ap, sym, subst₂, Option, Text, arith, List, [], ◌∷◌, ◌++◌,
}
use fastapi_saas_template.Errors.{Result, ok}
use fastapi_saas_template.Exec.{bind-eq-ok, pure}
use fastapi_saas_template.Session.{Db, Session, ask, run_business_rate_limiter}
use fastapi_saas_template.Session.Transactions.{
  join_or_begin-ok, run_business_rate_limiter-db, opened,
}
use fastapi_saas_template.Audit.Events.{record_event, record_event-ok}
use fastapi_saas_template.Models.AuditEvent.{AuditContext, AuditEvent}
use fastapi_saas_template.Models.Membership.{MembershipRole, Membership}
use fastapi_saas_template.Memberships.Repository
use fastapi_saas_template.Memberships.Repository.{update_role}
use fastapi_saas_template.Memberships.Repository.Writes.{
  role_set, deactivated, update_role-ok, deactivate_membership-ok,
}
use fastapi_saas_template.Memberships.Checks.{check_role_change, check_removal}
use fastapi_saas_template.Memberships.{
  change_membership_role_in_transaction, change_membership_role, remove_membership_in_transaction,
  remove_membership, role_changed_event, removed_event,
}

-- What a tenant operation leaves: the table it wrote, and one audit event.
pub record Wrote (old new : Db) (memberships : List Membership) (event : AuditEvent) : Type 0 where
  pub memberships_are : new.memberships ≡ memberships
  pub event_added : new.audit_events ≡ old.audit_events ++ event ∷ []

module _ (organisation_id actor_user_id : ℕ) (audit_context : AuditContext) (membership_id : ℕ)
    (role : MembershipRole) where
  pub record RoleChanged (old new : Db) (m : Membership) : Type 0 where
    pub target : Membership
    pub checked : check_role_change organisation_id actor_user_id membership_id role old ≡ ok target
    pub returned : m ≡ record target { role = role }
    pub wrote :
        Wrote old new
          (role_set target role old.memberships)
          (role_changed_event audit_context organisation_id m target.role)

  module _ (limiter : Option (Result (Unit {0}))) (s t : Session) (m : Membership) where
    RoleChanged-parts :
        (target updated : Membership) (s1 s2 s3 s4 : Session)
        → ask (check_role_change organisation_id actor_user_id membership_id role) s
          ≡ (ok target, s1)
        → run_business_rate_limiter limiter s1 ≡ (ok tt, s2)
        → update_role target role s2 ≡ (ok updated, s3)
        → record_event (role_changed_event audit_context organisation_id updated target.role) s3
          ≡ (ok tt, s4)
        → pure {S = Session} updated s4 ≡ (ok m, t)
        → RoleChanged s.db t.db m
    RoleChanged-parts target updated s1 s2 s3 s4 e1 e2 e3 e4 h =
        let limited = run_business_rate_limiter-db limiter s1 s2 (ok tt) e2 in
        let stored = update_role-ok s2 s3 updated target role e3 in
        let recorded = record_event-ok _ s3 s4 e4 in
        record {
          target = target;
          checked = ground arith;
          returned = ground arith;
          wrote = record { memberships_are = ground arith; event_added = ground arith };
        }

    RoleChanged-in_transaction :
        change_membership_role_in_transaction organisation_id actor_user_id audit_context
            membership_id role limiter s
          ≡ (ok m, t)
        → RoleChanged s.db t.db m
    unfolding change_membership_role_in_transaction
    RoleChanged-in_transaction h =
        let (target, s1, e1, h1) = bind-eq-ok _ _ s t m h in
        let (done, s2, e2, h2) = bind-eq-ok _ _ s1 t m h1 in
        let (updated, s3, e3, h3) = bind-eq-ok _ _ s2 t m h2 in
        let (done', s4, e4, h4) = bind-eq-ok _ _ s3 t m h3 in
        RoleChanged-parts target updated s1 s2 s3 s4 e1 e2 e3 e4 h4

  pub change_membership_role-RoleChanged :
      (limiter : Option (Result (Unit {0}))) (s t : Session) (m : Membership)
      → change_membership_role organisation_id actor_user_id audit_context membership_id role
          limiter s
        ≡ (ok m, t)
      → RoleChanged s.db t.db m
  unfolding change_membership_role
  change_membership_role-RoleChanged limiter s t m h =
      let (done, s1, e1, h1) = bind-eq-ok _ _ s t m h in
      let same : s1 ≡ s = ground arith in
      let (u, e2, d, l) = join_or_begin-ok _ s1 m t h1 in
      let r : RoleChanged s1.db u.db m = RoleChanged-in_transaction limiter (opened s1) u m e2 in
      subst₂ (λ old new. RoleChanged old new m) (ap (λ (x : Session). x.db) same) (sym d) r

module _ (organisation_id actor_user_id : ℕ) (audit_context : AuditContext) (membership_id : ℕ)
    (reason : Option Text) where
  pub record Removed (old new : Db) (m : Membership) : Type 0 where
    pub target : Membership
    pub checked : check_removal organisation_id actor_user_id membership_id old ≡ ok target
    pub returned : m ≡ record target { is_active = false }
    pub wrote :
        Wrote old new
          (deactivated target old.memberships)
          (removed_event audit_context organisation_id reason m)

  module _ (limiter : Option (Result (Unit {0}))) (s t : Session) (m : Membership) where
    Removed-parts :
        (target updated : Membership) (s1 s2 s3 s4 : Session)
        → ask (check_removal organisation_id actor_user_id membership_id) s ≡ (ok target, s1)
        → run_business_rate_limiter limiter s1 ≡ (ok tt, s2)
        → Repository.deactivate_membership target s2 ≡ (ok updated, s3)
        → record_event (removed_event audit_context organisation_id reason updated) s3 ≡ (ok tt, s4)
        → pure {S = Session} updated s4 ≡ (ok m, t)
        → Removed s.db t.db m
    Removed-parts target updated s1 s2 s3 s4 e1 e2 e3 e4 h =
        let limited = run_business_rate_limiter-db limiter s1 s2 (ok tt) e2 in
        let stored = deactivate_membership-ok s2 s3 updated target e3 in
        let recorded = record_event-ok _ s3 s4 e4 in
        record {
          target = target;
          checked = ground arith;
          returned = ground arith;
          wrote = record { memberships_are = ground arith; event_added = ground arith };
        }

    Removed-in_transaction :
        remove_membership_in_transaction organisation_id actor_user_id audit_context membership_id
            reason limiter s
          ≡ (ok m, t)
        → Removed s.db t.db m
    unfolding remove_membership_in_transaction
    Removed-in_transaction h =
        let (target, s1, e1, h1) = bind-eq-ok _ _ s t m h in
        let (done, s2, e2, h2) = bind-eq-ok _ _ s1 t m h1 in
        let (updated, s3, e3, h3) = bind-eq-ok _ _ s2 t m h2 in
        let (done', s4, e4, h4) = bind-eq-ok _ _ s3 t m h3 in
        Removed-parts target updated s1 s2 s3 s4 e1 e2 e3 e4 h4

  pub remove_membership-Removed :
      (limiter : Option (Result (Unit {0}))) (s t : Session) (m : Membership)
      → remove_membership organisation_id actor_user_id audit_context membership_id reason limiter s
        ≡ (ok m, t)
      → Removed s.db t.db m
  unfolding remove_membership
  remove_membership-Removed limiter s t m h =
      let (done, s1, e1, h1) = bind-eq-ok _ _ s t m h in
      let same : s1 ≡ s = ground arith in
      let (u, e2, d, l) = join_or_begin-ok _ s1 m t h1 in
      let r : Removed s1.db u.db m = Removed-in_transaction limiter (opened s1) u m e2 in
      subst₂ (λ old new. Removed old new m) (ap (λ (x : Session). x.db) same) (sym d) r
