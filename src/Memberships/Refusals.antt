-- ===== src/Memberships/Refusals.antt =====
-- Membership operations that their guards or the rate limiter refuse.
use fastapi_saas_template.Prelude.{
  ℕ, suc, false, ◌≡◌, ◌⊎◌, inl, inr, refl, Option, some, Text, arith,
}
use fastapi_saas_template.Errors.{Error, Result, ok, err}
use fastapi_saas_template.Exec.{◌>>=◌}
use fastapi_saas_template.Session.{Session, join_or_begin, run_business_rate_limiter}
use fastapi_saas_template.Guards.{ensure_audit_actor_matches}
use fastapi_saas_template.Models.AuditEvent.{AuditContext}
use fastapi_saas_template.Models.Membership.{MembershipRole, Membership}
use fastapi_saas_template.Memberships.Authorised.{
  MayChangeRole, MayRemove, audit_actor, check_role_change-ok, check_removal-ok, MayRemove-passes,
  audit_actor-passes,
}
use fastapi_saas_template.Memberships.Checks.{check_role_change, check_removal}
use fastapi_saas_template.Memberships.{
  change_membership_role, change_membership_role_in_transaction, remove_membership,
  remove_membership_in_transaction,
}

module _ (organisation_id actor_user_id : ℕ) (audit_context : AuditContext) (membership_id : ℕ)
    (s : Session) where
  module _ (limiter : Option (Result (Unit {0}))) where
    check_role_change-raises :
        (role : MembershipRole) (e : Error)
        → s.in_transaction ≡ false
        → ensure_audit_actor_matches actor_user_id audit_context ≡ ok tt
        → check_role_change organisation_id actor_user_id membership_id role s.db ≡ err e
        → change_membership_role organisation_id actor_user_id audit_context membership_id role
            limiter s
          ≡ (err e, s)
    unfolding change_membership_role change_membership_role_in_transaction join_or_begin ◌>>=◌
    check_role_change-raises role e closed matches refused = ground arith

    role_change-audited :
        (role : MembershipRole) (e : Error)
        → ensure_audit_actor_matches actor_user_id audit_context ≡ err e
        → change_membership_role organisation_id actor_user_id audit_context membership_id role
            limiter s
          ≡ (err e, s)
    unfolding change_membership_role ◌>>=◌
    role_change-audited role e refused = ground arith

    -- Outside any transaction, unless the audit context is the actor's, the actor is an owner who is
    -- not suspended, of an organisation that is neither deleted nor suspended, and the membership is
    -- one of it, of a role that is neither owner nor the new one, which is not owner either, a role
    -- change raises and leaves the whole session as it was: no row, no audit event, and no call of
    -- the rate limiter.
    pub change_membership_role_refused :
        (role : MembershipRole)
        → s.in_transaction ≡ false
        → ((target : Membership)
            → audit_context.actor_user_id ≡ some actor_user_id
            → ¬ MayChangeRole organisation_id actor_user_id membership_id role s.db target)
        → (e : Error) × (change_membership_role organisation_id actor_user_id audit_context
              membership_id role limiter s
            ≡ (err e, s))
    change_membership_role_refused role closed nobody =
        audited (ensure_audit_actor_matches actor_user_id audit_context) refl
      where
        checked :
            (r : Result Membership)
            → check_role_change organisation_id actor_user_id membership_id role s.db ≡ r
            → ensure_audit_actor_matches actor_user_id audit_context ≡ ok tt
            → (e : Error) × (change_membership_role organisation_id actor_user_id audit_context
                  membership_id role limiter s
                ≡ (err e, s))
        checked (ok target) h matches = absurd (
            nobody target (audit_actor actor_user_id audit_context matches)
              (check_role_change-ok organisation_id actor_user_id membership_id role s.db target h))
        checked (err e) h matches = (e, check_role_change-raises role e closed matches h)

        audited :
            (r : Result (Unit {0}))
            → ensure_audit_actor_matches actor_user_id audit_context ≡ r
            → (e : Error) × (change_membership_role organisation_id actor_user_id audit_context
                  membership_id role limiter s
                ≡ (err e, s))
        audited (ok done) h =
            checked (check_role_change organisation_id actor_user_id membership_id role s.db) refl h
        audited (err e) h = (e, role_change-audited role e h)

  abbrev pub Permitted : Membership → Type 0
  Permitted target =
      (audit_context.actor_user_id ≡ some actor_user_id)
      × MayRemove organisation_id actor_user_id membership_id s.db target

  module _ (reason : Option Text) (e : Error) where
    abbrev limited : Result Membership × Session
    limited =
        remove_membership organisation_id actor_user_id audit_context membership_id reason
          (some (err e)) s

    check_removal-raises :
        (x : Error)
        → s.in_transaction ≡ false
        → ensure_audit_actor_matches actor_user_id audit_context ≡ ok tt
        → check_removal organisation_id actor_user_id membership_id s.db ≡ err x
        → limited ≡ (err x, s)
    unfolding remove_membership remove_membership_in_transaction join_or_begin ◌>>=◌
    check_removal-raises x closed matches refused = ground arith

    removal-audited :
        (x : Error)
        → ensure_audit_actor_matches actor_user_id audit_context ≡ err x
        → limited ≡ (err x, s)
    unfolding remove_membership ◌>>=◌
    removal-audited x refused = ground arith

    removal-limited :
        (target : Membership)
        → s.in_transaction ≡ false
        → ensure_audit_actor_matches actor_user_id audit_context ≡ ok tt
        → check_removal organisation_id actor_user_id membership_id s.db ≡ ok target
        → limited ≡ (err e, record s { limiter_calls = suc s.limiter_calls })
    unfolding remove_membership remove_membership_in_transaction join_or_begin ◌>>=◌
        run_business_rate_limiter
    removal-limited target closed matches passed = ground arith

    -- Outside any transaction, a removal with a rate limiter that refuses counts the call and raises
    -- the limiter's error when the removal is permitted: the audit context is the actor's, the actor
    -- is not suspended and belongs to the organisation, which is neither deleted nor suspended, the
    -- membership is one of it and not an owner's, and the actor is an owner, or an administrator who
    -- removes a plain member. Otherwise it raises without a call of the limiter. No table is written
    -- in either case.
    pub remove_membership_refused :
        s.in_transaction ≡ false
        → ((target : Membership) × Permitted target
            × (limited ≡ (err e, record s { limiter_calls = suc s.limiter_calls })))
          ⊎ (((target : Membership) → ¬ Permitted target) × (x : Error) × (limited ≡ (err x, s)))
    remove_membership_refused closed =
        audited (ensure_audit_actor_matches actor_user_id audit_context) refl
      where
        Outcome : Type 0
        Outcome =
            ((target : Membership) × Permitted target
              × (limited ≡ (err e, record s { limiter_calls = suc s.limiter_calls })))
            ⊎ (((target : Membership) → ¬ Permitted target) × (x : Error) × (limited ≡ (err x, s)))

        checked :
            (r : Result Membership)
            → check_removal organisation_id actor_user_id membership_id s.db ≡ r
            → ensure_audit_actor_matches actor_user_id audit_context ≡ ok tt
            → Outcome
        checked (ok target) h matches = inl (
          target,
          (
            audit_actor actor_user_id audit_context matches,
            check_removal-ok organisation_id actor_user_id membership_id s.db target h,
          ),
          removal-limited target closed matches h,
        )
        checked (err x) h matches = inr (
          (λ target p.
              let passes =
                MayRemove-passes organisation_id actor_user_id membership_id s.db target p.1 in
              cc (h, passes)),
          x,
          check_removal-raises x closed matches h,
        )

        audited :
            (r : Result (Unit {0}))
            → ensure_audit_actor_matches actor_user_id audit_context ≡ r
            → Outcome
        audited (ok done) h =
            checked (check_removal organisation_id actor_user_id membership_id s.db) refl h
        audited (err x) h = inr (
          (λ target p.
              let passes = audit_actor-passes actor_user_id audit_context p.0 in cc (h, passes)),
          x,
          removal-audited x h,
        )
