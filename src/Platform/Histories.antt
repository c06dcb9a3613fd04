-- ===== src/Platform/Histories.antt =====
-- Histories of the platform after the suspension of a user: projections of tokens, suspensions and
-- restorations of accounts, and the commands on platform staff.
use fastapi_saas_template.Prelude.{ℕ, false, ◌≡◌, subst, Text, ◌==◌, inl, inr, Bool-cases}
use fastapi_saas_template.Errors.{Result}
use fastapi_saas_template.Session.{Session}
use fastapi_saas_template.Session.Preserved.{bind-Preserves}
use fastapi_saas_template.Models.AuditEvent.{AuditContext}
use fastapi_saas_template.Models.User.{User, AuthenticatedPrincipal}
use fastapi_saas_template.Models.PlatformStaff.{PlatformStaff, PlatformStaffRole, is_active}
use fastapi_saas_template.Users.Provisioning.{get_or_create_current_user}
use fastapi_saas_template.Platform.Access.{PlatformActor}
use fastapi_saas_template.Platform.Repository
use fastapi_saas_template.Platform.Users.{suspend_user, restore_user}
use fastapi_saas_template.Platform.Staff.{
  create_staff, change_role, suspend_active, suspend_staff, restore_suspended, restore_staff,
}
use fastapi_saas_template.Platform.Stopped.{
  Stopped, Keeps, record_event-Keeps, projection-Keeps, suspend_user-Keeps, restore_user-Keeps,
}

-- A call that returned or raised and is no restoration of the user with this id. A projection draws
-- a primary key not in use.
pub data PlatformStep (user_id : ℕ) (s t : Session) : Type 0 where
  projected :
      (id : ℕ) (identity : AuthenticatedPrincipal) (r : Result User)
      → (id == user_id) ≡ false
      → get_or_create_current_user id identity s ≡ (r, t)
      → PlatformStep user_id s t
  suspended :
      (reason : Text) (audit_context : AuditContext) (now id : ℕ) (actor : PlatformActor)
      (r : Result User)
      → suspend_user reason audit_context now id actor s ≡ (r, t)
      → PlatformStep user_id s t
  restored :
      (reason : Text) (audit_context : AuditContext) (id : ℕ) (r : Result User)
      → (id == user_id) ≡ false
      → restore_user reason audit_context id s ≡ (r, t)
      → PlatformStep user_id s t
  staff_created :
      (reason : Text) (audit_context : AuditContext) (id : ℕ) (actor : PlatformActor)
      (staff_user : ℕ) (role : PlatformStaffRole) (r : Result PlatformStaff)
      → create_staff reason audit_context id actor staff_user role s ≡ (r, t)
      → PlatformStep user_id s t
  role_changed :
      (reason : Text) (audit_context : AuditContext) (staff_id : ℕ) (actor : PlatformActor)
      (role : PlatformStaffRole) (r : Result PlatformStaff)
      → change_role reason audit_context staff_id actor role s ≡ (r, t)
      → PlatformStep user_id s t
  staff_suspended :
      (reason : Text) (audit_context : AuditContext) (now staff_id : ℕ) (actor : PlatformActor)
      (r : Result PlatformStaff)
      → suspend_staff reason audit_context now staff_id actor s ≡ (r, t)
      → PlatformStep user_id s t
  staff_restored :
      (reason : Text) (audit_context : AuditContext) (staff_id : ℕ) (r : Result PlatformStaff)
      → restore_staff reason audit_context staff_id s ≡ (r, t)
      → PlatformStep user_id s t

pub data PlatformHistory (user_id : ℕ) (s : Session) : Session → Type 0 where
  here : PlatformHistory user_id s s
  next :
      {t u : Session}
      → PlatformHistory user_id s t
      → PlatformStep user_id t u
      → PlatformHistory user_id s u

module _ (user_id : ℕ) (reason : Text) (audit_context : AuditContext) where
  create_staff-Keeps :
      (id : ℕ) (actor : PlatformActor) (staff_user : ℕ) (role : PlatformStaffRole)
      → Keeps user_id (create_staff reason audit_context id actor staff_user role)
  unfolding create_staff Repository.create_staff
  create_staff-Keeps id actor staff_user role =
      bind-Preserves (Stopped user_id) _ _ (λ s q. q)
        (λ s v e.
          bind-Preserves (Stopped user_id) _ _ (λ s' q. q)
            (λ s' staff e'.
              bind-Preserves (Stopped user_id) _ _ (record_event-Keeps user_id _)
                (λ s'' w e'' t q. q)))

  change_role-Keeps :
      (staff_id : ℕ) (actor : PlatformActor) (role : PlatformStaffRole)
      → Keeps user_id (change_role reason audit_context staff_id actor role)
  unfolding change_role Repository.update_role
  change_role-Keeps staff_id actor role =
      bind-Preserves (Stopped user_id) _ _ (λ s q. q)
        (λ s staff e.
          bind-Preserves (Stopped user_id) _ _ (λ s' q. q)
            (λ s' v e'.
              bind-Preserves (Stopped user_id) _ _ (λ s'' q. q)
                (λ s'' updated e''.
                  bind-Preserves (Stopped user_id) _ _ (record_event-Keeps user_id _)
                    (λ s3 w e3 t q. q))))

  suspend_active-Keeps :
      (now : ℕ) (staff : PlatformStaff)
      → Keeps user_id (suspend_active reason audit_context now staff)
  unfolding suspend_active Repository.suspend
  suspend_active-Keeps now staff =
      bind-Preserves (Stopped user_id) _ _ (λ s q. q)
        (λ s v e.
          bind-Preserves (Stopped user_id) _ _ (λ s' q. q)
            (λ s' stopped e'.
              bind-Preserves (Stopped user_id) _ _ (record_event-Keeps user_id _)
                (λ s'' w e'' t q. q)))

  suspend_staff-Keeps :
      (now staff_id : ℕ) (actor : PlatformActor)
      → Keeps user_id (suspend_staff reason audit_context now staff_id actor)
  unfolding suspend_staff
  suspend_staff-Keeps now staff_id actor =
      bind-Preserves (Stopped user_id) _ _ (λ s q. q)
        (λ s staff e. elim (Bool-cases (staff.user_id == actor.user.id)) [
          | inl own ↦ rw own (λ s' q. q)
          | inr other ↦ elim (Bool-cases (is_active staff.status)) [
            | inl running ↦ rw (other, running) (suspend_active-Keeps now staff)
            | inr off ↦ rw (other, off) (λ s' q. q)
          ]
        ])

  restore_staff-Keeps : (staff_id : ℕ) → Keeps user_id (restore_staff reason audit_context staff_id)
  unfolding restore_staff restore_suspended Repository.restore
  restore_staff-Keeps staff_id =
      bind-Preserves (Stopped user_id) _ _ (λ s q. q)
        (λ s staff e. elim (Bool-cases (is_active staff.status)) [
          | inl running ↦ rw running (λ s' q. q)
          | inr off ↦ rw off (
              bind-Preserves (Stopped user_id) _ _ (λ s' q. q)
                (λ s' updated e'.
                  bind-Preserves (Stopped user_id) _ _ (record_event-Keeps user_id _)
                    (λ s'' w e'' t q. q)))
        ])

ended :
    {A : Type 0} (user_id : ℕ) {t : Session} {p : Result A × Session} {r : Result A}
    → Stopped user_id p.1.db
    → p ≡ (r, t)
    → Stopped user_id t.db
ended {A} user_id k e = subst (λ (q : Result A × Session). Stopped user_id q.1.db) e k

PlatformStep-Stopped :
    (user_id : ℕ) {s t : Session}
    → PlatformStep user_id s t
    → Stopped user_id s.db
    → Stopped user_id t.db
PlatformStep-Stopped k {s} (projected id identity r other e) q =
    ended k (projection-Keeps k id identity other s q) e
PlatformStep-Stopped k {s} (suspended reason c now id actor r e) q =
    ended k (suspend_user-Keeps k reason c now id actor s q) e
PlatformStep-Stopped k {s} (restored reason c id r other e) q =
    ended k (restore_user-Keeps k reason c id other s q) e
PlatformStep-Stopped k {s} (staff_created reason c id actor staff_user role r e) q =
    ended k (create_staff-Keeps k reason c id actor staff_user role s q) e
PlatformStep-Stopped k {s} (role_changed reason c staff_id actor role r e) q =
    ended k (change_role-Keeps k reason c staff_id actor role s q) e
PlatformStep-Stopped k {s} (staff_suspended reason c now staff_id actor r e) q =
    ended k (suspend_staff-Keeps k reason c now staff_id actor s q) e
PlatformStep-Stopped k {s} (staff_restored reason c staff_id r e) q =
    ended k (restore_staff-Keeps k reason c staff_id s q) e

-- A suspended user stays so in each history without a restoration.
pub PlatformHistory-Stopped :
    (user_id : ℕ) {s t : Session}
    → PlatformHistory user_id s t
    → Stopped user_id s.db
    → Stopped user_id t.db
PlatformHistory-Stopped k here q = q
PlatformHistory-Stopped k (next r st) q = PlatformStep-Stopped k st (PlatformHistory-Stopped k r q)
