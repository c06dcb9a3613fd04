-- ===== src/Platform/Staff/Histories.antt =====
-- Every history of the staff commands keeps an active platform administrator.
use fastapi_saas_template.Prelude.{
  ℕ, ◌≤◌, false, ◌≡◌, sym, subst, some, Text, arith, [], ◌∷◌, ◌++◌, has_key, DistinctKeys,
  DistinctKeys-append, count-append, Bool-cases, inl, inr, if◌then◌else◌,
}
use fastapi_saas_template.Errors.{ok}
use fastapi_saas_template.Exec.{bind-eq-ok, pure}
use fastapi_saas_template.Session.{Session, ask}
use fastapi_saas_template.Users
use fastapi_saas_template.Models.AuditEvent.{AuditContext}
use fastapi_saas_template.Models.PlatformStaff.{
  PlatformStaffRole, PlatformStaff, key, is_active_admin, is_active,
}
use fastapi_saas_template.Platform.Repository
use fastapi_saas_template.Platform.Repository.{new_staff}
use fastapi_saas_template.Platform.Access.{PlatformActor}
use fastapi_saas_template.Platform.Staff.{
  get_staff, check_creation, change_role, create_staff, suspend_staff, restore_staff,
  restore_suspended,
}
use fastapi_saas_template.Platform.Staff.LastAdmin.{
  HasAdmin, admins, get_staff-found, restore_suspended-HasAdmin, change_role-HasAdmin,
  suspend_staff-HasAdmin, recorded-platform_staff,
}

module _ (reason : Text) (audit_context : AuditContext) (s t : Session) (m : PlatformStaff) where
  restore_staff-HasAdmin :
      (staff_id : ℕ)
      → restore_staff reason audit_context staff_id s ≡ (ok m, t)
      → HasAdmin s.db
      → HasAdmin t.db
  unfolding restore_staff
  restore_staff-HasAdmin staff_id h inv =
      let (p, s1, e1, h1) = bind-eq-ok _ _ s t m h in branch p s1 e1 h1
    where
      branch :
          (p : PlatformStaff) (s1 : Session)
          → ask (get_staff staff_id) s ≡ (ok p, s1)
          → (if is_active p.status then pure p else restore_suspended reason audit_context p) s1
            ≡ (ok m, t)
          → HasAdmin t.db
      branch p s1 e1 h1 =
          let same : s1 ≡ s = ground arith in
          elim (Bool-cases (is_active p.status)) [
            | inl running ↦ subst (λ d. HasAdmin d) (ground arith) inv
            | inr stopped ↦
                restore_suspended-HasAdmin reason audit_context s t m p
                  (get_staff-found staff_id s.db p (ground arith)) (rw same at (rw stopped at h1))
                  inv
          ]

  create_staff-HasAdmin :
      (id : ℕ) (actor : PlatformActor) (user_id : ℕ) (role : PlatformStaffRole)
      → create_staff reason audit_context id actor user_id role s ≡ (ok m, t)
      → has_key key id s.db.platform_staff ≡ false
      → HasAdmin s.db
      → HasAdmin t.db
  unfolding create_staff
  create_staff-HasAdmin id actor user_id role h fresh inv =
      let (done, s1, e1, h1) = bind-eq-ok _ _ s t m h in
      added s1 e1 (recorded-platform_staff _ _ s1 t m h1).1
    where
      p : PlatformStaff
      p = new_staff id user_id role (some actor.user.id)

      added :
          (s1 : Session)
          → ask
              (λ db.
                check_creation (Users.get_by_id user_id db) (Repository.get_by_user_id user_id db))
              s
            ≡ (ok tt, s1)
          → t.db.platform_staff
            ≡ (Repository.create_staff id user_id role (some actor.user.id) s1).1.db.platform_staff
          → HasAdmin t.db
      added s1 e1 e =
          let now : t.db.platform_staff ≡ s.db.platform_staff ++ p ∷ [] =
            unfold Repository.create_staff in ground arith in
          let c = count-append is_active_admin s.db.platform_staff (p ∷ []) in
          record {
            distinct =
                subst (DistinctKeys key) (sym now)
                  (DistinctKeys-append key s.db.platform_staff p fresh inv.distinct);
            some_admin = subst (λ xs. 1 ≤ admins xs) (sym now) (omega (arith, c, inv.some_admin));
          }

-- A staff command that returned, whoever ran it. A creation draws a primary key not in use.
pub data StaffStep (s t : Session) : Type 0 where
  created :
      (reason : Text) (audit_context : AuditContext) (id : ℕ) (actor : PlatformActor) (user_id : ℕ)
      (role : PlatformStaffRole) (m : PlatformStaff)
      → has_key key id s.db.platform_staff ≡ false
      → create_staff reason audit_context id actor user_id role s ≡ (ok m, t)
      → StaffStep s t
  role_changed :
      (reason : Text) (audit_context : AuditContext) (staff_id : ℕ) (actor : PlatformActor)
      (role : PlatformStaffRole) (m : PlatformStaff)
      → change_role reason audit_context staff_id actor role s ≡ (ok m, t)
      → StaffStep s t
  stopped :
      (reason : Text) (audit_context : AuditContext) (now staff_id : ℕ) (actor : PlatformActor)
      (m : PlatformStaff)
      → suspend_staff reason audit_context now staff_id actor s ≡ (ok m, t)
      → StaffStep s t
  restored :
      (reason : Text) (audit_context : AuditContext) (staff_id : ℕ) (m : PlatformStaff)
      → restore_staff reason audit_context staff_id s ≡ (ok m, t)
      → StaffStep s t

-- A sequence of commands that returned; one that raises is rolled back and leaves no step.
pub data StaffHistory (s : Session) : Session → Type 0 where
  here : StaffHistory s s
  next : {t u : Session} → StaffHistory s t → StaffStep t u → StaffHistory s u

StaffStep-HasAdmin : {s t : Session} → StaffStep s t → HasAdmin s.db → HasAdmin t.db
StaffStep-HasAdmin {s = s} {t = t} (created reason c id actor user_id role m fresh h) inv =
    create_staff-HasAdmin reason c s t m id actor user_id role h fresh inv
StaffStep-HasAdmin {s = s} {t = t} (role_changed reason c staff_id actor role m h) inv =
    change_role-HasAdmin reason c s t m staff_id actor role h inv
StaffStep-HasAdmin {s = s} {t = t} (stopped reason c now staff_id actor m h) inv =
    suspend_staff-HasAdmin reason c s t m now staff_id actor h inv
StaffStep-HasAdmin {s = s} {t = t} (restored reason c staff_id m h) inv =
    restore_staff-HasAdmin reason c s t m staff_id h inv

-- From a table with distinct primary keys and an active platform administrator, no sequence of
-- creations, role changes, suspensions and restorations of platform staff leaves the platform
-- without an active administrator.
pub StaffHistory-HasAdmin : {s t : Session} → StaffHistory s t → HasAdmin s.db → HasAdmin t.db
StaffHistory-HasAdmin here inv = inv
StaffHistory-HasAdmin (next r st) inv = StaffStep-HasAdmin st (StaffHistory-HasAdmin r inv)
