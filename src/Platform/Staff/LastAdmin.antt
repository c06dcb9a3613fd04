-- ===== src/Platform/Staff/LastAdmin.antt =====
-- There is always an active platform administrator.
use fastapi_saas_template.Prelude.{
  ℕ, ◌≤◌, true, false, not, ◌≡◌, sym, subst, refl, ◌⊎◌, inl, inr, none, some, Text, arith, List, [],
  ◌∷◌, ◌==◌, ◌&&◌, any, count, select, update_row, DistinctKeys, InTable, find_first-InTable,
  count-update_of, Bool-cases, if◌then◌else◌, DistinctKeys-update_row,
}
use fastapi_saas_template.Errors.{ok, conflict}
use fastapi_saas_template.Exec.{bind-eq-ok, pure, raise, ◌>>=◌, ◌>>◌}
use fastapi_saas_template.Session.{Db, Session, Tx, ask}
use fastapi_saas_template.Models.AuditEvent.{AuditContext, AuditEvent}
use fastapi_saas_template.Models.PlatformStaff.{
  PlatformStaffRole, PlatformStaff, active, suspended, key, is_active_admin, is_active,
  is_platform_admin,
}
use fastapi_saas_template.Audit.Events.{record_event, record_event-ok}
use fastapi_saas_template.Platform.Repository
use fastapi_saas_template.Platform.Repository.{lock_active_platform_admins, get_by_id}
use fastapi_saas_template.Platform.Access.{PlatformActor}
use fastapi_saas_template.Platform.Staff.{
  get_staff, has_another_active_admin, check_role_change, check_suspension, change_role,
  suspend_staff, suspend_active, restore_suspended,
}

abbrev pub admins : List PlatformStaff → ℕ
admins = count is_active_admin

-- Another active administrator than the one with the key `k` survives any write to that row.
other_admin_survives :
    (k : ℕ) (f : PlatformStaff → PlatformStaff) (xs : List PlatformStaff)
    → any (λ a. not (a.id == k)) (select is_active_admin xs) ≡ true
    → 1 ≤ admins (update_row key k f xs)
unfolding any select count update_row
other_admin_survives k f [] h = absurd (cc)
other_admin_survives k f (x ∷ xs) h = ground (arith, other_admin_survives k f xs)

-- Writing to a row that is an active administrator afterwards if it was one before.
admin_kept :
    (f : PlatformStaff → PlatformStaff) (xs : List PlatformStaff) (p : PlatformStaff)
    → DistinctKeys key xs
    → InTable p xs
    → (is_active_admin (f p) ≡ true) ⊎ (is_active_admin p ≡ false)
    → 1 ≤ admins xs
    → 1 ≤ admins (update_row key p.id f xs)
admin_kept f xs p d i keeps h =
    let c = count-update_of key is_active_admin f xs p d i in ground arith

pub get_staff-found :
    (staff_id : ℕ) (db : Db) (p : PlatformStaff)
    → get_staff staff_id db ≡ ok p
    → InTable p db.platform_staff
unfolding get_staff get_by_id
get_staff-found staff_id db p h =
    find_first-InTable (λ q. q.id == staff_id) db.platform_staff p (ground arith)

-- The primary keys are distinct, and some active record has the role `platform_admin`.
pub record HasAdmin (db : Db) : Type 0 where
  pub distinct : DistinctKeys key db.platform_staff
  pub some_admin : 1 ≤ admins db.platform_staff

role_change_guard :
    (actor : PlatformActor) (role : PlatformStaffRole) (p : PlatformStaff) (db : Db)
    → check_role_change actor role p db ≡ ok tt
    → (is_platform_admin p.role ≡ false)
      ⊎ ((is_platform_admin role && is_active p.status) ≡ true)
      ⊎ (has_another_active_admin p db ≡ true)
unfolding check_role_change
role_change_guard actor role p db h = ground arith

suspension_guard :
    (p : PlatformStaff) (db : Db)
    → check_suspension p db ≡ ok tt
    → (is_platform_admin p.role ≡ false) ⊎ (has_another_active_admin p db ≡ true)
unfolding check_suspension
suspension_guard p db h = ground arith

-- What is common to the writes: one row is rewritten, and an audit event added.
written :
    (f : PlatformStaff → PlatformStaff) (old new : Db) (p : PlatformStaff)
    → new.platform_staff ≡ update_row key p.id f old.platform_staff
    → ((x : PlatformStaff) → key (f x) ≡ key x)
    → 1 ≤ admins (update_row key p.id f old.platform_staff)
    → HasAdmin old
    → HasAdmin new
written f old new p e same one h = record {
  distinct =
      subst (DistinctKeys key) (sym e)
        (DistinctKeys-update_row key p.id f old.platform_staff same h.distinct);
  some_admin = subst (λ xs. 1 ≤ admins xs) (sym e) one;
}

abbrev role_written : PlatformStaffRole → PlatformStaff → PlatformStaff
role_written role x = record x { role = role }

role_change_keeps :
    (actor : PlatformActor) (role : PlatformStaffRole) (p : PlatformStaff) (old : Db)
    → InTable p old.platform_staff
    → check_role_change actor role p old ≡ ok tt
    → HasAdmin old
    → 1 ≤ admins (update_row key p.id (role_written role) old.platform_staff)
unfolding has_another_active_admin lock_active_platform_admins
role_change_keeps actor role p old i c h =
    let kept = admin_kept (role_written role) old.platform_staff p h.distinct i in
    elim (role_change_guard actor role p old c) [
      | inl plain ↦ kept (inr (ground arith)) h.some_admin
      | inr (inl promoted) ↦ kept (inl promoted) h.some_admin
      | inr (inr other) ↦ other_admin_survives p.id (role_written role) old.platform_staff other
    ]

abbrev suspended_from : ℕ → Text → PlatformStaff → PlatformStaff
suspended_from now reason x = record x {
  status = suspended;
  suspended_at = some now;
  suspended_reason = some reason;
}

abbrev restored_from : PlatformStaff → PlatformStaff
restored_from x = record x { status = active; suspended_at = none; suspended_reason = none }

suspension_keeps :
    (now : ℕ) (reason : Text) (p : PlatformStaff) (old : Db)
    → InTable p old.platform_staff
    → check_suspension p old ≡ ok tt
    → HasAdmin old
    → 1 ≤ admins (update_row key p.id (suspended_from now reason) old.platform_staff)
unfolding has_another_active_admin lock_active_platform_admins
suspension_keeps now reason p old i c h = elim (suspension_guard p old c) [
  | inl plain ↦
      admin_kept (suspended_from now reason) old.platform_staff p h.distinct i (inr (ground arith))
        h.some_admin
  | inr other ↦ other_admin_survives p.id (suspended_from now reason) old.platform_staff other
]

restored_or_no_admin :
    (p : PlatformStaff) → (is_active_admin (restored_from p) ≡ true) ⊎ (is_active_admin p ≡ false)
restored_or_no_admin p = elim (Bool-cases (is_platform_admin p.role)) [
  | inl e ↦ inl (ground arith)
  | inr e ↦ inr (ground arith)
]

-- The audit event that follows a write leaves the staff table as the write left it.
pub recorded-platform_staff :
    (write : Tx PlatformStaff) (ev : PlatformStaff → AuditEvent) (s t : Session) (m : PlatformStaff)
    → (do updated ← write; record_event (ev updated); pure updated) s ≡ (ok m, t)
    → (write s ≡ (ok m, (write s).1)) × (t.db.platform_staff ≡ (write s).1.db.platform_staff)
recorded-platform_staff write ev s t m h =
    let (updated, s1, e1, h1) = bind-eq-ok write _ s t m h in
    let (done, s2, e2, h2) = bind-eq-ok (record_event (ev updated)) _ s1 t m h1 in
    let recorded = record_event-ok (ev updated) s1 s2 e2 in (ground arith, ground arith)

module _ (reason : Text) (audit_context : AuditContext) (s t : Session) (m : PlatformStaff) where
  -- A role change that returns keeps an active administrator.
  pub change_role-HasAdmin :
      (staff_id : ℕ) (actor : PlatformActor) (role : PlatformStaffRole)
      → change_role reason audit_context staff_id actor role s ≡ (ok m, t)
      → HasAdmin s.db
      → HasAdmin t.db
  unfolding change_role
  change_role-HasAdmin staff_id actor role h inv =
      let (p, s1, e1, h1) = bind-eq-ok _ _ s t m h in
      let (done, s2, e2, h2) = bind-eq-ok _ _ s1 t m h1 in
      changed p s1 s2 e1 e2 (recorded-platform_staff _ _ s2 t m h2).1
    where
      changed :
          (p : PlatformStaff) (s1 s2 : Session)
          → ask (get_staff staff_id) s ≡ (ok p, s1)
          → ask (check_role_change actor role p) s1 ≡ (ok tt, s2)
          → t.db.platform_staff ≡ (Repository.update_role p role s2).1.db.platform_staff
          → HasAdmin t.db
      changed p s1 s2 e1 e2 e =
          written (role_written role) s.db t.db p (unfold Repository.update_role in ground arith)
            (λ x. refl)
            (role_change_keeps actor role p s.db (get_staff-found staff_id s.db p (ground arith))
              (ground arith) inv)
            inv

  suspend_active-HasAdmin :
      (now : ℕ) (p : PlatformStaff)
      → InTable p s.db.platform_staff
      → suspend_active reason audit_context now p s ≡ (ok m, t)
      → HasAdmin s.db
      → HasAdmin t.db
  unfolding suspend_active
  suspend_active-HasAdmin now p i h inv =
      let (done, s1, e1, h1) = bind-eq-ok _ _ s t m h in
      stopped s1 e1 (recorded-platform_staff _ _ s1 t m h1).1
    where
      stopped :
          (s1 : Session)
          → ask (check_suspension p) s ≡ (ok tt, s1)
          → t.db.platform_staff ≡ (Repository.suspend now p reason s1).1.db.platform_staff
          → HasAdmin t.db
      stopped s1 e1 e =
          written (suspended_from now reason) s.db t.db p
            (unfold Repository.suspend in ground arith) (λ x. refl)
            (suspension_keeps now reason p s.db i (ground arith) inv) inv

  pub restore_suspended-HasAdmin :
      (p : PlatformStaff)
      → InTable p s.db.platform_staff
      → restore_suspended reason audit_context p s ≡ (ok m, t)
      → HasAdmin s.db
      → HasAdmin t.db
  unfolding restore_suspended Repository.restore
  restore_suspended-HasAdmin p i h inv =
      written restored_from s.db t.db p (recorded-platform_staff _ _ s t m h).1 (λ x. refl)
        (admin_kept restored_from s.db.platform_staff p inv.distinct i (restored_or_no_admin p)
          inv.some_admin)
        inv

module _ (reason : Text) (audit_context : AuditContext) (s t : Session) (m : PlatformStaff) where
  -- A suspension that returns keeps an active administrator.
  pub suspend_staff-HasAdmin :
      (now staff_id : ℕ) (actor : PlatformActor)
      → suspend_staff reason audit_context now staff_id actor s ≡ (ok m, t)
      → HasAdmin s.db
      → HasAdmin t.db
  unfolding suspend_staff
  suspend_staff-HasAdmin now staff_id actor h inv =
      let (p, s1, e1, h1) = bind-eq-ok _ _ s t m h in branch p s1 e1 h1
    where
      branch :
          (p : PlatformStaff) (s1 : Session)
          → ask (get_staff staff_id) s ≡ (ok p, s1)
          → (if p.user_id == actor.user.id
                then raise (conflict "Cannot suspend own platform staff record")
                else if not (is_active p.status)
                then pure p
                else suspend_active reason audit_context now p)
              s1
            ≡ (ok m, t)
          → HasAdmin t.db
      branch p s1 e1 h1 =
          let same : s1 ≡ s = ground arith in
          let i = get_staff-found staff_id s.db p (ground arith) in
          elim (Bool-cases (p.user_id == actor.user.id)) [
            | inl own ↦ absurd (cc (rw own at h1))
            | inr other ↦ elim (Bool-cases (is_active p.status)) [
              | inl running ↦
                  suspend_active-HasAdmin reason audit_context s t m now p i
                    (rw same at (rw (other, running) at h1)) inv
              | inr idle ↦ subst (λ d. HasAdmin d) (ground arith) inv
            ]
          ]
