-- ===== src/Platform/Repository.antt =====
-- backend/app/platform/repositories/platform_staff.py
-- Only a creation can meet the unique index on `user_id`: the other writes leave that column alone.
use fastapi_saas_template.Prelude.{
  ℕ, List, [], ◌∷◌, ◌++◌, Option, none, some, ◌==◌, find_first, select, any, update_row, Text,
  if◌then◌else◌,
}
use fastapi_saas_template.Errors.{ok, err, integrity_error}
use fastapi_saas_template.Session.{Db, Session, Tx}
use fastapi_saas_template.Models.PlatformStaff.{
  PlatformStaffRole, PlatformStaff, active, suspended, key, is_active_admin,
}

unfoldable pub get_by_user_id : ℕ → Db → Option PlatformStaff
get_by_user_id user_id db = find_first (λ p. p.user_id == user_id) db.platform_staff

unfoldable pub get_by_id : ℕ → Db → Option PlatformStaff
get_by_id staff_id db = find_first (λ p. p.id == staff_id) db.platform_staff

-- The row locks of `FOR UPDATE` are not modelled.
unfoldable pub lock_active_platform_admins : Db → List PlatformStaff
lock_active_platform_admins db = select is_active_admin db.platform_staff

abbrev pub set_staff : List PlatformStaff → Session → Session
set_staff staff s = record s { db = record s.db { platform_staff = staff } }

abbrev pub new_staff : ℕ → ℕ → PlatformStaffRole → Option ℕ → PlatformStaff
new_staff id user_id role created_by_user_id = record {
  id = id;
  user_id = user_id;
  role = role;
  status = active;
  created_by_user_id = created_by_user_id;
  suspended_at = none;
  suspended_reason = none;
}

unfoldable pub create_staff : ℕ → ℕ → PlatformStaffRole → Option ℕ → Tx PlatformStaff
create_staff id user_id role created_by_user_id s =
    let staff = new_staff id user_id role created_by_user_id in
    (
      if any (λ p. p.user_id == user_id) s.db.platform_staff then err integrity_error else ok staff,
      set_staff (s.db.platform_staff ++ staff ∷ []) s,
    )

-- Writes one row through its primary key, and returns it.
write_row : PlatformStaff → (PlatformStaff → PlatformStaff) → Tx PlatformStaff
write_row staff f s = (ok (f staff), set_staff (update_row key staff.id f s.db.platform_staff) s)

unfoldable pub update_role : PlatformStaff → PlatformStaffRole → Tx PlatformStaff
unfolding write_row
update_role staff role = write_row staff (λ p. record p { role = role })

abbrev pub suspended_row : ℕ → Text → PlatformStaff → PlatformStaff
suspended_row now reason p = record p {
  status = suspended;
  suspended_at = some now;
  suspended_reason = some reason;
}

unfoldable pub suspend : ℕ → PlatformStaff → Text → Tx PlatformStaff
unfolding write_row
suspend now staff reason = write_row staff (suspended_row now reason)

unfoldable pub restore : PlatformStaff → Tx PlatformStaff
unfolding write_row
restore staff =
    write_row staff
      (λ p. record p { status = active; suspended_at = none; suspended_reason = none })
