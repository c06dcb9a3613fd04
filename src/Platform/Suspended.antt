-- ===== src/Platform/Suspended.antt =====
-- A user whom the platform's staff suspended acts on the platform no more.
use fastapi_saas_template.Prelude.{
  ℕ, true, false, ◌≡◌, refl, sym, subst, ap, List, [], ◌∷◌, some, ◌==◌, arith, Text, find_first,
  find_first-InTable, find_first_unique, update_row, DistinctKeys, InTable, AllRows,
  AllRows-InTable, inl, inr, Bool-cases,
}
use fastapi_saas_template.Errors.{Result, ok, err}
use fastapi_saas_template.Exec.{bind-eq-ok, ◌>>=◌}
use fastapi_saas_template.Session.{Session}
use fastapi_saas_template.Users
use fastapi_saas_template.Users.{get_user_by_id, get_current_user_by_external_auth_id}
use fastapi_saas_template.Users.Writes.{key, set_status, with_status, flush}
use fastapi_saas_template.Audit.Events.{record_event-ok}
use fastapi_saas_template.Models.User
use fastapi_saas_template.Models.User.{User, AuthenticatedPrincipal, suspended}
use fastapi_saas_template.Models.AuditEvent.{AuditContext}
use fastapi_saas_template.Platform.Access.{PlatformActor, resolve_active_platform_actor, denied}
use fastapi_saas_template.Platform.Users.{suspend_user, suspend_found}
use fastapi_saas_template.Platform.Stopped.{StoppedAt, found_id}
use fastapi_saas_template.Platform.Histories.{PlatformHistory, PlatformHistory-Stopped}

module _ (user_id : ℕ) where
  update_row-StoppedAt :
      (now : ℕ) (reason : Text) (xs : List User)
      → AllRows
          (StoppedAt user_id)
          (update_row key user_id (with_status suspended (some now) (some reason)) xs)
  unfolding update_row
  update_row-StoppedAt now reason [] = tt
  update_row-StoppedAt now reason (x ∷ xs) =
      let rest = update_row-StoppedAt now reason xs in
      elim (Bool-cases (x.id == user_id)) [
        | inl e ↦ rw e ((λ h. refl), rest)
        | inr e ↦ rw e ((λ h. absurd (cc (h, e))), rest)
      ]

  -- In a table with distinct ids the row that was found is the only one.
  found-StoppedAt :
      (all xs : List User) (u : User)
      → DistinctKeys key all
      → find_first (λ w. w.id == user_id) all ≡ some u
      → User.is_suspended u.status ≡ true
      → ((w : User) → InTable w xs → InTable w all)
      → AllRows (StoppedAt user_id) xs
  found-StoppedAt all [] u d f h sub = tt
  found-StoppedAt all (x ∷ xs) u d f h sub = (
    (λ e.
        let same_id : x.id ≡ user_id = ground arith in
        let one : x ≡ u = find_first_unique key user_id all x u d (sub x (inl refl)) same_id f in
        rw one h),
    found-StoppedAt all xs u d f h (λ w i. sub w (inr i)),
  )

module _ (reason : Text) (audit_context : AuditContext) (now user_id : ℕ) (actor : PlatformActor)
    (s t : Session) (u : User) where
  set_status-users :
      (user m : User) (s1 : Session)
      → set_status user suspended (some now) (some reason) s ≡ (ok m, s1)
      → s1.db.users
        ≡ update_row key user.id (with_status suspended (some now) (some reason)) s.db.users
  unfolding set_status flush ◌>>=◌
  set_status-users user m s1 h = ground arith

  suspend_found-stopped :
      (user : User)
      → DistinctKeys key s.db.users
      → find_first (λ w. w.id == user_id) s.db.users ≡ some user
      → user.id ≡ user_id
      → suspend_found reason audit_context now user s ≡ (ok u, t)
      → AllRows (StoppedAt user_id) t.db.users
  unfolding suspend_found
  suspend_found-stopped user d f same_id h = elim (Bool-cases (User.is_suspended user.status)) [
    | inl already ↦
        let k : (ok user, s) ≡ (ok u, t) = rw already at h in
        let end : t.db.users ≡ s.db.users =
          sym (ap (λ (p : Result User × Session). p.1.db.users) k) in
        subst (AllRows (StoppedAt user_id)) (sym end)
          (found-StoppedAt user_id s.db.users s.db.users user d f already (λ w i. i))
    | inr active ↦
        let (m, s1, e1, h1) = bind-eq-ok _ _ s t u (rw active at h) in
        let (done, s2, e2, h2) = bind-eq-ok _ _ s1 t u h1 in
        let recorded = record_event-ok _ s1 s2 e2 in
        let written = set_status-users user m s1 e1 in
        let end : t.db.users ≡ s1.db.users = ground arith in
        rw (end, written, same_id) (update_row-StoppedAt user_id now reason s.db.users)
  ]

  user_found :
      (user : User)
      → get_user_by_id user_id s.db ≡ ok user
      → (find_first (λ w. w.id == user_id) s.db.users ≡ some user)
  unfolding get_user_by_id Users.get_by_id
  user_found user h = ground arith

  suspend_user-stopped :
      DistinctKeys key s.db.users
      → suspend_user reason audit_context now user_id actor s ≡ (ok u, t)
      → ((actor.user.id == user_id) ≡ false) × AllRows (StoppedAt user_id) t.db.users
  unfolding suspend_user
  suspend_user-stopped d h = elim (Bool-cases (actor.user.id == user_id)) [
    | inl own ↦ let k = rw own at h in absurd (cc k)
    | inr other ↦
        let (user, s1, e1, h1) = bind-eq-ok _ _ s t u (rw other at h) in
        let same : s1 ≡ s = ground arith in
        let found = user_found user (ground arith) in
        let same_id : user.id ≡ user_id = found_id user_id user s.db.users found in
        (other, suspend_found-stopped user d found same_id (rw same at h1))
  ]

  -- Where the users have distinct ids, suspending one by an actor of the platform, when it returns,
  -- was not a suspension of the actor's own account. After any history of projections of tokens,
  -- which draw another id for a new row, of suspensions, of restorations of other users and of
  -- commands on platform staff, each returning or raising, an identity that the table resolves to
  -- that user is refused as an actor of the platform, whatever staff record the user has.
  pub suspend_user-denied :
      DistinctKeys key s.db.users
      → suspend_user reason audit_context now user_id actor s ≡ (ok u, t)
      → (later : Session) → PlatformHistory user_id t later
      → (identity : AuthenticatedPrincipal) (v : User)
      → get_current_user_by_external_auth_id identity later.db ≡ some v
      → v.id ≡ user_id
      → ((actor.user.id == user_id) ≡ false)
        × (resolve_active_platform_actor identity later.db ≡ err denied)
  unfolding resolve_active_platform_actor get_current_user_by_external_auth_id
  suspend_user-denied d h later history identity v found same_id =
      let (other, stopped) = suspend_user-stopped d h in
      let still = PlatformHistory-Stopped user_id history stopped in
      let i = find_first-InTable _ later.db.users v found in
      let off : User.is_suspended v.status ≡ true =
        AllRows-InTable (StoppedAt user_id) later.db.users v still i (ground arith) in
      (other, rw (found, off) refl)
