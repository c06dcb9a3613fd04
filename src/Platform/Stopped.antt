-- ===== src/Platform/Stopped.antt =====
-- What happens to the rows of the users after a suspension, from
-- backend/app/platform/services/platform_users.py and platform_staff.py, and from
-- backend/app/users/services/users.py.
use fastapi_saas_template.Prelude.{
  ℕ, true, false, ◌≡◌, refl, List, [], ◌∷◌, Option, some, none, ◌==◌, arith, Text, find_first,
  find_first-holds, update_row, AllRows, AllRows-append, inl, inr, Bool-cases,
}
use fastapi_saas_template.Errors.{
  Result, ok, err, invalid_request, integrity_error, bad_request, conflict, forbidden, not_found,
  value_error, too_many_requests,
}
use fastapi_saas_template.Session.{Db, Session, Tx, handle, nested_or}
use fastapi_saas_template.Session.Preserved.{
  Preserves, bind-Preserves, on_integrity_error-Preserves,
}
use fastapi_saas_template.Audit.Events.{record_event, record_event-cases}
use fastapi_saas_template.Models.AuditEvent.{AuditContext, AuditEvent}
use fastapi_saas_template.Models.User
use fastapi_saas_template.Models.User.{User, UserStatus, AuthenticatedPrincipal, active, suspended}
use fastapi_saas_template.Users
use fastapi_saas_template.Users.{get_user_by_id, get_current_user_by_external_auth_id}
use fastapi_saas_template.Users.Writes.{
  key, create, new_user, update_profile_fields, with_profile, set_status, with_status, flush,
}
use fastapi_saas_template.Users.Provisioning.{
  needs_update, refresh_current_user_profile, existing_or_conflict, create_or_refresh,
  get_or_create_current_user,
}
use fastapi_saas_template.Platform.Access.{PlatformActor}
use fastapi_saas_template.Platform.Users.{suspend_user, suspend_found, restore_user, restore_found}

-- Every row with the id is suspended.
abbrev pub StoppedAt : ℕ → User → Type 0
StoppedAt user_id u = (u.id == user_id) ≡ true → User.is_suspended u.status ≡ true

pub found_id :
    (k : ℕ) (u : User) (xs : List User) → find_first (λ w. w.id == k) xs ≡ some u → u.id ≡ k
found_id k u xs h = ground (arith, find_first-holds (λ w. w.id == k) xs u h)

AllRows-update_row :
    (P : User → Type 0) (k : ℕ) (f : User → User) (xs : List User)
    → ((x : User) → x.id ≡ k → P x → P (f x))
    → AllRows P xs
    → AllRows P (update_row key k f xs)
unfolding update_row
AllRows-update_row P k f [] h a = tt
AllRows-update_row P k f (x ∷ xs) h a =
    let rest = AllRows-update_row P k f xs h a.1 in
    elim (Bool-cases (x.id == k)) [
      | inl e ↦ rw e (h x (ground arith) a.0, rest)
      | inr e ↦ rw e (a.0, rest)
    ]

module _ (user_id : ℕ) where
  abbrev pub Stopped : Db → Type 0
  Stopped db = AllRows (StoppedAt user_id) db.users

  abbrev pub Keeps : {A : Type 0} → Tx A → Type 0
  Keeps m = Preserves Stopped m

  pub record_event-Keeps : (event : AuditEvent) → Keeps (record_event event)
  record_event-Keeps event s q = elim (record_event-cases event s) [
    | inl e ↦ rw e q
    | inr (x, e) ↦ rw e q
  ]

  nested_or-Keeps :
      {A : Type 0} (m handler : Tx A) → Keeps m → Keeps handler → Keeps (nested_or m handler)
  unfolding nested_or
  nested_or-Keeps {A} m handler k l s p = handled (m s).0 (m s).1 (k s p)
    where
      handled : (r : Result A) (u : Session) → Stopped u.db → Stopped (handle s.db handler r u).1.db
      handled (ok a) u q = q
      handled (err integrity_error) u q = l (record u { db = s.db }) p
      handled (err invalid_request) u q = p
      handled (err (bad_request x)) u q = p
      handled (err (conflict x)) u q = p
      handled (err (forbidden x)) u q = p
      handled (err (not_found x)) u q = p
      handled (err (value_error x)) u q = p
      handled (err (too_many_requests x)) u q = p

  create-Keeps :
      (id : ℕ) (identity : AuthenticatedPrincipal)
      → (id == user_id) ≡ false
      → Keeps (create id identity)
  unfolding create flush
  create-Keeps id identity other =
      bind-Preserves Stopped _ _
        (λ s q.
          AllRows-append (StoppedAt user_id) s.db.users (new_user id identity) q
            (λ e. absurd (cc (e, other))))
        (λ s v e. bind-Preserves Stopped _ _ (λ s' q. q) (λ s' w e' s'' q. q))

  update-Keeps :
      (x : User) (identity : AuthenticatedPrincipal) → Keeps (update_profile_fields x identity)
  unfolding update_profile_fields flush
  update-Keeps x identity =
      bind-Preserves Stopped _ _
        (λ s q.
          AllRows-update_row (StoppedAt user_id) x.id (with_profile identity) s.db.users
            (λ u i p. p) q)
        (λ s v e. bind-Preserves Stopped _ _ (λ s' q. q) (λ s' w e' s'' q. q))

  existing-Keeps : (x : Option User) → Keeps (existing_or_conflict x)
  unfolding existing_or_conflict
  existing-Keeps none s q = q
  existing-Keeps (some x) s q = q

  create_or_refresh-Keeps :
      (id : ℕ) (identity : AuthenticatedPrincipal) (x : Option User)
      → (id == user_id) ≡ false
      → Keeps (create_or_refresh id identity x)
  unfolding create_or_refresh refresh_current_user_profile
  create_or_refresh-Keeps id identity none other =
      nested_or-Keeps _ _ (create-Keeps id identity other)
        (bind-Preserves Stopped _ _ (λ s q. q) (λ s x e. existing-Keeps x))
  create_or_refresh-Keeps id identity (some x) other = elim (Bool-cases (needs_update x identity)) [
    | inl changed ↦ rw changed (on_integrity_error-Preserves Stopped _ _ (update-Keeps x identity))
    | inr same ↦ rw same (λ s q. q)
  ]

  -- A projection keeps the ids and the statuses, and gives a new row another id.
  pub projection-Keeps :
      (id : ℕ) (identity : AuthenticatedPrincipal)
      → (id == user_id) ≡ false
      → Keeps (get_or_create_current_user id identity)
  unfolding get_or_create_current_user
  projection-Keeps id identity other =
      bind-Preserves Stopped _ _ (λ s q. q) (λ s x e. create_or_refresh-Keeps id identity x other)

  set_status-Keeps :
      (user : User) (status : UserStatus) (at : Option ℕ) (why : Option Text)
      → ((user.id == user_id) ≡ true → User.is_suspended status ≡ true)
      → Keeps (set_status user status at why)
  unfolding set_status flush
  set_status-Keeps user status at why h =
      bind-Preserves Stopped _ _
        (λ s q.
          AllRows-update_row (StoppedAt user_id) user.id (with_status status at why) s.db.users
            (λ u i p e. h (rw (← i) e)) q)
        (λ s v e. bind-Preserves Stopped _ _ (λ s' q. q) (λ s' w e' s'' q. q))

  module _ (reason : Text) (audit_context : AuditContext) where
    pub suspend_user-Keeps :
        (now id : ℕ) (actor : PlatformActor)
        → Keeps (suspend_user reason audit_context now id actor)
    unfolding suspend_user suspend_found
    suspend_user-Keeps now id actor = elim (Bool-cases (actor.user.id == id)) [
      | inl own ↦ rw own (λ s q. q)
      | inr other ↦ rw other (
          bind-Preserves Stopped _ _ (λ s q. q)
            (λ s user e. elim (Bool-cases (User.is_suspended user.status)) [
              | inl already ↦ rw already (λ s' q. q)
              | inr running ↦ rw running (
                  bind-Preserves Stopped _ _
                    (set_status-Keeps user suspended (some now) (some reason) (λ i. refl))
                    (λ s' updated e'.
                      bind-Preserves Stopped _ _ (record_event-Keeps _) (λ s'' v e'' t q. q)))
            ]))
    ]

    pub restore_user-Keeps :
        (id : ℕ) → (id == user_id) ≡ false → Keeps (restore_user reason audit_context id)
    unfolding restore_user restore_found
    restore_user-Keeps id other =
        bind-Preserves Stopped _ _ (λ s q. q)
          (λ s user e. elim (Bool-cases (User.is_suspended user.status)) [
            | inr running ↦ rw running (λ s' q. q)
            | inl off ↦ rw off (
                bind-Preserves Stopped _ _
                  (set_status-Keeps user active none none (λ i. absurd (another s user e i)))
                  (λ s' updated e'.
                    bind-Preserves Stopped _ _ (record_event-Keeps _) (λ s'' v e'' t q. q)))
          ])
      where
        another :
            (s : Session) (user : User)
            → get_user_by_id id s.db ≡ ok user
            → (user.id == user_id) ≡ true
            → ⊥
        another s user e i =
            let found : find_first (λ w. w.id == id) s.db.users ≡ some user =
              unfold get_user_by_id Users.get_by_id Users.or_not_found in ground arith in
            let same = found_id id user s.db.users found in ground arith
