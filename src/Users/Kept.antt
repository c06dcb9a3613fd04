-- ===== src/Users/Kept.antt =====
-- What the projection of a token leaves alone.
use fastapi_saas_template.Prelude.{
  ◌≡◌, sym, ap, ◌∙◌, ℕ, Option, some, none, arith, Bool-cases, inl, inr,
}
use fastapi_saas_template.Errors.{Result, ok}
use fastapi_saas_template.Exec.{bind-eq-ok, ◌>>=◌}
use fastapi_saas_template.Session.{Db, Session}
use fastapi_saas_template.Session.Transactions.{on_integrity_error-ok, nested_or-ok}
use fastapi_saas_template.Models.User.{User, AuthenticatedPrincipal}
use fastapi_saas_template.Users.Writes.{create, update_profile_fields, flush}
use fastapi_saas_template.Users.Provisioning.{
  needs_update, refresh_current_user_profile, existing_or_conflict, create_or_refresh,
  get_or_create_current_user,
}

-- Only the table of users differs.
abbrev pub OnlyUsers : Db → Db → Type 0
OnlyUsers old new = new ≡ record old { users = new.users }

same-OnlyUsers : (old new : Db) → new ≡ old → OnlyUsers old new
same-OnlyUsers old new e = ground arith

module _ (s t : Session) (u : User) (identity : AuthenticatedPrincipal) where
  create-OnlyUsers : (id : ℕ) → create id identity s ≡ (ok u, t) → OnlyUsers s.db t.db
  unfolding create flush ◌>>=◌
  create-OnlyUsers id h = ground arith

  update-OnlyUsers :
      (x : User) → update_profile_fields x identity s ≡ (ok u, t) → OnlyUsers s.db t.db
  unfolding update_profile_fields flush ◌>>=◌
  update-OnlyUsers x h = ground arith

  existing-same : (x : Option User) → existing_or_conflict x s ≡ (ok u, t) → t.db ≡ s.db
  unfolding existing_or_conflict
  existing-same none h = absurd (cc)
  existing-same (some x) h = ground arith

  refresh-OnlyUsers :
      (x : User) → refresh_current_user_profile x identity s ≡ (ok u, t) → OnlyUsers s.db t.db
  unfolding refresh_current_user_profile
  refresh-OnlyUsers x h = elim (Bool-cases (needs_update x identity)) [
    | inl changed ↦ update-OnlyUsers x (on_integrity_error-ok _ _ s u t (rw changed at h))
    | inr same ↦
        same-OnlyUsers s.db t.db (sym (ap (λ (p : Result User × Session). p.1.db) (rw same at h)))
  ]

module _ (s t : Session) (u : User) (identity : AuthenticatedPrincipal) (id : ℕ) where
  create_or_refresh-OnlyUsers :
      (x : Option User) → create_or_refresh id identity x s ≡ (ok u, t) → OnlyUsers s.db t.db
  unfolding create_or_refresh
  create_or_refresh-OnlyUsers (some x) h = refresh-OnlyUsers s t u identity x h
  create_or_refresh-OnlyUsers none h = elim (nested_or-ok _ _ s u t h) [
    | inl created ↦ create-OnlyUsers s t u identity id created
    | inr (s1, same, handled) ↦
        let (x, s2, e2, h2) = bind-eq-ok _ _ s1 t u handled in
        let e : s2.db ≡ s1.db = ground arith in
        same-OnlyUsers s.db t.db (existing-same s2 t u identity x h2 ∙ (e ∙ same))
  ]

  -- Projecting a token writes the table of users at most.
  pub get_or_create-OnlyUsers :
      get_or_create_current_user id identity s ≡ (ok u, t) → OnlyUsers s.db t.db
  unfolding get_or_create_current_user
  get_or_create-OnlyUsers h =
      let (x, s1, e1, h1) = bind-eq-ok _ _ s t u h in
      let same : s1 ≡ s = ground arith in create_or_refresh-OnlyUsers x (rw same at h1)
