-- ===== src/Users/Projected.antt =====
-- Whom a token stands for, once it was projected on the table of users.
use fastapi_saas_template.Prelude.{
  ℕ, Bool, true, ◌≡◌, ap, ◌∙◌, List, [], ◌∷◌, ◌++◌, Option, some, none, arith, ◌==◌, find_first,
  update_row, text_eq, text_eq_refl, Bool-cases, inl, inr,
}
use fastapi_saas_template.Errors.{Result, ok}
use fastapi_saas_template.Exec.{bind-eq-ok, ◌>>=◌}
use fastapi_saas_template.Session.{Session}
use fastapi_saas_template.Session.Transactions.{on_integrity_error-ok, nested_or-ok}
use fastapi_saas_template.Models.User.{User, AuthenticatedPrincipal}
use fastapi_saas_template.Users.{get_current_user_by_external_auth_id}
use fastapi_saas_template.Users.Writes.{
  key, create, new_user, update_profile_fields, with_profile, flush,
}
use fastapi_saas_template.Users.Provisioning.{
  needs_update, refresh_current_user_profile, existing_or_conflict, create_or_refresh,
  get_or_create_current_user,
}

module _ (identity : AuthenticatedPrincipal) where
  abbrev has_token : User → Bool
  has_token u = text_eq u.external_auth_id identity.external_auth_id

  -- The first row of the token is still the first one, with the profile of the token.
  update_row-first :
      (xs : List User) (x : User)
      → find_first has_token xs ≡ some x
      → find_first has_token (update_row key x.id (with_profile identity) xs)
        ≡ some (with_profile identity x)
  unfolding find_first update_row
  update_row-first [] x h = absurd (cc h)
  update_row-first (y ∷ ys) x h = elim (Bool-cases (has_token y)) [
    | inl first ↦
        let same : y ≡ x = ground arith in
        let here : (y.id == x.id) ≡ true = ground arith in ground arith
    | inr later ↦
        let rest = update_row-first ys x (ground arith) in
        elim (Bool-cases (y.id == x.id)) [ inl e ↦ ground arith | inr e ↦ ground arith ]
  ]

  append-first :
      (xs : List User) (n : User)
      → find_first has_token xs ≡ none
      → has_token n ≡ true
      → find_first has_token (xs ++ n ∷ []) ≡ some n
  unfolding find_first
  append-first [] n h e = ground arith
  append-first (x ∷ xs) n h e = let rest = append-first xs n (ground arith) e in ground arith

  existing-found :
      (s t : Session) (u : User) (x : Option User)
      → existing_or_conflict x s ≡ (ok u, t)
      → x ≡ some u
  unfolding existing_or_conflict
  existing-found s t u none h = absurd (cc)
  existing-found s t u (some x) h = ground arith

  module _ (s t : Session) (u : User) where
    create-found :
        (id : ℕ)
        → get_current_user_by_external_auth_id identity s.db ≡ none
        → create id identity s ≡ (ok u, t)
        → get_current_user_by_external_auth_id identity t.db ≡ some u
    unfolding create flush ◌>>=◌ get_current_user_by_external_auth_id
    create-found id none_yet h =
        let self_eq = text_eq_refl identity.external_auth_id in
        let added = append-first s.db.users (new_user id identity) none_yet self_eq in
        let stored : t.db.users ≡ s.db.users ++ new_user id identity ∷ [] = ground arith in
        let same : new_user id identity ≡ u = ground arith in rw stored (added ∙ ap some same)

    update-found :
        (x : User)
        → get_current_user_by_external_auth_id identity s.db ≡ some x
        → update_profile_fields x identity s ≡ (ok u, t)
        → get_current_user_by_external_auth_id identity t.db ≡ some u
    unfolding update_profile_fields flush ◌>>=◌ get_current_user_by_external_auth_id
    update-found x found h =
        let kept = update_row-first s.db.users x found in
        let stored : t.db.users ≡ update_row key x.id (with_profile identity) s.db.users =
          ground arith in
        let same : with_profile identity x ≡ u = ground arith in rw stored (kept ∙ ap some same)

    refresh-found :
        (x : User)
        → get_current_user_by_external_auth_id identity s.db ≡ some x
        → refresh_current_user_profile x identity s ≡ (ok u, t)
        → get_current_user_by_external_auth_id identity t.db ≡ some u
    unfolding refresh_current_user_profile
    refresh-found x found h = elim (Bool-cases (needs_update x identity)) [
      | inl changed ↦ update-found x found (on_integrity_error-ok _ _ s u t (rw changed at h))
      | inr same ↦
          let k : (ok x, s) ≡ (ok u, t) = rw same at h in
          let one : x ≡ u = cc (ap (λ (p : Result User × Session). p.0) k) in
          let end : s ≡ t = ap (λ (p : Result User × Session). p.1) k in
          rw (← end) (found ∙ ap some one)
    ]

    create_or_refresh-found :
        (id : ℕ) (x : Option User)
        → get_current_user_by_external_auth_id identity s.db ≡ x
        → create_or_refresh id identity x s ≡ (ok u, t)
        → get_current_user_by_external_auth_id identity t.db ≡ some u
    unfolding create_or_refresh
    create_or_refresh-found id (some x) found h = refresh-found x found h
    create_or_refresh-found id none absent h = elim (nested_or-ok _ _ s u t h) [
      | inl created ↦ create-found id absent created
      | inr (s1, same, handled) ↦
          let (y, s2, e2, h2) = bind-eq-ok _ _ s1 t u handled in
          handled_absent absent s1 same y s2 e2 h2
    ]
      where
        handled_absent :
            get_current_user_by_external_auth_id identity s.db ≡ none
            → (s1 : Session) → s1.db ≡ s.db
            → (y : Option User) (s2 : Session)
            → ◌≡◌ {A = Result (Option User) × Session}
                (ok (get_current_user_by_external_auth_id identity s1.db), s1)
                (ok y, s2)
            → existing_or_conflict y s2 ≡ (ok u, t)
            → get_current_user_by_external_auth_id identity t.db ≡ some u
        handled_absent absent s1 same y s2 e2 h2 =
            let read : get_current_user_by_external_auth_id identity s1.db ≡ y =
              cc (ap (λ (p : Result (Option User) × Session). p.0) e2) in
            let again : get_current_user_by_external_auth_id identity s1.db ≡ none =
              ap (get_current_user_by_external_auth_id identity) same ∙ absent in
            let found = existing-found s2 t u y h2 in absurd (cc (read, again, found))

  -- A token that was projected is found again, as the user that was returned.
  pub get_or_create-found :
      (s t : Session) (u : User) (id : ℕ)
      → get_or_create_current_user id identity s ≡ (ok u, t)
      → get_current_user_by_external_auth_id identity t.db ≡ some u
  unfolding get_or_create_current_user
  get_or_create-found s t u id h =
      let (x, s1, e1, h1) = bind-eq-ok _ _ s t u h in
      let same : s1 ≡ s = ground arith in
      create_or_refresh-found s t u id x (ground arith) (rw same at h1)
