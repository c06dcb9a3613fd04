-- ===== src/Session/Transactions.antt =====
-- What a transaction keeps and what it undoes.
use fastapi_saas_template.Prelude.{
  Bool, true, false, ◌≡◌, refl, ap, sym, ◌∙◌, Option, none, some, arith, ◌⊎◌, inl, inr,
}
use fastapi_saas_template.Errors.{
  Error, Result, ok, err, invalid_request, integrity_error, bad_request, conflict, forbidden,
  not_found, value_error, too_many_requests,
}
use fastapi_saas_template.Session.{
  Session, Tx, settle, begin, join_or_begin, on_integrity_error, handle, nested_or,
  run_business_rate_limiter,
}

abbrev pub opened : Session → Session
opened s = record s { in_transaction = true }

module _ {A : Type 0} where
  settle-ok :
      (old : Session) (p : Result A × Session) (a : A) (t : Session)
      → settle old.db p ≡ (ok a, t)
      → (u : Session) × (p ≡ (ok a, u)) × (t.db ≡ u.db) × (t.limiter_calls ≡ u.limiter_calls)
  settle-ok old (ok b, u) a t h = (u, cc, ground arith, ground arith)
  settle-ok old (err e, u) a t h = absurd (cc)

  settle-err :
      (old : Session) (p : Result A × Session) (e : Error) (t : Session)
      → settle old.db p ≡ (err e, t)
      → t.db ≡ old.db
  settle-err old (ok b, u) e t h = absurd (cc)
  settle-err old (err x, u) e t h = ground arith

  -- An operation that returned ran inside a transaction, and its writes stay.
  pub join_or_begin-ok :
      (m : Tx A) (s : Session) (a : A) (t : Session)
      → join_or_begin m s ≡ (ok a, t)
      → (u : Session) × (m (opened s) ≡ (ok a, u))
        × (t.db ≡ u.db)
        × (t.limiter_calls ≡ u.limiter_calls)
  unfolding join_or_begin
  join_or_begin-ok m s a t h = go s.in_transaction refl
    where
      go :
          (b : Bool)
          → s.in_transaction ≡ b
          → (u : Session) × (m (opened s) ≡ (ok a, u))
            × (t.db ≡ u.db)
            × (t.limiter_calls ≡ u.limiter_calls)
      go true e =
          let same : opened s ≡ s = λ i. record s { in_transaction = sym e i } in
          (t, ap m same ∙ (rw (e, join_or_begin) at h), refl, refl)
      go false e = settle-ok s (m (opened s)) a t (rw (e, join_or_begin) at h)

  -- An operation that raised outside any transaction has left the database as it was.
  pub join_or_begin-err :
      (m : Tx A) (s : Session) (e : Error) (t : Session)
      → s.in_transaction ≡ false
      → join_or_begin m s ≡ (err e, t)
      → t.db ≡ s.db
  unfolding join_or_begin
  join_or_begin-err m s e t closed h =
      settle-err s (m (opened s)) e t (rw (closed, join_or_begin) at h)

  pub begin-ok :
      (m : Tx A) (s : Session) (a : A) (t : Session)
      → begin m s ≡ (ok a, t)
      → (u : Session) × (m (opened s) ≡ (ok a, u))
        × (t.db ≡ u.db)
        × (t.limiter_calls ≡ u.limiter_calls)
  unfolding begin
  begin-ok m s a t h = go s.in_transaction refl
    where
      go :
          (b : Bool)
          → s.in_transaction ≡ b
          → (u : Session) × (m (opened s) ≡ (ok a, u))
            × (t.db ≡ u.db)
            × (t.limiter_calls ≡ u.limiter_calls)
      go true e =
          let k : (err invalid_request, s) ≡ (ok a, t) = (rw (e, begin) at h) in absurd (cc k)
      go false e = settle-ok s (m (opened s)) a t (rw (e, begin) at h)

  pub begin-err :
      (m : Tx A) (s : Session) (e : Error) (t : Session) → begin m s ≡ (err e, t) → t.db ≡ s.db
  unfolding begin
  begin-err m s e t h = go s.in_transaction refl
    where
      go : (b : Bool) → s.in_transaction ≡ b → t.db ≡ s.db
      go true b =
          let k : (err invalid_request, s) ≡ (err e, t) = (rw (b, begin) at h) in
          sym (ap (λ (p : Result A × Session). p.1.db) k)
      go false b = settle-err s (m (opened s)) e t (rw (b, begin) at h)

  pub on_integrity_error-ok :
      (e : Error) (m : Tx A) (s : Session) (a : A) (t : Session)
      → on_integrity_error e m s ≡ (ok a, t)
      → m s ≡ (ok a, t)
  unfolding on_integrity_error
  on_integrity_error-ok e m s a t h = ground arith

  -- The body of a savepoint returned, or its handler did, on the database of the start.
  pub nested_or-ok :
      (m handler : Tx A) (s : Session) (a : A) (t : Session)
      → nested_or m handler s ≡ (ok a, t)
      → (m s ≡ (ok a, t)) ⊎ ((u : Session) × (u.db ≡ s.db) × (handler u ≡ (ok a, t)))
  unfolding nested_or
  nested_or-ok m handler s a t h = split (m s).0 (m s).1 refl h
    where
      split :
          (r : Result A) (u : Session)
          → m s ≡ (r, u)
          → handle s.db handler r u ≡ (ok a, t)
          → (m s ≡ (ok a, t)) ⊎ ((u' : Session) × (u'.db ≡ s.db) × (handler u' ≡ (ok a, t)))
      split (ok b) u e k = inl (e ∙ k)
      split (err integrity_error) u e k = inr (record u { db = s.db }, refl, k)
      split (err invalid_request) u e k = absurd (cc k)
      split (err (bad_request x)) u e k = absurd (cc k)
      split (err (conflict x)) u e k = absurd (cc k)
      split (err (forbidden x)) u e k = absurd (cc k)
      split (err (not_found x)) u e k = absurd (cc k)
      split (err (value_error x)) u e k = absurd (cc k)
      split (err (too_many_requests x)) u e k = absurd (cc k)

-- A limiter writes no table.
pub run_business_rate_limiter-db :
    (limiter : Option (Result (Unit {0}))) (s : Session) (t : Session) (r : Result (Unit {0}))
    → run_business_rate_limiter limiter s ≡ (r, t)
    → t.db ≡ s.db
unfolding run_business_rate_limiter
run_business_rate_limiter-db none s t r h = ground arith
run_business_rate_limiter-db (some o) s t r h = ground arith
