-- ===== src/Session/Preserved.antt =====
-- Invariants of the database that an action keeps, whether it returns or raises.
use fastapi_saas_template.Prelude.{Bool, true, false, ◌≡◌, refl, Option, none, some}
use fastapi_saas_template.Errors.{
  Error, Result, ok, err, invalid_request, integrity_error, bad_request, conflict, forbidden,
  not_found, value_error, too_many_requests,
}
use fastapi_saas_template.Exec.{continue, ◌>>=◌}
use fastapi_saas_template.Session.{
  Db, Session, Tx, settle, join_or_begin, on_integrity_error, recover, run_business_rate_limiter,
}

module _ (P : Db → Type 0) where
  abbrev pub Preserves : {A : Type 0} → Tx A → Type 0
  Preserves m = (s : Session) → P s.db → P (m s).1.db

  pub bind-Preserves :
      {A B : Type 0} (m : Tx A) (f : A → Tx B)
      → Preserves m
      → ((s : Session) (a : A) → (m s).0 ≡ ok a → Preserves (f a))
      → Preserves (m >>= f)
  unfolding ◌>>=◌
  bind-Preserves {A} {B} m f k h s p = rest (m s).0 refl (m s).1 (k s p)
    where
      rest : (r : Result A) → (m s).0 ≡ r → (u : Session) → P u.db → P (continue r f u).1.db
      rest (ok a) e u q = h s a e u q
      rest (err x) e u q = q

  pub join_or_begin-Preserves : {A : Type 0} (m : Tx A) → Preserves m → Preserves (join_or_begin m)
  unfolding join_or_begin
  join_or_begin-Preserves {A} m k s p = go s.in_transaction
    where
      settled : (r : Result A) (u : Session) → P u.db → P (settle s.db (r, u)).1.db
      settled (ok a) u q = q
      settled (err x) u q = p

      go : (b : Bool) → P (join_or_begin m (record s { in_transaction = b })).1.db
      go true = k (record s { in_transaction = true }) p
      go false =
          let opened : Session = record s { in_transaction = true } in
          settled (m opened).0 (m opened).1 (k opened p)

  pub on_integrity_error-Preserves :
      {A : Type 0} (e : Error) (m : Tx A) → Preserves m → Preserves (on_integrity_error e m)
  unfolding on_integrity_error
  on_integrity_error-Preserves {A} e m k s p = recovered (m s).0 (m s).1 (k s p)
    where
      recovered : (r : Result A) (u : Session) → P u.db → P (recover e r u).1.db
      recovered (ok a) u q = q
      recovered (err (bad_request x)) u q = q
      recovered (err (conflict x)) u q = q
      recovered (err (forbidden x)) u q = q
      recovered (err (not_found x)) u q = q
      recovered (err (value_error x)) u q = q
      recovered (err (too_many_requests x)) u q = q
      recovered (err integrity_error) u q = q
      recovered (err invalid_request) u q = q

  pub limiter-Preserves :
      (limiter : Option (Result (Unit {0}))) → Preserves (run_business_rate_limiter limiter)
  unfolding run_business_rate_limiter
  limiter-Preserves none s p = p
  limiter-Preserves (some outcome) s p = p
