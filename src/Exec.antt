-- ===== src/Exec.antt =====
-- Actions that read and change a state and may raise. What was written before a raise stays
-- written, so the state comes back beside the error too; a transaction undoes it (Session.antt).
use fastapi_saas_template.Prelude.{◌≡◌, refl}
use fastapi_saas_template.Errors.{Error, Result, ok, err}

abbrev pub Exec : Type 0 → Type 0 → Type 0
Exec S A = S → Result A × S

module _ {S A : Type 0} where
  abbrev pub pure : A → Exec S A
  pure a s = (ok a, s)

  abbrev pub raise : Error → Exec S A
  raise e s = (err e, s)

module _ {S A B : Type 0} where
  abbrev pub continue : Result A → (A → Exec S B) → Exec S B
  continue (ok a) f s = f a s
  continue (err e) f s = (err e, s)

  infixl 10 ◌>>=◌ ◌>>◌
  unfoldable pub ◌>>=◌ : Exec S A → (A → Exec S B) → Exec S B
  ◌>>=◌ m f s = continue (m s).0 f (m s).1

  abbrev pub ◌>>◌ : Exec S A → Exec S B → Exec S B
  m >> n = m >>= λ _. n

-- An action that returned had each of its parts return.
pub bind-eq-ok :
    {S A B : Type 0} (m : Exec S A) (f : A → Exec S B) (s t : S) (b : B)
    → (m >>= f) s ≡ (ok b, t)
    → (a : A) × (u : S) × (m s ≡ (ok a, u)) × (f a u ≡ (ok b, t))
unfolding ◌>>=◌
bind-eq-ok {S} {A} {B} m f s t b h = split (m s).0 (m s).1 refl h
  where
    split :
        (r : Result A) (u : S)
        → m s ≡ (r, u)
        → continue r f u ≡ (ok b, t)
        → (a : A) × (u' : S) × (m s ≡ (ok a, u')) × (f a u' ≡ (ok b, t))
    split (ok a) u e k = (a, u, e, k)
    split (err x) u e k = absurd (cc)
