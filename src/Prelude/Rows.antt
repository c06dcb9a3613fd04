-- ===== src/Prelude/Rows.antt =====
-- What selecting, sorting and limiting keep: the primary keys stay distinct, and what holds of the
-- rows still does.
use Prim.Native.Nat.{ℕ, zero, suc}
use mathlib.Core.Path.{◌≡◌, refl}
use mathlib.Core.Bool.{Bool, true, false, ◌||◌}
use mathlib.Core.Logic.{inl, inr}
use mathlib.Core.List.{List, [], ◌∷◌, ◌++◌}
use native.Mathlib.Omega.{arith}
use fastapi_saas_template.Prelude.Tests.{◌==◌, leb, if◌then◌else◌, Bool-cases}
use fastapi_saas_template.Prelude.Table.{take, select, has_key, DistinctKeys, InTable, AllRows}

-- ORDER BY at ASC
module _ {A : Type 0} (at : A → ℕ) where
  insert_by : A → List A → List A
  insert_by x [] = x ∷ []
  insert_by x (y ∷ ys) =
      let rest = insert_by x ys in if leb (at x) (at y) then x ∷ y ∷ ys else y ∷ rest

  unfoldable pub order_by : List A → List A
  unfolding insert_by
  order_by [] = []
  order_by (x ∷ xs) = insert_by x (order_by xs)

module _ {A : Type 0} (key : A → ℕ) where
  has_key-select :
      (p : A → Bool) (k : ℕ) (xs : List A)
      → has_key key k xs ≡ false
      → has_key key k (select p xs) ≡ false
  unfolding has_key select
  has_key-select p k [] h = refl
  has_key-select p k (x ∷ xs) h = ground (arith, has_key-select p k xs)

  pub DistinctKeys-select :
      (p : A → Bool) (xs : List A) → DistinctKeys key xs → DistinctKeys key (select p xs)
  unfolding select
  DistinctKeys-select p [] d = tt
  DistinctKeys-select p (x ∷ xs) d = elim (Bool-cases (p x)) [
    | inl e ↦ rw e (has_key-select p (key x) xs d.0, DistinctKeys-select p xs d.1)
    | inr e ↦ rw e (DistinctKeys-select p xs d.1)
  ]

  has_key-take :
      (n k : ℕ) (xs : List A) → has_key key k xs ≡ false → has_key key k (take n xs) ≡ false
  unfolding has_key
  has_key-take zero k xs h = refl
  has_key-take (suc n) k [] h = refl
  has_key-take (suc n) k (x ∷ xs) h = ground (arith, has_key-take n k xs)

  pub DistinctKeys-take : (n : ℕ) (xs : List A) → DistinctKeys key xs → DistinctKeys key (take n xs)
  DistinctKeys-take zero xs d = tt
  DistinctKeys-take (suc n) [] d = tt
  DistinctKeys-take (suc n) (x ∷ xs) d = (has_key-take n (key x) xs d.0, DistinctKeys-take n xs d.1)

  -- A row with a new primary key keeps the keys distinct.
  pub has_key-append :
      (k : ℕ) (xs : List A) (x : A)
      → has_key key k (xs ++ x ∷ []) ≡ (has_key key k xs || (key x == k))
  unfolding has_key
  has_key-append k [] x = ground arith
  has_key-append k (y ∷ ys) x = ground (arith, has_key-append k ys x)

  pub DistinctKeys-append :
      (xs : List A) (x : A)
      → has_key key (key x) xs ≡ false
      → DistinctKeys key xs
      → DistinctKeys key (xs ++ x ∷ [])
  unfolding has_key
  DistinctKeys-append [] x f d = (refl, tt)
  DistinctKeys-append (y ∷ ys) x f d =
      (ground (arith, has_key-append (key y) ys x), DistinctKeys-append ys x (ground arith) d.1)

  has_key-insert_by :
      (at : A → ℕ) (k : ℕ) (x : A) (xs : List A)
      → has_key key k (insert_by at x xs) ≡ ((key x == k) || has_key key k xs)
  unfolding has_key insert_by
  has_key-insert_by at k x [] = ground arith
  has_key-insert_by at k x (y ∷ ys) = ground (arith, has_key-insert_by at k x ys)

  has_key-order_by :
      (at : A → ℕ) (k : ℕ) (xs : List A) → has_key key k (order_by at xs) ≡ has_key key k xs
  unfolding has_key order_by
  has_key-order_by at k [] = refl
  has_key-order_by at k (x ∷ xs) =
      ground (arith, has_key-insert_by at k x (order_by at xs), has_key-order_by at k xs)

  DistinctKeys-insert_by :
      (at : A → ℕ) (x : A) (xs : List A)
      → has_key key (key x) xs ≡ false
      → DistinctKeys key xs
      → DistinctKeys key (insert_by at x xs)
  unfolding insert_by has_key
  DistinctKeys-insert_by at x [] f d = (refl, tt)
  DistinctKeys-insert_by at x (y ∷ ys) f d = elim (Bool-cases (leb (at x) (at y))) [
    | inl e ↦ rw e (f, d)
    | inr e ↦ rw e (
      ground (arith, has_key-insert_by at (key y) x ys, d.0),
      DistinctKeys-insert_by at x ys (ground arith) d.1,
    )
  ]

  pub DistinctKeys-order_by :
      (at : A → ℕ) (xs : List A) → DistinctKeys key xs → DistinctKeys key (order_by at xs)
  unfolding order_by
  DistinctKeys-order_by at [] d = tt
  DistinctKeys-order_by at (x ∷ xs) d =
      DistinctKeys-insert_by at x (order_by at xs)
        (ground (arith, has_key-order_by at (key x) xs, d.0)) (DistinctKeys-order_by at xs d.1)

module _ {A : Type 0} (P : A → Type 0) where
  pub AllRows-select :
      (p : A → Bool) (xs : List A)
      → ((x : A) → InTable x xs → p x ≡ true → P x)
      → AllRows P (select p xs)
  unfolding select
  AllRows-select p [] h = tt
  AllRows-select p (x ∷ xs) h =
      let rest = AllRows-select p xs (λ y i. h y (inr i)) in
      elim (Bool-cases (p x)) [ inl e ↦ rw e (h x (inl refl) e, rest) | inr e ↦ rw e rest ]

  pub AllRows-take : (n : ℕ) (xs : List A) → AllRows P xs → AllRows P (take n xs)
  AllRows-take zero xs a = tt
  AllRows-take (suc n) [] a = tt
  AllRows-take (suc n) (x ∷ xs) a = (a.0, AllRows-take n xs a.1)

  AllRows-insert_by :
      (at : A → ℕ) (x : A) (xs : List A) → P x → AllRows P xs → AllRows P (insert_by at x xs)
  unfolding insert_by
  AllRows-insert_by at x [] p a = (p, tt)
  AllRows-insert_by at x (y ∷ ys) p a = elim (Bool-cases (leb (at x) (at y))) [
    | inl e ↦ rw e (p, a)
    | inr e ↦ rw e (a.0, AllRows-insert_by at x ys p a.1)
  ]

  pub AllRows-order_by : (at : A → ℕ) (xs : List A) → AllRows P xs → AllRows P (order_by at xs)
  unfolding order_by
  AllRows-order_by at [] a = tt
  AllRows-order_by at (x ∷ xs) a =
      AllRows-insert_by at x (order_by at xs) a.0 (AllRows-order_by at xs a.1)

  pub AllRows-append : (xs : List A) (x : A) → AllRows P xs → P x → AllRows P (xs ++ x ∷ [])
  AllRows-append [] x a p = (p, tt)
  AllRows-append (y ∷ ys) x a p = (a.0, AllRows-append ys x a.1 p)

pub AllRows-map :
    {A : Type 0} (P Q : A → Type 0) (xs : List A)
    → ((x : A) → P x → Q x)
    → AllRows P xs
    → AllRows Q xs
AllRows-map P Q [] h a = tt
AllRows-map P Q (x ∷ xs) h a = (h x a.0, AllRows-map P Q xs h a.1)
