-- ===== src/Prelude/Updates.antt =====
-- What an UPDATE keeps, and what a lookup by primary key finds after it.
use Prim.Native.Nat.{ℕ}
use mathlib.Core.Path.{◌≡◌, refl, ap}
use mathlib.Core.Bool.{Bool, true, false}
use mathlib.Core.Logic.{inl, inr}
use mathlib.Core.Option.{none, some}
use mathlib.Core.List.{List, [], ◌∷◌, ◌++◌}
use native.Mathlib.Omega.{arith}
use fastapi_saas_template.Prelude.Tests.{◌==◌, Bool-cases}
use fastapi_saas_template.Prelude.Table.{
  find_first, any, update, has_key, DistinctKeys, InTable, InTable-has_key, AllRows,
}

module _ {A : Type 0} (P : A → Type 0) (p : A → Bool) (f : A → A) where
  -- An UPDATE keeps what holds of the rows, if it does for each row that it changes.
  pub AllRows-update :
      (xs : List A)
      → ((x : A) → InTable x xs → p x ≡ true → P x → P (f x))
      → AllRows P xs
      → AllRows P (update p f xs)
  unfolding update
  AllRows-update [] h a = tt
  AllRows-update (x ∷ xs) h a =
      let rest = AllRows-update xs (λ y i. h y (inr i)) a.1 in
      elim (Bool-cases (p x)) [
        | inl e ↦ rw e (h x (inl refl) e a.0, rest)
        | inr e ↦ rw e (a.0, rest)
      ]

module _ {A : Type 0} (key : A → ℕ) (p : A → Bool) (f : A → A)
    (same : (x : A) → key (f x) ≡ key x) where
  pub has_key-update : (k : ℕ) (xs : List A) → has_key key k (update p f xs) ≡ has_key key k xs
  unfolding has_key update
  has_key-update k [] = refl
  has_key-update k (x ∷ xs) = ground (arith, same x, has_key-update k xs)

  pub DistinctKeys-update : (xs : List A) → DistinctKeys key xs → DistinctKeys key (update p f xs)
  unfolding update
  DistinctKeys-update [] d = tt
  DistinctKeys-update (x ∷ xs) d = (
    elim (Bool-cases (p x)) [
      | inl e ↦ rw (e, same x, has_key-update (key x) xs) d.0
      | inr e ↦ rw (e, has_key-update (key x) xs) d.0
    ],
    DistinctKeys-update xs d.1,
  )

  -- The row with a key, after an UPDATE of rows with that key that changes the first of them.
  pub find_first-update_key :
      (k : ℕ) (xs : List A) (r : A)
      → ((x : A) → p x ≡ true → (key x == k) ≡ true)
      → find_first (λ x. key x == k) xs ≡ some r
      → p r ≡ true
      → find_first (λ x. key x == k) (update p f xs) ≡ some (f r)
  unfolding find_first update
  find_first-update_key k [] r only h e = absurd (cc)
  find_first-update_key k (x ∷ xs) r only h e = elim (Bool-cases (key x == k)) [
    | inl this ↦
        let found : x ≡ r = ground arith in
        let hit : p x ≡ true = rw found e in rw (hit, same x, this) (ap (λ y. some (f y)) found)
    | inr other ↦
        let missed : p x ≡ false = ground (arith, only x) in
        let later : find_first (λ y. key y == k) xs ≡ some r = rw other at h in
        rw (missed, other) (find_first-update_key k xs r only later e)
  ]

  -- A row with another key is not touched.
  pub find_first-update_other :
      (j k : ℕ) (xs : List A)
      → ((x : A) → p x ≡ true → (key x == k) ≡ true)
      → (k == j) ≡ false
      → find_first (λ x. key x == j) (update p f xs) ≡ find_first (λ x. key x == j) xs
  unfolding find_first update
  find_first-update_other j k [] only other = refl
  find_first-update_other j k (x ∷ xs) only other =
      let rest = find_first-update_other j k xs only other in
      elim (Bool-cases (p x)) [
        | inl hit ↦
            let elsewhere : (key x == j) ≡ false = ground (arith, only x) in
            rw (hit, same x, elsewhere) rest
        | inr miss ↦ rw (miss, rest) refl
      ]

-- In a table with distinct keys the row with a key is the one that a lookup finds.
pub find_first_unique :
    {A : Type 0} (key : A → ℕ) (k : ℕ) (xs : List A) (x r : A)
    → DistinctKeys key xs
    → InTable x xs
    → key x ≡ k
    → find_first (λ y. key y == k) xs ≡ some r
    → x ≡ r
unfolding find_first
find_first_unique key k [] x r d i e h = absurd i
find_first_unique key k (y ∷ ys) x r d i e h = elim (Bool-cases (key y == k)) [
  | inl this ↦ elim i [
    | inl same ↦ ground arith
    | inr later ↦ absurd (ground (arith, InTable-has_key key ys x later, d.0))
  ]
  | inr other ↦ elim i [
    | inl same ↦ absurd (ground (arith, ap key same))
    | inr later ↦ find_first_unique key k ys x r d.1 later e (rw other at h)
  ]
]

-- The row with a key, after an INSERT.
pub find_first-append_other :
    {A : Type 0} (key : A → ℕ) (j : ℕ) (xs : List A) (x : A)
    → (key x == j) ≡ false
    → find_first (λ y. key y == j) (xs ++ x ∷ []) ≡ find_first (λ y. key y == j) xs
unfolding find_first
find_first-append_other key j [] x h = ground arith
find_first-append_other key j (y ∷ ys) x h = ground (arith, find_first-append_other key j ys x)

pub find_first-append_new :
    {A : Type 0} (key : A → ℕ) (j : ℕ) (xs : List A) (x : A)
    → has_key key j xs ≡ false
    → key x ≡ j
    → (find_first (λ y. key y == j) xs ≡ none)
      × (find_first (λ y. key y == j) (xs ++ x ∷ []) ≡ some x)
unfolding find_first has_key
find_first-append_new key j [] x h e = (refl, ground arith)
find_first-append_new key j (y ∷ ys) x h e =
    let rest = find_first-append_new key j ys x (ground arith) e in
    let other : (key y == j) ≡ false = ground arith in
    (rw (other, rest.0) refl, rw (other, rest.1) refl)

-- Two rows of the table with one key are the same.
pub InTable-unique :
    {A : Type 0} (key : A → ℕ) (xs : List A) (x y : A)
    → DistinctKeys key xs
    → InTable x xs
    → InTable y xs
    → key x ≡ key y
    → x ≡ y
InTable-unique key [] x y d i j e = absurd i
InTable-unique key (z ∷ zs) x y d (inl a) (inl b) e = cc (a, b)
InTable-unique key (z ∷ zs) x y d (inl a) (inr j) e =
    absurd (cc (InTable-has_key key zs y j, d.0, ap key a, e))
InTable-unique key (z ∷ zs) x y d (inr i) (inl b) e =
    absurd (cc (InTable-has_key key zs x i, d.0, ap key b, e))
InTable-unique key (z ∷ zs) x y d (inr i) (inr j) e = InTable-unique key zs x y d.1 i j e

module _ {A : Type 0} where
  pub any-InTable :
      (p : A → Bool) (xs : List A) → any p xs ≡ true → (x : A) × InTable x xs × (p x ≡ true)
  unfolding any
  any-InTable p [] h = absurd (cc h)
  any-InTable p (x ∷ xs) h = elim (Bool-cases (p x)) [
    | inl e ↦ (x, inl refl, e)
    | inr e ↦ let (y, i, k) = any-InTable p xs (rw e at h) in (y, inr i, k)
  ]

  -- What an UPDATE makes hold of all rows, the changed and the others.
  pub AllRows-updated :
      (P : A → Type 0) (p : A → Bool) (f : A → A) (xs : List A)
      → ((x : A) → InTable x xs → p x ≡ true → P (f x))
      → ((x : A) → InTable x xs → p x ≡ false → P x)
      → AllRows P (update p f xs)
  unfolding update
  AllRows-updated P p f [] hit miss = tt
  AllRows-updated P p f (x ∷ xs) hit miss =
      let rest = AllRows-updated P p f xs (λ y i. hit y (inr i)) (λ y i. miss y (inr i)) in
      elim (Bool-cases (p x)) [
        | inl e ↦ rw e (hit x (inl refl) e, rest)
        | inr e ↦ rw e (miss x (inl refl) e, rest)
      ]
