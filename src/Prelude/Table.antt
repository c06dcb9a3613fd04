-- ===== src/Prelude/Table.antt =====
-- Database tables as lists of rows: selection, counting, and updates by primary key.
use Prim.Native.Nat.{ℕ, zero, suc, ◌+◌, ◌≤◌}
use mathlib.Core.Path.{◌≡◌, refl, ap, ◌∙◌}
use mathlib.Core.Bool.{Bool, true, false, ◌&&◌, ◌||◌}
use mathlib.Core.Logic.{◌⊎◌, inl, inr}
use mathlib.Core.Option.{Option, none, some}
use mathlib.Core.List.{List, [], ◌∷◌, ◌++◌}
use native.Mathlib.Omega.{arith}
use fastapi_saas_template.Prelude.Tests.{◌==◌, if◌then◌else◌, bit, Bool-cases}

module _ {ℓ} {A : Type ℓ} where
  abbrev pub length : List A → ℕ
  length [] = 0
  length (x ∷ xs) = suc (length xs)

  abbrev pub take : ℕ → List A → List A
  take zero xs = []
  take (suc n) [] = []
  take (suc n) (x ∷ xs) = x ∷ take n xs

  -- SELECT … WHERE p LIMIT 1
  unfoldable pub find_first : (A → Bool) → List A → Option A
  find_first p [] = none
  find_first p (x ∷ xs) = if p x then some x else find_first p xs

  -- SELECT … WHERE p
  unfoldable pub select : (A → Bool) → List A → List A
  select p [] = []
  select p (x ∷ xs) = let rest = select p xs in if p x then x ∷ rest else rest

  -- What a RETURNING clause gives of the row that was found.
  abbrev pub map_found : (A → A) → Option A → Option A
  map_found f none = none
  map_found f (some x) = some (f x)

  -- SELECT count(*) … WHERE p
  unfoldable pub count : (A → Bool) → List A → ℕ
  count p [] = 0
  count p (x ∷ xs) = bit (p x) + count p xs

  -- UPDATE … SET f WHERE p
  unfoldable pub update : (A → Bool) → (A → A) → List A → List A
  update p f [] = []
  update p f (x ∷ xs) = (if p x then f x else x) ∷ update p f xs

  unfoldable pub any : (A → Bool) → List A → Bool
  any p [] = false
  any p (x ∷ xs) = p x || any p xs

  pub find_first-holds :
      (p : A → Bool) (xs : List A) (m : A) → find_first p xs ≡ some m → p m ≡ true
  unfolding find_first
  find_first-holds p [] m h = ground arith
  find_first-holds p (x ∷ xs) m h = ground (arith, find_first-holds p xs m)

  pub count-append : (p : A → Bool) (xs ys : List A) → count p (xs ++ ys) ≡ count p xs + count p ys
  unfolding count
  count-append p [] ys = omega arith
  count-append p (x ∷ xs) ys = omega (arith, count-append p xs ys)

  -- An update that leaves the counted property of the rows it changes alone changes no count.
  pub count-update :
      (q p : A → Bool) (f : A → A) (xs : List A)
      → ((x : A) → p x ≡ true → q (f x) ≡ q x)
      → count q (update p f xs) ≡ count q xs
  unfolding count update
  count-update q p f [] h = refl
  count-update q p f (x ∷ xs) h = ground (arith, h x, count-update q p f xs h)

  -- A row that is found satisfies the test, so the count is positive.
  pub find_first-count :
      (p : A → Bool) (xs : List A) (m : A) → find_first p xs ≡ some m → 1 ≤ count p xs
  unfolding find_first count
  find_first-count p [] m h = ground arith
  find_first-count p (x ∷ xs) m h = ground (arith, find_first-count p xs m)

  -- A larger test finds something where a smaller one does.
  pub find_first-weaken :
      (p q : A → Bool) (xs : List A) (m : A)
      → ((x : A) → p x ≡ true → q x ≡ true)
      → find_first p xs ≡ some m
      → (r : A) × (find_first q xs ≡ some r)
  unfolding find_first
  find_first-weaken p q [] m w h = absurd (ground arith)
  find_first-weaken p q (x ∷ xs) m w h = elim (Bool-cases (q x)) [
    | inl e ↦ (x, ground arith)
    | inr e ↦
        let rest = find_first-weaken p q xs m w (ground (arith, w x)) in
        (rest.0, ground (arith, rest.1))
  ]

  pub find_first-none-count : (p : A → Bool) (xs : List A) → find_first p xs ≡ none → count p xs ≡ 0
  unfolding find_first count
  find_first-none-count p [] h = refl
  find_first-none-count p (x ∷ xs) h = ground (arith, find_first-none-count p xs)

module _ {ℓ} {A : Type ℓ} (key : A → ℕ) where
  unfoldable pub has_key : ℕ → List A → Bool
  has_key k [] = false
  has_key k (x ∷ xs) = (key x == k) || has_key k xs

  -- The primary key is unique.
  abbrev pub DistinctKeys : List A → Type 0
  DistinctKeys [] = Unit
  DistinctKeys (x ∷ xs) = (has_key (key x) xs ≡ false) × DistinctKeys xs

  -- UPDATE … SET f WHERE key = k
  unfoldable pub update_row : ℕ → (A → A) → List A → List A
  update_row k f [] = []
  update_row k f (x ∷ xs) = (if key x == k then f x else x) ∷ update_row k f xs

  pub find_first-has_key :
      (p : A → Bool) (xs : List A) (m : A) → find_first p xs ≡ some m → has_key (key m) xs ≡ true
  unfolding find_first has_key
  find_first-has_key p [] m h = absurd (ground arith)
  find_first-has_key p (x ∷ xs) m h = elim (Bool-cases (p x)) [
    | inl e ↦ ground arith
    | inr e ↦ ground (arith, find_first-has_key p xs m (ground arith))
  ]

  pub count-update_row_absent :
      (q : A → Bool) (k : ℕ) (f : A → A) (xs : List A)
      → has_key k xs ≡ false
      → count q (update_row k f xs) ≡ count q xs
  unfolding has_key update_row count
  count-update_row_absent q k f [] h = refl
  count-update_row_absent q k f (x ∷ xs) h = ground (arith, count-update_row_absent q k f xs)

  -- Writing the row that a query found exchanges that row for the new one in every count.
  pub count-update_row :
      (q p : A → Bool) (f : A → A) (xs : List A) (m : A)
      → DistinctKeys xs
      → find_first p xs ≡ some m
      → count q (update_row (key m) f xs) + bit (q m) ≡ count q xs + bit (q (f m))
  unfolding find_first update_row count
  count-update_row q p f [] m d h = absurd (ground arith)
  count-update_row q p f (x ∷ xs) m d h = elim (Bool-cases (p x)) [
    | inl e ↦
        let same : x ≡ m = ground arith in
        ground (arith, same, count-update_row_absent q (key x) f xs d.0)
    | inr e ↦
        let later : find_first p xs ≡ some m = ground arith in
        ground (arith, find_first-has_key p xs m later, count-update_row q p f xs m d.1 later)
  ]

module _ {A : Type 0} where
  -- The row stands in the table.
  abbrev pub InTable : A → List A → Type 0
  InTable m [] = ⊥
  InTable m (x ∷ xs) = (m ≡ x) ⊎ InTable m xs

  pub find_first-InTable :
      (p : A → Bool) (xs : List A) (m : A) → find_first p xs ≡ some m → InTable m xs
  unfolding find_first
  find_first-InTable p [] m h = absurd (ground arith)
  find_first-InTable p (x ∷ xs) m h = elim (Bool-cases (p x)) [
    | inl e ↦ inl (ground arith)
    | inr e ↦ inr (find_first-InTable p xs m (ground arith))
  ]

  -- Every row of the table satisfies the predicate.
  abbrev pub AllRows : (A → Type 0) → List A → Type 0
  AllRows P [] = Unit
  AllRows P (x ∷ xs) = P x × AllRows P xs

  pub AllRows-InTable : (P : A → Type 0) (xs : List A) (m : A) → AllRows P xs → InTable m xs → P m
  AllRows-InTable P [] m a i = absurd i
  AllRows-InTable P (x ∷ xs) m a (inl e) = rw e a.0
  AllRows-InTable P (x ∷ xs) m a (inr i) = AllRows-InTable P xs m a.1 i

  pub find_first-select :
      (p q : A → Bool) (xs : List A) → find_first p (select q xs) ≡ find_first (λ x. q x && p x) xs
  unfolding find_first select
  find_first-select p q [] = refl
  find_first-select p q (x ∷ xs) = ground (arith, find_first-select p q xs)

module _ {A : Type 0} (key : A → ℕ) where
  pub InTable-has_key : (xs : List A) (m : A) → InTable m xs → has_key key (key m) xs ≡ true
  unfolding has_key
  InTable-has_key [] m h = absurd h
  InTable-has_key (x ∷ xs) m (inl e) = ground arith
  InTable-has_key (x ∷ xs) m (inr h) = ground (arith, InTable-has_key xs m h)

  -- Writing a row of the table exchanges that row for the new one in every count.
  pub count-update_of :
      (q : A → Bool) (f : A → A) (xs : List A) (m : A)
      → DistinctKeys key xs
      → InTable m xs
      → count q (update_row key (key m) f xs) + bit (q m) ≡ count q xs + bit (q (f m))
  unfolding update_row count
  count-update_of q f [] m d h = absurd h
  count-update_of q f (x ∷ xs) m d (inl e) =
      ground (arith, e, count-update_row_absent key q (key x) f xs d.0)
  count-update_of q f (x ∷ xs) m d (inr h) =
      ground (arith, InTable-has_key xs m h, count-update_of q f xs m d.1 h)

  pub InTable-update_row :
      (k : ℕ) (f : A → A) (xs : List A) (m : A)
      → (key m == k) ≡ false
      → InTable m xs
      → InTable m (update_row key k f xs)
  unfolding update_row
  InTable-update_row k f [] m e h = h
  InTable-update_row k f (x ∷ xs) m e (inl same) = inl (ground arith)
  InTable-update_row k f (x ∷ xs) m e (inr h) = inr (InTable-update_row k f xs m e h)

  pub has_key-update_row :
      (j k : ℕ) (f : A → A) (xs : List A)
      → ((x : A) → key (f x) ≡ key x)
      → has_key key j (update_row key k f xs) ≡ has_key key j xs
  unfolding has_key update_row
  has_key-update_row j k f [] h = refl
  has_key-update_row j k f (x ∷ xs) h = ground (arith, h x, has_key-update_row j k f xs h)

  -- A write that leaves the primary key alone keeps the keys distinct.
  pub DistinctKeys-update_row :
      (k : ℕ) (f : A → A) (xs : List A)
      → ((x : A) → key (f x) ≡ key x)
      → DistinctKeys key xs
      → DistinctKeys key (update_row key k f xs)
  unfolding update_row
  DistinctKeys-update_row k f [] h d = d
  DistinctKeys-update_row k f (x ∷ xs) h d = (
    head (key x == k) ∙ (has_key-update_row (key x) k f xs h ∙ d.0),
    DistinctKeys-update_row k f xs h d.1,
  )
    where
      head :
          (b : Bool)
          → has_key key (key (if b then f x else x)) (update_row key k f xs)
            ≡ has_key key (key x) (update_row key k f xs)
      head true = ap (λ j. has_key key j (update_row key k f xs)) (h x)
      head false = refl

  AllRows-update_row_absent :
      (P : A → Type 0) (k : ℕ) (f : A → A) (xs : List A)
      → has_key key k xs ≡ false
      → AllRows P xs
      → AllRows P (update_row key k f xs)
  unfolding has_key update_row
  AllRows-update_row_absent P k f [] h a = tt
  AllRows-update_row_absent P k f (x ∷ xs) h a = elim (Bool-cases (key x == k)) [
    | inl e ↦ absurd (ground arith)
    | inr e ↦ (rw e a.0, AllRows-update_row_absent P k f xs (ground arith) a.1)
  ]

  -- Writing one row of the table keeps the predicate, if the new row satisfies it.
  pub AllRows-update_of :
      (P : A → Type 0) (f : A → A) (xs : List A) (m : A)
      → DistinctKeys key xs
      → InTable m xs
      → P (f m)
      → AllRows P xs
      → AllRows P (update_row key (key m) f xs)
  unfolding update_row
  AllRows-update_of P f [] m d i h a = tt
  AllRows-update_of P f (x ∷ xs) m d (inl e) h a = (
    rw (← e) (rw (same (key m)) h),
    AllRows-update_row_absent P (key m) f xs (rw (← e) at d.0) a.1,
  )
    where
      same : (k : ℕ) → (k == k) ≡ true
      same k = ground arith
  AllRows-update_of P f (x ∷ xs) m d (inr i) h a =
      let other : (key x == key m) ≡ false = ground (arith, InTable-has_key xs m i) in
      (rw other a.0, AllRows-update_of P f xs m d.1 i h a.1)
