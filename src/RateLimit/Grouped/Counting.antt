-- ===== src/RateLimit/Grouped/Counting.antt =====
-- The grouped limiter counts all of its buckets or none, and counts none past its limit.
use fastapi_saas_template.Prelude.{
  ℕ, suc, ◌+◌, ◌≤◌, false, not, ◌≡◌, ◌∙◌, ap, refl, List, [], ◌∷◌, Option, none, some, is_some,
  ◌==◌, if◌then◌else◌, bit, count, has_key, DistinctKeys, InTable, arith, inl, inr, Bool-cases,
}
use fastapi_saas_template.RateLimit.Redis.{Store, get, pttl}
use fastapi_saas_template.RateLimit.Grouped.{
  GroupedBucketSpec, is_full, lua_block, lua_check, lua_count, lua_consume, lua_script, read_reply,
  atomic_consume_grouped_buckets,
}
use fastapi_saas_template.RateLimit.Grouped.Agreement.{AllPositive}

-- The position of the first bucket at its limit.
unfoldable pub first_full : List GroupedBucketSpec → Store → Option ℕ
first_full [] s = none
first_full (b ∷ bs) s =
    if is_full b s then some 0 else elim (first_full bs s) [ none ↦ none | some i ↦ some (suc i) ]

-- How often a key stands in the group.
abbrev pub uses : ℕ → List GroupedBucketSpec → ℕ
uses k = count (λ b. b.key == k)

abbrev shift : ℕ → Option ℕ → Option ℕ
shift i none = none
shift i (some j) = some (i + j)

abbrev position : Option (ℕ × ℕ) → Option ℕ
position none = none
position (some (p, ttl)) = some p

check_position :
    (i : ℕ) (bs : List GroupedBucketSpec) (s : Store)
    → position (lua_check i bs s).0 ≡ shift i (first_full bs s)
unfolding lua_check first_full lua_block
check_position i [] s = refl
check_position i (b ∷ bs) s = elim (Bool-cases (is_full b s)) [
  | inl full ↦ rw full (ground arith)
  | inr room ↦ rw room (ground (arith, check_position (suc i) bs s))
]

block-get :
    (i k : ℕ) (b : GroupedBucketSpec) (left : Option ℕ) (s : Store)
    → 1 ≤ b.expiry_seconds
    → get k (lua_block i b left s).1 ≡ get k s
unfolding lua_block
block-get i k b none s p = ground arith
block-get i k b (some ttl) s p = refl

check-get :
    (i k : ℕ) (bs : List GroupedBucketSpec) (s : Store)
    → AllPositive bs
    → get k (lua_check i bs s).1 ≡ get k s
unfolding lua_check
check-get i k [] s p = refl
check-get i k (b ∷ bs) s p = elim (Bool-cases (is_full b s)) [
  | inl full ↦ rw full (block-get i k b (pttl b.key s) s p.0)
  | inr room ↦ rw room (check-get (suc i) k bs s p.1)
]

count-get :
    (k : ℕ) (b : GroupedBucketSpec) (s : Store)
    → 1 ≤ b.expiry_seconds
    → get k (lua_count b s) ≡ get k s + bit (b.key == k)
unfolding lua_count
count-get k b s p = ground arith

consume-get :
    (k : ℕ) (bs : List GroupedBucketSpec) (s : Store)
    → AllPositive bs
    → get k (lua_consume bs s) ≡ get k s + uses k bs
unfolding lua_consume count
consume-get k [] s p = omega arith
consume-get k (b ∷ bs) s p =
    omega (arith, consume-get k bs (lua_count b s) p.1, count-get k b s p.0)

module _ (bs : List GroupedBucketSpec) (s : Store) where
  script_decides :
      (r : Option (ℕ × ℕ)) (t : Store)
      → position r ≡ shift 1 (first_full bs s)
      → ((read_reply bs (lua_script bs (r, t)).0).allowed ≡ not (is_some (first_full bs s)))
        × ((read_reply bs (lua_script bs (r, t)).0).blocked_index ≡ first_full bs s)
  unfolding read_reply lua_script
  script_decides none t e = (ground arith, ground arith)
  script_decides (some (p, ttl)) t e = (ground arith, ground arith)

  -- A group is allowed exactly when none of its buckets is at its limit, and a refusal names the
  -- first bucket that is.
  pub atomic_decides :
      ((atomic_consume_grouped_buckets bs s).0.allowed ≡ not (is_some (first_full bs s)))
      × ((atomic_consume_grouped_buckets bs s).0.blocked_index ≡ first_full bs s)
  unfolding atomic_consume_grouped_buckets
  atomic_decides = script_decides (lua_check 1 bs s).0 (lua_check 1 bs s).1 (check_position 1 bs s)

  script-get :
      (k : ℕ) (r : Option (ℕ × ℕ)) (t : Store)
      → AllPositive bs
      → get k t ≡ get k s
      → get k (lua_script bs (r, t)).1
        ≡ get k s + (if (read_reply bs (lua_script bs (r, t)).0).allowed then uses k bs else 0)
  unfolding read_reply lua_script
  script-get k none t p e = consume-get k bs t p ∙ ap (λ n. n + uses k bs) e
  script-get k (some (q, ttl)) t p e = e ∙ (omega arith)

  -- An allowed group adds to every counter the number of its buckets with that key; a refused one
  -- changes no counter.
  pub atomic_all_or_nothing :
      (k : ℕ)
      → AllPositive bs
      → get k (atomic_consume_grouped_buckets bs s).1
        ≡ get k s + (if (atomic_consume_grouped_buckets bs s).0.allowed then uses k bs else 0)
  unfolding atomic_consume_grouped_buckets
  atomic_all_or_nothing k p =
      script-get k (lua_check 1 bs s).0 (lua_check 1 bs s).1 p (check-get 1 k bs s p)

uses-absent :
    (k : ℕ) (bs : List GroupedBucketSpec) → has_key (λ b. b.key) k bs ≡ false → uses k bs ≡ 0
unfolding has_key count
uses-absent k [] h = refl
uses-absent k (b ∷ bs) h = ground (arith, uses-absent k bs)

uses-le-one : (k : ℕ) (bs : List GroupedBucketSpec) → DistinctKeys (λ b. b.key) bs → uses k bs ≤ 1
unfolding count
uses-le-one k [] d = omega arith
uses-le-one k (b ∷ bs) d = elim (Bool-cases (b.key == k)) [
  | inl same ↦
      let e : b.key ≡ k = ground arith in rw same (omega (arith, uses-absent k bs (rw e at d.0)))
  | inr other ↦ rw other (omega (arith, uses-le-one k bs d.1))
]

below_limit :
    (bs : List GroupedBucketSpec) (s : Store) (b : GroupedBucketSpec)
    → InTable b bs
    → is_some (first_full bs s) ≡ false
    → suc (get b.key s) ≤ b.limit
unfolding first_full
below_limit [] s b i h = absurd i
below_limit (c ∷ bs) s b (inl e) h = ground (arith, e)
below_limit (c ∷ bs) s b (inr i) h = ground (arith, below_limit bs s b i)

-- A group with distinct keys and windows of at least a second takes no counter past the limit of
-- its bucket.
pub atomic_within_limits :
    (bs : List GroupedBucketSpec) (s : Store) (b : GroupedBucketSpec)
    → AllPositive bs
    → DistinctKeys (λ c. c.key) bs
    → InTable b bs
    → get b.key s ≤ b.limit
    → get b.key (atomic_consume_grouped_buckets bs s).1 ≤ b.limit
atomic_within_limits bs s b p d i h =
    let once = uses-le-one b.key bs d in
    let counted = atomic_all_or_nothing bs s b.key p in
    let decided = (atomic_decides bs s).0 in
    elim (Bool-cases (is_some (first_full bs s))) [
      | inl full ↦ ground arith
      | inr room ↦ let below = below_limit bs s b i room in ground arith
    ]
