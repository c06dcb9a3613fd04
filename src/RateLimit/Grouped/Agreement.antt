-- ===== src/RateLimit/Grouped/Agreement.antt =====
-- The fallback agrees with the script, when no other client runs in between.
use fastapi_saas_template.Prelude.{
  ℕ, zero, suc, ◌≤◌, ◌≡◌, ◌≢◌, ap, refl, List, [], ◌∷◌, Option, none, some, arith, inl, inr,
  Bool-cases,
}
use fastapi_saas_template.RateLimit.Redis.{Store, pttl}
use fastapi_saas_template.RateLimit.Grouped.{
  GroupedBucketSpec, GroupedConsumeResult, allowed_result, is_full, lua_block, lua_check, lua_count,
  lua_consume, lua_script, read_reply, atomic_consume_grouped_buckets, compat_block, compat_check,
  compat_count, compat_consume, compat_finish, compatibility_consume_grouped_buckets_with_same_keys,
}

-- No key has a time to live that has run down to exactly 0 milliseconds.
abbrev pub NoneSpent : Store → Type 0
NoneSpent s = (k : ℕ) → pttl k s ≢ some 0

count_agrees : (b : GroupedBucketSpec) (s : Store) → NoneSpent s → compat_count b s ≡ lua_count b s
unfolding compat_count lua_count
count_agrees b s h = ground (arith, h b.key)

lua_count-NoneSpent : (b : GroupedBucketSpec) (s : Store) → NoneSpent s → NoneSpent (lua_count b s)
unfolding lua_count
lua_count-NoneSpent b s h k = ground (arith, h k)

consume_agrees :
    (bs : List GroupedBucketSpec) (s : Store) → NoneSpent s → compat_consume bs s ≡ lua_consume bs s
unfolding compat_consume lua_consume
consume_agrees [] s h = refl
consume_agrees (b ∷ bs) s h =
    rw (count_agrees b s h) (consume_agrees bs (lua_count b s) (lua_count-NoneSpent b s h))

-- Every window is at least a second long.
abbrev pub AllPositive : List GroupedBucketSpec → Type 0
AllPositive [] = Unit
AllPositive (b ∷ bs) = (1 ≤ b.expiry_seconds) × AllPositive bs

reading : List GroupedBucketSpec → Option (ℕ × ℕ) × Store → Option (GroupedConsumeResult × Store)
reading bs (none, t) = none
reading bs (some reply, t) = some (read_reply bs (some reply), t)

block_agrees :
    (all : List GroupedBucketSpec) (i : ℕ) (b : GroupedBucketSpec) (s : Store) (left : Option ℕ)
    → 1 ≤ b.expiry_seconds
    → left ≢ some 0
    → pttl b.key s ≡ left
    → some (compat_block i b s) ≡ reading all (lua_block (suc i) b left s)
unfolding compat_block lua_block reading read_reply
block_agrees all i b s none p h e = rw e (ground arith)
block_agrees all i b s (some zero) p h e = absurd (h refl)
block_agrees all i b s (some (suc ttl)) p h e = rw e (ground arith)

check_agrees :
    (all : List GroupedBucketSpec) (i : ℕ) (bs : List GroupedBucketSpec) (s : Store)
    → AllPositive bs
    → NoneSpent s
    → compat_check i bs s ≡ reading all (lua_check (suc i) bs s)
unfolding compat_check lua_check
check_agrees all i [] s p h = unfold reading in refl
check_agrees all i (b ∷ bs) s p h = elim (Bool-cases (is_full b s)) [
  | inl full ↦ rw full (block_agrees all i b s (pttl b.key s) p.0 (h b.key) refl)
  | inr room ↦ rw room (check_agrees all (suc i) bs s p.1 h)
]

unblocked-same :
    (i : ℕ) (bs : List GroupedBucketSpec) (s : Store)
    → (lua_check i bs s).0 ≡ none
    → (lua_check i bs s).1 ≡ s
unfolding lua_check
unblocked-same i [] s h = refl
unblocked-same i (b ∷ bs) s h = elim (Bool-cases (is_full b s)) [
  | inl full ↦ absurd (blocked (pttl b.key s) (rw full at h))
  | inr room ↦ rw room (unblocked-same (suc i) bs s (rw room at h))
]
  where
    blocked : (left : Option ℕ) → (lua_block i b left s).0 ≢ none
    blocked none e = cc e
    blocked (some ttl) e = cc e

finish_agrees :
    (bs : List GroupedBucketSpec) (s : Store) (r : Option (ℕ × ℕ)) (t : Store)
    → NoneSpent s
    → (r ≡ none → t ≡ s)
    → compat_finish bs s (reading bs (r, t))
      ≡ (read_reply bs (lua_script bs (r, t)).0, (lua_script bs (r, t)).1)
unfolding compat_finish reading lua_script
finish_agrees bs s none t h same =
    unfold read_reply in rw (same refl) (ap (λ u. (allowed_result, u)) (consume_agrees bs s h))
finish_agrees bs s (some reply) t h same = refl

-- When no key's time to live has run down to exactly 0 and every window is at least a second long,
-- the fallback, run with no other client in between, returns the result of the script's call and
-- leaves the same store.
pub fallback-eq-atomic :
    (bs : List GroupedBucketSpec) (s : Store)
    → AllPositive bs
    → NoneSpent s
    → compatibility_consume_grouped_buckets_with_same_keys bs s
      ≡ atomic_consume_grouped_buckets bs s
unfolding compatibility_consume_grouped_buckets_with_same_keys atomic_consume_grouped_buckets
fallback-eq-atomic bs s p h =
    rw (check_agrees bs 0 bs s p h)
      (finish_agrees bs s (lua_check 1 bs s).0 (lua_check 1 bs s).1 h (unblocked-same 1 bs s))
