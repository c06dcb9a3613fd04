-- ===== src/RateLimit/Grouped.antt =====
-- backend/app/core/rate_limit/grouped_atomic.py: the Lua script behind
-- `atomic_consume_grouped_buckets`, and the fallback that sends the same commands one by one.
pub mod Agreement
pub mod Counting
use fastapi_saas_template.Prelude.{
  ℕ, zero, suc, ◌+◌, ◌*◌, ◌/◌, ◌-◌, Bool, true, false, List, [], ◌∷◌, Option, none, some, ◌==◌,
  ◌||◌, leb, ltb, if◌then◌else◌,
}
use fastapi_saas_template.RateLimit.Redis.{Counter, Store, get, pttl, incr, pexpire}

pub record GroupedBucketSpec : Type 0 where
  pub key : ℕ
  pub limit : ℕ
  pub expiry_seconds : ℕ

pub record GroupedConsumeResult : Type 0 where
  pub allowed : Bool
  pub blocked_index : Option ℕ
  pub retry_after_seconds : Option ℕ

abbrev pub allowed_result : GroupedConsumeResult
allowed_result = record { allowed = true; blocked_index = none; retry_after_seconds = none }

-- `max(1, (ttl_ms + 999) // 1000)`
abbrev pub retry_after : ℕ → ℕ
retry_after ms = if leb 1 ((ms + 999) / 1000) then (ms + 999) / 1000 else 1

abbrev pub expiry_ms : GroupedBucketSpec → ℕ
expiry_ms b = b.expiry_seconds * 1000

abbrev pub is_full : GroupedBucketSpec → Store → Bool
is_full b s = leb b.limit (get b.key s)

-- The reply of the script for a full bucket: its position from 1, and its time to live, renewed if
-- the key had none.
lua_block : ℕ → GroupedBucketSpec → Option ℕ → Store → Option (ℕ × ℕ) × Store
lua_block i b none s = (some (i, expiry_ms b), pexpire b.key (expiry_ms b) s)
lua_block i b (some ttl) s = (some (i, ttl), s)

-- The first loop of the script: the first full bucket, if there is one.
lua_check : ℕ → List GroupedBucketSpec → Store → Option (ℕ × ℕ) × Store
unfolding lua_block
lua_check i [] s = (none, s)
lua_check i (b ∷ bs) s =
    let rest = lua_check (suc i) bs s in
    if is_full b s then lua_block i b (pttl b.key s) s else rest

abbrev is_missing : Option ℕ → Bool
is_missing none = true
is_missing (some ttl) = false

-- One round of the second loop: count, and set an expiry on a new key or on one that has none.
lua_count : GroupedBucketSpec → Store → Store
lua_count b s =
    let s' = incr b.key s in
    if (get b.key s' == 1) || is_missing (pttl b.key s') then pexpire b.key (expiry_ms b) s' else s'

lua_consume : List GroupedBucketSpec → Store → Store
unfolding lua_count
lua_consume [] s = s
lua_consume (b ∷ bs) s = lua_consume bs (lua_count b s)

-- GROUPED_FIXED_WINDOW_CONSUME_LUA; none is the reply {1, 0, 0}.
lua_script : List GroupedBucketSpec → Option (ℕ × ℕ) × Store → Option (ℕ × ℕ) × Store
unfolding lua_consume
lua_script bs (some reply, s) = (some reply, s)
lua_script bs (none, s) = (none, lua_consume bs s)

bucket_at : ℕ → List GroupedBucketSpec → ℕ
bucket_at i [] = 0
bucket_at zero (b ∷ bs) = expiry_ms b
bucket_at (suc i) (b ∷ bs) = bucket_at i bs

-- The reading of the script's reply.
read_reply : List GroupedBucketSpec → Option (ℕ × ℕ) → GroupedConsumeResult
unfolding bucket_at
read_reply bs none = allowed_result
read_reply bs (some (position, ttl)) =
    let ms = if ltb ttl 1 then bucket_at (position - 1) bs else ttl in
    record {
      allowed = false;
      blocked_index = some (position - 1);
      retry_after_seconds = some (retry_after ms);
    }

unfoldable pub atomic_consume_grouped_buckets :
    List GroupedBucketSpec → Store → GroupedConsumeResult × Store
unfolding lua_check lua_script read_reply
atomic_consume_grouped_buckets bs s =
    let (reply, t) = lua_script bs (lua_check 1 bs s) in (read_reply bs reply, t)

-- `ttl_ms < 1`: the fallback also renews a key whose time to live has run down to 0.
abbrev is_spent : Option ℕ → Bool
is_spent none = true
is_spent (some ttl) = ltb ttl 1

abbrev ttl_or : ℕ → Option ℕ → ℕ
ttl_or d none = d
ttl_or d (some ttl) = ttl

compat_block : ℕ → GroupedBucketSpec → Store → GroupedConsumeResult × Store
compat_block i b s =
    let spent = is_spent (pttl b.key s) in
    let ms = if spent then expiry_ms b else ttl_or 0 (pttl b.key s) in
    (
      record {
        allowed = false;
        blocked_index = some i;
        retry_after_seconds = some (retry_after ms);
      },
      if spent then pexpire b.key ms s else s,
    )

-- The first loop of the fallback; none goes on to the second.
compat_check : ℕ → List GroupedBucketSpec → Store → Option (GroupedConsumeResult × Store)
unfolding compat_block
compat_check i [] s = none
compat_check i (b ∷ bs) s =
    let rest = compat_check (suc i) bs s in if is_full b s then some (compat_block i b s) else rest

compat_count : GroupedBucketSpec → Store → Store
compat_count b s =
    let s' = incr b.key s in
    if (get b.key s' == 1) || is_spent (pttl b.key s') then pexpire b.key (expiry_ms b) s' else s'

compat_consume : List GroupedBucketSpec → Store → Store
unfolding compat_count
compat_consume [] s = s
compat_consume (b ∷ bs) s = compat_consume bs (compat_count b s)

compat_finish :
    List GroupedBucketSpec
    → Store
    → Option (GroupedConsumeResult × Store)
    → GroupedConsumeResult × Store
unfolding compat_consume
compat_finish bs s none = (allowed_result, compat_consume bs s)
compat_finish bs s (some result) = result

-- The commands of one call, with no command of another client in between.
unfoldable pub compatibility_consume_grouped_buckets_with_same_keys :
    List GroupedBucketSpec → Store → GroupedConsumeResult × Store
unfolding compat_check compat_finish
compatibility_consume_grouped_buckets_with_same_keys bs s = compat_finish bs s (compat_check 0 bs s)
