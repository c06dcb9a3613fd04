-- ===== src/RateLimit/Redis.antt =====
-- The Redis commands that the grouped limiter sends. A key is a number that stands for its text;
-- a store maps a key to its counter and its time to live in milliseconds.
use fastapi_saas_template.Prelude.{ℕ, suc, Option, none, some, ◌==◌, if◌then◌else◌}

pub record Counter : Type 0 where
  pub value : ℕ
  pub ttl_ms : Option ℕ

abbrev pub Store : Type 0
Store = ℕ → Option Counter

abbrev pub put : ℕ → Option Counter → Store → Store
put k c s j = if k == j then c else s j

abbrev value_of : Option Counter → ℕ
value_of none = 0
value_of (some c) = c.value

-- `tonumber(redis.call('GET', key) or '0')`
abbrev pub get : ℕ → Store → ℕ
get k s = value_of (s k)

-- `PTTL`; none stands for the negative replies, -2 for a missing key and -1 for no expiry.
abbrev ttl_of : Option Counter → Option ℕ
ttl_of none = none
ttl_of (some c) = c.ttl_ms

abbrev pub pttl : ℕ → Store → Option ℕ
pttl k s = ttl_of (s k)

abbrev increment : Option Counter → Counter
increment none = record { value = 1; ttl_ms = none }
increment (some c) = record { value = suc c.value; ttl_ms = c.ttl_ms }

abbrev pub incr : ℕ → Store → Store
incr k s = put k (some (increment (s k))) s

abbrev expire : ℕ → Option Counter → Option Counter
expire ms none = none
expire ms (some c) = if ms == 0 then none else some (record { value = c.value; ttl_ms = some ms })

-- `PEXPIRE`: no effect on a missing key, and a time of 0 deletes the key.
abbrev pub pexpire : ℕ → ℕ → Store → Store
pexpire k ms s = put k (expire ms (s k)) s
