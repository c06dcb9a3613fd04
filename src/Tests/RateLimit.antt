-- ===== src/Tests/RateLimit.antt =====
-- The theorems of RateLimit at concrete inputs.
use fastapi_saas_template.Prelude.{
  ℕ, ◌≤◌, false, not, ◌≡◌, refl, none, some, is_some, List, [], ◌∷◌, ◌+◌, if◌then◌else◌, arith, inl,
  has_key,
}
use fastapi_saas_template.RateLimit.Redis.{Store, put, get}
use fastapi_saas_template.RateLimit.Grouped.{
  GroupedBucketSpec, atomic_consume_grouped_buckets,
  compatibility_consume_grouped_buckets_with_same_keys,
}
use fastapi_saas_template.RateLimit.Grouped.Agreement.{NoneSpent, fallback-eq-atomic}
use fastapi_saas_template.RateLimit.Grouped.Counting.{
  uses, first_full, atomic_decides, atomic_all_or_nothing, atomic_within_limits,
}

-- Bucket 1 has room for one more; bucket 2 has no counter yet.
abbrev store : Store
store =
    put 1 (some (record { value = 4; ttl_ms = some 2500 }))
      (put 3 (some (record { value = 9; ttl_ms = none })) (λ k. none))

abbrev bucket : ℕ → ℕ → GroupedBucketSpec
bucket key limit = record { key = key; limit = limit; expiry_seconds = 60 }

abbrev open_group : List GroupedBucketSpec
open_group = bucket 1 5 ∷ bucket 2 3 ∷ []

abbrev full_group : List GroupedBucketSpec
full_group = bucket 2 3 ∷ bucket 3 9 ∷ bucket 1 5 ∷ []

full_test :
    (atomic_consume_grouped_buckets full_group store).0
    ≡ record { allowed = false; blocked_index = some 1; retry_after_seconds = some 60 }
unfolding atomic_consume_grouped_buckets
full_test = refl

store-NoneSpent : NoneSpent store
store-NoneSpent k = ground arith

fallback-eq-atomic_example :
    compatibility_consume_grouped_buckets_with_same_keys full_group store
    ≡ atomic_consume_grouped_buckets full_group store
fallback-eq-atomic_example = fallback-eq-atomic full_group store (omega arith) store-NoneSpent

atomic_decides_example :
    ((atomic_consume_grouped_buckets full_group store).0.allowed
      ≡ not (is_some (first_full full_group store)))
    × ((atomic_consume_grouped_buckets full_group store).0.blocked_index
        ≡ first_full full_group store)
atomic_decides_example = atomic_decides full_group store

atomic_all_or_nothing_example :
    get 1 (atomic_consume_grouped_buckets open_group store).1
    ≡ 4
      + (if (atomic_consume_grouped_buckets open_group store).0.allowed
          then uses 1 open_group
          else 0)
atomic_all_or_nothing_example = atomic_all_or_nothing open_group store 1 (omega arith)

atomic_within_limits_example : get 1 (atomic_consume_grouped_buckets open_group store).1 ≤ 5
unfolding has_key
atomic_within_limits_example =
    atomic_within_limits open_group store (bucket 1 5) (omega arith) (refl, (refl, tt)) (inl refl)
      (omega arith)
