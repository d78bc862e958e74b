-- ===== src/RateLimit/Buckets.antt =====
-- What each part of `check` does to the buckets.
use meander.Common.{
  All, Bool-cases, String, arith, inl, inr, leb, length, ltb, lt→ltb, take, ℕ, ◌-◌, ◌/◌, ◌<◌, ◌≡◌,
  ◌≤◌,
}
use meander.Common.Dict.{
  Dict, delete_all, delete_all-All, keys, length-delete_all-le, length-delete_prefix,
}
use meander.Common.Sort.{keep, length-sort_by, sort_by}
use meander.RateLimit.{
  Bucket, drop_oldest, drop_stale, evict_locked, idle_eviction_ms, max_buckets, seen_first,
}

-- After an eviction there is room for one more bucket.
pub length-evict_locked :
    (now : ℕ) (d : Dict Bucket) → length d ≤ max_buckets → length (evict_locked now d) < max_buckets
unfolding evict_locked
length-evict_locked now d h =
    let stale =
      keys (keep (λ (e : String × Bucket). ltb idle_eviction_ms (now - e.1.last_seen)) d) in
    let rest = delete_all stale d in
    ground (
      arith,
      length-delete_all-le stale d,
      length-sort_by seen_first rest,
      length-delete_prefix seen_first (length (sort_by seen_first rest) / 2) rest,
    )

-- Below the bound nothing is evicted.
pub evict_locked_below :
    (now : ℕ) (d : Dict Bucket) → length d < max_buckets → evict_locked now d ≡ d
unfolding evict_locked
evict_locked_below now d h = rw (lt→ltb _ _ h)

-- What holds of every bucket still does after an eviction.
pub evict_locked-All {κ} :
    (P : Bucket → Type κ) (now : ℕ) (d : Dict Bucket)
    → All (λ e. P e.1) d
    → All (λ e. P e.1) (evict_locked now d)
unfolding evict_locked drop_stale drop_oldest
evict_locked-All P now d h =
    let kept =
      delete_all-All P
        (keys (keep (λ (e : String × Bucket). ltb idle_eviction_ms (now - e.1.last_seen)) d)) d h in
    let rest = drop_stale now d in
    let halved =
      delete_all-All P
        (keys (take (length (sort_by seen_first rest) / 2) (sort_by seen_first rest))) rest kept in
    elim (Bool-cases (ltb (length d) max_buckets)) [
      | inl few ↦ rw few h
      | inr many ↦ elim (Bool-cases (leb max_buckets (length rest))) [
        | inl full ↦ rw (many, full) halved
        | inr room ↦ rw (many, room) kept
      ]
    ]
