-- ===== src/Cache/Rows.antt =====
-- What a purge and an eviction leave of a table (backend/cache.py).
use meander.Common.{
  All, All-imp, Bool-cases, String, arith, false, inl, inr, length, not, take, true, ℕ, ◌+◌, ◌-◌,
  ◌==◌, ◌≡◌, ◌≤◌,
}
use meander.Common.Dict.{Dict, delete_all-All, keys, length-delete_all-le, length-delete_prefix}
use meander.Common.Sort.{keep, keep-All, length-keep-le, sort_by}
use meander.Cache.{Row, Stamps}
use meander.Cache.Sweep.{evict_over, is_expired, older, oldest_keys, purge_expired}

module _ {S P : Type 0} (stamps : Stamps S) where
  pub length-purge_expired-le :
      (now : ℕ) (rows : Dict (Row S P)) → length (purge_expired stamps now rows).0 ≤ length rows
  unfolding purge_expired
  length-purge_expired-le now rows = length-keep-le (λ e. not (is_expired stamps now e.1)) rows

  pub purge_expired-removed :
      (now : ℕ) (rows : Dict (Row S P))
      → length (purge_expired stamps now rows).0 + (purge_expired stamps now rows).1 ≡ length rows
  unfolding purge_expired
  purge_expired-removed now rows =
      omega (arith, length-keep-le (λ e. not (is_expired stamps now e.1)) rows)

  pub length-evict_over-le :
      (ceiling : ℕ) (rows : Dict (Row S P))
      → (length (evict_over stamps ceiling rows).0 ≤ ceiling)
        × (length (evict_over stamps ceiling rows).0 ≤ length rows)
        × (length (evict_over stamps ceiling rows).0 + (evict_over stamps ceiling rows).1
            ≡ length rows)
  unfolding evict_over oldest_keys
  length-evict_over-le ceiling rows =
      let bound = length-delete_prefix (older stamps) (length rows - ceiling) rows in
      let fewer =
        length-delete_all-le (keys (take (length rows - ceiling) (sort_by (older stamps) rows)))
          rows in
      ground arith

  -- Every row that a purge leaves is in UTC and expires later.
  abbrev pub IsFresh : ℕ → Row S P → Type 0
  IsFresh now row =
      (stamps.at_most row.expires_at (stamps.iso now) ≡ false)
      × (stamps.ends_utc row.expires_at ≡ true)

  IsFresh-of : (now : ℕ) (row : Row S P) → not (is_expired stamps now row) ≡ true → IsFresh now row
  unfolding is_expired
  IsFresh-of now row h = ground arith

  pub purge_expired-IsFresh :
      (now : ℕ) (rows : Dict (Row S P))
      → All (λ e. IsFresh now e.1) (purge_expired stamps now rows).0
  unfolding purge_expired
  purge_expired-IsFresh now rows =
      All-imp (λ (e : String × Row S P). not (is_expired stamps now e.1) ≡ true)
        (λ e. IsFresh now e.1) (keep (λ e. not (is_expired stamps now e.1)) rows)
        (λ e h. IsFresh-of now e.1 h) (keep-All (λ e. not (is_expired stamps now e.1)) rows)

  pub evict_over-All :
      (F : Row S P → Type 0) (ceiling : ℕ) (rows : Dict (Row S P))
      → All (λ e. F e.1) rows
      → All (λ e. F e.1) (evict_over stamps ceiling rows).0
  unfolding evict_over
  evict_over-All F ceiling rows h = elim (Bool-cases (length rows - ceiling == 0)) [
    | inl e ↦ rw e h
    | inr e ↦ rw e (delete_all-All F (oldest_keys stamps (length rows - ceiling) rows) rows h)
  ]
