-- ===== src/Cache/Sweep.antt =====
-- `sweep` of backend/cache.py and what it is made of.
use meander.Common.{
  Bool, List, String, if◌then◌else◌, leb, length, not, take, ℕ, ◌+◌, ◌-◌, ◌==◌, ◌||◌,
}
use meander.Common.Dict.{Dict, delete_all, keys}
use meander.Common.Sort.{keep, sort_by}
use meander.Cache.{
  Cache, Row, Stamps, geocode_cache_max_rows, route_cache_max_rows, set_geocodes, set_routes,
  vacuum_after_rows_removed,
}

module _ {S P : Type 0} (stamps : Stamps S) where
  -- expires_at <= ? OR expires_at NOT LIKE '%+00:00'
  unfoldable pub is_expired : (now : ℕ) → Row S P → Bool
  is_expired now row =
      stamps.at_most row.expires_at (stamps.iso now) || not (stamps.ends_utc row.expires_at)

  -- `purge_expired_routes` and `purge_expired_geocodes`: the rows left, and how many went.
  unfoldable pub purge_expired : (now : ℕ) → Dict (Row S P) → Dict (Row S P) × ℕ
  unfolding is_expired
  purge_expired now rows =
      let left = keep (λ (e : String × Row S P). not (is_expired now e.1)) rows in
      (left, length rows - length left)

  abbrev pub older : String × Row S P → String × Row S P → Bool
  older x y = stamps.at_most x.1.created_at y.1.created_at

  -- SELECT key ORDER BY created_at ASC LIMIT ?
  unfoldable pub oldest_keys : ℕ → Dict (Row S P) → List String
  oldest_keys n rows = keys (take n (sort_by older rows))

  -- `_evict_over_ceiling` and `_evict_geocodes_over_ceiling`.
  unfoldable pub evict_over : (ceiling : ℕ) → Dict (Row S P) → Dict (Row S P) × ℕ
  unfolding oldest_keys
  evict_over ceiling rows =
      let over = length rows - ceiling in
      let left = delete_all (oldest_keys over rows) rows in
      if over == 0 then (rows, 0) else (left, length rows - length left)

  -- The tables after the four deletions, and the rows removed.
  unfoldable pub drop_rows : (now : ℕ) → Cache S P → Cache S P × ℕ
  unfolding set_routes set_geocodes
  drop_rows now c =
      let (live, a) = purge_expired now c.routes in
      let (routes, b) = evict_over route_cache_max_rows live in
      let (live_places, d) = purge_expired now c.geocodes in
      let (geocodes, e) = evict_over geocode_cache_max_rows live_places in
      (set_geocodes geocodes (set_routes routes c), a + b + d + e)

  -- The rows removed are counted across sweeps, and space is reclaimed once they are enough.
  unfoldable pub count_removed : ℕ → Cache S P → Cache S P
  count_removed removed c =
      let due = leb vacuum_after_rows_removed (c.removed_since_reclaim + removed) in
      record {
        routes = c.routes;
        geocodes = c.geocodes;
        writes_since_sweep = c.writes_since_sweep;
        removed_since_reclaim = if due then 0 else c.removed_since_reclaim + removed;
        reclaims = if due then c.reclaims + 1 else c.reclaims;
        closed = c.closed;
      }

  unfoldable pub sweep : (now : ℕ) → Cache S P → Cache S P × ℕ
  unfolding count_removed
  sweep now c =
      let (swept, removed) = drop_rows now c in
      if removed == 0 then (swept, 0) else (count_removed removed swept, removed)
