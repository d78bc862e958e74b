-- ===== src/Cache/Writes.antt =====
-- The writes of backend/cache.py, and the sweep that every fiftieth of them starts.
use meander.Common.{String, if◌then◌else◌, ltb, ℕ, ◌+◌}
use meander.Common.Dict.{put}
use meander.Cache.{
  Cache, Json, Reply, Stamps, cache_closed, row_of, set_geocodes, set_routes, sweep_every_n_writes,
  value,
}
use meander.Cache.Sweep.{sweep}

module _ {S P : Type 0} where
  unfoldable pub set_writes : ℕ → Cache S P → Cache S P
  set_writes n c = record {
    routes = c.routes;
    geocodes = c.geocodes;
    writes_since_sweep = n;
    removed_since_reclaim = c.removed_since_reclaim;
    reclaims = c.reclaims;
    closed = c.closed;
  }

module _ {S P : Type 0} (stamps : Stamps S) where
  -- `_maybe_sweep`, the sweep at `later`
  unfoldable pub maybe_sweep : (later : ℕ) → Cache S P → Cache S P
  unfolding set_writes
  maybe_sweep later c =
      let n = c.writes_since_sweep + 1 in
      if ltb n sweep_every_n_writes then set_writes n c else (sweep stamps later (set_writes 0 c)).0

  module _ {J : Type 0} (json : Json J P) where
    unfoldable pub put_route :
        (now later : ℕ) → String → J → (ttl_s : ℕ) → Cache S P → Cache S P × Reply Unit
    unfolding set_routes row_of
    put_route now later key payload ttl_s c = if c.closed then (c, cache_closed) else (
      maybe_sweep later (set_routes (put key (row_of stamps json now payload ttl_s) c.routes) c),
      value tt,
    )

    unfoldable pub put_geocode :
        (now later : ℕ) → String → J → (ttl_s : ℕ) → Cache S P → Cache S P × Reply Unit
    unfolding set_geocodes row_of
    put_geocode now later key payload ttl_s c = if c.closed then (c, cache_closed) else (
      maybe_sweep later
          (set_geocodes (put key (row_of stamps json now payload ttl_s) c.geocodes) c),
      value tt,
    )
