-- ===== src/Cache/Bounds.antt =====
-- How many rows the tables of backend/cache.py hold, and what a sweep leaves.
use mathlib.Core.Path.{subst}
use meander.Common.{
  All, Option, String, arith, if_ind, length, ltb, refl, ℕ, ◌+◌, ◌<◌, ◌==◌, ◌≡◌, ◌≤◌,
}
use meander.Cache.{
  Cache, Json, Reply, Row, Stamps, close, geocode_cache_max_rows, get_geocode, get_route, look_up,
  route_cache_max_rows, row_of, set_geocodes, set_routes, sweep_every_n_writes,
}
use meander.Cache.Sweep.{count_removed, drop_rows, purge_expired, sweep}
use meander.Cache.Writes.{maybe_sweep, put_geocode, put_route, set_writes}
use meander.Cache.Rows.{
  IsFresh, evict_over-All, length-evict_over-le, purge_expired-IsFresh, purge_expired-removed,
}
use meander.Common.Dict.{Dict, length-delete-le, length-put-le, put}

module _ {S P : Type 0} (stamps : Stamps S) where
  abbrev pub rows_of : Cache S P → ℕ
  rows_of c = length c.routes + length c.geocodes

  -- After a sweep: both tables within their ceilings, every row left in UTC with an expiry later than
  -- the sweep, and the count of removed rows true.
  abbrev pub IsSwept : ℕ → Cache S P → Cache S P → ℕ → Type 0
  IsSwept now before after removed =
      (length after.routes ≤ route_cache_max_rows)
      × (length after.geocodes ≤ geocode_cache_max_rows)
      × All (λ e. IsFresh stamps now e.1) after.routes
      × All (λ e. IsFresh stamps now e.1) after.geocodes
      × (rows_of after + removed ≡ rows_of before)
      × (after.closed ≡ before.closed)
      × (after.writes_since_sweep ≡ before.writes_since_sweep)

  drop_rows-IsSwept :
      (now : ℕ) (c : Cache S P)
      → IsSwept now c (drop_rows stamps now c).0 (drop_rows stamps now c).1
  unfolding drop_rows set_routes set_geocodes
  drop_rows-IsSwept now c =
      let live = (purge_expired stamps now c.routes).0 in
      let places = (purge_expired stamps now c.geocodes).0 in
      let (few, _, gone) = length-evict_over-le stamps route_cache_max_rows live in
      let (few_places, _, gone_places) =
        length-evict_over-le stamps geocode_cache_max_rows places in
      (
        few,
        few_places,
        evict_over-All stamps (IsFresh stamps now) route_cache_max_rows live
            (purge_expired-IsFresh stamps now c.routes),
        evict_over-All stamps (IsFresh stamps now) geocode_cache_max_rows places
            (purge_expired-IsFresh stamps now c.geocodes),
        omega (
          arith,
          gone,
          gone_places,
          purge_expired-removed stamps now c.routes,
          purge_expired-removed stamps now c.geocodes,
        ),
        refl,
        refl,
      )

  -- A sweep leaves at most 500 routes and 5000 places, no row that has expired or whose expiry is not in
  -- UTC, and returns how many rows went.
  pub sweep-IsSwept :
      (now : ℕ) (c : Cache S P) → IsSwept now c (sweep stamps now c).0 (sweep stamps now c).1
  unfolding sweep count_removed
  sweep-IsSwept now c =
      let dropped = drop_rows-IsSwept now c in
      if_ind (λ (p : Cache S P × ℕ). IsSwept now c p.0 p.1) ((drop_rows stamps now c).1 == 0)
        (λ h. subst (IsSwept now c (drop_rows stamps now c).0) (ground arith) dropped) λ h. dropped

  -- Between sweeps the tables may be over their ceilings by one row for each write since the last.
  abbrev pub IsBounded : Cache S P → Type 0
  IsBounded c =
      (c.writes_since_sweep < sweep_every_n_writes)
      × (length c.routes ≤ route_cache_max_rows + c.writes_since_sweep)
      × (length c.geocodes ≤ geocode_cache_max_rows + c.writes_since_sweep)

  maybe_sweep-IsBounded :
      (later : ℕ) (c : Cache S P)
      → c.writes_since_sweep < sweep_every_n_writes
      → length c.routes ≤ route_cache_max_rows + c.writes_since_sweep + 1
      → length c.geocodes ≤ geocode_cache_max_rows + c.writes_since_sweep + 1
      → IsBounded (maybe_sweep stamps later c)
  unfolding maybe_sweep set_writes
  maybe_sweep-IsBounded later c few routes places =
      let start = set_writes 0 c in
      let (r, p, _, _, _, _, w) = sweep-IsSwept later start in
      if_ind IsBounded (ltb (c.writes_since_sweep + 1) sweep_every_n_writes) (λ h. ground arith)
        λ h. (omega (arith, w), omega (arith, r), omega (arith, p))

  length-look_up-le :
      (now : ℕ) (key : String) (rows : Dict (Row S P))
      → length (look_up stamps now key rows).0 ≤ length rows
  unfolding look_up
  length-look_up-le now key rows = ground (arith, length-delete-le key rows)

  module _ {J : Type 0} (json : Json J P) where
    put_route-IsBounded :
        (now later : ℕ) (key : String) (payload : J) (ttl_s : ℕ) (c : Cache S P)
        → IsBounded c
        → IsBounded (put_route stamps json now later key payload ttl_s c).0
    unfolding put_route set_routes
    put_route-IsBounded now later key payload ttl_s c h =
        let grown = length-put-le key (row_of stamps json now payload ttl_s) c.routes in
        if_ind (λ (p : Cache S P × Reply Unit). IsBounded p.0) c.closed (λ k. h)
          λ k.
            maybe_sweep-IsBounded later
              (set_routes (put key (row_of stamps json now payload ttl_s) c.routes) c) (omega arith)
              (omega arith) (omega arith)

    put_geocode-IsBounded :
        (now later : ℕ) (key : String) (payload : J) (ttl_s : ℕ) (c : Cache S P)
        → IsBounded c
        → IsBounded (put_geocode stamps json now later key payload ttl_s c).0
    unfolding put_geocode set_geocodes
    put_geocode-IsBounded now later key payload ttl_s c h =
        let grown = length-put-le key (row_of stamps json now payload ttl_s) c.geocodes in
        if_ind (λ (p : Cache S P × Reply Unit). IsBounded p.0) c.closed (λ k. h)
          λ k.
            maybe_sweep-IsBounded later
              (set_geocodes (put key (row_of stamps json now payload ttl_s) c.geocodes) c)
              (omega arith) (omega arith) (omega arith)

    get_route-IsBounded :
        (now : ℕ) (key : String) (c : Cache S P)
        → IsBounded c
        → IsBounded (get_route stamps json now key c).0
    unfolding get_route set_routes
    get_route-IsBounded now key c h =
        let fewer = length-look_up-le now key c.routes in
        if_ind (λ (p : Cache S P × Reply (Option J)). IsBounded p.0) c.closed (λ k. h)
          λ k. (omega arith, omega arith, omega arith)

    get_geocode-IsBounded :
        (now : ℕ) (key : String) (c : Cache S P)
        → IsBounded c
        → IsBounded (get_geocode stamps json now key c).0
    unfolding get_geocode set_geocodes
    get_geocode-IsBounded now key c h =
        let fewer = length-look_up-le now key c.geocodes in
        if_ind (λ (p : Cache S P × Reply (Option J)). IsBounded p.0) c.closed (λ k. h)
          λ k. (omega arith, omega arith, omega arith)

  close-IsBounded : (c : Cache S P) → IsBounded c → IsBounded (close c)
  unfolding close
  close-IsBounded c h = h

  -- A write of either kind keeps both tables within their ceilings and one row for each write since the
  -- last sweep; so does a look-up, and so does closing.
  pub operations-IsBounded :
      {J : Type 0} (json : Json J P) (now later : ℕ) (key : String) (payload : J) (ttl_s : ℕ)
      (c : Cache S P)
      → IsBounded c
      → IsBounded (put_route stamps json now later key payload ttl_s c).0
        × IsBounded (put_geocode stamps json now later key payload ttl_s c).0
        × IsBounded (get_route stamps json now key c).0
        × IsBounded (get_geocode stamps json now key c).0
        × IsBounded (close c)
  operations-IsBounded json now later key payload ttl_s c h = (
    put_route-IsBounded json now later key payload ttl_s c h,
    put_geocode-IsBounded json now later key payload ttl_s c h,
    get_route-IsBounded json now key c h,
    get_geocode-IsBounded json now key c h,
    close-IsBounded c h,
  )
