-- ===== src/Cache.antt =====
-- backend/cache.py: the tables of the cache, and the whole-route and the place-search cache in them.
--
-- Instants are whole microseconds. How an instant is written as text, read again and compared as text
-- by SQLite is `datetime`'s and SQLite's: the interface `Stamps`. A payload's JSON is `json`'s: `Json`.
pub mod Sweep
pub mod Writes
pub mod Schema
pub mod Rows
pub mod Bounds
pub mod Lifetime
mod Tests
use meander.Common.{
  Bool, Option, String, false, if◌then◌else◌, leb, ltb, none, some, true, ℕ, ◌*◌, ◌+◌, ◌≡◌,
}
use meander.Common.Dict.{Dict, delete, get}

-- Texts that stand for instants. `parse` is `fromisoformat` with the comparison to an aware instant:
-- `none` where either raises. `at_most` is the order of texts, `ends_utc` the test LIKE '%+00:00'.
pub record Stamps (S : Type 0) : Type 0 where
  pub iso : ℕ → S
  pub parse : S → Option ℕ
  pub at_most : S → S → Bool
  pub ends_utc : S → Bool

-- What the cache relies on of the texts that `isoformat` writes for aware UTC instants.
pub record StampLaws (S : Type 0) (stamps : Stamps S) : Type 0 where
  pub parse-iso : (t : ℕ) → stamps.parse (stamps.iso t) ≡ some t
  pub at_most-iso : (s t : ℕ) → stamps.at_most (stamps.iso s) (stamps.iso t) ≡ leb s t
  pub ends_utc-iso : (t : ℕ) → stamps.ends_utc (stamps.iso t) ≡ true

pub record Json (J P : Type 0) : Type 0 where
  pub dumps : J → P
  pub loads : P → Option J
  pub is_list : J → Bool

pub record Row (S P : Type 0) : Type 0 where
  pub payload : P
  pub created_at : S
  pub expires_at : S

-- The two caches of the file, the counters of the process, how often space was reclaimed, and whether
-- the cache is closed.
pub record Cache (S P : Type 0) : Type 0 where
  pub routes : Dict (Row S P)
  pub geocodes : Dict (Row S P)
  pub writes_since_sweep : ℕ
  pub removed_since_reclaim : ℕ
  pub reclaims : ℕ
  pub closed : Bool

-- A call's value, or `CacheClosed`.
pub data Reply (A : Type 0) : Type 0 where
  value : A → Reply A
  cache_closed : Reply A

-- ROUTE_CACHE_MAX_ROWS, GEOCODE_CACHE_MAX_ROWS, SWEEP_EVERY_N_WRITES, VACUUM_AFTER_ROWS_REMOVED
abbrev pub route_cache_max_rows : ℕ
route_cache_max_rows = 500

abbrev pub geocode_cache_max_rows : ℕ
geocode_cache_max_rows = 5000

abbrev pub sweep_every_n_writes : ℕ
sweep_every_n_writes = 50

abbrev pub vacuum_after_rows_removed : ℕ
vacuum_after_rows_removed = 100

module _ {S P : Type 0} where
  unfoldable pub set_routes : Dict (Row S P) → Cache S P → Cache S P
  set_routes rows c = record {
    routes = rows;
    geocodes = c.geocodes;
    writes_since_sweep = c.writes_since_sweep;
    removed_since_reclaim = c.removed_since_reclaim;
    reclaims = c.reclaims;
    closed = c.closed;
  }

  unfoldable pub set_geocodes : Dict (Row S P) → Cache S P → Cache S P
  set_geocodes rows c = record {
    routes = c.routes;
    geocodes = rows;
    writes_since_sweep = c.writes_since_sweep;
    removed_since_reclaim = c.removed_since_reclaim;
    reclaims = c.reclaims;
    closed = c.closed;
  }

  unfoldable pub close : Cache S P → Cache S P
  close c = record {
    routes = c.routes;
    geocodes = c.geocodes;
    writes_since_sweep = c.writes_since_sweep;
    removed_since_reclaim = c.removed_since_reclaim;
    reclaims = c.reclaims;
    closed = true;
  }

  -- What reading a row comes to: it is unreadable or stale, or its payload is handed to `loads`.
  unfoldable pub is_live : Stamps S → (now : ℕ) → Row S P → Bool
  is_live stamps now row = elim (stamps.parse row.expires_at) [ none ↦ false | some t ↦ ltb now t ]

  -- A look-up in one table: the table after it, and the payload of a live row.
  unfoldable pub look_up :
      Stamps S → (now : ℕ) → String → Dict (Row S P) → Dict (Row S P) × Option P
  unfolding is_live
  look_up stamps now key rows = elim (get key rows) [
    | none ↦ (rows, none)
    | some row ↦
        if is_live stamps now row then (rows, some row.payload) else (delete key rows, none)
  ]

  module _ {J : Type 0} (stamps : Stamps S) (json : Json J P) where
    unfoldable pub load : Option P → Option J
    load none = none
    load (some payload) = json.loads payload

    unfoldable pub keep_list : Option J → Option J
    keep_list none = none
    keep_list (some j) = if json.is_list j then some j else none

    unfoldable pub get_route : (now : ℕ) → String → Cache S P → Cache S P × Reply (Option J)
    unfolding set_routes load
    get_route now key c =
        let (rows, found) = look_up stamps now key c.routes in
        if c.closed then (c, cache_closed) else (set_routes rows c, value (load found))

    unfoldable pub get_geocode : (now : ℕ) → String → Cache S P → Cache S P × Reply (Option J)
    unfolding set_geocodes load keep_list
    get_geocode now key c =
        let (rows, found) = look_up stamps now key c.geocodes in
        if c.closed
        then (c, cache_closed)
        else (set_geocodes rows c, value (keep_list (load found)))

    -- The row that a write at `now` with a lifetime of `ttl_s` seconds stores.
    unfoldable pub row_of : (now : ℕ) → J → (ttl_s : ℕ) → Row S P
    row_of now payload ttl_s = record {
      payload = json.dumps payload;
      created_at = stamps.iso now;
      expires_at = stamps.iso (now + ttl_s * 1000000);
    }
