-- ===== src/RateLimit.antt =====
-- backend/ratelimit.py: `RateLimiter`, a token bucket for each caller and a daily ceiling.
--
-- Units: the monotonic clock is read in milliseconds, and a bucket's level is counted in 60000ths
-- of a token, so that a refill of whole tokens per minute is exact. The wall clock is UTC in
-- microseconds since the epoch; a day is its number, which `date().isoformat()` spells. The lock is
-- held for the whole of each method, so a method is one step. `hashlib.blake2b` with the process's
-- salt is the parameter `blake2b`.
pub mod Buckets
pub mod Invariant
pub mod Requests
pub mod Accounts
pub mod Rate
pub mod Retry
pub mod Refund
mod Tests
use meander.Common.{
  Bool, Option, String, [], false, if◌then◌else◌, leb, length, ltb, max, min, none, some, str_eq,
  take, true, ℕ, ◌%◌, ◌&&◌, ◌*◌, ◌+◌, ◌-◌, ◌/◌, ◌==◌,
}
use meander.Common.Dict.{Dict, delete_all, get, keys, put}
use meander.Common.Sort.{keep, sort_by}

-- One token, in the units of a bucket's level.
abbrev pub token : ℕ
token = 60000

abbrev pub idle_eviction_ms : ℕ
idle_eviction_ms = 3600000

abbrev pub max_buckets : ℕ
max_buckets = 20000

abbrev pub day_us : ℕ
day_us = 86400000000

pub record Bucket : Type 0 where
  pub tokens : ℕ
  pub last_refill : ℕ
  pub last_seen : ℕ

pub data Reason : Type 0 where
  allowed daily_ceiling per_ip : Reason

-- The sentence of a refusal: the second one names the seconds to wait.
pub data Message : Type 0 where
  silent allowance_used : Message
  please_wait : ℕ → Message

pub record Decision : Type 0 where
  pub is_allowed : Bool
  pub reason : Reason
  pub message : Message
  pub retry_after_s : ℕ

pub record RateLimiter : Type 0 where
  pub capacity : ℕ
  pub refill_per_min : ℕ
  pub ceiling : ℕ
  pub buckets : Dict Bucket
  pub day : ℕ
  pub served : ℕ

-- `ip or "unknown"`: neither a missing nor an empty address has a bucket of its own.
unfoldable pub client_digest : (String → String) → Option String → String
client_digest blake2b none = blake2b "unknown"
client_digest blake2b (some ip) = blake2b (if str_eq ip "" then "unknown" else ip)

abbrev pub seen_first : String × Bucket → String × Bucket → Bool
seen_first a b = leb a.1.last_seen b.1.last_seen

-- The buckets idle for longer than the eviction time go.
unfoldable pub drop_stale : ℕ → Dict Bucket → Dict Bucket
drop_stale now d = delete_all (keys (keep (λ e. ltb idle_eviction_ms (now - e.1.last_seen)) d)) d

-- The half that was seen the longest ago goes.
unfoldable pub drop_oldest : Dict Bucket → Dict Bucket
drop_oldest d =
    let ordered = sort_by seen_first d in delete_all (keys (take (length ordered / 2) ordered)) d

unfoldable pub evict_locked : ℕ → Dict Bucket → Dict Bucket
unfolding drop_stale drop_oldest
evict_locked now d =
    let rest = drop_stale now d in
    if ltb (length d) max_buckets
    then d
    else if leb max_buckets (length rest)
    then drop_oldest rest
    else rest

unfoldable pub roll_day_locked : ℕ → RateLimiter → RateLimiter
roll_day_locked wall l =
    let today = wall / day_us in if today == l.day then l else record l { day = today; served = 0 }

unfoldable pub seconds_to_midnight_utc : ℕ → ℕ
seconds_to_midnight_utc wall = max 1 ((day_us - wall % day_us) / 1000000)

-- The bucket's level at `now`, at most the capacity.
unfoldable pub refill_bucket : ℕ → ℕ → ℕ → Bucket → Bucket
refill_bucket capacity refill now b = record {
  tokens = min (capacity * token) (b.tokens + (now - b.last_refill) * refill);
  last_refill = now;
  last_seen = now;
}

-- The caller's bucket; a new one is full, and is stored after the eviction.
unfoldable pub open_bucket : String → ℕ → RateLimiter → RateLimiter × Bucket
open_bucket key now l = elim (get key l.buckets) [
  | some b ↦ (l, b)
  | none ↦
      let fresh : Bucket = record {
        tokens = l.capacity * token;
        last_refill = now;
        last_seen = now;
      } in
      (record l { buckets = put key fresh (evict_locked now l.buckets) }, fresh)
]

-- int(deficit / max(refill_per_min, 0.01) * 60) + 1, for a level below one token
unfoldable pub wait_for : ℕ → ℕ → ℕ
wait_for refill tokens =
    (if refill == 0 then (token - tokens) / 10 else (token - tokens) / (1000 * refill)) + 1

abbrev pub admitted : Decision
admitted = record { is_allowed = true; reason = allowed; message = silent; retry_after_s = 0 }

-- The end of `check`, on the caller's refilled bucket.
unfoldable pub charge : String → Bool → RateLimiter → Bucket → RateLimiter × Decision
unfolding wait_for
charge key counts l b =
    let wait = wait_for l.refill_per_min b.tokens in
    if ltb b.tokens token
    then (
      record l { buckets = put key b l.buckets },
      record {
        is_allowed = false;
        reason = per_ip;
        message = please_wait wait;
        retry_after_s = wait;
      },
    )
    else (
      record l {
        buckets = put key (record b { tokens = b.tokens - token }) l.buckets;
        served = if counts then l.served + 1 else l.served;
      },
      admitted,
    )

-- `check` after the ceiling's test.
unfoldable pub admit : String → ℕ → Bool → RateLimiter → RateLimiter × Decision
admit key now counts l =
    let (l', b) = open_bucket key now l in
    charge key counts l' (refill_bucket l.capacity l.refill_per_min now b)

unfoldable pub check :
    (String → String) → Option String → (now wall : ℕ) → Bool → RateLimiter → RateLimiter × Decision
check blake2b ip now wall counts old =
    let l = roll_day_locked wall old in
    if counts && leb l.ceiling l.served
    then (
      l,
      record {
        is_allowed = false;
        reason = daily_ceiling;
        message = allowance_used;
        retry_after_s = seconds_to_midnight_utc wall;
      },
    )
    else admit (client_digest blake2b ip) now counts l

unfoldable pub refund : (String → String) → Option String → RateLimiter → RateLimiter
refund blake2b ip l = elim (get (client_digest blake2b ip) l.buckets) [
  | none ↦ l
  | some b ↦ record l {
    buckets =
        put (client_digest blake2b ip)
          (record b { tokens = min (l.capacity * token) (b.tokens + token) }) l.buckets;
    served = l.served - 1;
  }
]

unfoldable pub served_today : ℕ → RateLimiter → RateLimiter × ℕ
served_today wall old = let l = roll_day_locked wall old in (l, l.served)

unfoldable pub reset : ℕ → RateLimiter → RateLimiter
reset wall l = record l { buckets = []; served = 0; day = wall / day_us }
