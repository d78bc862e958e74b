-- ===== src/RateLimit/Rate.antt =====
-- How many requests of one caller `check` (backend/ratelimit.py) lets through in a stretch of time.
use meander.Common.{Bool, Option, String, if◌then◌else◌, length, str_eq, ℕ, ◌&&◌, ◌+◌, ◌≡◌, ◌≤◌}
use meander.Common.Dict.{get}
use meander.RateLimit.{Decision, RateLimiter, client_digest}
use meander.RateLimit.Accounts.{Account}

module _ (blake2b : String → String) (key : String) where
  abbrev one_if : Bool → ℕ
  one_if b = if b then 1 else 0

  -- What one request does to the account, `mine` if it was let through for `key`.
  record IsCharged (l : RateLimiter) (t0 g now n : ℕ) (r : RateLimiter × Decision) (mine : Bool)
      : Type 0 where
    capacity : r.0.capacity ≡ l.capacity
    refill : r.0.refill_per_min ≡ l.refill_per_min
    grown : length r.0.buckets ≤ length l.buckets + 1
    account :
        Account l.capacity g l.refill_per_min t0 now
          (one_if (mine && r.1.is_allowed) + n)
          (get key r.0.buckets)

  abbrev given : Option String → ℕ
  given ip = one_if (str_eq (client_digest blake2b ip) key)

  -- A refund, whoever's it is.
  record IsRefunded (ip : Option String) (l : RateLimiter) (t0 g t n : ℕ) (r : RateLimiter)
      : Type 0 where
    capacity : r.capacity ≡ l.capacity
    refill : r.refill_per_min ≡ l.refill_per_min
    grown : length r.buckets ≡ length l.buckets
    account : Account l.capacity (given ip + g) l.refill_per_min t0 t n (get key r.buckets)
