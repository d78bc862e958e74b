-- ===== src/RateLimit/Tests.antt =====
-- Runs of the limiter (backend/ratelimit.py), and its theorems at concrete inputs.
use meander.RateLimit.Refund.{refund-check, refund_next_day}
use meander.Common.{List, String, [], arith, refl, some, true, ◌∷◌, ◌≡◌}
use meander.Common.Dict.{get, put}
use meander.RateLimit.{
  Bucket, RateLimiter, admit, charge, check, client_digest, evict_locked, open_bucket,
  refill_bucket, refund, roll_day_locked, seconds_to_midnight_utc, served_today,
}
use meander.RateLimit.Invariant.{IsValid, check-IsValid}
use meander.RateLimit.Requests.{Use, allowed_for, ask, give_back, refilled}
use meander.RateLimit.Retry.{retry_after_works}

-- A digest that keeps the address, for the runs.
abbrev plain : String → String
plain s = s

abbrev start : RateLimiter
start = record { capacity = 2; refill_per_min = 1; ceiling = 5; buckets = []; day = 0; served = 0 }

abbrev empty_bucket : Bucket
empty_bucket = record { tokens = 0; last_refill = 1000; last_seen = 1000 }

abbrev drained : RateLimiter
drained = record start { buckets = ("a", empty_bucket) ∷ []; served = 2 }

runs :
    (allowed_for plain "a"
        (ask (record { ip = some "a"; now = 0; wall = 0; counts = true })
          ∷ ask (record { ip = some "a"; now = 10; wall = 0; counts = true })
          ∷ ask (record { ip = some "b"; now = 20; wall = 0; counts = true })
          ∷ ask (record { ip = some "a"; now = 30; wall = 0; counts = true })
          ∷ ask (record { ip = some "a"; now = 60030; wall = 0; counts = true })
          ∷ [])
        start
      ≡ 3)
    × ((check plain (some "a") 1000 0 true drained).1.retry_after_s ≡ 61)
    × (client_digest plain (some "") ≡ "unknown")
    × (seconds_to_midnight_utc 86399999999 ≡ 1)
unfolding allowed_for check admit open_bucket refill_bucket charge roll_day_locked evict_locked
    client_digest seconds_to_midnight_utc get put
runs = (refl, refl, refl, refl)

check-IsValid_example : IsValid (check plain (some "a") 7 0 true drained).0
check-IsValid_example = check-IsValid plain (some "a") 7 0 true {l = drained} (omega arith)

abbrev some_uses : List Use
some_uses =
    ask (record { ip = some "a"; now = 2000; wall = 0; counts = true })
    ∷ give_back (some "a")
    ∷ ask (record { ip = some "b"; now = 3000; wall = 0; counts = true })
    ∷ []

retry_after_works_example :
    (check plain
      (some "a")
      62000
      0
      true
      (check plain (some "a") 1000 0 true drained).0).1.is_allowed
    ≡ true
unfolding check admit open_bucket refill_bucket charge roll_day_locked client_digest get put
retry_after_works_example =
    retry_after_works plain (some "a") 1000 62000 0 0 true true drained (omega arith) (omega arith)
      refl (omega arith) refl

refund-check_example :
    let after = refund plain (some "b") (check plain (some "b") 5 0 true drained).0 in
    (after.served ≡ (roll_day_locked 0 drained).served)
    × (get "b" after.buckets ≡ some (refilled "b" 5 (roll_day_locked 0 drained)))
unfolding check admit open_bucket refill_bucket charge roll_day_locked client_digest get put
    evict_locked
refund-check_example = refund-check plain (some "b") 5 0 drained refl

refund_next_day_example :
    let l = (check plain (some "b") 5 86400000001 true drained).0 in
    (l.served ≡ 1) × ((served_today 86400000001 (refund plain (some "a") l)).1 ≡ 0)
unfolding check admit open_bucket refill_bucket charge roll_day_locked client_digest get put
    evict_locked
refund_next_day_example =
    refund_next_day plain (some "a") (some "b") 5 86400000001 drained empty_bucket refl refl
      (omega arith) (omega arith) refl
