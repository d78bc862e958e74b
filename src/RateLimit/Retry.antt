-- ===== src/RateLimit/Retry.antt =====
-- What the waiting time of a refusal is worth (backend/ratelimit.py).
use text.Mathlib.TextPositions.{eq_refl}
use native.Mathlib.Nat.{div-add-mod, mod-lt, mul-le-mul, le_refl}
use meander.Common.{
  Bool, Option, String, arith, false, leb, lt→ltb, some, true, ℕ, ◌&&◌, ◌*◌, ◌+◌, ◌-◌, ◌<◌, ◌∙◌,
  ◌≡◌, ◌≤◌,
}
use meander.Common.Dict.{get}
use meander.RateLimit.{
  Bucket, RateLimiter, admit, charge, check, client_digest, open_bucket, per_ip, refill_bucket,
  roll_day_locked, token, wait_for,
}
use meander.RateLimit.Requests.{get-charge, is_allowed-admit, open_bucket-fields, refilled}
use meander.RateLimit.Accounts.{charge-fields, roll_day_locked-fields}

-- The level after a wait of the announced number of seconds is a token or more.
wait_for_enough :
    (refill tokens : ℕ)
    → 0 < refill
    → tokens < token
    → token ≤ tokens + wait_for refill tokens * 1000 * refill
unfolding wait_for
wait_for_enough refill tokens positive low = grind (
  arith,
  div-add-mod (token - tokens) (1000 * refill),
  mod-lt (token - tokens) {m = 1000 * refill},
)

-- What a refusal for the caller's own bucket leaves behind.
refused-charge :
    (key : String) (counts : Bool) (l : RateLimiter) (b : Bucket)
    → (charge key counts l b).1.reason ≡ per_ip
    → (b.tokens < token)
      × ((charge key counts l b).1.retry_after_s ≡ wait_for l.refill_per_min b.tokens)
unfolding charge
refused-charge key counts l b h = ground arith

module _ (blake2b : String → String) (ip : Option String) where
  abbrev key : String
  key = client_digest blake2b ip

  -- A check that the ceiling lets pass is the end of `check`, on today's state.
  check-admit :
      (now wall : ℕ) (counts : Bool) (l : RateLimiter)
      → (counts && leb (roll_day_locked wall l).ceiling (roll_day_locked wall l).served) ≡ false
      → check blake2b ip now wall counts l ≡ admit key now counts (roll_day_locked wall l)
  unfolding check
  check-admit now wall counts l h = rw h

  -- The end of `check` lets a caller with a stored bucket through once the refill has made a token.
  admit_again :
      (now : ℕ) (counts : Bool) (l : RateLimiter) (b : Bucket)
      → get key l.buckets ≡ some b
      → 1 ≤ l.capacity
      → token ≤ b.tokens + (now - b.last_refill) * l.refill_per_min
      → (admit key now counts l).1.is_allowed ≡ true
  unfolding open_bucket refill_bucket
  admit_again now counts l b found one enough =
      is_allowed-admit key now counts l ∙ rw (found, open_bucket) (ground arith)

  -- What `admit` leaves when it refuses.
  admit-refused :
      (now : ℕ) (counts : Bool) (l : RateLimiter)
      → (admit key now counts l).1.reason ≡ per_ip
      → (get key (admit key now counts l).0.buckets ≡ some (refilled key now l))
        × ((refilled key now l).tokens < token)
        × ((admit key now counts l).1.retry_after_s
            ≡ wait_for l.refill_per_min (refilled key now l).tokens)
  unfolding admit
  admit-refused now counts l h =
      let (low, wait) =
        refused-charge key counts (open_bucket key now l).0 (refilled key now l) h in
      (
        get-charge key key counts (open_bucket key now l).0 (refilled key now l)
            ∙ rw (eq_refl key, lt→ltb _ _ low),
        low,
        wait ∙ rw (open_bucket-fields key now l).1,
      )

  -- The time from a check to a reading of the clock that many whole seconds later.
  waited :
      (refill tokens now now' : ℕ)
      → 0 < refill
      → tokens < token
      → now + wait_for refill tokens * 1000 ≤ now'
      → token ≤ tokens + (now' - now) * refill
  waited refill tokens now now' positive low h = omega (
    arith,
    wait_for_enough refill tokens positive low,
    mul-le-mul (let enough : wait_for refill tokens * 1000 ≤ now' - now = omega arith in enough)
        (le_refl refill),
  )

  check-per_ip :
      (now wall : ℕ) (counts : Bool) (l : RateLimiter)
      → (check blake2b ip now wall counts l).1.reason ≡ per_ip
      → check blake2b ip now wall counts l ≡ admit key now counts (roll_day_locked wall l)
  unfolding check
  check-per_ip now wall counts l h = ground arith

  check_again :
      (now wall : ℕ) (counts : Bool) (l : RateLimiter) (b : Bucket)
      → get key l.buckets ≡ some b
      → 1 ≤ l.capacity
      → token ≤ b.tokens + (now - b.last_refill) * l.refill_per_min
      → (counts && leb (roll_day_locked wall l).ceiling (roll_day_locked wall l).served) ≡ false
      → (check blake2b ip now wall counts l).1.is_allowed ≡ true
  check_again now wall counts l b found one enough under =
      let (cap, refill, same) = roll_day_locked-fields wall l in
      rw (check-admit now wall counts l under) (
        admit_again now counts (roll_day_locked wall l) b (rw same found) (rw cap one)
          (rw refill enough))

  admit-rates :
      (now : ℕ) (counts : Bool) (l : RateLimiter)
      → ((admit key now counts l).0.capacity ≡ l.capacity)
        × ((admit key now counts l).0.refill_per_min ≡ l.refill_per_min)
  unfolding admit
  admit-rates now counts l =
      let o = (open_bucket key now l).0 in
      let (cap, refill) = charge-fields key counts o (refilled key now l) in
      let (cap', refill') = open_bucket-fields key now l in (cap ∙ cap', refill ∙ refill')

  admit_retry :
      (now now' wall' : ℕ) (counts counts' : Bool) (l : RateLimiter)
      → 1 ≤ l.capacity
      → 0 < l.refill_per_min
      → (admit key now counts l).1.reason ≡ per_ip
      → now + (admit key now counts l).1.retry_after_s * 1000 ≤ now'
      → (let today = roll_day_locked wall' (admit key now counts l).0 in
          (counts' && leb today.ceiling today.served) ≡ false)
      → (check blake2b ip now' wall' counts' (admit key now counts l).0).1.is_allowed ≡ true
  admit_retry now now' wall' counts counts' l cap positive refused later under =
      let (found, low, wait) = admit-refused now counts l refused in
      let (cap', refill') = admit-rates now counts l in
      check_again now' wall' counts' (admit key now counts l).0 (refilled key now l) found
        (rw cap' cap)
        (rw refill' (
          unfold refill_bucket in
          waited l.refill_per_min (refilled key now l).tokens now now' positive low
            (rw wait at later)))
        under

  -- A caller refused for its own bucket that comes back after the announced number of seconds is
  -- let through, if the refill and the capacity are positive and the ceiling does not refuse it.
  pub retry_after_works :
      (now now' wall wall' : ℕ) (counts counts' : Bool) (l : RateLimiter)
      → 1 ≤ l.capacity
      → 0 < l.refill_per_min
      → (check blake2b ip now wall counts l).1.reason ≡ per_ip
      → now + (check blake2b ip now wall counts l).1.retry_after_s * 1000 ≤ now'
      → (let today = roll_day_locked wall' (check blake2b ip now wall counts l).0 in
          (counts' && leb today.ceiling today.served) ≡ false)
      → (check blake2b ip now' wall' counts' (check blake2b ip now wall counts l).0).1.is_allowed
        ≡ true
  retry_after_works now now' wall wall' counts counts' l cap positive refused later under =
      let e = check-per_ip now wall counts l refused in
      let (cap', refill', same) = roll_day_locked-fields wall l in
      rw e (
        admit_retry now now' wall' counts counts' (roll_day_locked wall l) (rw cap' cap)
          (rw refill' positive) (rw e at refused) (rw e at later) (rw e at under))
