-- ===== src/RateLimit/Refund.antt =====
-- What a refund restores, and when it does not (backend/ratelimit.py).
use meander.Common.{
  Bool, Bool-cases, Option, String, ap, arith, false, inl, inr, length, ltb, min, refl, some,
  str_eq, true, ℕ, ◌*◌, ◌+◌, ◌-◌, ◌/◌, ◌<◌, ◌∙◌, ◌≡◌, ◌≢◌, ◌≤◌,
}
use meander.Common.Dict.{get, get-put_self}
use meander.RateLimit.{
  Bucket, RateLimiter, admit, charge, check, client_digest, day_us, max_buckets, open_bucket,
  refill_bucket, refund, roll_day_locked, served_today, token,
}
use meander.RateLimit.Requests.{get-admit, open_bucket-fields, refilled}
use meander.RateLimit.Accounts.{roll_day_locked-fields}

module _ (blake2b : String → String) (ip : Option String) where
  abbrev key : String
  key = client_digest blake2b ip

  check-allowed :
      (now wall : ℕ) (l : RateLimiter)
      → (check blake2b ip now wall true l).1.is_allowed ≡ true
      → check blake2b ip now wall true l ≡ admit key now true (roll_day_locked wall l)
  unfolding check
  check-allowed now wall l h = ground arith

  -- What `charge` leaves when it lets a counted request through.
  charge-allowed :
      (l : RateLimiter) (b : Bucket)
      → (charge key true l b).1.is_allowed ≡ true
      → ((charge key true l b).0.served ≡ l.served + 1)
        × ((charge key true l b).0.capacity ≡ l.capacity)
        × (token ≤ b.tokens)
        × (get key (charge key true l b).0.buckets ≡ some (record b { tokens = b.tokens - token }))
  unfolding charge
  charge-allowed l b h = elim (Bool-cases (ltb b.tokens token)) [
    | inl few ↦ absurd (ground arith)
    | inr enough ↦ rw enough (
      refl,
      refl,
      ground arith,
      get-put_self key (record b { tokens = b.tokens - token }) l.buckets,
    )
  ]

  refund_found :
      (l : RateLimiter) (b : Bucket)
      → get key l.buckets ≡ some b
      → ((refund blake2b ip l).served ≡ l.served - 1)
        × ((refund blake2b ip l).day ≡ l.day)
        × (get key (refund blake2b ip l).buckets
            ≡ some (record b { tokens = min (l.capacity * token) (b.tokens + token) }))
  unfolding refund
  refund_found l b found =
      rw (found, refund)
        (
          refl,
          refl,
          get-put_self key (record b { tokens = min (l.capacity * token) (b.tokens + token) })
              l.buckets,
        )

  open_bucket-served : (now : ℕ) (l : RateLimiter) → (open_bucket key now l).0.served ≡ l.served
  unfolding open_bucket
  open_bucket-served now l = ground arith

  give_back :
      (cap : ℕ) (b : Bucket)
      → token ≤ b.tokens
      → b.tokens ≤ cap * token
      → record b { tokens = min (cap * token) (b.tokens - token + token) } ≡ b
  give_back cap b h k = ground arith

  refund-admit :
      (now : ℕ) (l : RateLimiter)
      → (admit key now true l).1.is_allowed ≡ true
      → let after = refund blake2b ip (admit key now true l).0 in
        (after.served ≡ l.served) × (get key after.buckets ≡ some (refilled key now l))
  unfolding admit
  refund-admit now l h =
      let o = (open_bucket key now l).0 in
      let b = refilled key now l in
      let (served, cap, enough, found) = charge-allowed o b h in
      let (less, _, back) =
        refund_found (charge key true o b).0 (record b { tokens = b.tokens - token }) found in
      let level : b.tokens ≤ (charge key true o b).0.capacity * token =
        rw (cap, (open_bucket-fields key now l).0) (unfold refill_bucket in omega arith) in
      (
        omega (arith, open_bucket-served now l),
        back ∙ ap some (give_back (charge key true o b).0.capacity b enough level),
      )

  admit-served :
      (now : ℕ) (l : RateLimiter)
      → (admit key now true l).1.is_allowed ≡ true
      → (admit key now true l).0.served ≡ l.served + 1
  unfolding admit
  admit-served now l h =
      let (served, _, _, _) = charge-allowed (open_bucket key now l).0 (refilled key now l) h in
      omega (arith, open_bucket-served now l)

  admit-day : (now : ℕ) (counts : Bool) (l : RateLimiter) → (admit key now counts l).0.day ≡ l.day
  unfolding admit charge open_bucket
  admit-day now counts l = ground arith

  -- The refund of a counted check that was let through gives both halves back: the day's count is
  -- what it was before the check, and the caller's level is what it was when the check read it.
  pub refund-check :
      (now wall : ℕ) (l : RateLimiter)
      → (check blake2b ip now wall true l).1.is_allowed ≡ true
      → let after = refund blake2b ip (check blake2b ip now wall true l).0 in
        (after.served ≡ (roll_day_locked wall l).served)
        × (get key after.buckets ≡ some (refilled key now (roll_day_locked wall l)))
  refund-check now wall l h =
      let e = check-allowed now wall l h in
      rw e (refund-admit now (roll_day_locked wall l) (rw e at h))

rolled_over :
    (wall : ℕ) (l : RateLimiter)
    → wall / day_us ≢ l.day
    → ((roll_day_locked wall l).served ≡ 0) × ((roll_day_locked wall l).day ≡ wall / day_us)
unfolding roll_day_locked
rolled_over wall l new = ground arith

same_day : (wall : ℕ) (l : RateLimiter) → l.day ≡ wall / day_us → (served_today wall l).1 ≡ l.served
unfolding served_today roll_day_locked
same_day wall l h = ground arith

-- A refund that arrives after the day has rolled is taken from the new day: with a bucket of its own
-- still there and room in the dictionary, one caller's refund erases the count of the first request
-- that another caller made on the new day, which counted one.
pub refund_next_day :
    (blake2b : String → String) (early late : Option String) (now wall : ℕ) (l : RateLimiter)
    (b : Bucket)
    → get (client_digest blake2b early) l.buckets ≡ some b
    → str_eq (client_digest blake2b late) (client_digest blake2b early) ≡ false
    → length l.buckets < max_buckets
    → wall / day_us ≢ l.day
    → (check blake2b late now wall true l).1.is_allowed ≡ true
    → ((check blake2b late now wall true l).0.served ≡ 1)
      × ((served_today wall (refund blake2b early (check blake2b late now wall true l).0)).1 ≡ 0)
refund_next_day blake2b early late now wall l b there other room new h =
    let today = roll_day_locked wall l in
    let (_, _, same) = roll_day_locked-fields wall l in
    let k = client_digest blake2b late in
    let (zero_served, dated) = rolled_over wall l new in
    let e = check-allowed blake2b late now wall l h in
    let one = admit-served blake2b late now today (rw e at h) in
    let after = (admit k now true today).0 in
    let kept : get (client_digest blake2b early) after.buckets ≡ some b =
      get-admit k (client_digest blake2b early) now true today (rw same room)
      ∙ rw (other, same, there) in
    let (less, unchanged, _) = refund_found blake2b early after b kept in
    let still : (refund blake2b early after).day ≡ wall / day_us =
      unchanged ∙ admit-day blake2b late now true today ∙ dated in
    rw e (omega arith, omega (arith, same_day wall (refund blake2b early after) still))
