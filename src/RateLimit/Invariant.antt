-- ===== src/RateLimit/Invariant.antt =====
-- The limiter's invariant, and that every method of backend/ratelimit.py keeps it.
use meander.Common.{
  All, Bool, Bool-cases, Option, Option-cases, Option_ind, String, arith, if_ind, inl, inr, leb,
  length, ltb, min, refl, some, true, ℕ, ◌&&◌, ◌*◌, ◌+◌, ◌-◌, ◌/◌, ◌<◌, ◌==◌, ◌≡◌, ◌≤◌,
}
use meander.Common.Dict.{get, get-All, get-put_self, length-put-le, length-put_present, put-All}
use meander.RateLimit.{
  Bucket, RateLimiter, admit, charge, check, client_digest, day_us, evict_locked, max_buckets,
  open_bucket, refill_bucket, refund, roll_day_locked, token,
}
use meander.RateLimit.Buckets.{evict_locked-All, length-evict_locked}

abbrev pub IsFilled : ℕ → Bucket → Type 0
IsFilled capacity b = b.tokens ≤ capacity * token

-- No bucket is above the capacity, the dictionary is bounded, and the ceiling holds.
pub record IsValid (l : RateLimiter) : Type 0 where
  pub filled : All (λ e. IsFilled l.capacity e.1) l.buckets
  pub room : length l.buckets ≤ max_buckets
  pub under : l.served ≤ l.ceiling

pub roll_day_locked-IsValid :
    (wall : ℕ) {l : RateLimiter} → IsValid l → IsValid (roll_day_locked wall l)
unfolding roll_day_locked
roll_day_locked-IsValid wall {l} v =
    if_ind IsValid (wall / day_us == l.day) (λ _. v)
      (λ _. record { filled = v.filled; room = v.room; under = omega arith })

-- The bucket that `open_bucket` hands out is the one stored, and the rest of the state is as before.
pub record IsOpened (key : String) (l : RateLimiter) (r : RateLimiter × Bucket) : Type 0 where
  pub valid : IsValid r.0
  pub level : IsFilled l.capacity r.1
  pub stored : get key r.0.buckets ≡ some r.1
  pub capacity : r.0.capacity ≡ l.capacity
  pub refill : r.0.refill_per_min ≡ l.refill_per_min
  pub ceiling : r.0.ceiling ≡ l.ceiling
  pub served : r.0.served ≡ l.served

pub open_bucket-IsOpened :
    (key : String) (now : ℕ) (l : RateLimiter) → IsValid l → IsOpened key l (open_bucket key now l)
unfolding open_bucket
open_bucket-IsOpened key now l v = elim (Option-cases (get key l.buckets)) [
  | inl absent ↦
      let fresh : Bucket = record {
        tokens = l.capacity * token;
        last_refill = now;
        last_seen = now;
      } in
      let room = evict_locked now l.buckets in
      rw (absent, open_bucket)
        (record {
          valid = record {
            filled =
                put-All (IsFilled l.capacity) key fresh room (omega arith)
                  (evict_locked-All (IsFilled l.capacity) now l.buckets v.filled);
            room =
                omega
                  (arith, length-put-le key fresh room, length-evict_locked now l.buckets v.room);
            under = v.under;
          };
          level = omega arith;
          stored = get-put_self key fresh room;
          capacity = refl;
          refill = refl;
          ceiling = refl;
          served = refl;
        })
  | inr (b, found) ↦
      rw (found, open_bucket)
        (record {
          valid = v;
          level = get-All (IsFilled l.capacity) key b l.buckets v.filled found;
          stored = found;
          capacity = refl;
          refill = refl;
          ceiling = refl;
          served = refl;
        })
]

-- A write to the caller's own entry keeps the invariant, if the level fits.
charge-IsValid :
    (key : String) (counts : Bool) {l : RateLimiter} (old b : Bucket)
    → IsValid l
    → get key l.buckets ≡ some old
    → IsFilled l.capacity b
    → (counts ≡ true → l.served < l.ceiling)
    → IsValid (charge key counts l b).0
unfolding charge
charge-IsValid key counts {l} old b v stored level fits =
    let less : Bucket = record b { tokens = b.tokens - token } in
    elim (Bool-cases (ltb b.tokens token)) [
      | inl few ↦ rw few (record {
        filled = put-All (IsFilled l.capacity) key b l.buckets level v.filled;
        room = omega (arith, length-put_present key b old l.buckets stored, v.room);
        under = v.under;
      })
      | inr enough ↦ rw enough (record {
        filled = put-All (IsFilled l.capacity) key less l.buckets (omega arith) v.filled;
        room = omega (arith, length-put_present key less old l.buckets stored, v.room);
        under = ground arith;
      })
    ]

admit-IsValid :
    (key : String) (now : ℕ) (counts : Bool) {l : RateLimiter}
    → IsValid l
    → (counts ≡ true → l.served < l.ceiling)
    → IsValid (admit key now counts l).0
unfolding admit refill_bucket
admit-IsValid key now counts {l} v fits =
    let o = open_bucket-IsOpened key now l v in
    let b = (open_bucket key now l).1 in
    charge-IsValid key counts b (refill_bucket l.capacity l.refill_per_min now b) o.valid o.stored
      (rw o.capacity (omega arith)) (λ c. rw (o.served, o.ceiling) (fits c))

-- `check` keeps the invariant on every branch: refused by the ceiling, refused by the bucket, or
-- allowed.
pub check-IsValid :
    (blake2b : String → String) (ip : Option String) (now wall : ℕ) (counts : Bool)
    {l : RateLimiter}
    → IsValid l
    → IsValid (check blake2b ip now wall counts l).0
unfolding check
check-IsValid blake2b ip now wall counts {l} v =
    let rolled = roll_day_locked-IsValid wall v in
    let today = roll_day_locked wall l in
    elim (Bool-cases (counts && leb today.ceiling today.served)) [
      | inl spent ↦ rw spent rolled
      | inr open_still ↦
          rw open_still
            (admit-IsValid (client_digest blake2b ip) now counts rolled (λ c. ground arith))
    ]

pub refund-IsValid :
    (blake2b : String → String) (ip : Option String) {l : RateLimiter}
    → IsValid l
    → IsValid (refund blake2b ip l)
unfolding refund
refund-IsValid blake2b ip {l} v =
    Option_ind IsValid (get (client_digest blake2b ip) l.buckets) (λ _. v)
      λ b e. record {
        filled = put-All (IsFilled l.capacity) _ _ l.buckets (omega arith) v.filled;
        room = omega (
          arith,
          length-put_present (client_digest blake2b ip)
              (record b { tokens = min (l.capacity * token) (b.tokens + token) }) b l.buckets e,
          v.room,
        );
        under = omega arith;
      }
