-- ===== src/RateLimit/Requests.antt =====
-- One request: what `check` (backend/ratelimit.py) does to the caller's bucket and to the others.
use meander.Common.{
  Bool, Bool-cases, List, Option, Option-cases, String, [], arith, false, if◌then◌else◌, inl, inr,
  length, ltb, not, some, str_eq, ℕ, ◌&&◌, ◌*◌, ◌+◌, ◌-◌, ◌<◌, ◌∙◌, ◌∷◌, ◌≡◌, ◌≤◌,
}
use meander.Common.Dict.{get, get-put, get-put_self, length-put-le, length-put_present}
use meander.RateLimit.{
  Bucket, Decision, RateLimiter, admit, charge, check, client_digest, evict_locked, max_buckets,
  open_bucket, refill_bucket, refund, token,
}
use meander.RateLimit.Buckets.{evict_locked_below}

-- A request, with the two clocks that it reads.
pub record Call : Type 0 where
  pub ip : Option String
  pub now : ℕ
  pub wall : ℕ
  pub counts : Bool

-- A request, or the refund of one that the cache answered.
pub data Use : Type 0 where
  ask : Call → Use
  give_back : (ip : Option String) → Use

module _ (blake2b : String → String) where
  abbrev pub step : Call → RateLimiter → RateLimiter × Decision
  step c l = check blake2b c.ip c.now c.wall c.counts l

  -- The number of requests let through for the bucket `key`.
  unfoldable pub allowed_for : String → List Use → RateLimiter → ℕ
  allowed_for key [] l = 0
  allowed_for key (ask c ∷ us) l =
      let (l', d) = step c l in
      let one : ℕ = if str_eq (client_digest blake2b c.ip) key && d.is_allowed then 1 else 0 in
      one + allowed_for key us l'
  allowed_for key (give_back ip ∷ us) l = allowed_for key us (refund blake2b ip l)

  -- The number of refunds for the bucket `key`.
  unfoldable pub refunds_for : String → List Use → ℕ
  refunds_for key [] = 0
  refunds_for key (ask c ∷ us) = refunds_for key us
  refunds_for key (give_back ip ∷ us) =
      (if str_eq (client_digest blake2b ip) key then 1 else 0) + refunds_for key us

-- The readings of the monotonic clock, in order from `start` to `end`.
abbrev pub Ascending : ℕ → ℕ → List Use → Type 0
Ascending start end [] = start ≤ end
Ascending start end (ask c ∷ us) = (start ≤ c.now) × Ascending c.now end us
Ascending start end (give_back ip ∷ us) = Ascending start end us

abbrev pub spent : Bucket → Bucket
spent b = if ltb b.tokens token then b else record b { tokens = b.tokens - token }

abbrev pub refilled : String → ℕ → RateLimiter → Bucket
refilled key now l = refill_bucket l.capacity l.refill_per_min now (open_bucket key now l).1

pub open_bucket-fields :
    (key : String) (now : ℕ) (l : RateLimiter)
    → ((open_bucket key now l).0.capacity ≡ l.capacity)
      × ((open_bucket key now l).0.refill_per_min ≡ l.refill_per_min)
unfolding open_bucket
open_bucket-fields key now l = ground arith

-- With room in the dictionary, only the caller's own entry changes.
get-open_bucket :
    (k j : String) (now : ℕ) (l : RateLimiter)
    → length l.buckets < max_buckets
    → str_eq k j ≡ false
    → get j (open_bucket k now l).0.buckets ≡ get j l.buckets
unfolding open_bucket
get-open_bucket k j now l room ne = elim (Option-cases (get k l.buckets)) [
  | inl absent ↦
      rw (absent, open_bucket) (simp (evict_locked_below now l.buckets room, get-put, ne))
  | inr (b, found) ↦ rw (found, open_bucket)
]

-- The bucket that is handed out is the one stored.
pub get-open_bucket_self :
    (k : String) (now : ℕ) (l : RateLimiter)
    → get k (open_bucket k now l).0.buckets ≡ some (open_bucket k now l).1
unfolding open_bucket
get-open_bucket_self k now l = elim (Option-cases (get k l.buckets)) [
  | inl absent ↦ rw (absent, open_bucket) (get-put_self k _ (evict_locked now l.buckets))
  | inr (b, found) ↦ rw (found, open_bucket) found
]

pub length-open_bucket :
    (k : String) (now : ℕ) (l : RateLimiter)
    → length l.buckets < max_buckets
    → length (open_bucket k now l).0.buckets ≤ length l.buckets + 1
unfolding open_bucket
length-open_bucket k now l room =
    let fresh : Bucket = record {
      tokens = l.capacity * token;
      last_refill = now;
      last_seen = now;
    } in
    ground (arith, evict_locked_below now l.buckets room, length-put-le k fresh l.buckets)

pub get-charge :
    (k j : String) (counts : Bool) (l : RateLimiter) (b : Bucket)
    → get j (charge k counts l b).0.buckets
      ≡ (if str_eq k j then some (spent b) else get j l.buckets)
unfolding charge
get-charge k j counts l b = elim (Bool-cases (ltb b.tokens token)) [
  | inl few ↦ rw few (get-put k j b l.buckets)
  | inr enough ↦ rw enough (get-put k j (record b { tokens = b.tokens - token }) l.buckets)
]

pub length-charge :
    (k : String) (counts : Bool) (l : RateLimiter) (b old : Bucket)
    → get k l.buckets ≡ some old
    → length (charge k counts l b).0.buckets ≡ length l.buckets
unfolding charge
length-charge k counts l b old h = elim (Bool-cases (ltb b.tokens token)) [
  | inl few ↦ rw few (length-put_present k b old l.buckets h)
  | inr enough ↦
      rw enough (length-put_present k (record b { tokens = b.tokens - token }) old l.buckets h)
]

pub get-admit :
    (k j : String) (now : ℕ) (counts : Bool) (l : RateLimiter)
    → length l.buckets < max_buckets
    → get j (admit k now counts l).0.buckets
      ≡ (if str_eq k j then some (spent (refilled k now l)) else get j l.buckets)
unfolding admit
get-admit k j now counts l room =
    get-charge k j counts (open_bucket k now l).0 (refilled k now l)
    ∙ elim (Bool-cases (str_eq k j)) [
      | inl same ↦ rw same
      | inr other ↦ rw other (get-open_bucket k j now l room other)
    ]

pub is_allowed-admit :
    (k : String) (now : ℕ) (counts : Bool) (l : RateLimiter)
    → (admit k now counts l).1.is_allowed ≡ not (ltb (refilled k now l).tokens token)
unfolding admit charge
is_allowed-admit k now counts l = elim (Bool-cases (ltb (refilled k now l).tokens token)) [
  | inl few ↦ rw few
  | inr enough ↦ rw enough
]
