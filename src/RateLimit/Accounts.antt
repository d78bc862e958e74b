-- ===== src/RateLimit/Accounts.antt =====
-- What a bucket has used up, and how one request changes it (backend/ratelimit.py).
use native.Mathlib.Decide.{dec_lt}
use meander.Common.{
  Bool, Bool-cases, Option, Option-cases, String, ap, arith, eq_iff, false, if◌then◌else◌, inl, inr,
  length, ltb, min, none, not, refl, some, str_eq, true, ℕ, ◌&&◌, ◌*◌, ◌+◌, ◌-◌, ◌<◌, ◌∙◌, ◌≡◌, ◌≤◌,
}
use meander.Common.Dict.{get, get-All}
use meander.RateLimit.{
  Bucket, RateLimiter, admit, charge, max_buckets, open_bucket, refill_bucket, roll_day_locked,
  token,
}
use meander.RateLimit.Invariant.{IsFilled, IsValid}
use meander.RateLimit.Requests.{
  get-admit, get-open_bucket_self, is_allowed-admit, length-charge, length-open_bucket,
  open_bucket-fields, refilled, spent,
}

-- What a bucket and the `n` requests that it let through since `t0` have used up by `t`, with `g`
-- refunds.
pub record Within (cap g r t0 t n : ℕ) (b : Bucket) : Type 0 where
  used : n * token + b.tokens ≤ cap * token + g * token + r * (b.last_refill - t0)
  pub level : b.tokens ≤ cap * token
  unused : b.last_refill < t0 → n ≡ 0
  seen : b.last_refill ≤ t

-- No bucket yet: nothing was let through.
abbrev pub Account : ℕ → ℕ → ℕ → ℕ → ℕ → ℕ → Option Bucket → Type 0
Account cap g r t0 t n none = n ≡ 0
Account cap g r t0 t n (some b) = Within cap g r t0 t n b

abbrev pub taken : Bucket → ℕ
taken b = if not (ltb b.tokens token) then 1 else 0

spend-Within :
    (cap g r t0 t n : ℕ) (b : Bucket)
    → Within cap g r t0 t n b
    → t0 ≤ b.last_refill
    → Within cap g r t0 t (taken b + n) (spent b)
spend-Within cap g r t0 t n b w h = elim (Bool-cases (ltb b.tokens token)) [
  | inl few ↦ rw few (omega arith)
  | inr enough ↦ rw enough (record {
    used = ground arith;
    level = ground arith;
    unused = λ before. absurd (omega arith);
    seen = w.seen;
  })
]

-- Time that passes with no request changes no account.
pub Account-later :
    (cap g r t0 t now n : ℕ) (o : Option Bucket)
    → Account cap g r t0 t n o
    → t ≤ now
    → Account cap g r t0 now (0 + n) o
Account-later cap g r t0 t now n none h k = omega arith
Account-later cap g r t0 t now n (some b) h k = omega arith

refill-Within :
    (cap g r t0 t now n : ℕ) (b : Bucket)
    → Within cap g r t0 t n b
    → t0 ≤ t
    → t ≤ now
    → Within cap g r t0 now n (refill_bucket cap r now b)
unfolding refill_bucket
refill-Within cap g r t0 t now n b w h k = record {
  used = elim (dec_lt b.last_refill t0) [
    | yes before ↦ grind (arith, w.unused before)
    | no after ↦
        let parts : now - t0 ≡ (b.last_refill - t0) + (now - b.last_refill) = omega arith in
        omega (arith, ap (λ (x : ℕ). r * x) parts)
  ];
  level = omega arith;
  unused = λ before. absurd (omega arith);
  seen = omega arith;
}

module _ (key : String) (t0 g : ℕ) where
  abbrev pub Holds : RateLimiter → ℕ → ℕ → Type 0
  Holds l t n = Account l.capacity g l.refill_per_min t0 t n (get key l.buckets)

  -- The bucket that the caller is charged on, before the charge.
  opened-Within :
      (l : RateLimiter) (t now n : ℕ)
      → Holds l t n
      → t0 ≤ t
      → t ≤ now
      → Within l.capacity g l.refill_per_min t0 now n (refilled key now l)
  unfolding open_bucket refill_bucket
  opened-Within l t now n h a b = elim (Option-cases (get key l.buckets)) [
    | inl absent ↦ rw (absent, open_bucket) (let unused : n ≡ 0 = rw absent at h in omega arith)
    | inr (o, found) ↦
        rw (found, open_bucket)
          (refill-Within l.capacity g l.refill_per_min t0 t now n o (rw found at h) a b)
  ]

  -- A request of another caller leaves the account alone; one of this caller's is counted in it.
  pub admit-Holds :
      (k : String) (counts : Bool) (l : RateLimiter) (t now n : ℕ)
      → length l.buckets < max_buckets
      → Holds l t n
      → t0 ≤ t
      → t ≤ now
      → let (l', d) = admit k now counts l in
        let one : ℕ = if str_eq k key && d.is_allowed then 1 else 0 in
        Account l.capacity g l.refill_per_min t0 now (one + n) (get key l'.buckets)
  admit-Holds k counts l t now n room h a b = elim (Bool-cases (str_eq k key)) [
    | inl same ↦
        let e = (eq_iff k key).0 same in
        rw (get-admit k key now counts l room, same, is_allowed-admit k now counts l, e)
          (spend-Within l.capacity g l.refill_per_min t0 now n (refilled key now l)
            (opened-Within l t now n h a b) (unfold refill_bucket in omega arith))
    | inr other ↦
        rw (get-admit k key now counts l room, other)
          (Account-later l.capacity g l.refill_per_min t0 t now n (get key l.buckets) h b)
  ]

-- More refunds leave more room.
pub Account-more :
    (cap g r t0 t n more : ℕ) (o : Option Bucket)
    → Account cap g r t0 t n o
    → Account cap (more + g) r t0 t n o
Account-more cap g r t0 t n more none h = h
Account-more cap g r t0 t n more (some b) h = record {
  used = omega (arith, h.used);
  level = h.level;
  unused = h.unused;
  seen = h.seen;
}

-- A refund is one more in the account.
pub refund-Within :
    (cap g r t0 t n : ℕ) (b : Bucket)
    → Within cap g r t0 t n b
    → Within cap (1 + g) r t0 t n (record b { tokens = min (cap * token) (b.tokens + token) })
refund-Within cap g r t0 t n b w = record {
  used = omega (arith, w.used);
  level = omega arith;
  unused = w.unused;
  seen = w.seen;
}

pub charge-fields :
    (k : String) (counts : Bool) (l : RateLimiter) (b : Bucket)
    → ((charge k counts l b).0.capacity ≡ l.capacity)
      × ((charge k counts l b).0.refill_per_min ≡ l.refill_per_min)
unfolding charge
charge-fields k counts l b = ground arith

pub and_false : (b : Bool) → b && false ≡ false
and_false true = refl
and_false false = refl

pub Account-le :
    (cap g r t0 t end n : ℕ) (o : Option Bucket)
    → Account cap g r t0 t n o
    → t ≤ end
    → (n + 0) * token ≤ cap * token + g * token + r * (end - t0)
Account-le cap g r t0 t end n none h k = omega arith
Account-le cap g r t0 t end n (some b) h k = grind arith

-- The caller's bucket, if there is one, was last seen at `start` or earlier.
abbrev SeenBy : ℕ → Option Bucket → Type 0
SeenBy start none = Unit
SeenBy start (some b) = b.last_refill ≤ start

abbrev pub IsSettled : String → ℕ → RateLimiter → Type 0
IsSettled key start l = SeenBy start (get key l.buckets)

pub opening :
    (key : String) (start : ℕ) (l : RateLimiter)
    → IsValid l
    → IsSettled key start l
    → Account l.capacity 0 l.refill_per_min start start 0 (get key l.buckets)
opening key start l v old = elim (Option-cases (get key l.buckets)) [
  | inl absent ↦ rw absent refl
  | inr (b, found) ↦
      let full : b.tokens ≤ l.capacity * token =
        get-All (IsFilled l.capacity) key b l.buckets v.filled found in
      let early : b.last_refill ≤ start = rw found at old in rw found (omega arith)
]

pub admit-fields :
    (k : String) (now : ℕ) (counts : Bool) (l : RateLimiter)
    → length l.buckets < max_buckets
    → let l' = (admit k now counts l).0 in
      (l'.capacity ≡ l.capacity)
      × (l'.refill_per_min ≡ l.refill_per_min)
      × (length l'.buckets ≤ length l.buckets + 1)
unfolding admit
admit-fields k now counts l room =
    let (o, b) = open_bucket k now l in
    let after = refilled k now l in
    let (cap, refill) = charge-fields k counts o after in
    let (cap', refill') = open_bucket-fields k now l in
    (
      cap ∙ cap',
      refill ∙ refill',
      omega (
        arith,
        length-charge k counts o after b (get-open_bucket_self k now l),
        length-open_bucket k now l room,
      ),
    )

pub roll_day_locked-fields :
    (wall : ℕ) (l : RateLimiter)
    → let l' = roll_day_locked wall l in
      (l'.capacity ≡ l.capacity) × (l'.refill_per_min ≡ l.refill_per_min) × (l'.buckets ≡ l.buckets)
unfolding roll_day_locked
roll_day_locked-fields wall l = ground arith
