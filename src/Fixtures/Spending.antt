-- ===== src/Fixtures/Spending.antt =====
-- What the budget of live calls (backend/fixtures.py: `LiveCallBudget`) lets through in a day, over
-- any sequence of calls and restarts of the process.
use mathlib.Core.Path.{subst}
use native.Mathlib.Decide.{ℕ_discrete}
use meander.Common.{
  Bool, List, String, [], ap, arith, eq_iff, if_ind, if◌then◌else◌, inl, ltb, map, max, refl,
  str_eq, sym, ℕ, ◌&&◌, ◌+◌, ◌<◌, ◌==◌, ◌∷◌, ◌≡◌, ◌≤◌, ◌⊎◌,
}
use meander.Common.Dict.{Dict, get, get-put, put}
use meander.Fixtures.Budget.{
  LiveCallBudget, Saved, cap_for, count_for, counts_of, load, missing, new, number, remaining,
  roll_if_new_day, save, saved, spent, try_spend, unreadable,
}

-- What may happen to the budget; a restart reads the file again.
pub data Event : Type 0 where
  spends : String → ℕ → Event
  reads : String → Event
  restarts : Event

-- An event, on the UTC day it happens.
abbrev pub Call : Type 0
Call = ℕ × Event

-- The budget after an event, and what was granted to `key` at it.
unfoldable pub step : String → Call → LiveCallBudget → LiveCallBudget × ℕ
step key (today, spends service cost) b =
    let (b', granted) = try_spend service cost today b in
    (b', if granted && str_eq service key then cost else 0)
step key (today, reads service) b = ((remaining service today b).0, 0)
step key (today, restarts) b = (new b.caps today b.file, 0)

-- What is granted to `key` on `day`.
unfoldable pub granted_on : String → ℕ → List Call → LiveCallBudget → ℕ
granted_on key day [] b = 0
granted_on key day (c ∷ cs) b =
    let (b', n) = step key c b in (if c.0 == day then n else 0) + granted_on key day cs b'

-- The days of the calls, in order from `start`.
abbrev pub Ascending : ℕ → List Call → Type 0
Ascending start [] = Unit
Ascending start (c ∷ cs) = (start ≤ c.0) × Ascending c.0 cs

abbrev pub file_day : Saved → ℕ
file_day missing = 0
file_day unreadable = 0
file_day (saved d counts) = d

-- The file holds the counters of the budget's day, and is not of a later day.
pub record IsSaved (b : LiveCallBudget) : Type 0 where
  pub counts : load b.day b.file ≡ b.state
  pub not_later : file_day b.file ≤ b.day

-- What `key` has spent on `day`.
abbrev pub used_on : String → ℕ → LiveCallBudget → ℕ
used_on key day b = if b.day == day then count_for key b.state else 0

counts_of-map : (d : Dict ℕ) → counts_of (map (λ e. (e.0, number e.1)) d) ≡ d
unfolding counts_of
counts_of-map [] = refl
counts_of-map (e ∷ d) = ap (◌∷◌ e) (counts_of-map d)

load-saved : (day : ℕ) (d : Dict ℕ) → load day (saved day (map (λ e. (e.0, number e.1)) d)) ≡ d
unfolding load
load-saved day d = ground (arith, counts_of-map d)

load-later : (day : ℕ) (f : Saved) → file_day f < day → load day f ≡ []
unfolding load
load-later day missing h = refl
load-later day unreadable h = refl
load-later day (saved d counts) h = ground arith

-- A file that is not of a later day leaves the budget in order.
pub new-IsSaved :
    (caps : Dict ℕ) (today : ℕ) (f : Saved) → file_day f ≤ today → IsSaved (new caps today f)
unfolding new
new-IsSaved caps today f h = record { counts = refl; not_later = h }

roll_if_new_day-IsSaved :
    (today : ℕ) (b : LiveCallBudget) → b.day ≤ today → IsSaved b → IsSaved (roll_if_new_day today b)
unfolding roll_if_new_day
roll_if_new_day-IsSaved today b h v =
    if_ind IsSaved (today == b.day) (λ e. v)
      λ e. record {
        counts = load-later today b.file (ground (arith, v.not_later));
        not_later = omega (arith, v.not_later);
      }

roll_if_new_day-fields :
    (key : String) (today : ℕ) (b : LiveCallBudget)
    → ((roll_if_new_day today b).caps ≡ b.caps)
      × ((roll_if_new_day today b).day ≡ today)
      × (count_for key (roll_if_new_day today b).state ≡ used_on key today b)
unfolding roll_if_new_day count_for get
roll_if_new_day-fields key today b = ground arith

count_for-put :
    (k key : String) (n : ℕ) (d : Dict ℕ)
    → count_for key (put k n d) ≡ (if str_eq k key then n else count_for key d)
unfolding count_for
count_for-put k key n d = ground (arith, get-put k key n d)

-- One event: the file stays in order, and what is granted is counted and within the cap.
record IsStep (key : String) (c : Call) (b : LiveCallBudget) (r : LiveCallBudget × ℕ) : Type 0 where
  pub kept : IsSaved r.0
  pub caps : r.0.caps ≡ b.caps
  pub day : r.0.day ≡ c.0
  pub counted : used_on key c.0 r.0 ≡ used_on key c.0 b + r.1
  pub within : (r.1 ≡ 0) ⊎ (used_on key c.0 b + r.1 ≤ cap_for key b)

try_spend-IsStep :
    (key service : String) (cost today : ℕ) (b : LiveCallBudget)
    → b.day ≤ today
    → IsSaved b
    → IsStep key (today, spends service cost) b (step key (today, spends service cost) b)
unfolding step try_spend save cap_for
try_spend-IsStep key service cost today b h v =
    let old = roll_if_new_day today b in
    let used = count_for service old.state in
    let fields = roll_if_new_day-fields key today b in
    let saving = roll_if_new_day-IsSaved today b h v in
    if_ind
      (λ (r : LiveCallBudget × Bool).
        IsStep key (today, spends service cost) b
          (r.0, if r.1 && str_eq service key then cost else 0))
      (ltb (count_for service old.caps) (used + cost))
      (λ e. record {
        kept = record { counts = saving.counts; not_later = saving.not_later };
        caps = fields.0;
        day = fields.1;
        counted = ground (arith, fields);
        within = inl refl;
      })
      λ e. record {
        kept = record { counts = load-saved _ _; not_later = omega arith };
        caps = fields.0;
        day = fields.1;
        counted =
            ground (
              arith,
              fields,
              eq_iff service key,
              count_for-put service key (used + cost) old.state,
            );
        within = ground (arith, fields, eq_iff service key);
      }

count_for-load :
    (key : String) (today : ℕ) (b : LiveCallBudget)
    → b.day ≤ today
    → IsSaved b
    → count_for key (load today b.file) ≡ used_on key today b
unfolding count_for get
count_for-load key today b h v = elim (ℕ_discrete b.day today) [
  | yes e ↦ ground (arith, ap (count_for key) (subst (λ d. load d b.file ≡ b.state) e v.counts))
  | no ne ↦ rw (load-later today b.file (omega (arith, v.not_later))) (ground arith)
]

step-IsStep :
    (key : String) (c : Call) (b : LiveCallBudget)
    → b.day ≤ c.0
    → IsSaved b
    → IsStep key c b (step key c b)
unfolding step remaining spent new count_for get
step-IsStep key (today, spends service cost) b h v = try_spend-IsStep key service cost today b h v
step-IsStep key (today, reads service) b h v =
    let fields = roll_if_new_day-fields key today b in
    record {
      kept = roll_if_new_day-IsSaved today b h v;
      caps = fields.0;
      day = fields.1;
      counted = ground (arith, fields);
      within = inl refl;
    }
step-IsStep key (today, restarts) b h v = record {
  kept = new-IsSaved b.caps today b.file (omega (arith, v.not_later));
  caps = refl;
  day = refl;
  counted = grind (arith, count_for-load key today b h v);
  within = inl refl;
}

granted_on_later :
    (key : String) (day : ℕ) (cs : List Call) (b : LiveCallBudget)
    → day < b.day
    → IsSaved b
    → Ascending b.day cs
    → granted_on key day cs b ≡ 0
unfolding granted_on
granted_on_later key day [] b h v a = refl
granted_on_later key day (c ∷ cs) b h v a =
    let s = step-IsStep key c b a.0 v in
    ground (
      arith,
      granted_on_later key day cs (step key c b).0 (omega (arith, s.day)) s.kept
          (subst (λ d. Ascending d cs) (sym s.day) a.1),
    )

-- Over any sequence of calls and restarts, what a service is granted on one UTC day is within what
-- its cap left of that day, for a budget whose file is in order and a clock that does not go back.
pub granted_on-le :
    (key : String) (day : ℕ) (cs : List Call) (b : LiveCallBudget)
    → IsSaved b
    → Ascending b.day cs
    → used_on key day b + granted_on key day cs b ≤ max (cap_for key b) (used_on key day b)
unfolding granted_on cap_for
granted_on-le key day [] b v a = omega arith
granted_on-le key day (c ∷ cs) b v a =
    let s = step-IsStep key c b a.0 v in
    let later = subst (λ d. Ascending d cs) (sym s.day) a.1 in
    elim (ℕ_discrete c.0 day) [
      | yes e ↦ ground (
        arith,
        s.counted,
        s.within,
        s.caps,
        s.day,
        ap (count_for key) s.caps,
        granted_on-le key day cs (step key c b).0 s.kept later,
      )
      | no ne ↦ ground (
        arith,
        s.day,
        ap (count_for key) s.caps,
        granted_on-le key day cs (step key c b).0 s.kept later,
        granted_on_later key day cs (step key c b).0,
      )
    ]
