-- ===== src/Fixtures/Budget.antt =====
-- backend/fixtures.py: `LiveCallBudget`, the ceiling on the live calls of a UTC day, and its file.
--
-- The lock is held for the whole of each method, so a method is one step; `utc_day()`, read once in
-- each, is its argument. Counters are natural numbers, a day its number.
use meander.Common.{
  Bool, List, String, [], false, if◌then◌else◌, ltb, map, none, some, true, ℕ, ◌+◌, ◌-◌, ◌==◌, ◌∷◌,
}
use meander.Common.Dict.{Dict, elem, get, put}
use meander.Common.Sort.{sort_by}
use meander.Common.Text.{str_leb}

-- A value of the file's counters: a number, or something that is none.
pub data Count : Type 0 where
  number : ℕ → Count
  not_number : Count

-- `fixtures/_budget.json`.
pub data Saved : Type 0 where
  missing unreadable : Saved
  saved : ℕ → Dict Count → Saved

pub record LiveCallBudget : Type 0 where
  pub caps : Dict ℕ
  pub day : ℕ
  pub state : Dict ℕ
  pub warned : List String
  pub file : Saved

unfoldable pub counts_of : Dict Count → Dict ℕ
counts_of [] = []
counts_of ((k, number n) ∷ d) = (k, n) ∷ counts_of d
counts_of ((k, not_number) ∷ d) = counts_of d

-- A file of another day is stale.
unfoldable pub load : ℕ → Saved → Dict ℕ
unfolding counts_of
load day missing = []
load day unreadable = []
load day (saved d counts) = if d == day then counts_of counts else []

-- LiveCallBudget(): a process starts on the file it finds.
unfoldable pub new : Dict ℕ → ℕ → Saved → LiveCallBudget
new caps today file = record {
  caps = caps;
  day = today;
  state = load today file;
  warned = [];
  file = file;
}

unfoldable pub roll_if_new_day : ℕ → LiveCallBudget → LiveCallBudget
roll_if_new_day today b =
    if today == b.day then b else record b { day = today; state = []; warned = [] }

unfoldable pub save : LiveCallBudget → LiveCallBudget
save b = record b { file = saved b.day (map (λ e. (e.0, number e.1)) b.state) }

-- A value of a counter; a service that has none has spent nothing.
unfoldable pub count_for : String → Dict ℕ → ℕ
count_for service d = elim (get service d) [ none ↦ 0 | some n ↦ n ]

-- A service without a cap has no live calls.
unfoldable pub cap_for : String → LiveCallBudget → ℕ
unfolding count_for
cap_for service b = count_for service b.caps

unfoldable pub spent : String → ℕ → LiveCallBudget → LiveCallBudget × ℕ
spent service today old = let b = roll_if_new_day today old in (b, count_for service b.state)

unfoldable pub remaining : String → ℕ → LiveCallBudget → LiveCallBudget × ℕ
remaining service today old =
    let (b, used) = spent service today old in (b, cap_for service b - used)

unfoldable pub try_spend : String → ℕ → ℕ → LiveCallBudget → LiveCallBudget × Bool
try_spend service cost today old =
    let b = roll_if_new_day today old in
    let used = count_for service b.state in
    if ltb (cap_for service b) (used + cost)
    then (
      record b { warned = if elem service b.warned then b.warned else service ∷ b.warned },
      false,
    )
    else (save (record b { state = put service (used + cost) b.state }), true)

-- The report on one service: its cap, what is spent and what remains.
abbrev pub Line : Type 0
Line = String × (ℕ × ℕ × ℕ)

unfoldable pub line_of : Dict ℕ → String × ℕ → Line
line_of state e = (e.0, (e.1, count_for e.0 state, e.1 - count_for e.0 state))

-- `sorted(caps.items())`: by the services' names.
unfoldable pub snapshot : ℕ → LiveCallBudget → LiveCallBudget × (ℕ × List Line)
snapshot today old =
    let b = roll_if_new_day today old in
    (b, (b.day, map (line_of b.state) (sort_by (λ a c. str_leb a.0 c.0) b.caps)))

unfoldable pub reset : ℕ → LiveCallBudget → LiveCallBudget
reset today b = save (record b { day = today; state = []; warned = [] })
