-- ===== src/Accessibility/Incline.antt =====
-- `_resample_elevation` and `incline_findings` of backend/accessibility.py.
--
-- Heights are whole millimetres. `np.interp` is the parameter `interp`: the profile's height at each
-- grid distance, from the heights at the vertices' distances. A gradient is kept as the climb over
-- one 20 m window, so that a limit of 8 % is 1600 mm and a sum of two windows is held to 2000 mm.
use meander.Geometry.{LatLon, cumulative_distance_m, path_length_m}
use meander.Common.{
  Bool, List, Option, [], false, if◌then◌else◌, leb, length, ltb, min, none, not, some, suc, true,
  zero, ℕ, ◌*◌, ◌++◌, ◌+◌, ◌-◌, ◌/◌, ◌==◌, ◌||◌, ◌∷◌,
}
use meander.Common.Round.{round_div}
use meander.Common.Int.{abs, negsuc, pos, ℤ, ◌+ℤ◌, ◌-ℤ◌}
use meander.Accessibility.Spans.{Description, Finding, get_or, incline, origin, steep, sustained}

-- INCLINE_SMOOTHING_WINDOW_M
abbrev pub window_mm : ℕ
window_mm = 20000

-- MAX_INCLINE_PCT
abbrev pub max_incline_pct : ℕ
max_incline_pct = 8

-- SUSTAINED_INCLINE_PCT
abbrev pub sustained_incline_pct : ℕ
sustained_incline_pct = 5

-- max(2, int(SUSTAINED_INCLINE_OVER_M / INCLINE_SMOOTHING_WINDOW_M))
abbrev pub sustained_windows : ℕ
sustained_windows = 2

-- np.arange(i * window, total, window): `n` points at most
unfoldable pub grid_from : ℕ → ℕ → ℕ → List ℕ
grid_from total zero i = []
grid_from total (suc n) i =
    let rest = grid_from total n (i + 1) in
    if ltb (i * window_mm) total then i * window_mm ∷ rest else []

-- The grid, and the route's end; empty when the route is too short.
unfoldable pub grid_of : ℕ → List ℕ
unfolding grid_from
grid_of total =
    if ltb total (window_mm * 2)
    then []
    else grid_from total (total / window_mm + 1) 0 ++ total ∷ []

unfoldable pub diffs : List ℤ → List ℤ
unfolding ◌-ℤ◌
diffs [] = []
diffs (x ∷ []) = []
diffs (x ∷ y ∷ xs) = (y -ℤ x) ∷ diffs (y ∷ xs)

-- np.convolve with a window of two ones: the sums of neighbours
unfoldable pub pair_sums : List ℤ → List ℤ
unfolding ◌+ℤ◌
pair_sums [] = []
pair_sums (x ∷ []) = []
pair_sums (x ∷ y ∷ xs) = (x +ℤ y) ∷ pair_sums (y ∷ xs)

-- int(np.argmax(np.abs(xs))): the first place of the largest magnitude; `i` is the place of the head
unfoldable pub argmax_from : ℕ → (place : ℕ) (best : ℤ) → List ℤ → ℕ × ℤ
argmax_from i place best [] = (place, best)
argmax_from i place best (x ∷ xs) =
    argmax_from (i + 1) (if ltb (abs best) (abs x) then i else place)
      (if ltb (abs best) (abs x) then x else best) xs

unfoldable pub argmax_abs : List ℤ → Option (ℕ × ℤ)
unfolding argmax_from
argmax_abs [] = none
argmax_abs (x ∷ xs) = some (argmax_from 1 0 x xs)

-- points[min(np.searchsorted(cum, distance), len(points) - 1)]
unfoldable pub searchsorted : List ℕ → ℕ → ℕ
searchsorted [] d = 0
searchsorted (c ∷ cum) d = if leb d c then 0 else suc (searchsorted cum d)

unfoldable pub point_at : List LatLon → List ℕ → ℕ → LatLon
unfolding searchsorted
point_at points cum d = get_or points (min (searchsorted cum d) (length points - 1)) origin

unfoldable pub incline_at : List LatLon → List ℕ → List ℕ → ℕ → Description → Finding
unfolding point_at
incline_at points cum grid place text = record {
  type = incline;
  at = point_at points cum (get_or grid place 0);
  description = text;
  at_m = round_div (get_or grid place 0) 1000;
}

is_up : ℤ → Bool
is_up (pos zero) = false
is_up (pos (suc n)) = true
is_up (negsuc n) = false

-- The steepest window, if it is above the limit.
unfoldable pub steep_findings : List LatLon → List ℕ → List ℕ → List ℤ → List Finding
unfolding argmax_abs incline_at is_up
steep_findings points cum grid gradients = elim (argmax_abs gradients) [
  | none ↦ []
  | some (place, climb) ↦
      if ltb (max_incline_pct * window_mm) (abs climb * 100)
      then incline_at points cum grid place (steep (abs climb) (is_up climb)) ∷ []
      else []
]

-- The worst pair of windows, if its mean is above the sustained limit.
unfoldable pub sustained_findings : List LatLon → List ℕ → List ℕ → List ℤ → List Finding
unfolding argmax_abs incline_at pair_sums
sustained_findings points cum grid gradients = elim (argmax_abs (pair_sums gradients)) [
  | none ↦ []
  | some (place, climb) ↦
      if ltb (sustained_incline_pct * window_mm * sustained_windows) (abs climb * 100)
      then incline_at points cum grid place (sustained (abs climb)) ∷ []
      else []
]

unfoldable pub incline_findings :
    (LatLon → LatLon → ℕ)
    → (List ℕ → List ℕ → List ℤ → List ℤ)
    → List LatLon
    → Option (List ℤ)
    → List Finding
incline_findings dist interp points none = []
incline_findings dist interp points (some elevations) =
    let cum = cumulative_distance_m dist points in
    let grid = grid_of (path_length_m dist points) in
    let gradients = diffs (interp grid cum elevations) in
    let steepest = steep_findings points cum grid gradients in
    if length elevations == 0
      || not (length elevations == length points)
      || ltb (length points) 3
      || ltb (length grid) 3
    then []
    else elim steepest [ f ∷ fs ↦ f ∷ fs | [] ↦ sustained_findings points cum grid gradients ]
