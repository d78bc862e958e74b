-- ===== src/Profile.antt =====
-- backend/elevation.py: the elevation profile of a route, for drawing. Agree, Bounds and Tests are its
-- proofs.
--
-- Heights and distances are whole millimetres until they are rounded to decimetres. A gradient is the
-- climb over one 20 m window, as in `incline_findings` of backend/accessibility.py, and is rounded to
-- tenths of a percent. `np.interp` is the parameter `interp`.
pub mod Agree
pub mod Bounds
mod Tests
use meander.Geometry.{LatLon, cumulative_distance_m, path_length_m}
use meander.Accessibility.Spans.{get_or}
use meander.Accessibility.Incline.{diffs, grid_of, max_incline_pct, window_mm}
use meander.Common.{
  Bool, List, Option, [], false, if◌then◌else◌, leb, length, ltb, map, max, min, none, not, some,
  suc, true, zero, ℕ, ◌*◌, ◌+◌, ◌-◌, ◌==◌, ◌||◌, ◌∷◌,
}
use meander.Common.Round.{round_div}
use meander.Common.Int.{abs, negsuc, pos, sub_ℕ, ℤ}

-- MAX_PROFILE_POINTS
abbrev pub max_profile_points : ℕ
max_profile_points = 120

-- Distances, heights, ascent and descent are decimetres, the gradient tenths of a percent. A span is
-- the first place it marks and one past the last.
pub record ElevationProfile : Type 0 where
  pub distances_m : List ℕ
  pub elevations_m : List ℤ
  pub ascent_m : ℕ
  pub descent_m : ℕ
  pub max_gradient_pct : ℕ
  pub steep_spans : List (ℕ × ℕ)
  pub limit_pct : ℕ

-- values[round(k * step)] for `rounds` places from `k` on, where `step` is (n - 1) / (target - 1)
unfoldable pub thin_from {ℓ} : {A : Type ℓ} → A → List A → ℕ → (rounds : ℕ) (k : ℕ) → List A
thin_from d values target zero k = []
thin_from d values target (suc rounds) k =
    get_or values (round_div (k * (length values - 1)) (target - 1)) d
    ∷ thin_from d values target rounds (k + 1)

-- `d` stands for a place out of range, which none is.
unfoldable pub thin {ℓ} : {A : Type ℓ} → A → List A → ℕ → List A
unfolding thin_from
thin d values target =
    if leb (length values) target then values else thin_from d values target target 0

-- The deltas above and below 0, summed.
unfoldable pub ascent : List ℤ → ℕ
ascent [] = 0
ascent (pos n ∷ deltas) = n + ascent deltas
ascent (negsuc n ∷ deltas) = ascent deltas

unfoldable pub descent : List ℤ → ℕ
descent [] = 0
descent (pos n ∷ deltas) = descent deltas
descent (negsuc n ∷ deltas) = suc n + descent deltas

-- np.abs(gradients).max(), and 0 for none
unfoldable pub max_abs : List ℤ → ℕ
max_abs [] = 0
max_abs (x ∷ xs) = max (abs x) (max_abs xs)

-- Whether the climb over a window is above the limit.
abbrev pub is_over : ℤ → Bool
is_over climb = ltb (max_incline_pct * window_mm) (abs climb * 100)

-- The loop over the windows: `i` is the place of the first, `start` the run that is open.
unfoldable pub steep_runs : (i : ℕ) (start : Option ℕ) → List Bool → List (ℕ × ℕ)
steep_runs i none [] = []
steep_runs i (some start) [] = (start, i + 1) ∷ []
steep_runs i none (true ∷ over) = steep_runs (i + 1) (some i) over
steep_runs i none (false ∷ over) = steep_runs (i + 1) none over
steep_runs i (some start) (true ∷ over) = steep_runs (i + 1) (some start) over
steep_runs i (some start) (false ∷ over) = (start, i + 1) ∷ steep_runs (i + 1) none over

-- A span over `n` grid points, over the `m` points that are drawn.
unfoldable pub scale_span : (n m : ℕ) → ℕ × ℕ → ℕ × ℕ
scale_span n m (a, b) =
    let lo = min (m - 1) (round_div (a * (m - 1)) (max 1 (n - 1))) in
    let hi = min m (round_div (b * (m - 1)) (max 1 (n - 1))) in (lo, max hi (lo + 1))

-- round(x, 1), from millimetres
abbrev pub to_dm : ℕ → ℕ
to_dm x = round_div x 100

unfoldable pub height_dm : ℤ → ℤ
height_dm (pos n) = pos (to_dm n)
height_dm (negsuc n) = sub_ℕ 0 (to_dm (suc n))

-- The profile of a grid and the heights at its points.
unfoldable pub profile_of : List ℕ → List ℤ → ElevationProfile
unfolding thin ascent descent max_abs steep_runs scale_span height_dm diffs
profile_of grid heights =
    let deltas = diffs heights in
    let drawn = thin 0 grid max_profile_points in
    let heights_drawn = thin (pos 0) heights max_profile_points in
    record {
      distances_m = map (λ x. round_div x 100) drawn;
      elevations_m = map height_dm heights_drawn;
      ascent_m = to_dm (ascent deltas);
      descent_m = to_dm (descent deltas);
      max_gradient_pct = round_div (max_abs deltas * 1000) window_mm;
      steep_spans =
          map (scale_span (length grid) (length drawn)) (steep_runs 0 none (map is_over deltas));
      limit_pct = max_incline_pct;
    }

unfoldable pub build_profile :
    (LatLon → LatLon → ℕ)
    → (List ℕ → List ℕ → List ℤ → List ℤ)
    → List LatLon
    → Option (List ℤ)
    → Option ElevationProfile
unfolding profile_of cumulative_distance_m path_length_m grid_of
build_profile dist interp points none = none
build_profile dist interp points (some elevations) =
    let cum = cumulative_distance_m dist points in
    let grid = grid_of (path_length_m dist points) in
    if length elevations == 0
      || not (length elevations == length points)
      || ltb (length points) 3
      || ltb (length grid) 3
    then none
    else some (profile_of grid (interp grid cum elevations))
