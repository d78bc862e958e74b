-- ===== src/Geometry.antt =====
-- backend/geometry.py: coordinates, the lengths along a polyline, and stretches of it. Tables and
-- Scoring model the scores of a route, Scores and Tests what is shown of them.
--
-- Coordinates are whole millionths of a degree, distances whole millimetres. The great-circle formula
-- of `haversine_m` and `segment_lengths_m` is arithmetic of `math` and numpy on floats: it is the
-- parameter `dist`.
pub mod Tables
pub mod Scoring
pub mod Route
pub mod Scores
pub mod Bounds
pub mod Samples
mod Tests
use meander.Common.{List, [], drop, min, take, ℕ, ◌+◌, ◌-◌, ◌∷◌}
use meander.Common.Int.{negsuc, pos, ℤ}

pub record LatLon : Type 0 where
  pub lat : ℤ
  pub lon : ℤ

abbrev pub sum : List ℕ → ℕ
sum [] = 0
sum (x ∷ xs) = x + sum xs

-- xs[lo:hi], for lo ≤ hi
abbrev pub slice {ℓ} : {A : Type ℓ} → ℕ → ℕ → List A → List A
slice lo hi xs = take (hi - lo) (drop lo xs)

module _ (dist : LatLon → LatLon → ℕ) where
  unfoldable pub segment_lengths_m : List LatLon → List ℕ
  segment_lengths_m [] = []
  segment_lengths_m (p ∷ []) = []
  segment_lengths_m (p ∷ q ∷ points) = dist p q ∷ segment_lengths_m (q ∷ points)

  unfoldable pub path_length_m : List LatLon → ℕ
  unfolding segment_lengths_m
  path_length_m points = sum (segment_lengths_m points)

-- np.cumsum, from what has been summed so far
unfoldable pub running_sums : ℕ → List ℕ → List ℕ
running_sums acc [] = []
running_sums acc (x ∷ xs) = (acc + x) ∷ running_sums (acc + x) xs

unfoldable pub cumulative_distance_m : (LatLon → LatLon → ℕ) → List LatLon → List ℕ
unfolding running_sums segment_lengths_m
cumulative_distance_m dist [] = []
cumulative_distance_m dist (p ∷ points) = 0 ∷ running_sums 0 (segment_lengths_m dist (p ∷ points))

-- max(0, min(int(i), n))
unfoldable pub clamp_index : ℤ → ℕ → ℕ
clamp_index (pos i) n = min i n
clamp_index (negsuc i) n = 0
