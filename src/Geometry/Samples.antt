-- ===== src/Geometry/Samples.antt =====
-- backend/geometry.py: `sample_every`.
--
-- Distances along the route are scaled by `max(1, max_points - 1)`, so that the spacing is whole.
-- `interpolate` takes the fraction of the way as a numerator and a denominator: its arithmetic on
-- floats is a parameter.
use meander.Geometry.{LatLon, path_length_m}
use meander.Common.{
  List, [], arith, if_ind, if_true, if◌then◌else◌, length, ltb, max, suc, sym, take, zero, ℕ, ◌*◌,
  ◌++◌, ◌+◌, ◌-◌, ◌<◌, ◌==◌, ◌∷◌, ◌≡◌, ◌≤◌,
}
use mathlib.Core.Path.{subst}

pub record SamplePoint : Type 0 where
  pub point : LatLon
  pub at : ℕ

-- A segment with the distances at its ends, cum[idx] and cum[idx + 1].
pub record Segment : Type 0 where
  pub first : LatLon
  pub second : LatLon
  pub start : ℕ
  pub stop : ℕ

unfoldable pub last_of : LatLon → List LatLon → LatLon
last_of p [] = p
last_of p (q ∷ points) = last_of q points

module _ (dist : LatLon → LatLon → ℕ) (interpolate : LatLon → LatLon → ℕ → ℕ → LatLon) where
  unfoldable pub segment : ℕ → LatLon → LatLon → Segment
  segment start p q = record { first = p; second = q; start = start; stop = start + dist p q }

  unfoldable pub segments_from : ℕ → LatLon → List LatLon → List Segment
  unfolding segment
  segments_from start p [] = []
  segments_from start p (q ∷ points) = segment start p q ∷ segments_from (start + dist p q) q points

  module _ (scale spacing total : ℕ) where
    -- while idx < len(cum) - 2 and cum[idx + 1] < target
    unfoldable pub current : ℕ → Segment → List Segment → Segment × List Segment
    current target s [] = (s, [])
    current target s (u ∷ rest) =
        let next = current target u rest in
        if ltb (s.stop * scale) target then next else (s, u ∷ rest)

    unfoldable pub sample_in : ℕ → Segment → SamplePoint
    sample_in target s = record {
      point =
          if s.stop - s.start == 0
          then interpolate s.first s.second 0 1
          else interpolate s.first s.second (target - s.start * scale) ((s.stop - s.start) * scale);
      at = target;
    }

    -- The targets from one on, at most `n` of them: what is beyond `max_points` is cut off in any case.
    unfoldable pub samples : (n target : ℕ) → Segment × List Segment → List SamplePoint
    unfolding current sample_in
    samples zero target (s, rest) = []
    samples (suc n) target (s, rest) =
        let here = current target s rest in
        let later = samples n (target + spacing) here in
        if ltb target total then sample_in target here.0 ∷ later else []

  unfoldable pub sample_every : List LatLon → (spacing max_points : ℕ) → List SamplePoint
  unfolding samples segments_from segment last_of path_length_m
  sample_every [] spacing max_points = []
  sample_every (p ∷ []) spacing max_points = record { point = p; at = 0 } ∷ []
  sample_every (p ∷ q ∷ points) spacing max_points =
      let total = path_length_m dist (p ∷ q ∷ points) in
      let scale = max 1 (max_points - 1) in
      if total == 0
      then record { point = p; at = 0 } ∷ []
      else take max_points (
          samples scale (max (spacing * scale) total) (total * scale) max_points 0
            (segment 0 p q, segments_from (dist p q) q points)
          ++ record { point = last_of q points; at = total * scale } ∷ [])

  product_positive : (a b : ℕ) → 0 < a → 0 < b → 0 < a * b
  product_positive zero b h k = absurd (omega (arith, h))
  product_positive (suc a) zero h k = absurd (omega (arith, k))
  product_positive (suc a) (suc b) h k = omega arith

  -- The first target is always within the length.
  samples-some :
      (scale spacing total n : ℕ) (at : Segment × List Segment)
      → 0 < total
      → (x : SamplePoint) × (xs : List SamplePoint) × (samples scale spacing total (suc n) 0 at
          ≡ x ∷ xs)
  unfolding samples
  samples-some scale spacing total n (s, rest) h =
      let here = current scale spacing total 0 s rest in
      let x = sample_in scale spacing total 0 here.0 in
      let xs = samples scale spacing total n (0 + spacing) here in
      (x, xs, if_true (ltb 0 total) (x ∷ xs) [] (ground (arith, h)))

  two_taken :
      (m : ℕ) (x : SamplePoint) (xs : List SamplePoint) (y : SamplePoint)
      → 2 ≤ length (take (suc (suc m)) (x ∷ (xs ++ y ∷ [])))
  two_taken m x [] y = omega arith
  two_taken m x (z ∷ xs) y = omega arith

  -- Along a route of positive length there are two samples or more, where two are allowed.
  pub length-sample_every :
      (points : List LatLon) (spacing m : ℕ)
      → 0 < path_length_m dist points
      → 2 ≤ length (sample_every points spacing (suc (suc m)))
  unfolding sample_every samples path_length_m
  length-sample_every [] spacing m h = absurd (omega (arith, h))
  length-sample_every (p ∷ []) spacing m h = absurd (omega (arith, h))
  length-sample_every (p ∷ q ∷ points) spacing m h =
      let total = path_length_m dist (p ∷ q ∷ points) in
      let scale = max 1 (suc (suc m) - 1) in
      let end : SamplePoint = record { point = last_of q points; at = total * scale } in
      if_ind (λ (xs : List SamplePoint). 2 ≤ length xs) (total == 0)
        (λ e. absurd (ground (arith, e, h)))
        λ e.
          let (x, xs, same) =
            samples-some scale (max (spacing * scale) total) (total * scale) (suc m)
              (segment 0 p q, segments_from (dist p q) q points)
              (product_positive total scale h (omega arith)) in
          subst (λ (ys : List SamplePoint). 2 ≤ length (take (suc (suc m)) (ys ++ end ∷ [])))
            (sym same) (two_taken m x xs end)
