-- ===== src/Geometry/Bounds.antt =====
-- That `score_geometry` (backend/geometry.py) keeps every score between 0 and 1.
use native.Mathlib.Nat.{mul-pos}
use meander.Common.{
  All, All-append, List, Option, Option_ind, [], ap, arith, if_ind, length, ltb, max, none, some, ℕ,
  ◌*◌, ◌+◌, ◌-◌, ◌<◌, ◌∷◌, ◌≡◌, ◌≤◌,
}
use meander.Common.Round.{round_div-le}
use meander.Common.Int.{ℤ}
use meander.Geometry.Scoring.{
  Ratio, TagSpan, Terms, WeightedTagScore, blend_cover, blend_terms, clip, curviness_of,
  elevation_variance_of, round_clipped, round_ratio, scenic_of, term, weight_total, weighted_sum,
  weighted_tag_score,
}
use meander.Geometry.Route.{
  RouteGeometryScores, TagDetails, canopy_of, curve_of, naturalness_of, quiet_of, rounded,
  score_geometry, shade_cover_of, terms_of,
}
use meander.Geometry.Scores.{AreUnit, IsMean, IsTable, IsUnit, weighted_tag_score-IsMean}
use meander.Geometry.Tables.{
  Table, road_class_air_proxy, road_class_canopy_proxy, road_class_naturalness,
  road_class_quiet_proxy, road_environment_cover, surface_canopy_proxy, surface_naturalness,
  surface_quiet,
}
use meander.Geometry.{LatLon, path_length_m}

times_le : (x y k : ℕ) → x ≤ y → x * k ≤ y * k
times_le x y k h = grind arith

mean_le : (a b x y v w : ℕ) → a ≤ x → b ≤ y → a * v * y + b * w * x ≤ x * y * (v + w)
mean_le a b x y v w h k = grind (arith, times_le a x (v * y) h, times_le b y (w * x) k)

blend_terms-AreUnit :
    (a b : Option Ratio) (v w : ℕ) → 0 < v → AreUnit a → AreUnit b → AreUnit (blend_terms a v b w)
unfolding blend_terms
blend_terms-AreUnit none b v w p h k = k
blend_terms-AreUnit (some a) none v w p h k = h
blend_terms-AreUnit (some a) (some b) v w p h k =
    (mean_le a.num b.num a.den b.den v w h.0 k.0, mul-pos (mul-pos h.1 k.1) (omega (arith, p)))

split : (r : Ratio) → r.num ≤ r.den → (r.den - r.num) + r.num ≡ r.den
split r h = omega arith

blend_cover-AreUnit :
    (canopy : Option Ratio) (cover : WeightedTagScore)
    → AreUnit canopy
    → IsMean cover
    → AreUnit (blend_cover canopy cover)
unfolding blend_cover
blend_cover-AreUnit none cover h k = k.0
blend_cover-AreUnit (some c) cover h k = over cover.score cover.coverage k.0 k.1
  where
    over :
        (o : Option Ratio) (r : Ratio)
        → AreUnit o
        → IsUnit r
        → AreUnit (elim o [
          | none ↦ some c
          | some s ↦ some (record {
            num = c.num * (r.den - r.num) * s.den + s.num * r.num * c.den;
            den = c.den * s.den * r.den;
          })
        ])
    over none r u m = h
    over (some s) r u m = (
      omega (
        arith,
        mean_le c.num s.num c.den s.den (r.den - r.num) r.num h.0 u.0,
        ap (λ d. c.den * s.den * d) (split r m.0),
      ),
      mul-pos (mul-pos h.1 u.1) m.1,
    )

round_ratio-le : (r : Ratio) → IsUnit r → round_ratio r ≤ 10000
unfolding round_ratio
round_ratio-le r h = round_div-le (10000 * r.num) r.den 10000 h.1 (omega (arith, h.0))

clip-IsUnit : (n d : ℕ) → 0 < d → IsUnit (clip n d)
unfolding clip
clip-IsUnit n d h = (omega arith, h)

round_clipped-le : (r : Ratio) → 0 < r.den → round_clipped r ≤ 10000
unfolding round_clipped
round_clipped-le r h = round_ratio-le (clip r.num r.den) (clip-IsUnit r.num r.den h)

-- A score that is there is at most 1.
abbrev pub AtMostOne : Option ℕ → Type 0
AtMostOne none = Unit
AtMostOne (some n) = n ≤ 10000

rounded-AtMostOne :
    (f : Ratio → ℕ) (o : Option Ratio)
    → ((r : Ratio) → IsUnit r → f r ≤ 10000)
    → AreUnit o
    → AtMostOne (rounded f o)
rounded-AtMostOne f none h u = tt
rounded-AtMostOne f (some r) h u = h r u

curviness_of-IsUnit : (turning distance : ℕ) → IsUnit (curviness_of turning distance)
unfolding curviness_of
curviness_of-IsUnit turning distance =
    if_ind IsUnit (ltb distance 50000) (λ e. (omega arith, omega arith))
      λ e. clip-IsUnit (100 * turning) (45 * distance) (ground (arith, e))

elevation_variance_of-AreUnit :
    (std : List ℤ → Option ℕ) (elevations : List ℤ) → AreUnit (elevation_variance_of std elevations)
unfolding elevation_variance_of
elevation_variance_of-AreUnit std elevations =
    if_ind AreUnit (ltb (length elevations) 3) (λ e. tt)
      λ e. Option_ind AreUnit (std elevations) (λ n. tt) λ s n. clip-IsUnit s 15000 (omega arith)

-- Terms whose values are fractions.
abbrev AreProper : Terms → Type 0
AreProper terms = All (λ t. 0 < t.1.den) terms

weighted_sum-pos : (terms : Terms) → AreProper terms → 0 < (weighted_sum terms).den
unfolding weighted_sum
weighted_sum-pos [] h = omega arith
weighted_sum-pos ((w, v) ∷ terms) h = mul-pos h.0 (weighted_sum-pos terms h.1)

term-AreProper : (w : ℕ) (o : Option Ratio) → AreUnit o → AreProper (term w o)
term-AreProper w none h = tt
term-AreProper w (some r) h = (h.1, tt)

scenic_of-le : (terms : Terms) → 0 < weight_total terms → AreProper terms → scenic_of terms ≤ 10000
unfolding scenic_of
scenic_of-le terms h k = round_clipped-le _ (mul-pos (weighted_sum-pos terms k) h)

max_le : (m n : ℕ) → m ≤ 10000 → n ≤ 10000 → max m n ≤ 10000
max_le m n h k = omega arith

-- Every score of a route is between 0 and 1.
pub record IsBounded (s : RouteGeometryScores) : Type 0 where
  pub scenic : s.scenic ≤ 10000
  pub air : AtMostOne s.air
  pub curviness : s.curviness ≤ 10000
  pub elevation_variance : AtMostOne s.elevation_variance
  pub naturalness : AtMostOne s.naturalness
  pub tag_coverage : s.tag_coverage ≤ 10000
  pub quiet : AtMostOne s.quiet
  pub shade_cover : AtMostOne s.shade_cover

road_class_naturalness-IsTable : IsTable road_class_naturalness
road_class_naturalness-IsTable = ground arith

surface_naturalness-IsTable : IsTable surface_naturalness
surface_naturalness-IsTable = ground arith

road_class_air_proxy-IsTable : IsTable road_class_air_proxy
road_class_air_proxy-IsTable = ground arith

road_class_quiet_proxy-IsTable : IsTable road_class_quiet_proxy
road_class_quiet_proxy-IsTable = ground arith

surface_quiet-IsTable : IsTable surface_quiet
surface_quiet-IsTable = ground arith

road_class_canopy_proxy-IsTable : IsTable road_class_canopy_proxy
road_class_canopy_proxy-IsTable = ground arith

surface_canopy_proxy-IsTable : IsTable surface_canopy_proxy
surface_canopy_proxy-IsTable = ground arith

road_environment_cover-IsTable : IsTable road_environment_cover
road_environment_cover-IsTable = ground arith

module _ (dist : LatLon → LatLon → ℕ) (turning : List LatLon → ℕ) (std : List ℤ → Option ℕ)
    (points : List LatLon) (elevations : List ℤ) (details : TagDetails)
    (clip_score : Option Ratio) where
  mean :
      (spans : Option (List TagSpan)) (table : Table)
      → IsTable table
      → IsMean (weighted_tag_score dist points spans table)
  mean = weighted_tag_score-IsMean dist points

  naturalness_of-AreUnit :
      AreUnit (naturalness_of dist turning std points elevations details clip_score)
  unfolding naturalness_of
  naturalness_of-AreUnit =
      blend_terms-AreUnit _ _ 65 35 (omega arith)
        (mean details.road_class road_class_naturalness road_class_naturalness-IsTable).0
        (mean details.surface surface_naturalness surface_naturalness-IsTable).0

  quiet_of-AreUnit : AreUnit (quiet_of dist turning std points elevations details clip_score)
  unfolding quiet_of
  quiet_of-AreUnit =
      blend_terms-AreUnit _ _ 75 25 (omega arith)
        (mean details.road_class road_class_quiet_proxy road_class_quiet_proxy-IsTable).0
        (mean details.surface surface_quiet surface_quiet-IsTable).0

  shade_cover_of-AreUnit :
      AreUnit (shade_cover_of dist turning std points elevations details clip_score)
  unfolding shade_cover_of canopy_of
  shade_cover_of-AreUnit =
      blend_cover-AreUnit _ _
        (blend_terms-AreUnit _ _ 60 40 (omega arith)
          (mean details.road_class road_class_canopy_proxy road_class_canopy_proxy-IsTable).0
          (mean details.surface surface_canopy_proxy surface_canopy_proxy-IsTable).0)
        (mean details.road_environment road_environment_cover road_environment_cover-IsTable)

  terms_of-AreProper :
      AreUnit clip_score
      → (0 < weight_total (terms_of dist turning std points elevations details clip_score))
        × AreProper (terms_of dist turning std points elevations details clip_score)
  unfolding terms_of weight_total curve_of
  terms_of-AreProper h =
      let rest =
        All-append (λ t. 0 < t.1.den)
          (term 20 (naturalness_of dist turning std points elevations details clip_score)) _
          (term-AreProper 20 _ naturalness_of-AreUnit)
          (term-AreProper 15 _ (elevation_variance_of-AreUnit std elevations)) in
      (
        omega arith,
        (
          (curviness_of-IsUnit (turning points) (path_length_m dist points)).1,
          All-append (λ t. 0 < t.1.den) (term 45 clip_score) _ (term-AreProper 45 clip_score h)
              rest,
        ),
      )

  -- Every score of a route is between 0 and 1, for any tags and any shape, if the photograph term is.
  pub score_geometry-IsBounded :
      AreUnit clip_score
      → IsBounded (score_geometry dist turning std points elevations details clip_score)
  unfolding score_geometry curve_of
  score_geometry-IsBounded h =
      let proper = terms_of-AreProper h in
      let clipped : (r : Ratio) → IsUnit r → round_clipped r ≤ 10000 =
        λ r u. round_clipped-le r u.1 in
      record {
        scenic = scenic_of-le _ proper.0 proper.1;
        air =
            rounded-AtMostOne round_ratio _ round_ratio-le
              (mean details.road_class road_class_air_proxy road_class_air_proxy-IsTable).0;
        curviness =
            round_ratio-le _ (curviness_of-IsUnit (turning points) (path_length_m dist points));
        elevation_variance =
            rounded-AtMostOne round_ratio _ round_ratio-le
              (elevation_variance_of-AreUnit std elevations);
        naturalness = rounded-AtMostOne round_ratio _ round_ratio-le naturalness_of-AreUnit;
        tag_coverage =
            max_le _ _
              (round_ratio-le _
                (mean details.road_class road_class_naturalness road_class_naturalness-IsTable).1)
              (round_ratio-le _
                (mean details.surface surface_naturalness surface_naturalness-IsTable).1);
        quiet = rounded-AtMostOne round_clipped _ clipped quiet_of-AreUnit;
        shade_cover = rounded-AtMostOne round_clipped _ clipped shade_cover_of-AreUnit;
      }
