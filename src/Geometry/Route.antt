-- ===== src/Geometry/Route.antt =====
-- backend/geometry.py: `score_geometry`.
use meander.Common.{Bool, List, Option, false, max, none, some, true, ℕ, ◌++◌, ◌∷◌}
use meander.Common.Int.{ℤ}
use meander.Geometry.{LatLon, path_length_m}
use meander.Geometry.Tables.{
  Table, road_class_air_proxy, road_class_canopy_proxy, road_class_naturalness,
  road_class_quiet_proxy, road_environment_cover, surface_canopy_proxy, surface_naturalness,
  surface_quiet,
}
use meander.Geometry.Scoring.{
  Ratio, TagSpan, Terms, WeightedTagScore, blend_cover, blend_terms, curviness_of,
  elevation_variance_of, round_clipped, round_ratio, scenic_of, term, weighted_tag_score,
}

-- Scores are ten-thousandths.
pub record RouteGeometryScores : Type 0 where
  pub scenic : ℕ
  pub air : Option ℕ
  pub curviness : ℕ
  pub elevation_variance : Option ℕ
  pub naturalness : Option ℕ
  pub tag_coverage : ℕ
  pub has_elevation : Bool
  pub quiet : Option ℕ
  pub shade_cover : Option ℕ

pub record TagDetails : Type 0 where
  pub road_class : Option (List TagSpan)
  pub surface : Option (List TagSpan)
  pub road_environment : Option (List TagSpan)

abbrev pub rounded : (Ratio → ℕ) → Option Ratio → Option ℕ
rounded f none = none
rounded f (some r) = some (f r)

abbrev pub is_measured : Option Ratio → Bool
is_measured none = false
is_measured (some r) = true

module _ (dist : LatLon → LatLon → ℕ) (turning : List LatLon → ℕ) (std : List ℤ → Option ℕ) where
  module _ (points : List LatLon) (elevations : List ℤ) (details : TagDetails)
      (clip_score : Option Ratio) where
    abbrev pub class_score : Table → WeightedTagScore
    class_score table = weighted_tag_score dist points details.road_class table

    abbrev pub surface_score : Table → WeightedTagScore
    surface_score table = weighted_tag_score dist points details.surface table

    unfoldable pub naturalness_of : Option Ratio
    naturalness_of =
        blend_terms (class_score road_class_naturalness).score 65
          (surface_score surface_naturalness).score 35

    unfoldable pub quiet_of : Option Ratio
    quiet_of =
        blend_terms (class_score road_class_quiet_proxy).score 75
          (surface_score surface_quiet).score 25

    unfoldable pub canopy_of : Option Ratio
    canopy_of =
        blend_terms (class_score road_class_canopy_proxy).score 60
          (surface_score surface_canopy_proxy).score 40

    unfoldable pub shade_cover_of : Option Ratio
    shade_cover_of =
        blend_cover canopy_of
          (weighted_tag_score dist points details.road_environment road_environment_cover)

    unfoldable pub curve_of : Ratio
    curve_of = curviness_of (turning points) (path_length_m dist points)

    -- The terms that were measured, with their weights.
    unfoldable pub terms_of : Terms
    terms_of =
        (20, curve_of)
        ∷ (term 45 clip_score
            ++ (term 20 naturalness_of ++ term 15 (elevation_variance_of std elevations)))

    unfoldable pub score_geometry : RouteGeometryScores
    score_geometry = record {
      scenic = scenic_of terms_of;
      air = rounded round_ratio (class_score road_class_air_proxy).score;
      curviness = round_ratio curve_of;
      elevation_variance = rounded round_ratio (elevation_variance_of std elevations);
      naturalness = rounded round_ratio naturalness_of;
      tag_coverage =
          max (round_ratio (class_score road_class_naturalness).coverage)
            (round_ratio (surface_score surface_naturalness).coverage);
      has_elevation = is_measured (elevation_variance_of std elevations);
      quiet = rounded round_clipped quiet_of;
      shade_cover = rounded round_clipped shade_cover_of;
    }
