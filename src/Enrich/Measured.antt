-- ===== src/Enrich/Measured.antt =====
-- That the context of a request (`enrich_context`, backend/enrich.py) says nothing that was not
-- measured.

use meander.Accessibility.Spans.{get_or, origin}
use meander.Geometry.{LatLon}
use meander.Common.{List, Option, [], length, none, some, ℕ, ◌/◌, ◌<◌, ◌∷◌, ◌≡◌}
use meander.Enrich.{
  Box, Element, Query, bbox, overpass_barrier_query, overpass_max_results, overpass_query,
}
use meander.Enrich.Hours.{IsAnswer, IsOfHour}
use meander.Enrich.Departure.{Sky}
use meander.Enrich.Context.{
  EnrichContext, Formats, Outside, coarse, longest_of, need_of, sampled_for_overpass,
}
use meander.Enrich.Series.{AirQuality, Hourly, clean, share}
use meander.Common.Int.{ℤ}

-- A property of what is there, if it is.
abbrev pub WhereThere {ℓ κ} : {A : Type ℓ} → (A → Type κ) → Option A → Type κ
WhereThere P none = Unit
WhereThere P (some a) = P a

-- The midpoint of the longest route.
pub midpoint_of : List (List LatLon) → LatLon
midpoint_of [] = origin
midpoint_of (r ∷ routes) = get_or (longest_of r routes) (length (longest_of r routes) / 2) origin

module _ (dist : LatLon → LatLon → ℕ) (sky : Sky) (interpolate : LatLon → LatLon → ℕ → ℕ → LatLon)
    (formats : Formats) (outside : Outside) where
  -- The nodes are all that Overpass answered to the query over the box of the points, fewer than its
  -- limit.
  pub record IsSurvey (query : Box → Query) (points : List LatLon) (es : List Element)
      : Type 0 where
    pub first : LatLon
    pub others : List LatLon
    pub along : points ≡ first ∷ others
    pub answer : IsAnswer formats.elements_of (outside.overpass (query (bbox first others))) es
    pub whole : length es < overpass_max_results

  module _ (moment : ℕ) (midpoint : LatLon) where
    -- The air is that of the hour asked about, in the answer to this request.
    pub record IsMeasuredAir (a : AirQuality) : Type 0 where
      pub series : Hourly
      pub answer : IsAnswer formats.hourly_of (outside.air (coarse midpoint)) series
      pub of_hour : IsOfHour formats.stamp_of moment series series.european_aqi a.aqi
      pub scored : a.score ≡ clean a.aqi

    -- The cloud is that of the hour asked about, and the need for shade follows from it.
    pub record IsMeasuredNeed (need : ℕ) : Type 0 where
      pub series : Hourly
      pub answer : IsAnswer formats.hourly_of (outside.cloud (coarse midpoint)) series
      pub value : ℤ
      pub of_hour : IsOfHour formats.stamp_of moment series series.cloud_cover value
      pub follows : need_of sky (sky.solar moment midpoint) (some (share value)) ≡ some need

  -- What a context says of the points of a request, around the midpoint of its longest route.
  pub record IsMeasured (moment : ℕ) (points : List LatLon) (midpoint : LatLon) (c : EnrichContext)
      : Type 0 where
    pub rest_stops :
        WhereThere
          (IsSurvey overpass_query
            (sampled_for_overpass dist sky interpolate formats outside points))
          c.rest_stop_nodes
    pub barriers :
        WhereThere
          (IsSurvey overpass_barrier_query
            (sampled_for_overpass dist sky interpolate formats outside points))
          c.barrier_nodes
    pub air : WhereThere (IsMeasuredAir moment midpoint) c.air
    pub need : WhereThere (IsMeasuredNeed moment midpoint) c.shade_need
