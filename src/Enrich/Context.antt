-- ===== src/Enrich/Context.antt =====
-- backend/enrich.py: `_degrade` and `enrich_context`.
--
-- The requests that the source gathers, and the second tries of the departure search, are answered
-- independently of each other: the answers are the fields of `Outside`. `interpolate` of
-- backend/geometry.py is a parameter.
use meander.Fixtures.Envelope.{Response}
use meander.Fixtures.Fetch.{Fetched}
use meander.Accessibility.Spans.{get_or, origin}
use meander.Geometry.{LatLon}
use meander.Geometry.Samples.{sample_every}
use meander.Common.{
  List, Option, String, [], if◌then◌else◌, leb, length, ltb, map, min, none, some, ℕ, ◌*◌, ◌++◌,
  ◌-◌, ◌/◌, ◌∷◌,
}
use meander.Common.Round.{round_div}
use meander.Enrich.{
  Attempt, Box, Decoded, Element, OverpassNodes, Query, bbox, fetch_overpass,
  overpass_barrier_query, overpass_query, raised, returned, rounded_point, usable_of,
}
use meander.Enrich.Series.{AirQuality, Hourly, fetch_air_quality, fetch_cloud_cover}
use meander.Enrich.Departure.{
  DepartureSuggestion, Sky, Sun, best_departure, shade_need as shade_wanted,
}

-- What each request comes to; a forecast is asked for once for the route and, if that failed, once more
-- for the departure.
pub record Outside : Type 0 where
  pub overpass : Query → Fetched
  pub air : LatLon → Fetched
  pub air_again : LatLon → Fetched
  pub cloud : LatLon → Fetched
  pub cloud_again : LatLon → Fetched

-- How bodies and instants are read and written.
pub record Formats : Type 0 where
  pub elements_of : Response → Decoded (List Element)
  pub hourly_of : Response → Decoded Hourly
  pub stamp_of : ℕ → String

pub record EnrichContext : Type 0 where
  pub rest_stop_nodes : Option (List Element)
  pub barrier_nodes : Option (List Element)
  pub air : Option AirQuality
  pub shade_need : Option ℕ
  pub sun : Option Sun
  pub departure : Option DepartureSuggestion

unfoldable pub degrade {ℓ} : {A : Type ℓ} → Attempt A → Option A
degrade raised = none
degrade (returned a) = a

-- max(routes, key=len): the first of the longest
unfoldable pub longest_of : List LatLon → List (List LatLon) → List LatLon
longest_of best [] = best
longest_of best (r ∷ routes) = longest_of (if ltb (length best) (length r) then r else best) routes

unfoldable pub concat : List (List LatLon) → List LatLon
concat [] = []
concat (r ∷ routes) = r ++ concat routes

abbrev pub or_now : Option ℕ → ℕ → ℕ
or_now none now = now
or_now (some t) now = t

-- To three places.
abbrev pub coarse : LatLon → LatLon
coarse p = rounded_point 10000 p

abbrev pub empty_context : EnrichContext
empty_context = record {
  rest_stop_nodes = none;
  barrier_nodes = none;
  air = none;
  shade_need = none;
  sun = none;
  departure = none;
}

unfoldable pub usable_nodes : Option OverpassNodes → Option (List Element)
unfolding usable_of
usable_nodes none = none
usable_nodes (some nodes) = usable_of nodes

-- round(max(0, min(1, shade_need(sun) * (1 - cloud))), 4)
unfoldable pub need_of : Sky → Sun → Option ℕ → Option ℕ
unfolding shade_wanted
need_of sky sun none = none
need_of sky sun (some cloud) =
    some (round_div (min (shade_wanted sky sun * (10000 - cloud)) 10000000000) 1000000)

module _ (dist : LatLon → LatLon → ℕ) (sky : Sky) (interpolate : LatLon → LatLon → ℕ → ℕ → LatLon)
    (formats : Formats) (outside : Outside) where
  -- The box raises for no points.
  unfoldable pub ask_overpass : (Box → Query) → List LatLon → Attempt OverpassNodes
  unfolding fetch_overpass bbox
  ask_overpass query [] = raised
  ask_overpass query (p ∷ points) =
      fetch_overpass formats.elements_of outside.overpass (p ∷ points) (query (bbox p points))

  unfoldable pub sampled_for_overpass : List LatLon → List LatLon
  unfolding sample_every
  sampled_for_overpass points =
      if leb (length points) 120
      then points
      else map (λ s. s.point) (sample_every dist interpolate points 25000 120)

  module _ (moment : ℕ) (midpoint : LatLon) where
    abbrev pub read_air : Fetched → Attempt AirQuality
    read_air answer = fetch_air_quality formats.stamp_of formats.hourly_of moment answer

    abbrev pub read_cloud : Fetched → Attempt ℕ
    read_cloud answer = fetch_cloud_cover formats.stamp_of formats.hourly_of moment answer

    unfoldable pub air_found : Option AirQuality
    unfolding degrade fetch_air_quality rounded_point
    air_found = degrade (read_air (outside.air (coarse midpoint)))

    unfoldable pub cloud_found : Option ℕ
    unfolding degrade fetch_cloud_cover rounded_point
    cloud_found = degrade (read_cloud (outside.cloud (coarse midpoint)))

    unfoldable pub departure_found : List LatLon → Option DepartureSuggestion
    unfolding degrade best_departure air_found cloud_found
    departure_found longest = degrade (
        best_departure dist sky longest moment air_found cloud_found
          (read_air (outside.air_again (coarse midpoint)))
          (read_cloud (outside.cloud_again (coarse midpoint))))

  unfoldable pub context_at : ℕ → (all_points longest : List LatLon) → EnrichContext
  unfolding usable_nodes degrade ask_overpass sampled_for_overpass air_found cloud_found need_of
      departure_found
  context_at moment all_points longest =
      let midpoint = get_or longest (length longest / 2) origin in
      let sampled = sampled_for_overpass all_points in
      let sun = sky.solar moment midpoint in
      record {
        rest_stop_nodes = usable_nodes (degrade (ask_overpass overpass_query sampled));
        barrier_nodes = usable_nodes (degrade (ask_overpass overpass_barrier_query sampled));
        air = air_found moment midpoint;
        shade_need = need_of sky sun (cloud_found moment midpoint);
        sun = some sun;
        departure = departure_found moment midpoint longest;
      }

  -- `depart_at` or now, in UTC.
  unfoldable pub enrich_context : List (List LatLon) → Option ℕ → (now : ℕ) → EnrichContext
  unfolding concat longest_of context_at
  enrich_context routes depart_at now =
      let all_points = concat routes in
      let moment = or_now depart_at now in
      if ltb (length all_points) 2 then empty_context else elim routes [
        | [] ↦ empty_context
        | r ∷ rest ↦ context_at moment all_points (longest_of r rest)
      ]
