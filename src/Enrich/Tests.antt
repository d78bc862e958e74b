-- ===== src/Enrich/Tests.antt =====
-- Enrichment at concrete routes and answers, and the theorems about it there.

use meander.Fixtures.Envelope.{Response}
use meander.Fixtures.Fetch.{answered, failed, transport_error}
use meander.Accessibility.Sentence.{is_blocked}
use meander.Accessibility.{assess_barrier, fail, is_among, is_unknown, normalise}
use meander.Geometry.{LatLon, segment_lengths_m}
use meander.Accessibility.Route.{Details, assess_route}
use meander.Common.{
  All, List, Option, String, [], arith, if◌then◌else◌, inl, inr, map, none, refl, some, true, ℕ,
  ◌*◌, ◌+◌, ◌<◌, ◌==◌, ◌∷◌, ◌≡◌,
}
use meander.Common.Round.{round_div}
use meander.Common.Text.{Text, codes, is_space, lstrip, member, replace_char, strip, text_eq, upper}
use meander.Common.Int.{abs, pos, pos_part, sub_ℕ, ℤ, ◌-ℤ◌}
use meander.Enrich.{Decoded, Element, decoded, raised, returned, rounded_point}
use meander.Enrich.Barriers.{
  Foot, Plane, Vector, as_span, barrier_spans_on_route, candidate_of, feet, feet_of, foot_of, minus,
  no_farther, on_plane, within_corridor,
}
use meander.Enrich.Series.{AirQuality, Hourly, clean, fetch_air_quality}
use meander.Enrich.Hours.{IsAnswer, IsOfHour, fetch_air_quality-IsOfHour}
use meander.Enrich.Gates.{gate_blocks}
use meander.Enrich.{rounded_point}
use meander.Enrich.Stops.{rest_stops_on_route}
use meander.Enrich.Departure.{
  DepartureSuggestion, Sky, best_departure, off_your_back, route_heading,
}
use meander.Enrich.Best.{IsBestDeparture, best_departure-IsBest}
use meander.Enrich.Context.{Formats, Outside, enrich_context}

abbrev spot : ℕ → ℕ → LatLon
spot lat lon = record { lat = pos (lat * 10); lon = pos (lon * 10) }

-- A street along the equator, a spot being 11 cm from the next.
abbrev flat : Plane
flat points = (111195, 111195)

abbrev along_x : Vector → ℕ
along_x v = abs v.x

abbrev metres : LatLon → LatLon → ℕ
metres p q = abs (q.lon -ℤ p.lon) * 11 + abs (q.lat -ℤ p.lat) * 11

abbrev street : List LatLon
street = spot 0 0 ∷ spot 0 1000 ∷ spot 0 3000 ∷ []

abbrev node_with : LatLon → Option Text → Option Text → Element
node_with p obstacle facility = record {
  position = some p;
  barrier_tag = obstacle;
  amenity = facility;
  tourism = none;
}

abbrev gate : Element
gate = node_with (spot 50 2000) (some (codes "gate")) none

abbrev far_stile : Element
far_stile = node_with (spot 500 2000) (some (codes "stile")) none

abbrev untagged : Details
untagged = record { road_class = none; surface_spans = none; smoothness_spans = none }

abbrev heights_at : List ℕ → List ℕ → List ℤ → List ℤ
heights_at grid cum heights = heights

-- The gate stands on the second segment, in its middle; the stile is 55 m away.
placed :
    barrier_spans_on_route flat along_x street (far_stile ∷ gate ∷ [])
    ≡ record { start = 1; value = codes "gate"; node = spot 50 2000; along_dm = 2224 } ∷ []
unfolding barrier_spans_on_route round_div no_farther
placed = refl

abbrev on_street : ℕ → ℕ → Vector
on_street lat lon = on_plane (111195, 111195) (spot lat lon)

-- Its foot on the second segment.
abbrev gate_foot : Foot
gate_foot =
    foot_of (minus (on_street 50 2000) (on_street 0 1000))
      (minus (on_street 0 3000) (on_street 0 1000))

gate_is_near : within_corridor gate_foot ≡ true
unfolding within_corridor foot_of on_plane minus
gate_is_near = refl

gate_fails : assess_barrier (some (codes "gate")) ≡ fail
unfolding assess_barrier is_unknown is_among normalise member text_eq strip lstrip is_space upper
    replace_char
gate_fails = refl

street_is_long : All (λ x. 0 < x) (segment_lengths_m metres street)
unfolding segment_lengths_m ◌-ℤ◌
street_is_long = omega arith

gate_blocks_example :
    is_blocked (
      assess_route metres heights_at street none untagged
        (some (map as_span (barrier_spans_on_route flat along_x street (far_stile ∷ gate ∷ [])))))
    ≡ true
unfolding candidate_of feet_of feet on_plane
gate_blocks_example =
    gate_blocks flat along_x metres heights_at street none untagged (far_stile ∷ gate ∷ []) gate
      (spot 50 2000) (codes "gate") gate_foot street_is_long (inr (inl refl)) refl gate_fails
      (inr (inl refl)) gate_is_near

-- The first bench is beside the middle point, the second 111 m from every point.
abbrev beside : LatLon
beside = record { lat = pos 1004; lon = pos 9996 }

abbrev bench : Element
bench = node_with beside none (some (codes "drinking_water"))

abbrev far_bench : Element
far_bench = node_with (spot 1000 1000) none (some (codes "bench"))

abbrev benches : List Element
benches = bench ∷ far_bench ∷ []

stops :
    rest_stops_on_route metres street benches
    ≡ record { at = spot 100 1000; type = codes "drinking water"; at_m = 110 } ∷ []
unfolding rest_stops_on_route round_div ◌-ℤ◌
stops = refl

-- Stamps of two hours, and a reading for each.
abbrev stamp : ℕ → String
stamp t = if t == 3600 then "T01:00" else "T00:00"

abbrev two_hours : Response → Decoded Hourly
two_hours r = decoded (record {
  time = "T00:00" ∷ "T01:00" ∷ [];
  european_aqi = some (pos 4000) ∷ some (pos 5500) ∷ [];
  pm2_5 = [];
  cloud_cover = some (pos 1000) ∷ none ∷ [];
})

abbrev ok_response : Response
ok_response = record { status = 200; headers = []; content = [] }

abbrev air_then : AirQuality
air_then = record { score = 4500; aqi = pos 5500; pm2_5 = none }

fetch_air_quality-IsOfHour_test :
    (h : Hourly) × IsAnswer two_hours (answered ok_response) h
    × IsOfHour stamp 5000 h h.european_aqi (pos 5500)
    × (4500 ≡ clean (pos 5500))
unfolding fetch_air_quality
fetch_air_quality-IsOfHour_test =
    fetch_air_quality-IsOfHour stamp two_hours 5000 (answered ok_response) air_then refl

-- The sun sinks by a millidegree each second, and shade is wanted in proportion.
abbrev sinking : Sky
sinking = record {
  sin = λ a. pos (pos_part a);
  cos = λ a. pos 0;
  solar = λ t p. record { elevation = sub_ℕ 60000 t; azimuth = 0 };
  bearing = λ p q. 0;
}

abbrev last_slot : DepartureSuggestion
last_slot = record {
  when = 21600;
  reason = record { light = some off_your_back; air = none };
  score = 224624000000000;
}

departs :
    best_departure metres sinking street 0 none (some 0) (returned none) raised
    ≡ returned (some last_slot)
unfolding best_departure ◌-ℤ◌
departs = refl

best_departure-IsBest_example :
    IsBestDeparture metres sinking street 0 none (some 0) (returned none) raised (some last_slot)
best_departure-IsBest_example =
    best_departure-IsBest metres sinking street 0 none (some 0) (returned none) raised
      (some last_slot) (omega arith) departs

no_heading : route_heading metres sinking street ≡ some 0
unfolding route_heading ◌-ℤ◌
no_heading = refl

abbrev one_gate : Formats
one_gate = record {
  elements_of = λ r. decoded (gate ∷ []);
  hourly_of = two_hours;
  stamp_of = stamp;
}

-- Open-Meteo is down when the cloud is asked for.
abbrev all_but_cloud : Outside
all_but_cloud = record {
  overpass = λ q. answered ok_response;
  air = λ p. answered ok_response;
  air_again = λ p. failed transport_error;
  cloud = λ p. failed transport_error;
  cloud_again = λ p. failed transport_error;
}

abbrev nearer_first : LatLon → LatLon → ℕ → ℕ → LatLon
nearer_first p q num den = p

context_on_street :
    (enrich_context metres sinking nearer_first one_gate all_but_cloud
      (street ∷ [])
      (some 5000)
      0).barrier_nodes
    ≡ some (gate ∷ [])
unfolding enrich_context
context_on_street = refl
