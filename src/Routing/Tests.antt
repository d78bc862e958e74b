-- ===== src/Routing/Tests.antt =====
-- Searches against a server that answers every request, and the theorems at them.
use meander.Geometry.{LatLon, path_length_m, segment_lengths_m}
use meander.Common.{
  All, Option, [], arith, false, length, none, refl, some, true, ℕ, ◌*◌, ◌<◌, ◌↔◌, ◌∷◌, ◌≡◌, ◌≢◌,
  ◌≤◌, ◌⊎◌,
}
use meander.Common.Int.{pos}
use meander.Routing.{RawRoute, RequestBody, Server, crashed, fastest, foot, ok, scenic}
use meander.Common.Sort.{insert_sorted, sort_by}
use meander.Routing.Models.{accessible_custom_model}
use meander.Routing.Body.{build_request_body}
use meander.Routing.Parse.{
  RawPath, elevations_of, flat, heights, parse_coordinates, parse_details, parse_instructions,
  parse_path, point_of, points_of, route_of,
}
use meander.Routing.Post.{
  Fetched, Response, answered, nothing, object, parse_paths, parse_response, paths, post_route,
}
use meander.Routing.Scenic.{
  best_first, budget_fit, candidate, candidates_for, choose, choose_from, consider, is_greener,
  merit, note_accepted, qualifies, route_scenic, search_first, settled_routes, within_cap,
}
use meander.Routing.Requests.{IsFailedOrFerry, flexible_when_needed, refused_ways_fail, scenic_cost}
use meander.Routing.Choice.{IsBest, offers, scenic_choice, scenic_outcome}
use meander.Routing.Promise.{scenic_promise}

abbrev ten_metres : LatLon → LatLon → ℕ
ten_metres p q = 10000

abbrev home : LatLon
home = record { lat = pos 41; lon = pos 2 }

abbrev own_server : Server
own_server = record { path_details = "surface" ∷ "smoothness" ∷ []; self_hosted = true }

abbrev hosted_server : Server
hosted_server = record { path_details = "surface" ∷ []; self_hosted = false }

-- Two points, half an hour apart.
abbrev half_hour : RawPath
half_hour = record {
  coordinates = some (flat (pos 2, pos 41) ∷ flat (pos 3, pos 41) ∷ []);
  time = some 1800000;
  distance = some 0;
  details = none;
  instructions = none;
}

abbrev always : RequestBody → Fetched
always body = answered (record {
  status_code = 200;
  payload = object [] (paths (half_hour ∷ []));
  is_synthetic = false;
})

-- The scenic preset's routes are greener than the others.
abbrev by_preset : RawRoute → ℕ
by_preset r = elim r.preset [ scenic ↦ 6000 | _ ↦ 4000 ]

abbrev plain_route : RawRoute
plain_route = record {
  points = home ∷ home ∷ [];
  distance_m = 10000;
  duration = 1800000;
  mode = foot;
  elevations = [];
  details = [];
  steps = [];
  synthetic_upstream = false;
  preset = fastest;
  preset_note = none;
}

flexible_when_needed_test :
    ((build_request_body own_server home none 30 foot fastest none 100).ch_disable ≡ true) ↔ (
      (fastest ≢ fastest) ⊎ ((◌≡◌ {A = Option LatLon} none none) × (own_server.self_hosted ≡ true)))
flexible_when_needed_test = flexible_when_needed own_server home none 30 foot fastest none 100

refused_ways_fail_example :
    All
      (λ r. r.multiply_by ≡ 0 → All (λ v. IsFailedOrFerry r.field v) r.values)
      (accessible_custom_model ("smoothness" ∷ []) none).priority
refused_ways_fail_example = refused_ways_fail ("smoothness" ∷ [])

scenic_cost_test :
    (length (route_scenic ten_metres hosted_server always by_preset home none 30 foot none).0 ≤ 6)
    × (hosted_server.self_hosted ≡ false
        → length (route_scenic ten_metres hosted_server always by_preset home none 30 foot none).0
          ≤ 3)
    × (hosted_server.self_hosted ≡ false
        → ◌≡◌ {A = Option LatLon} none none
        → length (route_scenic ten_metres hosted_server always by_preset home none 30 foot none).0
          ≤ 2)
scenic_cost_test = scenic_cost ten_metres hosted_server always by_preset home none 30 foot none

abbrev null_response : Response
null_response = record { status_code = 200; payload = nothing; is_synthetic = false }

-- `null` where an object is expected is no `RoutingError`.
null_crashes : post_route ten_metres own_server (answered null_response) foot scenic ≡ crashed
unfolding post_route parse_response
null_crashes = refl

offers-some :
    offers ten_metres own_server always by_preset home none 30 foot (some plain_route) ≢ []
unfolding settled_routes candidates_for candidate post_route parse_response parse_paths parse_path
    parse_coordinates points_of point_of route_of
offers-some e = ground arith

scenic_choice_example :
    (c : RawRoute) × IsBest by_preset 30 true
      (some plain_route)
      (offers ten_metres own_server always by_preset home none 30 foot (some plain_route))
      (scenic_outcome ten_metres own_server always by_preset home none 30 foot (some plain_route))
      c
scenic_choice_example =
    scenic_choice ten_metres own_server always by_preset home none 30 foot (some plain_route) refl
      offers-some

abbrev scenic_on_request : RawRoute
scenic_on_request = record {
  points = record { lat = pos 41; lon = pos 2 } ∷ record { lat = pos 41; lon = pos 3 } ∷ [];
  distance_m = 10000;
  duration = 1800000;
  mode = foot;
  elevations = [];
  details = [];
  steps = [];
  synthetic_upstream = false;
  preset = scenic;
  preset_note = none;
}

scenic_returned :
    (route_scenic ten_metres hosted_server always by_preset home none 30 foot (some plain_route)).1
    ≡ ok scenic_on_request
unfolding route_scenic search_first candidates_for candidate post_route parse_response parse_paths
    parse_path parse_coordinates points_of point_of route_of qualifies within_cap is_greener
    consider choose choose_from best_first sort_by insert_sorted note_accepted elevations_of heights
    parse_details parse_instructions path_length_m segment_lengths_m merit budget_fit
scenic_returned = refl

scenic_promise_example :
    (scenic_on_request.duration * 10 ≤ plain_route.duration * 16)
    × (by_preset plain_route < by_preset scenic_on_request)
scenic_promise_example =
    scenic_promise ten_metres hosted_server always by_preset home none 30 foot plain_route
      scenic_on_request scenic_returned refl
