-- ===== src/App/Tests.antt =====
-- backend/main.py and its theorems on one small deployment: three presets, of which one finds no route.
use meander.Common.{
  List, [], arith, false, inr, leb, length, none, refl, some, suc, true, zero, ℕ, ◌∷◌, ◌≡◌,
}
use meander.Common.Text.{codes, is_space, lstrip, strip}
use meander.Common.Sort.{count_if, keep}
use meander.Geometry.{LatLon}
use meander.Common.Int.{pos}
use meander.RateLimit.{
  admit, charge, check, client_digest, evict_locked, open_bucket, refill_bucket, roll_day_locked,
}
use meander.Cache.{Json, StampLaws, Stamps, get_route, look_up}
use meander.Routing.{
  Preset, RawRoute, Result, accessible, air, fastest, foot, ok, quiet, raised, scenic, shade,
}
use meander.Accessibility.{fail}
use meander.Accessibility.Route.{RouteAccessibility}
use meander.App.Client.{
  client_ip, declared, limit_body_size, parts_of, payload_too_large, split_comma,
}
use meander.App.Forwarded.{appended, client_ip-appended}
use meander.App.Request.{RouteRequest, auto, resolved_objectives, same_preset}
use meander.App.Scored.{Stages, assess, scored_route}
use meander.App.Honest.{IsHonest, scored_route-IsHonest}
use meander.App.Events.{Event, Payload, Services, done, nothing_tried, objectives, progress, route}
use meander.App.Passes.{first_route, route_events, unmeasured}
use meander.App.Answer.{IsUnique}
use meander.App.Deadline.{route_events_with_deadline}
use meander.App.Timely.{IsTimely, deadline-IsTimely, time_of}
use meander.Common.Dict.{get, put}
use meander.App.Serve.{
  Clocks, Drain, Site, after_check, after_look_up, drained, interrupted, keep_events, nothing_kept,
  on_hang_up, on_miss, post_routes, served, to_cache,
}
use meander.App.Agree.{in_json, streamed, timed_run, transports_agree}
use meander.App.Served.{post_routes_again, stream_writes}

client_ip_test :
    client_ip 1 (some (codes "peer")) (some (codes "1.2.3.4, 5.6.7.8")) ≡ some (codes "5.6.7.8")
unfolding client_ip parts_of split_comma keep strip
client_ip_test = refl

client_ip-appended_example :
    client_ip 2 none (some (appended (codes "evil, evil") (codes " a" ∷ codes " b" ∷ [])))
    ≡ some (codes "a")
unfolding strip lstrip is_space
client_ip-appended_example =
    client_ip-appended none (codes "evil, evil") (codes " a") (codes " b" ∷ [])
      ((refl, (refl, (refl, tt))), ((refl, (refl, (refl, tt))), tt))

limit_test :
    limit_body_size (record { length_header = declared 70000; has_body = true; chunks = [] })
    ≡ payload_too_large
unfolding limit_body_size
limit_test = refl

abbrev at_origin : LatLon
at_origin = record { lat = pos 1; lon = pos 2 }

abbrev short_path : RawRoute
short_path = record {
  points = at_origin ∷ at_origin ∷ [];
  distance_m = 1000;
  duration = 60000;
  mode = foot;
  elevations = [];
  details = [];
  steps = [];
  synthetic_upstream = false;
  preset = fastest;
  preset_note = none;
}

abbrev stepped : RouteAccessibility
stepped = record {
  verdict = fail;
  findings = [];
  coverage = 100;
  pass_fraction = 0;
  fail_fraction = 100;
  unknown_fraction = 9900;
  barriers_checked = false;
}

abbrev bare_stages : Stages Unit
bare_stages = record {
  clip_term = λ raw. none;
  score_geometry = λ raw clip_score. none;
  assess_route = λ raw spans. some stepped;
  build_profile = λ raw. none;
}

scored_route-IsHonest_example :
    IsHonest Unit Unit short_path
      (some stepped)
      (scored_route accessible short_path none unmeasured (assess bare_stages short_path) true)
unfolding assess
scored_route-IsHonest_example =
    scored_route-IsHonest short_path none unmeasured (assess bare_stages short_path) true accessible

abbrev answer_for : Preset → Result RawRoute
answer_for scenic = raised nothing_tried
answer_for _ = ok short_path

abbrev small_town : Services Unit Unit Unit
small_town = record {
  dist = λ a b. 0;
  outside_coverage = λ point. none;
  routable_extent = none;
  region_boxes = none;
  preset = λ o r mode fastest_route. answer_for o;
  stages = bare_stages;
  enrich = λ raws at. record {
    rest_stop_nodes = none;
    barrier_nodes = none;
    measured = unmeasured;
    departure = none;
  };
  rest_stops = λ raw nodes. [];
  barrier_spans = λ raw nodes. [];
  narrate = λ o. none;
  segment_count = some 0;
  hit_rate = 0;
}

abbrev short_walk : RouteRequest
short_walk = record {
  origin = at_origin;
  destination = none;
  minutes = 30;
  mode = auto;
  depart_at = none;
  objectives = some (scenic ∷ fastest ∷ accessible ∷ []);
}

short_walk-IsUnique : IsUnique (objectives small_town short_walk)
unfolding resolved_objectives count_if same_preset
short_walk-IsUnique fastest = omega arith
short_walk-IsUnique scenic = omega arith
short_walk-IsUnique accessible = omega arith
short_walk-IsUnique quiet = omega arith
short_walk-IsUnique shade = omega arith
short_walk-IsUnique air = omega arith

abbrev slowly : ℕ → ℕ
slowly zero = 0
slowly (suc zero) = 0
slowly (suc (suc k)) = 100

abbrev first_events : List (Event Unit Unit)
first_events =
    progress 5 ∷ route (first_route small_town short_walk (fastest, short_path)) ∷ progress 60 ∷ []

deadline-IsTimely_example :
    IsTimely 0 slowly 50 first_events none
      (route_events_with_deadline 0 slowly 50 (first_events, none))
deadline-IsTimely_example = deadline-IsTimely 0 slowly 50 first_events none

abbrev at_once : ℕ → ℕ
at_once k = 0

time_of-at_once : (k n : ℕ) → time_of at_once k n ≡ 0
time_of-at_once k zero = refl
time_of-at_once k (suc n) = omega (arith, time_of-at_once (suc k) n)

transports_agree_example :
    streamed 0 (timed_run small_town short_walk at_once 90)
    ≡ some (in_json 0 (timed_run small_town short_walk at_once 90))
transports_agree_example = transports_agree small_town short_walk at_once 90 short_walk-IsUnique (
    inr (
      refl,
      λ e.
          absurd
            (omega (arith, e, time_of-at_once 0 (length (route_events small_town short_walk).0))),
    ))

abbrev plain_payload : Payload Unit Unit
plain_payload = record {
  routes = [];
  best_departure = none;
  reason = none;
  segments_scored = 0;
  hit_rate = 0;
}

abbrev instants : Stamps ℕ
instants = record {
  iso = λ t. t;
  parse = λ t. some t;
  at_most = λ s t. leb s t;
  ends_utc = λ t. true;
}

abbrev instants_laws : StampLaws ℕ instants
instants_laws = record {
  parse-iso = λ t. refl;
  at_most-iso = λ s t. refl;
  ends_utc-iso = λ t. refl;
}

abbrev payload_json : Json (Payload Unit Unit) (Payload Unit Unit)
payload_json = record { dumps = λ p. p; loads = λ p. some p; is_list = λ p. false }

abbrev quiet_site : Site ℕ (Payload Unit Unit)
quiet_site = record {
  limiter = record {
    capacity = 12;
    refill_per_min = 12;
    ceiling = 2000;
    buckets = [];
    day = 0;
    served = 0;
  };
  cache = record {
    routes = [];
    geocodes = [];
    writes_since_sweep = 0;
    removed_since_reclaim = 0;
    reclaims = 0;
    closed = false;
  };
}

abbrev noon : Clocks
noon = record { monotonic = 5; wall = 5; look = 10; write = 11; swept = 12 }

abbrev later_on : Clocks
later_on = record { monotonic = 6; wall = 6; look = 20; write = 21; swept = 22 }

abbrev answer_drain : Drain Unit Unit
answer_drain = drained (record { payload = some (false, plain_payload); failure = false })

abbrev served_once : Site ℕ (Payload Unit Unit)
served_once =
    (post_routes instants payload_json (λ s. s) noon (some "a") "k" answer_drain quiet_site).0

post_routes_again_example :
    (post_routes instants payload_json (λ s. s) later_on (some "b") "k" interrupted served_once).1
    ≡ served plain_payload
unfolding check admit open_bucket charge refill_bucket get put get_route to_cache post_routes
    roll_day_locked look_up after_check after_look_up on_miss evict_locked client_digest
post_routes_again_example =
    post_routes_again instants instants_laws payload_json (λ s. s) noon later_on (some "a")
      (some "b") "k" answer_drain interrupted quiet_site plain_payload refl refl refl refl
      (omega arith) refl refl (omega arith)

stream_writes_example :
    ((keep_events true (progress 90 ∷ done true plain_payload ∷ []) nothing_kept).writes ≡ [])
    × (on_hang_up true (keep_events true (progress 90 ∷ done true plain_payload ∷ []) nothing_kept)
        ≡ plain_payload ∷ [])
stream_writes_example = stream_writes true (progress 90 ∷ []) true plain_payload (tt, tt)
