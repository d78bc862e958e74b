-- ===== src/App/Events.antt =====
-- backend/main.py: `route_events`, the whole answer as a sequence of events.
--
-- The presets, the enrichment, the coverage of the deployment and the narrator are fields of
-- `Services`. The requests that `asyncio.gather` sends at once are answered one after the other. A run
-- is the list of the events and, where it raises, the failure that ends them.
use meander.Common.{
  Bool, List, Option, [], false, if◌then◌else◌, none, not, some, suc, true, ℕ, ◌&&◌, ◌++◌, ◌||◌,
  ◌∷◌,
}
use meander.Common.Sort.{keep, sort_by}
use meander.Common.Text.{Text}
use meander.Geometry.{LatLon}
use meander.Routing.{
  EffectiveMode, Preset, RawRoute, Result, RoutingError, crashed, fastest, no_route, none_found, ok,
  raised, scenic,
}
use meander.Coverage.{Coverage, PointMessage, unroutable_point_message}
use meander.Accessibility.Spans.{Span, origin}
use meander.App.Request.{
  RouteRequest, effective_mode, has, resolved_objectives, same_preset, straight_line_m,
}
use meander.App.Wire.{Measured, Route}
use meander.App.Scored.{Stages, blocked_route}

-- What `EnrichContext` holds, of nodes of type `N`; none is "could not measure".
pub record Context (N : Type 0) : Type 0 where
  pub rest_stop_nodes : Option N
  pub barrier_nodes : Option N
  pub measured : Measured
  pub departure : Option (ℕ × Text)

pub record Services (E R N : Type 0) : Type 0 where
  pub dist : LatLon → LatLon → ℕ
  pub outside_coverage : LatLon → Option Coverage
  pub routable_extent : Option Coverage
  pub region_boxes : Option (List Coverage)
  pub preset : Preset → RouteRequest → EffectiveMode → Option RawRoute → Result RawRoute
  pub stages : Stages E
  pub enrich : List RawRoute → Option ℕ → Context N
  pub rest_stops : RawRoute → N → List R
  pub barrier_spans : RawRoute → N → List Span
  pub narrate : Preset → Option Text
  -- none where counting raises, as on a closed cache
  pub segment_count : Option ℕ
  pub hit_rate : ℕ

-- What ends a run early: a `RoutingError`, `OutsideCoverage` with one of its two messages, or any
-- other exception.
pub data Failure : Type 0 where
  routing : RoutingError → Failure
  outside : Coverage → Failure
  off_the_graph : PointMessage → Failure
  unexpected : Failure

pub data Reason : Type 0 where
  longer_than_budget : ℕ → Reason
  every_route_blocked cut_short : Reason
  departing : Text → Reason

-- `RoutesResponse`.
pub record Payload (E R : Type 0) : Type 0 where
  pub routes : List (Route E R)
  pub best_departure : Option ℕ
  pub reason : Option Reason
  pub segments_scored : ℕ
  pub hit_rate : ℕ

-- A `done` event carries whether the answer is partial.
pub data Event (E R : Type 0) : Type 0 where
  progress : ℕ → Event E R
  route : Route E R → Event E R
  done : Bool → Payload E R → Event E R
  timeout : Event E R

abbrev pub Run : Type 0 → Type 0 → Type 0
Run E R = List (Event E R) × Option Failure

-- What has been tried: the routes that are blocked, the paths found, the failures, the baseline.
pub record Tried (E R : Type 0) : Type 0 where
  pub routes : List (Route E R)
  pub routed : List (Preset × RawRoute)
  pub failures : List RoutingError
  pub fastest_route : Option RawRoute

pub data Attempt (E R : Type 0) : Type 0 where
  stop : Failure → Attempt E R
  go : Tried E R → Attempt E R

-- objectives.index(o); an objective that is not there comes last.
unfoldable pub index : List Preset → Preset → ℕ
index [] o = 99
index (p ∷ ps) o = let rest = index ps o in if same_preset p o then 0 else suc rest

unfoldable pub is_no_route : RoutingError → Bool
is_no_route e = elim e.kind [ no_route ↦ true | _ ↦ false ]

-- NoRouteFound("No route could be found from there.")
abbrev pub nothing_tried : RoutingError
nothing_tried = record {
  kind = no_route;
  human_message = none_found;
  status_code = 422;
  point_not_snappable = false;
}

unfoldable pub first_of : List RoutingError → RoutingError
first_of [] = nothing_tried
first_of (e ∷ es) = e

-- The failure to surface: for a point off a finite graph, what the graph covers.
unfoldable pub best_failure :
    Option Coverage → Option (List Coverage) → LatLon → List RoutingError → Failure
best_failure extent boxes origin failures =
    let failure = first_of failures in
    if failure.point_not_snappable
    then elim extent [
      | none ↦ routing failure
      | some box ↦ off_the_graph (unroutable_point_message boxes (some (origin.lat, origin.lon)))
    ]
    else routing failure

unfoldable pub ordered : List Preset → List Preset
ordered objectives =
    sort_by (λ a b. same_preset a fastest || not (same_preset b fastest)) objectives

module _ {E R N : Type 0} (services : Services E R N) (r : RouteRequest) where
  open services use {dist, outside_coverage, routable_extent, region_boxes, preset, stages, enrich}

  abbrev pub objectives : List Preset
  objectives = resolved_objectives r.objectives

  abbrev pub mode : EffectiveMode
  mode = effective_mode r.mode r.minutes (straight_line_m dist r)

  unfoldable pub outside_of : Option LatLon → Option Coverage
  outside_of none = none
  outside_of (some point) = outside_coverage point

  -- The first of the two ends that lies outside.
  unfoldable pub uncovered : Option Coverage
  uncovered = elim (outside_coverage r.origin) [
    | some extent ↦ some extent
    | none ↦ outside_of r.destination
  ]

  -- The route that scenic is compared with, where it was not asked for.
  unfoldable pub start_from : Result RawRoute → Attempt E R
  start_from (ok raw) =
      go (record { routes = []; routed = []; failures = []; fastest_route = some raw })
  start_from (raised e) =
      go (record { routes = []; routed = []; failures = []; fastest_route = none })
  start_from crashed = stop unexpected

  unfoldable pub baseline : Attempt E R
  baseline =
      if has scenic objectives && not (has fastest objectives)
      then start_from (preset fastest r mode none)
      else go (record { routes = []; routed = []; failures = []; fastest_route = none })

  unfoldable pub record_failure : Preset → RoutingError → Tried E R → Tried E R
  record_failure o e t = record {
    routes = t.routes ++ blocked_route o mode e.human_message ∷ [];
    routed = t.routed;
    failures = t.failures ++ e ∷ [];
    fastest_route = t.fastest_route;
  }

  unfoldable pub add_fastest : Tried E R → Result RawRoute → Attempt E R
  add_fastest t (ok raw) = go (record {
    routes = t.routes;
    routed = t.routed ++ (fastest, raw) ∷ [];
    failures = t.failures;
    fastest_route = some raw;
  })
  add_fastest t (raised e) =
      if is_no_route e then go (record_failure fastest e t) else stop (routing e)
  add_fastest t crashed = stop unexpected

  unfoldable pub try_fastest : Tried E R → Attempt E R
  try_fastest t =
      if has fastest objectives then add_fastest t (preset fastest r mode none) else go t

  -- Only scenic is handed the fastest route.
  unfoldable pub compared_with : Preset → Option RawRoute → Option RawRoute
  compared_with o fastest_route = if same_preset o scenic then fastest_route else none

  unfoldable pub add_other : Preset → Tried E R → Result RawRoute → Attempt E R
  add_other o t (ok raw) = go (record {
    routes = t.routes;
    routed = t.routed ++ (o, raw) ∷ [];
    failures = t.failures;
    fastest_route = t.fastest_route;
  })
  add_other o t (raised e) = go (record_failure o e t)
  add_other o t crashed = stop unexpected

  unfoldable pub try_others : List Preset → Attempt E R → Attempt E R
  try_others os (stop f) = stop f
  try_others [] (go t) = go t
  try_others (o ∷ os) (go t) =
      try_others os (add_other o t (preset o r mode (compared_with o t.fastest_route)))

  abbrev pub others : List Preset
  others = keep (λ o. not (same_preset o fastest)) (ordered objectives)
