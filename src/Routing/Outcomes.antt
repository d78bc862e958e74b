-- ===== src/Routing/Outcomes.antt =====
-- Every outcome of `_post_route` (backend/routing.py).
use meander.Common.{Among, List, [], length, none, some, true, ℕ, ◌<◌, ◌∷◌, ◌≡◌, ◌≤◌, ◌⊎◌}
use meander.Common.Text.{Text}
use meander.Routing.{
  EffectiveMode, ErrorKind, Preset, RawRoute, Result, RoutingError, auth, budget, crashed, network,
  no_fixture, no_route, ok, outside_coverage, plan_limitation, raised, upstream,
  upstream_rate_limit,
}
use meander.Routing.Parse.{Coordinate, RawPath, no_coordinate}
use meander.Routing.Post.{
  Body, Fetched, Response, answered, no_object, no_paths, nothing, object, paths, secret_leaked,
}

-- The status that goes with a kind of failure.
unfoldable pub status_of : ErrorKind → ℕ
status_of no_route = 422
status_of outside_coverage = 422
status_of plan_limitation = 422
status_of auth = 503
status_of upstream_rate_limit = 503
status_of no_fixture = 503
status_of budget = 503
status_of upstream = 502
status_of network = 502

-- A route has a shape; it has heights for every point or for none, and no note yet.
abbrev pub IsShaped : EffectiveMode → Preset → RawRoute → Type 0
IsShaped mode preset r =
    (2 ≤ length r.points)
    × ((r.elevations ≡ []) ⊎ (length r.elevations ≡ length r.points))
    × (r.mode ≡ mode)
    × (r.preset ≡ preset)
    × (r.preset_note ≡ none)

-- A failure has its kind's status, and only one of kind `no_route` blames the point.
abbrev pub IsReported : RoutingError → Type 0
IsReported e =
    (e.status_code ≡ status_of e.kind) × (e.point_not_snappable ≡ true → e.kind ≡ no_route)

-- A path that is no path: its coordinates, one of them, its time or its distance cannot be read.
pub data IsMalformedPath : RawPath → Type 0 where
  no_coordinates : (path : RawPath) → path.coordinates ≡ none → IsMalformedPath path
  bad_coordinate :
      (path : RawPath) (coords : List Coordinate)
      → path.coordinates ≡ some coords
      → Among no_coordinate coords
      → IsMalformedPath path
  bad_time : (path : RawPath) → path.time ≡ none → IsMalformedPath path
  bad_distance : (path : RawPath) → path.distance ≡ none → IsMalformedPath path

-- An answer below 400 that is JSON, but no object whose paths are a list that starts with a path.
pub data IsMalformed : Body → Type 0 where
  null_answer : IsMalformed nothing
  other_answer : IsMalformed no_object
  other_paths : (message : Text) → IsMalformed (object message no_paths)
  other_path :
      (message : Text) (path : RawPath) (rest : List RawPath)
      → IsMalformedPath path
      → IsMalformed (object message (paths (path ∷ rest)))

-- What ends in an exception that is no `RoutingError`.
pub data IsUncaught : Fetched → Type 0 where
  leaked : IsUncaught secret_leaked
  bad_failure :
      (r : Response) → 400 ≤ r.status_code → r.payload ≡ no_object → IsUncaught (answered r)
  bad_answer :
      (r : Response) → r.status_code < 400 → IsMalformed r.payload → IsUncaught (answered r)

module _ (mode : EffectiveMode) (preset : Preset) where
  -- A route, a `RoutingError`, or what `P` is about.
  abbrev IsResult : Type 0 → Result RawRoute → Type 0
  IsResult P (ok r) = IsShaped mode preset r
  IsResult P (raised e) = IsReported e
  IsResult P crashed = P

  abbrev pub IsOutcome : Fetched → Result RawRoute → Type 0
  IsOutcome fetched (ok r) = IsShaped mode preset r
  IsOutcome fetched (raised e) = IsReported e
  IsOutcome fetched crashed = IsUncaught fetched
