-- ===== src/Routing/Post.antt =====
-- `_post_route` of backend/routing.py. What `fetch` of backend/fixtures.py answers to a body is a value
-- of `Fetched`: one of the exceptions that it raises, or the response.
use meander.Geometry.{LatLon}
use meander.Common.{Bool, List, Option, [], false, if◌then◌else◌, leb, none, some, ℕ, ◌∷◌}
use meander.Common.Text.{Text}
use meander.Routing.{
  EffectiveMode, Preset, RawRoute, Result, Server, budget, budget_reached, could_not_reach, crashed,
  network, no_fixture, none_found, none_recorded, raised, too_large, unreadable, upstream,
}
use meander.Routing.Errors.{no_route_error, routing_error, shape_upstream_error}
use meander.Routing.Parse.{RawPath, parse_path}

-- The `paths` of an object: a list, empty where there is nothing, or a value of another kind.
pub data RawPaths : Type 0 where
  paths : List RawPath → RawPaths
  no_paths : RawPaths

-- A response's body: no JSON, an object with its `message` and its paths, a JSON value that counts as
-- nothing (null, [], 0), or any other JSON value.
pub data Body : Type 0 where
  no_json nothing no_object : Body
  object : Text → RawPaths → Body

pub record Response : Type 0 where
  pub status_code : ℕ
  pub payload : Body
  pub is_synthetic : Bool

pub data Fetched : Type 0 where
  fixture_missing budget_exhausted http_error : Fetched
  response_too_large : Text → Fetched
  -- The RuntimeError of a recording that would hold a secret.
  secret_leaked : Fetched
  answered : Response → Fetched

-- str((response.json() or {}).get("message", "")), or "" where there is no JSON
unfoldable pub message_of : Body → Option Text
message_of no_json = some []
message_of nothing = some []
message_of no_object = none
message_of (object message raw) = some message

unfoldable pub parse_paths :
    (LatLon → LatLon → ℕ) → RawPaths → EffectiveMode → (synthetic : Bool) → Preset → Result RawRoute
unfolding no_route_error
parse_paths dist no_paths mode synthetic preset = crashed
parse_paths dist (paths []) mode synthetic preset = raised (no_route_error none_found false)
parse_paths dist (paths (path ∷ rest)) mode synthetic preset =
    parse_path dist path mode synthetic preset

unfoldable pub parse_response :
    (LatLon → LatLon → ℕ) → Body → EffectiveMode → (synthetic : Bool) → Preset → Result RawRoute
unfolding parse_paths routing_error
parse_response dist no_json mode synthetic preset = raised (routing_error upstream unreadable 502)
parse_response dist nothing mode synthetic preset = crashed
parse_response dist no_object mode synthetic preset = crashed
parse_response dist (object message raw) mode synthetic preset =
    parse_paths dist raw mode synthetic preset

-- An answer of 400 or more.
unfoldable pub parse_failure : Server → ℕ → Body → Result RawRoute
unfolding message_of
parse_failure server status body = elim (message_of body) [
  | none ↦ crashed
  | some message ↦ raised (shape_upstream_error server status message)
]

unfoldable pub post_route :
    (LatLon → LatLon → ℕ) → Server → Fetched → EffectiveMode → Preset → Result RawRoute
unfolding routing_error parse_failure
post_route dist server fixture_missing mode preset =
    raised (routing_error no_fixture none_recorded 503)
post_route dist server budget_exhausted mode preset =
    raised (routing_error budget budget_reached 503)
post_route dist server (response_too_large text) mode preset =
    raised (routing_error upstream (too_large text) 502)
post_route dist server secret_leaked mode preset = crashed
post_route dist server http_error mode preset = raised (routing_error network could_not_reach 502)
post_route dist server (answered response) mode preset =
    if leb 400 response.status_code
    then parse_failure server response.status_code response.payload
    else parse_response dist response.payload mode response.is_synthetic preset
