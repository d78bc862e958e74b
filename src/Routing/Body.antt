-- ===== src/Routing/Body.antt =====
-- `_base_body` and `build_request_body` of backend/routing.py.
--
-- A loop's scale is in hundredths, and speeds are metres a minute.
use meander.Geometry.{LatLon}
use meander.Common.{Bool, List, Option, [], false, none, some, true, ℕ, ◌&&◌, ◌*◌, ◌||◌, ◌∷◌}
use meander.Common.Round.{round_div}
use meander.Routing.{
  CustomModel, EffectiveMode, PostPoint, Preset, RequestBody, Server, accessible, air, bike, car,
  fastest, foot, quiet, scenic, shade, to_post_point,
}
use meander.Routing.Models.{
  accessible_custom_model, air_custom_model, quiet_custom_model, scenic_custom_model,
  shade_custom_model,
}

unfoldable pub loop_speed_m_per_min : EffectiveMode → ℕ
loop_speed_m_per_min foot = 75
loop_speed_m_per_min bike = 220
loop_speed_m_per_min car = 550

-- SCENIC_DISTANCE_INFLUENCE_LADDER
abbrev pub distance_influence_ladder : List ℕ
distance_influence_ladder = 20 ∷ 45 ∷ 90 ∷ []

-- The custom model of a preset; only `scenic` reads the influence, and only it has a default for it.
unfoldable pub model_for : Server → Preset → Option ℕ → Option CustomModel
model_for server fastest influence = none
model_for server scenic none = some (scenic_custom_model 20)
model_for server scenic (some influence) = some (scenic_custom_model influence)
model_for server accessible influence = some (accessible_custom_model server.path_details none)
model_for server quiet influence = some quiet_custom_model
model_for server shade influence = some shade_custom_model
model_for server air influence = some air_custom_model

unfoldable pub is_there {ℓ} : {A : Type ℓ} → Option A → Bool
is_there none = false
is_there (some a) = true

-- The points of the body, and the loop's distance and seed where there is no destination.
unfoldable pub body_points : LatLon → Option LatLon → List PostPoint
unfolding to_post_point
body_points origin none = to_post_point origin ∷ []
body_points origin (some destination) = to_post_point origin ∷ to_post_point destination ∷ []

unfoldable pub loop_of : Option LatLon → ℕ → EffectiveMode → ℕ → Option (ℕ × ℕ)
unfolding loop_speed_m_per_min
loop_of none minutes mode scale =
    some (round_div (loop_speed_m_per_min mode * minutes * scale) 100, 42)
loop_of (some destination) minutes mode scale = none

unfoldable pub base_body : Server → EffectiveMode → RequestBody
base_body server profile = record {
  profile = profile;
  points_encoded = false;
  instructions = true;
  calc_points = true;
  elevation = true;
  details = server.path_details;
  points = [];
  round_trip = none;
  custom_model = none;
  ch_disable = false;
}

unfoldable pub build_request_body :
    Server
    → LatLon
    → Option LatLon
    → (minutes : ℕ) → EffectiveMode
    → Preset
    → Option ℕ
    → (scale : ℕ) → RequestBody
unfolding base_body body_points loop_of model_for is_there
build_request_body server origin destination minutes mode preset influence scale =
    let base = base_body server mode in
    let model = model_for server preset influence in
    let round_trip = loop_of destination minutes mode scale in
    record {
      profile = base.profile;
      points_encoded = base.points_encoded;
      instructions = base.instructions;
      calc_points = base.calc_points;
      elevation = base.elevation;
      details = base.details;
      points = body_points origin destination;
      round_trip = round_trip;
      custom_model = model;
      ch_disable = is_there model || (is_there round_trip && server.self_hosted);
    }
