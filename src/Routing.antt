-- ===== src/Routing.antt =====
-- backend/routing.py: what a request to GraphHopper, a route and a failure are.
--
-- Durations are whole milliseconds, as GraphHopper sends them, and distances whole millimetres.
pub mod Models
pub mod Body
pub mod Errors
pub mod Parse
pub mod Post
pub mod Scenic
pub mod Preference
pub mod Requests
pub mod Outcomes
pub mod Candidates
pub mod Choice
pub mod Promise
pub mod Fit
mod Tests
use meander.Geometry.{LatLon}
use meander.Common.{Bool, List, Option, String, refl, some, ℕ, ◌≡◌}
use meander.Common.Int.{ℤ}
use meander.Common.Text.{Text}

pub data EffectiveMode : Type 0 where
  foot bike car : EffectiveMode

-- The keys of `PRESETS`.
pub data Preset : Type 0 where
  fastest scenic accessible quiet shade air : Preset

-- What backend/config.py says of the GraphHopper server in use.
pub record Server : Type 0 where
  pub path_details : List String
  pub self_hosted : Bool

-- The encoded values that the custom models test.
pub data EncodedValue : Type 0 where
  road_class road_environment surface smoothness : EncodedValue

-- A rule of a custom model: `field == value || …` over its values, and its factor in hundredths.
pub record Rule : Type 0 where
  pub field : EncodedValue
  pub values : List String
  pub multiply_by : ℕ

pub record CustomModel : Type 0 where
  pub priority : List Rule
  pub distance_influence : ℕ

-- [lon, lat]
abbrev pub PostPoint : Type 0
PostPoint = ℤ × ℤ

-- A request body. `round_trip` is the loop's distance and seed, where `algorithm` is "round_trip".
pub record RequestBody : Type 0 where
  pub profile : EffectiveMode
  pub points_encoded : Bool
  pub instructions : Bool
  pub calc_points : Bool
  pub elevation : Bool
  pub details : List String
  pub points : List PostPoint
  pub round_trip : Option (ℕ × ℕ)
  pub custom_model : Option CustomModel
  pub ch_disable : Bool

pub record RouteStep : Type 0 where
  pub text : Text
  pub distance_m : ℤ
  pub duration_ms : ℤ
  pub street_name : Option Text
  pub sign : ℤ
  pub interval : ℤ × ℤ

-- The caveats that a route is presented with.
pub data PresetNote : Type 0 where
  uncompared shorter_than_asked over_budget no_greener : PresetNote
  inferred : Preset → PresetNote
  inferred_over_budget : Preset → PresetNote
  inferred_under_budget : Preset → PresetNote

-- A span of a path detail, its value as the text that `str` makes of it.
pub record DetailSpan : Type 0 where
  pub start : ℤ
  pub stop : ℤ
  pub value : Option Text

pub record RawRoute : Type 0 where
  pub points : List LatLon
  pub distance_m : ℕ
  pub duration : ℕ
  pub mode : EffectiveMode
  pub elevations : List ℤ
  pub details : List (Text × List DetailSpan)
  pub steps : List RouteStep
  pub synthetic_upstream : Bool
  pub preset : Preset
  pub preset_note : Option PresetNote

-- route.preset_note = note
unfoldable pub set_note : PresetNote → RawRoute → RawRoute
set_note note r = record {
  points = r.points;
  distance_m = r.distance_m;
  duration = r.duration;
  mode = r.mode;
  elevations = r.elevations;
  details = r.details;
  steps = r.steps;
  synthetic_upstream = r.synthetic_upstream;
  preset = r.preset;
  preset_note = some note;
}

-- What `RoutingError` and its subclasses carry: the kind, the sentence, the status.
pub data ErrorKind : Type 0 where
  no_route outside_coverage plan_limitation auth upstream_rate_limit : ErrorKind
  no_fixture budget upstream network : ErrorKind

pub data HumanMessage : Type 0 where
  no_shape needs_flexible_mode mode_not_available refused_in_front key_rejected over_quota :
      HumanMessage
  nothing_near_point no_route_between could_not_answer none_recorded budget_reached : HumanMessage
  could_not_reach unreadable none_found : HumanMessage
  too_large : Text → HumanMessage

pub record RoutingError : Type 0 where
  pub kind : ErrorKind
  pub human_message : HumanMessage
  pub status_code : ℕ
  pub point_not_snappable : Bool

-- A coroutine's outcome: its value, the `RoutingError` that it raises, or any other exception.
pub data Result {ℓ} (A : Type ℓ) : Type ℓ where
  ok : A → Result A
  raised : RoutingError → Result A
  crashed : Result A

unfoldable pub to_post_point : LatLon → PostPoint
to_post_point p = (p.lon, p.lat)

unfoldable pub from_post_point : PostPoint → LatLon
from_post_point (lon, lat) = record { lat = lat; lon = lon }

-- A property of every branch is a property of the split on an outcome.
pub Result_ind {ℓ κ μ} :
    {A : Type ℓ} {B : Type κ} (P : B → Type μ) (o : Result A) {f : A → B} {g : RoutingError → B}
    {x : B}
    → ((a : A) → o ≡ ok a → P (f a))
    → ((e : RoutingError) → o ≡ raised e → P (g e))
    → (o ≡ crashed → P x)
    → P (elim o [ ok a ↦ f a | raised e ↦ g e | crashed ↦ x ])
Result_ind P (ok a) pf pg px = pf a refl
Result_ind P (raised e) pf pg px = pg e refl
Result_ind P crashed pf pg px = px refl
