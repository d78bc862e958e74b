-- ===== src/Routing/Parse.antt =====
-- `_parse_details`, `_parse_instructions` and `_parse_path` of backend/routing.py.
--
-- A JSON value is kept as far as the code looks into it: `int(…)` and `float(…)` of a value are `none`
-- where they raise. Coordinates are millionths of a degree, heights and lengths millimetres.
use meander.Geometry.{LatLon, path_length_m}
use meander.Common.{
  Bool, List, Option, [], false, if◌then◌else◌, length, ltb, none, some, ℕ, ◌==◌, ◌∷◌,
}
use meander.Common.Int.{pos, ℤ}
use meander.Common.Text.{Text, strip}
use meander.Routing.{
  DetailSpan, EffectiveMode, PostPoint, Preset, RawRoute, Result, RouteStep, crashed,
  from_post_point, no_shape, ok, raised,
}
use meander.Routing.Errors.{no_route_error}

-- An item of a path detail: a list of three members or more, with `int` of the first two, or anything
-- else.
pub data RawSpan : Type 0 where
  members : Option ℤ → Option ℤ → Option Text → RawSpan
  malformed : RawSpan

-- A detail: a list of items, or anything else.
pub data RawDetail : Type 0 where
  items : List RawSpan → RawDetail
  no_list : RawDetail

unfoldable pub parse_spans : List RawSpan → List DetailSpan
parse_spans [] = []
parse_spans (members (some start) (some stop) value ∷ spans) =
    record { start = start; stop = stop; value = value } ∷ parse_spans spans
parse_spans (members none stop value ∷ spans) = parse_spans spans
parse_spans (members (some start) none value ∷ spans) = parse_spans spans
parse_spans (malformed ∷ spans) = parse_spans spans

-- `out[key] = parsed` if anything was parsed.
unfoldable pub keep_detail :
    Text → List DetailSpan → List (Text × List DetailSpan) → List (Text × List DetailSpan)
keep_detail key [] out = out
keep_detail key (s ∷ spans) out = (key, s ∷ spans) ∷ out

-- `none` where the details are no dict.
unfoldable pub parse_details : Option (List (Text × RawDetail)) → List (Text × List DetailSpan)
unfolding parse_spans keep_detail
parse_details none = []
parse_details (some []) = []
parse_details (some ((key, no_list) ∷ raw)) = parse_details (some raw)
parse_details (some ((key, items spans) ∷ raw)) =
    keep_detail key (parse_spans spans) (parse_details (some raw))

-- An instruction that is a dict: its text and street name where they are texts, `int` of the two ends
-- of its interval where that is a list of two or more, and `float` of the other fields.
pub record RawInstruction : Type 0 where
  pub text : Option Text
  pub interval : Option (Option ℤ × Option ℤ)
  pub street_name : Option Text
  pub distance : Option ℤ
  pub time : Option ℤ
  pub sign : Option ℤ

unfoldable pub number : Option ℤ → ℤ
number none = pos 0
number (some x) = x

unfoldable pub interval_of : Option (Option ℤ × Option ℤ) → ℤ × ℤ
interval_of (some (some lo, some hi)) = (lo, hi)
interval_of (some (some lo, none)) = (pos 0, pos 0)
interval_of (some (none, hi)) = (pos 0, pos 0)
interval_of none = (pos 0, pos 0)

-- A text with something in it, stripped.
unfoldable pub stripped : Option Text → Option Text
unfolding strip
stripped none = none
stripped (some text) = elim (strip text) [ [] ↦ none | c ∷ s ↦ some (c ∷ s) ]

-- `none` stands for an item that is no dict.
unfoldable pub parse_instruction : Option RawInstruction → Option RouteStep
unfolding stripped number interval_of
parse_instruction none = none
parse_instruction (some item) = elim (stripped item.text) [
  | none ↦ none
  | some text ↦ some (record {
    text = text;
    distance_m = number item.distance;
    duration_ms = number item.time;
    street_name = stripped item.street_name;
    sign = number item.sign;
    interval = interval_of item.interval;
  })
]

-- `none` stands for instructions that are no list.
unfoldable pub parse_instructions : Option (List (Option RawInstruction)) → List RouteStep
unfolding parse_instruction
parse_instructions none = []
parse_instructions (some []) = []
parse_instructions (some (item ∷ raw)) =
    let rest = parse_instructions (some raw) in
    elim (parse_instruction item) [ none ↦ rest | some step ↦ step ∷ rest ]

-- [lon, lat] or [lon, lat, ele]; or a value on which the reading of the point or the height raises.
pub data Coordinate : Type 0 where
  flat : PostPoint → Coordinate
  raised_to : PostPoint → ℤ → Coordinate
  no_coordinate : Coordinate

unfoldable pub point_of : Coordinate → Option LatLon
unfolding from_post_point
point_of (flat p) = some (from_post_point p)
point_of (raised_to p ele) = some (from_post_point p)
point_of no_coordinate = none

-- The points, unless one of them raises.
unfoldable pub points_of : List Coordinate → Option (List LatLon)
unfolding point_of
points_of [] = some []
points_of (c ∷ coords) = elim (point_of c) [
  | none ↦ none
  | some p ↦ elim (points_of coords) [ none ↦ none | some points ↦ some (p ∷ points) ]
]

unfoldable pub heights : List Coordinate → List ℤ
heights [] = []
heights (flat p ∷ coords) = heights coords
heights (raised_to p ele ∷ coords) = ele ∷ heights coords
heights (no_coordinate ∷ coords) = heights coords

-- The first of a response's paths. The coordinates are `none` where the path or its points are of a
-- kind on which looking them up or counting them raises, the time and the distance where `float` does;
-- what is missing is empty or 0.
pub record RawPath : Type 0 where
  pub coordinates : Option (List Coordinate)
  pub time : Option ℕ
  pub distance : Option ℕ
  pub details : Option (List (Text × RawDetail))
  pub instructions : Option (List (Option RawInstruction))

-- A route has heights for all its points, or none.
unfoldable pub elevations_of : List Coordinate → List ℤ
unfolding heights
elevations_of coords = if length (heights coords) == length coords then heights coords else []

unfoldable pub route_of :
    (LatLon → LatLon → ℕ)
    → RawPath
    → List Coordinate
    → List LatLon
    → (time distance : ℕ) → EffectiveMode
    → (synthetic : Bool) → Preset
    → RawRoute
unfolding elevations_of
route_of dist path coords points time distance mode synthetic preset = record {
  points = points;
  distance_m = if distance == 0 then path_length_m dist points else distance;
  duration = time;
  mode = mode;
  elevations = elevations_of coords;
  details = parse_details path.details;
  steps = parse_instructions path.instructions;
  synthetic_upstream = synthetic;
  preset = preset;
  preset_note = none;
}

-- A path of two coordinates or more.
unfoldable pub parse_coordinates :
    (LatLon → LatLon → ℕ)
    → RawPath
    → List Coordinate
    → EffectiveMode
    → (synthetic : Bool) → Preset
    → Result RawRoute
unfolding points_of route_of
parse_coordinates dist path coords mode synthetic preset = elim (points_of coords) [
  | none ↦ crashed
  | some points ↦ elim path.time [
    | none ↦ crashed
    | some time ↦ elim path.distance [
      | none ↦ crashed
      | some distance ↦ ok (route_of dist path coords points time distance mode synthetic preset)
    ]
  ]
]

unfoldable pub parse_path :
    (LatLon → LatLon → ℕ) → RawPath → EffectiveMode → (synthetic : Bool) → Preset → Result RawRoute
unfolding parse_coordinates no_route_error
parse_path dist path mode synthetic preset = elim path.coordinates [
  | none ↦ crashed
  | some coords ↦
      if ltb (length coords) 2
      then raised (no_route_error no_shape false)
      else parse_coordinates dist path coords mode synthetic preset
]
