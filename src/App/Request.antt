-- ===== src/App/Request.antt =====
-- backend/models.py: the request of /api/routes, its validators, and the mode that `auto` stands for.
--
-- Distances are millimetres. The great-circle distance is the parameter `dist`.
use meander.Common.{
  Bool, List, Option, String, [], false, if◌then◌else◌, leb, length, ltb, map, none, some, str_eq,
  true, ℕ, ◌*◌, ◌++◌, ◌==◌, ◌||◌, ◌∷◌,
}
use meander.Geometry.{LatLon}
use meander.Routing.{
  EffectiveMode, Preset, accessible, air, bike, car, fastest, foot, quiet, scenic, shade,
}

pub data RequestedMode : Type 0 where
  auto : RequestedMode
  fixed : EffectiveMode → RequestedMode

-- `depart_at` is an instant in seconds since the epoch, as it is after its time zone is applied.
pub record RouteRequest : Type 0 where
  pub origin : LatLon
  pub destination : Option LatLon
  pub minutes : ℕ
  pub mode : RequestedMode
  pub depart_at : Option ℕ
  pub objectives : Option (List Preset)

-- DEPRECATED_OBJECTIVE_ALIASES
unfoldable pub accept_deprecated_name : String → String
accept_deprecated_name item = if str_eq item "nature" then "scenic" else item

unfoldable pub accept_deprecated_names : Option (List String) → Option (List String)
accept_deprecated_names none = none
accept_deprecated_names (some items) = some (map accept_deprecated_name items)

abbrev pub number : Preset → ℕ
number fastest = 0
number scenic = 1
number accessible = 2
number quiet = 3
number shade = 4
number air = 5

-- The equality of two names, by their numbers.
unfoldable pub same_preset : Preset → Preset → Bool
same_preset a b = number a == number b

-- `item in seen`
unfoldable pub has : Preset → List Preset → Bool
has item [] = false
has item (p ∷ ps) = same_preset p item || has item ps

-- The loop over the objectives: each is kept once, where it is first named.
unfoldable pub unique : List Preset → List Preset → List Preset
unique seen [] = seen
unique seen (item ∷ items) =
    if has item seen then unique seen items else unique (seen ++ item ∷ []) items

-- A value that validates, or the `ValueError` of an empty or a long list.
pub data Validated {ℓ} (A : Type ℓ) : Type ℓ where
  accepted : A → Validated A
  must_not_be_empty at_most_three : Validated A

unfoldable pub at_most_three_unique : Option (List Preset) → Validated (Option (List Preset))
at_most_three_unique none = accepted none
at_most_three_unique (some v) =
    let seen = unique [] v in
    if length seen == 0
    then must_not_be_empty
    else if ltb 3 (length seen)
    then at_most_three
    else accepted (some seen)

-- tuple(self.objectives) if self.objectives else DEFAULT_OBJECTIVES
unfoldable pub resolved_objectives : Option (List Preset) → List Preset
resolved_objectives none = fastest ∷ scenic ∷ accessible ∷ []
resolved_objectives (some []) = fastest ∷ scenic ∷ accessible ∷ []
resolved_objectives (some (p ∷ ps)) = p ∷ ps

unfoldable pub is_loop : RouteRequest → Bool
is_loop r = elim r.destination [ none ↦ true | some d ↦ false ]

-- The time budget; a trip with a destination has none.
unfoldable pub budget_minutes : RouteRequest → Option ℕ
budget_minutes r = elim r.destination [ none ↦ some r.minutes | some d ↦ none ]

unfoldable pub straight_line_m : (LatLon → LatLon → ℕ) → RouteRequest → Option ℕ
straight_line_m dist r = elim r.destination [ none ↦ none | some d ↦ some (dist r.origin d) ]

unfoldable pub derive_mode : ℕ → EffectiveMode
derive_mode minutes = if leb minutes 45 then foot else if leb minutes 120 then bike else car

-- The thresholds are 75 * 45 / 1.3 and 220 * 120 / 1.3 metres: both sides are multiplied by 13.
unfoldable pub derive_mode_for_distance : ℕ → EffectiveMode
derive_mode_for_distance mm =
    if leb (13 * mm) 33750000 then foot else if leb (13 * mm) 264000000 then bike else car

unfoldable pub effective_mode : RequestedMode → ℕ → Option ℕ → EffectiveMode
effective_mode (fixed mode) minutes straight = mode
effective_mode auto minutes (some mm) = derive_mode_for_distance mm
effective_mode auto minutes none = derive_mode minutes
