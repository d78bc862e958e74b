-- ===== src/Accessibility.antt =====
-- backend/accessibility.py: the three-valued verdicts and the constraint on each kind of tag.
--
-- A tag's value is what `str` makes of it, as code points; `none` is Python's None. Letters are
-- upper-cased in ASCII.
pub mod Spans
pub mod Incline
pub mod Route
pub mod Sentence
pub mod Sums
pub mod Evidence
pub mod Safety
pub mod Shares
mod Tests
use meander.Common.{
  Bool, List, Option, String, [], false, if◌then◌else◌, map, none, some, true, ◌∷◌,
}
use meander.Common.Text.{Text, member, replace_char, strip, upper}

pub data Verdict : Type 0 where
  pass fail unknown : Verdict

abbrev pub Value : Type 0
Value = Option Text

abbrev pub acceptable_surfaces : List String
acceptable_surfaces = "PAVED" ∷ "ASPHALT" ∷ "CONCRETE" ∷ "PAVING_STONES" ∷ "COMPACTED" ∷ []

abbrev pub rejected_surfaces : List String
rejected_surfaces =
    "GRAVEL" ∷ "FINE_GRAVEL" ∷ "GROUND" ∷ "DIRT" ∷ "EARTH" ∷ "GRASS" ∷ "SAND" ∷ "MUD" ∷ "WOOD"
    ∷ "COBBLESTONE" ∷ "SETT" ∷ "UNHEWN_COBBLESTONE" ∷ "PEBBLESTONE" ∷ "UNPAVED" ∷ "METAL_GRID"
    ∷ "WOODCHIPS" ∷ "SNOW" ∷ "ICE" ∷ []

abbrev pub rejected_smoothness : List String
rejected_smoothness = "BAD" ∷ "VERY_BAD" ∷ "HORRIBLE" ∷ "VERY_HORRIBLE" ∷ "IMPASSABLE" ∷ []

abbrev pub good_smoothness : List String
good_smoothness = "EXCELLENT" ∷ "GOOD" ∷ "INTERMEDIATE" ∷ []

abbrev pub rejected_barriers : List String
rejected_barriers = "GATE" ∷ "STILE" ∷ "TURNSTILE" ∷ "KISSING_GATE" ∷ []

abbrev pub accepted_barriers : List String
accepted_barriers = "NO" ∷ "NONE" ∷ "ENTRANCE" ∷ []

abbrev pub rejected_road_classes : List String
rejected_road_classes = "STEPS" ∷ []

abbrev pub unknown_values : List String
unknown_values = "" ∷ "MISSING" ∷ "UNKNOWN" ∷ "OTHER" ∷ "NONE" ∷ "NULL" ∷ []

unfoldable pub normalise : Text → Text
unfolding strip upper replace_char
normalise value =
    map (replace_char b' ' b'_') (map (replace_char b'-' b'_') (map upper (strip value)))

unfoldable pub is_unknown : Value → Bool
unfolding normalise member
is_unknown none = true
is_unknown (some value) = member (normalise value) unknown_values

-- `normalise(value) in names`, for a value that is there
unfoldable pub is_among : List String → Value → Bool
unfolding normalise member
is_among names none = false
is_among names (some value) = member (normalise value) names

unfoldable pub assess_surface : Value → Verdict
assess_surface value =
    if is_unknown value
    then unknown
    else if is_among acceptable_surfaces value
    then pass
    else if is_among rejected_surfaces value
    then fail
    else unknown

unfoldable pub assess_smoothness : Value → Verdict
assess_smoothness value =
    if is_unknown value
    then unknown
    else if is_among rejected_smoothness value
    then fail
    else if is_among good_smoothness value
    then pass
    else unknown

unfoldable pub assess_barrier : Value → Verdict
assess_barrier value =
    if is_unknown value
    then unknown
    else if is_among rejected_barriers value
    then fail
    else if is_among accepted_barriers value
    then pass
    else unknown

unfoldable pub assess_road_class : Value → Verdict
assess_road_class value =
    if is_unknown value
    then unknown
    else if is_among rejected_road_classes value
    then fail
    else unknown
