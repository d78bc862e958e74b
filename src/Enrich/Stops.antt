-- ===== src/Enrich/Stops.antt =====
-- backend/enrich.py: `rest_stops_on_route` and `rest_stop_gap_score`.
--
-- A position is rounded to six places. Distances are whole millimetres, the score ten-thousandths. `dist` is `haversine_m`, whose
-- arithmetic the source repeats in numpy.
use meander.Accessibility.Spans.{get_or}
use meander.Geometry.{LatLon, cumulative_distance_m, path_length_m}
use meander.Common.{
  List, Option, [], if◌then◌else◌, ltb, map, max, min, none, some, ℕ, ◌*◌, ◌++◌, ◌+◌, ◌-◌, ◌==◌,
  ◌∷◌,
}
use meander.Common.Sort.{ascending, filter_map, sort_by}
use meander.Common.Round.{round_div}
use meander.Common.Text.{Text, replace_char}
use meander.Enrich.{Element, rounded_point, truthy}

-- REST_STOP_CORRIDOR_M and REST_STOP_TARGET_SPACING_M
abbrev pub rest_stop_corridor : ℕ
rest_stop_corridor = 35000

abbrev pub target_spacing : ℕ
target_spacing = 200000

-- `at_m` is whole metres.
pub record RestStop : Type 0 where
  pub at : LatLon
  pub type : Text
  pub at_m : ℕ

-- tags.get("amenity") or tags.get("tourism")
unfoldable pub kind_of : Element → Option Text
unfolding truthy
kind_of e = elim (truthy e.amenity) [ some kind ↦ some kind | none ↦ truthy e.tourism ]

unfoldable pub stop_candidate : Element → Option (LatLon × Text)
unfolding kind_of replace_char
stop_candidate e = elim e.position [
  | none ↦ none
  | some node ↦ elim (kind_of e) [
    | none ↦ none
    | some kind ↦ some (node, map (replace_char b'_' b' ') kind)
  ]
]

unfoldable pub stop_candidates : List Element → List (LatLon × Text)
unfolding stop_candidate filter_map
stop_candidates elements = filter_map stop_candidate elements

-- distances.argmin(): the first place of the smallest, and it; `i` is the place of the head.
unfoldable pub argmin_from : ℕ → ℕ × ℕ → List ℕ → ℕ × ℕ
argmin_from i best [] = best
argmin_from i best (d ∷ ds) = argmin_from (i + 1) (if ltb d best.1 then (i, d) else best) ds

unfoldable pub argmin : List ℕ → Option (ℕ × ℕ)
unfolding argmin_from
argmin [] = none
argmin (d ∷ ds) = some (argmin_from 1 (0, d) ds)

-- A rounded mark may lie behind the next one: a gap below 0 counts as 0, and the largest as 1 m.
unfoldable pub worst_gap : List ℕ → ℕ
worst_gap [] = 0
worst_gap (a ∷ []) = 0
worst_gap (a ∷ b ∷ rest) = max (b - a) (worst_gap (b ∷ rest))

-- round(max(0, min(1, 200 / max(gap, 1))), 4)
unfoldable pub spacing_score : ℕ → ℕ
spacing_score gap = let g = max gap 1000 in round_div (min target_spacing g * 10000) g

module _ (dist : LatLon → LatLon → ℕ) (points : List LatLon) where
  -- A candidate whose nearest vertex is within the corridor.
  unfoldable pub stop_at : LatLon × Text → Option RestStop
  unfolding argmin cumulative_distance_m rounded_point
  stop_at (node, kind) = elim (argmin (map (dist node) points)) [
    | none ↦ none
    | some (i, d) ↦
        if ltb rest_stop_corridor d
        then none
        else some (record {
          at = rounded_point 10 node;
          type = kind;
          at_m = round_div (get_or (cumulative_distance_m dist points) i 0) 1000;
        })
  ]

  unfoldable pub found_stops : List (LatLon × Text) → List RestStop
  unfolding stop_at filter_map
  found_stops candidates = filter_map stop_at candidates

  unfoldable pub rest_stops_on_route : List Element → List RestStop
  unfolding found_stops stop_candidates sort_by
  rest_stops_on_route elements =
      sort_by (ascending (λ s. s.at_m)) (found_stops (stop_candidates elements))

  abbrev pub marks : List RestStop → List ℕ
  marks stops = 0 ∷ (map (λ s. s.at_m * 1000) stops ++ path_length_m dist points ∷ [])

  unfoldable pub rest_stop_gap_score : Option (List RestStop) → Option ℕ
  unfolding worst_gap spacing_score path_length_m
  rest_stop_gap_score none = none
  rest_stop_gap_score (some []) = if path_length_m dist points == 0 then none else some 0
  rest_stop_gap_score (some (s ∷ stops)) =
      if path_length_m dist points == 0
      then none
      else some (spacing_score (worst_gap (marks (s ∷ stops))))
