-- ===== src/Enrich/Barriers.antt =====
-- backend/enrich.py: `barrier_spans_on_route`.
--
-- The flat map about the route's mean latitude has whole tenths of a micrometre: `plane` gives those of
-- a ten-millionth of a degree of longitude and of latitude there, and `hypot` is numpy's. What is
-- divided is kept as a fraction, and distances are compared by their squares.
use meander.Accessibility.Spans.{Span, get_or}
use meander.Geometry.Scoring.{Ratio}
use meander.Geometry.{LatLon, sum}
use meander.Common.{
  Bool, List, Option, [], false, if◌then◌else◌, leb, length, ltb, map, min, none, not, some, take,
  ℕ, ◌&&◌, ◌*◌, ◌+◌, ◌-◌, ◌==◌, ◌||◌, ◌∷◌,
}
use meander.Common.Sort.{filter_map, sort_by}
use meander.Common.Round.{round_div}
use meander.Common.Text.{Text, text_eq, text_leb}
use meander.Common.Int.{abs, leb_ℤ, pos, pos_part, ℤ, ◌*ℤ◌, ◌+ℤ◌, ◌-ℤ◌}
use meander.Enrich.{Element, truthy}

abbrev pub Plane : Type 0
Plane = List LatLon → ℕ × ℕ

pub record Vector : Type 0 where
  pub x : ℤ
  pub y : ℤ

unfoldable pub on_plane : ℕ × ℕ → LatLon → Vector
unfolding ◌*ℤ◌
on_plane (kx, ky) p = record { x = pos kx *ℤ p.lon; y = pos ky *ℤ p.lat }

unfoldable pub minus : Vector → Vector → Vector
unfolding ◌-ℤ◌
minus a b = record { x = a.x -ℤ b.x; y = a.y -ℤ b.y }

unfoldable pub dot : Vector → Vector → ℤ
unfolding ◌*ℤ◌ ◌+ℤ◌
dot a b = a.x *ℤ b.x +ℤ a.y *ℤ b.y

-- How far along the segment the foot of the perpendicular is, and the square of the distance from it.
pub record Foot : Type 0 where
  pub t : Ratio
  pub offset : Ratio

-- The foot of `d` on `ab`, both from the segment's start.
unfoldable pub foot_of : Vector → Vector → Foot
unfolding dot ◌*ℤ◌ ◌-ℤ◌
foot_of d ab =
    let square = abs (dot ab ab) in
    let t = min (pos_part (dot d ab)) square in
    let off : Vector = record {
      x = d.x *ℤ pos square -ℤ pos t *ℤ ab.x;
      y = d.y *ℤ pos square -ℤ pos t *ℤ ab.y;
    } in
    if square == 0
    then record {
      t = record { num = 0; den = 1 };
      offset = record { num = abs (dot d d); den = 1 };
    }
    else record {
      t = record { num = t; den = square };
      offset = record { num = abs (dot off off); den = square * square };
    }

unfoldable pub feet : Vector → List Vector → List Foot
unfolding foot_of minus
feet n [] = []
feet n (a ∷ []) = []
feet n (a ∷ b ∷ points) = foot_of (minus n a) (minus b a) ∷ feet n (b ∷ points)

unfoldable pub no_farther : Foot → Foot → Bool
no_farther f g = leb (f.offset.num * g.offset.den) (g.offset.num * f.offset.den)

-- The nearest foot and its segment, of two as near the later; `i` is the segment of the head.
unfoldable pub nearest_from : ℕ → ℕ × Foot → List Foot → ℕ × Foot
nearest_from i best [] = best
nearest_from i best (f ∷ fs) =
    nearest_from (i + 1) (if no_farther f best.1 then (i, f) else best) fs

unfoldable pub nearest : List Foot → Option (ℕ × Foot)
unfolding nearest_from
nearest [] = none
nearest (f ∷ fs) = some (nearest_from 1 (0, f) fs)

-- BARRIER_CORRIDOR_M squared, in squares of a tenth of a micrometre
abbrev pub corridor_squared : ℕ
corridor_squared = 100000000 * 100000000

unfoldable pub within_corridor : Foot → Bool
within_corridor f = leb f.offset.num (corridor_squared * f.offset.den)

unfoldable pub candidate_of : Element → Option (LatLon × Text)
unfolding truthy
candidate_of e = elim (truthy e.barrier_tag) [
  | none ↦ none
  | some value ↦ elim e.position [ none ↦ none | some node ↦ some (node, value) ]
]

unfoldable pub candidates_of : List Element → List (LatLon × Text)
unfolding candidate_of filter_map
candidates_of elements = filter_map candidate_of elements

unfoldable pub segment_vectors : List Vector → List Vector
unfolding minus
segment_vectors [] = []
segment_vectors (a ∷ []) = []
segment_vectors (a ∷ b ∷ points) = minus b a ∷ segment_vectors (b ∷ points)

-- A tuple of `seen`; its second index is `start` + 1. The distance along the route is in decimetres.
pub record BarrierSpan : Type 0 where
  pub start : ℕ
  pub value : Text
  pub node : LatLon
  pub along_dm : ℕ

unfoldable pub eq_ℤ : ℤ → ℤ → Bool
eq_ℤ a b = leb_ℤ a b && leb_ℤ b a

unfoldable pub same_span : BarrierSpan → BarrierSpan → Bool
unfolding eq_ℤ text_eq
same_span a b =
    (a.start == b.start)
    && (text_eq a.value b.value
        && (eq_ℤ a.node.lat b.node.lat
            && (eq_ℤ a.node.lon b.node.lon && (a.along_dm == b.along_dm))))

-- The order of the tuples.
unfoldable pub span_before : BarrierSpan → BarrierSpan → Bool
unfolding eq_ℤ text_eq text_leb
span_before a b =
    if not (a.start == b.start)
    then leb a.start b.start
    else if not (text_eq a.value b.value)
    then text_leb a.value b.value
    else if not (eq_ℤ a.node.lat b.node.lat)
    then leb_ℤ a.node.lat b.node.lat
    else if not (eq_ℤ a.node.lon b.node.lon)
    then leb_ℤ a.node.lon b.node.lon
    else leb a.along_dm b.along_dm

unfoldable pub any_same : BarrierSpan → List BarrierSpan → Bool
unfolding same_span
any_same s [] = false
any_same s (r ∷ seen) = same_span s r || any_same s seen

-- seen.add
unfoldable pub add_seen : BarrierSpan → List BarrierSpan → List BarrierSpan
unfolding any_same
add_seen s seen = if any_same s seen then seen else s ∷ seen

module _ (plane : Plane) (hypot : Vector → ℕ) (points : List LatLon) where
  abbrev pub vectors : List Vector
  vectors = map (on_plane (plane points)) points

  -- round(seg_cum[i] + t * seg_len[i], 1)
  unfoldable pub along_of : ℕ → Ratio → ℕ
  unfolding segment_vectors
  along_of i t =
      let lens = map hypot (segment_vectors vectors) in
      round_div (sum (take i lens) * t.den + t.num * get_or lens i 0) (t.den * 1000000)

  unfoldable pub feet_of : LatLon → List Foot
  unfolding feet on_plane
  feet_of node = feet (on_plane (plane points) node) vectors

  -- The span of a candidate on its nearest segment, unless that is beyond the corridor.
  unfoldable pub place : LatLon × Text → Option BarrierSpan
  unfolding nearest feet_of along_of within_corridor
  place (node, value) = elim (nearest (feet_of node)) [
    | none ↦ none
    | some (i, f) ↦
        if within_corridor f
        then some (record {
          start = min i (length points - 2);
          value = value;
          node = node;
          along_dm = along_of i f.t;
        })
        else none
  ]

  unfoldable pub all_seen : List (LatLon × Text) → List BarrierSpan
  unfolding place add_seen
  all_seen [] = []
  all_seen (c ∷ candidates) =
      let rest = all_seen candidates in elim (place c) [ none ↦ rest | some s ↦ add_seen s rest ]

  unfoldable pub barrier_spans_on_route : List Element → List BarrierSpan
  unfolding all_seen candidates_of sort_by span_before
  barrier_spans_on_route elements =
      if ltb (length points) 2 then [] else sort_by span_before (all_seen (candidates_of elements))

-- The tuple as `_span_verdicts` reads it.
unfoldable pub as_span : BarrierSpan → Span
as_span s = record {
  start = pos s.start;
  stop = pos (s.start + 1);
  value = some s.value;
  node = some (s.node, some (s.along_dm * 100));
}
