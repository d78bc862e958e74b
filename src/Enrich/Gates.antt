-- ===== src/Enrich/Gates.antt =====
-- That no barrier within the corridor is lost: `barrier_spans_on_route` (backend/enrich.py) and
-- `assess_route` (backend/accessibility.py) together.
use meander.Accessibility.Sums.{length-segment_lengths_m}
use meander.Accessibility.Safety.{FailingSpan-blocks, on_barrier}
use meander.Accessibility.Sentence.{is_blocked}
use meander.Accessibility.Route.{Details, assess_route}
use meander.Accessibility.{assess_barrier, fail}
use meander.Accessibility.Spans.{span_hi, span_length, span_lo}
use meander.Geometry.{LatLon, clamp_index, segment_lengths_m, sum}
use meander.Common.{
  ==_iff, All, Among, Among-map, Bool, Bool-cases, List, Option, Option_ind, [], ap, arith, drop,
  false, if_ind, if_true, inl, inr, length, length-map, ltb, map, max, min, none, refl, some,
  some_case, suc, sym, take, true, zero, ℕ, ◌&&◌, ◌+◌, ◌-◌, ◌<◌, ◌∙◌, ◌∷◌, ◌≡◌, ◌≤◌,
}
use meander.Common.Text.{Text, text_eq→eq}
use meander.Common.Int.{ℤ}
use meander.Enrich.{Element}
use meander.Enrich.Barriers.{
  BarrierSpan, Foot, Plane, Vector, add_seen, all_seen, along_of, any_same, as_span,
  barrier_spans_on_route, candidate_of, candidates_of, eq_ℤ, feet_of, nearest, on_plane, place,
  same_span, span_before, within_corridor,
}
use meander.Enrich.Nearest.{
  IsProper, feet-IsProper, get_elem?-lt, length-feet, nearest-finds, nearest-get,
}
use meander.Common.Sort.{Among-filter_map, Among-sort_by}

and_parts : (a b : Bool) → (a && b) ≡ true → (a ≡ true) × (b ≡ true)
and_parts true b h = (refl, h)
and_parts false b h = absurd cc

eq_ℤ_sound : (a b : ℤ) → eq_ℤ a b ≡ true → a ≡ b
unfolding eq_ℤ
eq_ℤ_sound a b h = ground (arith, h)

-- What `seen` takes for one tuple is one tuple.
same_span_sound : (a b : BarrierSpan) → same_span a b ≡ true → a ≡ b
unfolding same_span
same_span_sound a b h =
    let p = and_parts _ _ h in
    let q = and_parts _ _ p.1 in
    let r = and_parts _ _ q.1 in
    let s = and_parts _ _ r.1 in
    let start : a.start ≡ b.start = (==_iff _ _).0 p.0 in
    let value : a.value ≡ b.value = text_eq→eq _ _ q.0 in
    let lat : a.node.lat ≡ b.node.lat = eq_ℤ_sound _ _ r.0 in
    let lon : a.node.lon ≡ b.node.lon = eq_ℤ_sound _ _ s.0 in
    let along : a.along_dm ≡ b.along_dm = (==_iff _ _).0 s.1 in
    λ i. record {
      start = start i;
      value = value i;
      node = record { lat = lat i; lon = lon i };
      along_dm = along i;
    }

any_same-Among : (s : BarrierSpan) (seen : List BarrierSpan) → any_same s seen ≡ true → Among s seen
unfolding any_same
any_same-Among s [] h = absurd cc
any_same-Among s (r ∷ seen) h = elim (Bool-cases (same_span s r)) [
  | inl e ↦ inl (sym (same_span_sound s r e))
  | inr e ↦ inr (any_same-Among s seen (ground (arith, e, h)))
]

Among-add_seen : (s : BarrierSpan) (seen : List BarrierSpan) → Among s (add_seen s seen)
unfolding add_seen
Among-add_seen s seen =
    if_ind (Among s) (any_same s seen) (λ e. any_same-Among s seen e) (λ e. inl refl)

add_seen-keeps :
    (r s : BarrierSpan) (seen : List BarrierSpan) → Among r seen → Among r (add_seen s seen)
unfolding add_seen
add_seen-keeps r s seen m = if_ind (Among r) (any_same s seen) (λ e. m) (λ e. inr m)

Among-candidates_of :
    (e : Element) (elements : List Element) (c : LatLon × Text)
    → Among e elements
    → candidate_of e ≡ some c
    → Among c (candidates_of elements)
unfolding candidates_of
Among-candidates_of e elements c m h = Among-filter_map candidate_of e c elements m h

module _ (plane : Plane) (hypot : Vector → ℕ) (points : List LatLon) where
  Among-all_seen :
      (c : LatLon × Text) (s : BarrierSpan) (candidates : List (LatLon × Text))
      → Among c candidates
      → place plane hypot points c ≡ some s
      → Among s (all_seen plane hypot points candidates)
  unfolding all_seen
  Among-all_seen c s [] m h = absurd m
  Among-all_seen c s (d ∷ candidates) (inl p) h =
      some_case (Among s) (place plane hypot points d) _ _ s (ap (place plane hypot points) p ∙ h)
        (Among-add_seen s (all_seen plane hypot points candidates))
  Among-all_seen c s (d ∷ candidates) (inr m) h =
      let rest = Among-all_seen c s candidates m h in
      Option_ind (Among s) (place plane hypot points d) (λ n. rest)
        λ r n. add_seen-keeps s r (all_seen plane hypot points candidates) rest

  length-feet_of : (node : LatLon) → length (feet_of plane hypot points node) ≡ length points - 1
  unfolding feet_of
  length-feet_of node = omega (
    arith,
    length-feet (on_plane (plane points) node) (map (on_plane (plane points)) points),
    length-map (on_plane (plane points)) points,
  )

  feet_of-IsProper : (node : LatLon) → All IsProper (feet_of plane hypot points node)
  unfolding feet_of
  feet_of-IsProper node = feet-IsProper _ _

  abbrev span_of : LatLon → Text → ℕ × Foot → BarrierSpan
  span_of node value n = record {
    start = min n.0 (length points - 2);
    value = value;
    node = node;
    along_dm = along_of plane hypot points n.0 n.1.t;
  }

  place-nearest :
      (node : LatLon) (value : Text) (n : ℕ × Foot)
      → nearest (feet_of plane hypot points node) ≡ some n
      → within_corridor n.1 ≡ true
      → place plane hypot points (node, value) ≡ some (span_of node value n)
  unfolding place
  place-nearest node value n e w =
      some_case (λ r. r ≡ some (span_of node value n)) (nearest (feet_of plane hypot points node)) _
        _ n e (if_true (within_corridor n.1) (some (span_of node value n)) none w)

  -- A candidate within the corridor of any segment is placed on a segment.
  place-near :
      (node : LatLon) (value : Text) (f : Foot)
      → Among f (feet_of plane hypot points node)
      → within_corridor f ≡ true
      → (n : ℕ × Foot) × (place plane hypot points (node, value) ≡ some (span_of node value n))
        × (min n.0 (length points - 2) + 1 < length points)
  place-near node value f m h =
      let (n, e, w) =
        nearest-finds (feet_of plane hypot points node) f (feet_of-IsProper node) m h in
      let i =
        get_elem?-lt (feet_of plane hypot points node) n.0 n.1
          (nearest-get (feet_of plane hypot points node) n e) in
      (n, place-nearest node value n e w, omega (arith, length-feet_of node))

  Among-barrier_spans :
      (elements : List Element) (e : Element) (node : LatLon) (value : Text) (s : BarrierSpan)
      → Among e elements
      → candidate_of e ≡ some (node, value)
      → place plane hypot points (node, value) ≡ some s
      → 2 ≤ length points
      → Among s (barrier_spans_on_route plane hypot points elements)
  unfolding barrier_spans_on_route
  Among-barrier_spans elements e node value s m c h two =
      if_ind (Among s) (ltb (length points) 2) (λ short. absurd (ground (arith, short)))
        λ long. Among-sort_by span_before s (all_seen plane hypot points (candidates_of elements)) (
          Among-all_seen (node, value) s (candidates_of elements)
            (Among-candidates_of e elements (node, value) m c) h)

segment-positive :
    (i : ℕ) (xs : List ℕ) → All (λ x. 0 < x) xs → i < length xs → 0 < sum (take 1 (drop i xs))
segment-positive i [] h l = absurd (omega arith)
segment-positive zero (x ∷ xs) h l = omega arith
segment-positive (suc i) (x ∷ xs) h l = segment-positive i xs h.1 (omega arith)

-- One segment of a route whose segments all have a length has a length.
as_span-long :
    (s : BarrierSpan) (lengths : List ℕ)
    → All (λ x. 0 < x) lengths
    → s.start < length lengths
    → 0 < span_length lengths (as_span s)
unfolding span_length span_lo span_hi as_span clamp_index
as_span-long s lengths h l =
    let lo : min s.start (length lengths) ≡ s.start = omega arith in
    let n : max (min s.start (length lengths)) (min (s.start + 1) (length lengths))
          - min s.start (length lengths)
        ≡ 1 =
      omega arith in
    rw (n, lo) (segment-positive s.start lengths h l)

-- A node of Overpass whose barrier value fails the check blocks the route, if it is within 10 m of any
-- segment of the route and no segment has length 0: the projection onto the nearest segment, the
-- removal of duplicates and the sorting lose no such barrier.
pub gate_blocks :
    (plane : Plane) (hypot : Vector → ℕ) (dist : LatLon → LatLon → ℕ)
    (interp : List ℕ → List ℕ → List ℤ → List ℤ) (points : List LatLon)
    (elevations : Option (List ℤ)) (details : Details) (elements : List Element) (e : Element)
    (node : LatLon) (value : Text) (f : Foot)
    → All (λ x. 0 < x) (segment_lengths_m dist points)
    → Among e elements
    → candidate_of e ≡ some (node, value)
    → assess_barrier (some value) ≡ fail
    → Among f (feet_of plane hypot points node)
    → within_corridor f ≡ true
    → is_blocked (
        assess_route dist interp points elevations details
          (some (map as_span (barrier_spans_on_route plane hypot points elements))))
      ≡ true
unfolding as_span
gate_blocks plane hypot dist interp points elevations details elements e node value f long m c bad
      near h =
    let (n, placed, inside) = place-near plane hypot points node value f near h in
    let s = span_of plane hypot points node value n in
    FailingSpan-blocks dist interp points elevations details
      (some (map as_span (barrier_spans_on_route plane hypot points elements))) (as_span s)
      (on_barrier
        (
          Among-map as_span s (barrier_spans_on_route plane hypot points elements) (
              Among-barrier_spans plane hypot points elements e node value s m c placed
                (omega arith)),
          as_span-long s (segment_lengths_m dist points) long
              (omega (arith, length-segment_lengths_m dist points)),
        )
        bad)
