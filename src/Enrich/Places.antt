-- ===== src/Enrich/Places.antt =====
-- That the rest stops of a route (`rest_stops_on_route`, backend/enrich.py) are those within the
-- corridor of one of its points, in their order along it, and what their spacing scores.
use meander.Accessibility.Spans.{get_or}
use mathlib.Core.Path.{subst}
use mathlib.Core.Option.{some-injective}
use meander.Geometry.{LatLon, cumulative_distance_m}
use meander.Common.{
  All, Among, Bool-cases, List, [], arith, if_false, if_true, if◌then◌else◌, inl, inr, ltb, map,
  none, refl, some, sym, ℕ, ◌+◌, ◌∙◌, ◌∷◌, ◌≡◌, ◌≤◌, ◌⊎◌,
}
use meander.Common.Text.{Text}
use meander.Enrich.Stops.{
  RestStop, argmin, argmin_from, found_stops, rest_stop_corridor, rest_stops_on_route, stop_at,
  stop_candidate, stop_candidates,
}
use meander.Common.Sort.{
  All-filter_map, IsAscending, ascending, filter_map, sort_by-All, sort_by-IsAscending,
}
use meander.Common.Round.{round_div}
use meander.Enrich.{Element, rounded_point}

abbrev smaller : ℕ → ℕ → ℕ × ℕ → ℕ × ℕ
smaller i d best = if ltb d best.1 then (i, d) else best

smaller-least :
    (i d : ℕ) (best : ℕ × ℕ)
    → ((smaller i d best).1 ≤ best.1)
      × ((smaller i d best).1 ≤ d)
      × (((smaller i d best).1 ≡ best.1) ⊎ ((smaller i d best).1 ≡ d))
smaller-least i d best = elim (Bool-cases (ltb d best.1)) [
  | inl e ↦ rw e (ground (arith, e), omega arith, inr refl)
  | inr e ↦ rw e (omega arith, ground (arith, e), inl refl)
]

-- The smallest of a list is at most each and is one of them.
argmin_from-least :
    (i : ℕ) (best : ℕ × ℕ) (ds : List ℕ)
    → ((argmin_from i best ds).1 ≤ best.1)
      × All (λ d. (argmin_from i best ds).1 ≤ d) ds
      × (((argmin_from i best ds).1 ≡ best.1) ⊎ Among (argmin_from i best ds).1 ds)
unfolding argmin_from
argmin_from-least i best [] = (omega arith, tt, inl refl)
argmin_from-least i best (d ∷ ds) =
    let s = smaller-least i d best in
    let r = argmin_from-least (i + 1) (smaller i d best) ds in
    (
      omega (arith, s.0, r.0),
      (omega (arith, s.1, r.0), r.1),
      elim r.2 [
        | inl e ↦ elim s.2 [ inl q ↦ inl (e ∙ q) | inr q ↦ inr (inl (sym (e ∙ q))) ]
        | inr m ↦ inr (inr m)
      ],
    )

argmin-least :
    (d : ℕ) (ds : List ℕ)
    → (n : ℕ × ℕ) × (argmin (d ∷ ds) ≡ some n) × All (λ e. n.1 ≤ e) (d ∷ ds) × Among n.1 (d ∷ ds)
unfolding argmin
argmin-least d ds =
    let r = argmin_from-least 1 (0, d) ds in
    (argmin_from 1 (0, d) ds, refl, (r.0, r.1), elim r.2 [ inl e ↦ inl (sym e) | inr m ↦ inr m ])

Among-of_map :
    {A : Type 0} (f : A → ℕ) (d : ℕ) (xs : List A)
    → Among d (map f xs)
    → (x : A) × Among x xs × (f x ≡ d)
Among-of_map f d [] m = absurd m
Among-of_map f d (x ∷ xs) (inl e) = (x, inl refl, e)
Among-of_map f d (x ∷ xs) (inr m) = let (y, n, e) = Among-of_map f d xs m in (y, inr n, e)

module _ (dist : LatLon → LatLon → ℕ) where
  module _ (points : List LatLon) where
    -- The stop is at a node, to six places, that is within the corridor of a point of the route.
    abbrev pub IsNearby : RestStop → Type 0
    IsNearby s =
        (node : LatLon) × (p : LatLon) × (s.at ≡ rounded_point 10 node)
        × Among p points
        × (dist node p ≤ rest_stop_corridor)

  abbrev stop_of : List LatLon → LatLon → Text → ℕ → RestStop
  stop_of points node kind i = record {
    at = rounded_point 10 node;
    type = kind;
    at_m = round_div (get_or (cumulative_distance_m dist points) i 0) 1000;
  }

  stop_at-IsNearby :
      (points : List LatLon) (c : LatLon × Text) (s : RestStop)
      → stop_at dist points c ≡ some s
      → IsNearby points s
  unfolding stop_at argmin argmin-least
  stop_at-IsNearby [] (node, kind) s h = absurd cc
  stop_at-IsNearby (p ∷ points) (node, kind) s h =
      let (n, e, least, m) = argmin-least (dist node p) (map (dist node) points) in
      elim (Bool-cases (ltb rest_stop_corridor n.1)) [
        | inl far ↦ absurd (
            let q =
              sym (
                if_true (ltb rest_stop_corridor n.1) none
                  (some (stop_of (p ∷ points) node kind n.0)) far)
              ∙ h in
            cc)
        | inr near ↦
            let q = some-injective _ _ (
              sym (
                if_false (ltb rest_stop_corridor n.1) none
                  (some (stop_of (p ∷ points) node kind n.0)) near)
              ∙ h) in
            let (x, k, d) = Among-of_map (dist node) n.1 (p ∷ points) m in
            subst (IsNearby (p ∷ points)) q (node, x, refl, k, ground (arith, near, d))
      ]

  -- The rest stops of a route are in their order along it, and each is, to six places, at a node within
  -- 35 m of one of its points.
  pub rest_stops_on_route-AreNearby :
      (points : List LatLon) (elements : List Element)
      → IsAscending (λ s. s.at_m) (rest_stops_on_route dist points elements)
        × All (IsNearby points) (rest_stops_on_route dist points elements)
  unfolding rest_stops_on_route found_stops stop_candidates
  rest_stops_on_route-AreNearby points elements =
      let found = filter_map (stop_at dist points) (filter_map stop_candidate elements) in
      (
        sort_by-IsAscending (λ s. s.at_m) found,
        sort_by-All (ascending (λ s. s.at_m)) (IsNearby points) found (
            All-filter_map (IsNearby points) (stop_at dist points)
              (filter_map stop_candidate elements) (λ c s h. stop_at-IsNearby points c s h)),
      )
