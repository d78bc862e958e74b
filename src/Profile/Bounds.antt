-- ===== src/Profile/Bounds.antt =====
-- The extent of a profile (backend/elevation.py): as many heights as distances, 120 at most, from the
-- start of the route to its end, and every marked stretch within them.
use meander.Geometry.{LatLon, cumulative_distance_m, path_length_m}
use meander.Accessibility.Incline.{grid_from, grid_of, window_mm}
use mathlib.Core.Path.{subst}
use meander.Accessibility.Spans.{get_or}
use meander.Common.{
  All, All-map, Bool, Bool-cases, List, Option, [], ap, arith, false, get_elem?, inl, inr, leb,
  length, length-map, ltb, map, min, none, not, refl, some, suc, zero, ℕ, ◌*◌, ◌++◌, ◌+◌, ◌-◌, ◌/◌,
  ◌<◌, ◌==◌, ◌||◌, ◌∙◌, ◌∷◌, ◌≡◌, ◌≤◌,
}
use meander.Common.Round.{round_at, round_div, round_div_near}
use meander.Profile.{
  ElevationProfile, build_profile, height_dm, max_profile_points, profile_of, scale_span, thin,
  thin_from, to_dm,
}
use meander.Common.Int.{pos, ℤ}

abbrev pub last_of : List ℕ → Option ℕ
last_of [] = none
last_of (x ∷ []) = some x
last_of (x ∷ y ∷ xs) = last_of (y ∷ xs)

pub record IsDrawable (total : ℕ) (p : ElevationProfile) : Type 0 where
  pub same_length : length p.elevations_m ≡ length p.distances_m
  pub few : length p.distances_m ≤ max_profile_points
  pub from_start : get_elem? p.distances_m 0 ≡ some 0
  pub to_end : last_of p.distances_m ≡ some (to_dm total)
  pub within : All (λ s. (s.0 < s.1) × (s.1 ≤ length p.distances_m)) p.steep_spans

module _ {A : Type 0} (d : A) (values : List A) (target : ℕ) where
  length-thin_from : (rounds k : ℕ) → length (thin_from d values target rounds k) ≡ rounds
  unfolding thin_from
  length-thin_from zero k = refl
  length-thin_from (suc rounds) k = omega (arith, length-thin_from rounds (k + 1))

  length-thin : length (thin d values target) ≡ min (length values) target
  unfolding thin
  length-thin = elim (Bool-cases (leb (length values) target)) [
    | inl e ↦ rw e (ground (arith, e))
    | inr e ↦ rw e (ground (arith, e, length-thin_from target 0))
  ]

last_of-append : (xs : List ℕ) (x : ℕ) → last_of (xs ++ x ∷ []) ≡ some x
last_of-append [] x = refl
last_of-append (y ∷ []) x = refl
last_of-append (y ∷ z ∷ xs) x = last_of-append (z ∷ xs) x

last_of-get : (xs : List ℕ) (x : ℕ) → last_of xs ≡ some x → get_or xs (length xs - 1) 0 ≡ x
last_of-get [] x h = cc
last_of-get (y ∷ []) x h = cc
last_of-get (y ∷ z ∷ xs) x h =
    let e : suc (suc (length xs) - 1) ≡ suc (suc (length xs)) - 1 = omega arith in
    subst (λ k. get_or (y ∷ z ∷ xs) k 0 ≡ x) e (last_of-get (z ∷ xs) x h)

last_of-map :
    (f : ℕ → ℕ) (xs : List ℕ) (x : ℕ) → last_of xs ≡ some x → last_of (map f xs) ≡ some (f x)
last_of-map f [] x h = cc
last_of-map f (y ∷ []) x h = cc
last_of-map f (y ∷ z ∷ xs) x h = last_of-map f (z ∷ xs) x h

-- The last place taken is the last place.
last_of-thin_from :
    (values : List ℕ) (target rounds k : ℕ)
    → last_of (thin_from 0 values target (suc rounds) k)
      ≡ some (get_or values (round_div ((k + rounds) * (length values - 1)) (target - 1)) 0)
unfolding thin_from
last_of-thin_from values target zero k =
    let e : k ≡ k + 0 = omega arith in
    ap (λ j. some (get_or values (round_div (j * (length values - 1)) (target - 1)) 0)) e
last_of-thin_from values target (suc rounds) k =
    last_of-thin_from values target rounds (k + 1)
    ∙ (let e : k + 1 + rounds ≡ k + suc rounds = omega arith in
        ap (λ j. some (get_or values (round_div (j * (length values - 1)) (target - 1)) 0)) e)

round_div-mul : (n d : ℕ) → 0 < d → round_div (d * n) d ≡ n
round_div-mul n d h = grind (arith, round_div_near (d * n) d h)

scale_span-within :
    (n m : ℕ) (s : ℕ × ℕ)
    → 0 < m
    → ((scale_span n m s).0 < (scale_span n m s).1) × ((scale_span n m s).1 ≤ m)
unfolding scale_span
scale_span-within n m (a, b) h = omega arith

-- A grid that is kept starts at 0 and ends at the route's end.
grid_of-ends :
    (total : ℕ)
    → 3 ≤ length (grid_of total)
    → (get_elem? (grid_of total) 0 ≡ some 0) × (last_of (grid_of total) ≡ some total)
unfolding grid_of grid_from
grid_of-ends total h = elim (Bool-cases (ltb total (window_mm * 2))) [
  | inl e ↦ absurd (ground (arith, e))
  | inr e ↦
      rw e (ground (arith, e), last_of-append (grid_from total (total / window_mm + 1) 0) total)
]

first_of : (values : List ℕ) → get_elem? values 0 ≡ some 0 → get_or values 0 0 ≡ 0
first_of [] e = cc
first_of (x ∷ xs) e = cc

round_div-zero : (d : ℕ) → round_div 0 d ≡ 0
unfolding round_div round_at
round_div-zero d = ground arith

thin-first :
    (values : List ℕ) (target : ℕ)
    → 0 < target
    → get_elem? values 0 ≡ some 0
    → get_elem? (thin 0 values target) 0 ≡ some 0
unfolding thin thin_from
thin-first values zero h e = elim h [ ]
thin-first values (suc target) h e = elim (Bool-cases (leb (length values) (suc target))) [
  | inl short ↦ rw short e
  | inr long ↦ rw long (
      ap (λ k. some (get_or values k 0)) (start ∙ round_div-zero (suc target - 1))
      ∙ ap some (first_of values e))
]
  where
    start : round_div (0 * (length values - 1)) (suc target - 1) ≡ round_div 0 (suc target - 1)
    start = ap (λ n. round_div n (suc target - 1)) (omega arith)

thin-last :
    (values : List ℕ) (rounds x : ℕ)
    → 0 < rounds
    → last_of values ≡ some x
    → last_of (thin 0 values (suc rounds)) ≡ some x
unfolding thin
thin-last values rounds x h e = elim (Bool-cases (leb (length values) (suc rounds))) [
  | inl short ↦ rw short e
  | inr long ↦ rw long (
      last_of-thin_from values (suc rounds) rounds 0
      ∙ ap (λ k. some (get_or values k 0)) place
      ∙ ap some (last_of-get values x e))
]
  where
    factor : (0 + rounds) * (length values - 1) ≡ rounds * (length values - 1)
    factor = ap (λ k. k * (length values - 1)) (omega arith)

    by : suc rounds - 1 ≡ rounds
    by = omega arith

    place : round_div ((0 + rounds) * (length values - 1)) (suc rounds - 1) ≡ length values - 1
    place = rw (factor, by) (round_div-mul (length values - 1) rounds h)

get_elem?-map_first :
    (f : ℕ → ℕ) (xs : List ℕ) → f 0 ≡ 0 → get_elem? xs 0 ≡ some 0 → get_elem? (map f xs) 0 ≡ some 0
get_elem?-map_first f [] z h = cc
get_elem?-map_first f (x ∷ xs) z h = ground arith

enough : (a b c : Bool) (n : ℕ) → (a || b || c || ltb n 3) ≡ false → 3 ≤ n
enough a b c n h = ground arith

some_inj : {A : Type 0} {x y : A} → some x ≡ some y → x ≡ y
some_inj h = cc

profile_of-IsDrawable :
    (total : ℕ) (heights : List ℤ)
    → 3 ≤ length (grid_of total)
    → length heights ≡ length (grid_of total)
    → IsDrawable total (profile_of (grid_of total) heights)
unfolding profile_of
profile_of-IsDrawable total heights h same =
    let grid = grid_of total in
    let ends = grid_of-ends total h in
    let drawn = thin 0 grid max_profile_points in
    let count = length-thin 0 grid max_profile_points in
    let count' = length-thin (pos 0) heights max_profile_points in
    let mapped = length-map (λ (x : ℕ). round_div x 100) drawn in
    let mapped' = length-map height_dm (thin (pos 0) heights max_profile_points) in
    record {
      same_length = omega arith;
      few = omega arith;
      from_start =
          get_elem?-map_first (λ x. round_div x 100) drawn (round_div-zero 100)
            (thin-first grid max_profile_points (omega arith) ends.0);
      to_end =
          last_of-map (λ x. round_div x 100) drawn total
            (thin-last grid 119 total (omega arith) ends.1);
      within =
          All-map (λ s. (s.0 < s.1) × (s.1 ≤ length (map (λ x. round_div x 100) drawn)))
            (scale_span (length grid) (length drawn)) _
            λ s. (
              (scale_span-within (length grid) (length drawn) s (omega arith)).0,
              omega (arith, scale_span-within (length grid) (length drawn) s),
            );
    }

-- A profile has as many heights as distances and 120 at most, starts at the start of the route and ends
-- at its end, however much it is thinned, and marks only stretches of one sample or more within it,
-- where `np.interp` gives a height for each point of the grid.
pub build_profile-IsDrawable :
    (dist : LatLon → LatLon → ℕ) (interp : List ℕ → List ℕ → List ℤ → List ℤ)
    → ((grid cum : List ℕ) (heights : List ℤ) → length (interp grid cum heights) ≡ length grid)
    → (points : List LatLon) (elevations : Option (List ℤ)) {p : ElevationProfile}
    → build_profile dist interp points elevations ≡ some p
    → IsDrawable (path_length_m dist points) p
unfolding build_profile
build_profile-IsDrawable dist interp full points none h = absurd cc
build_profile-IsDrawable dist interp full points (some elevations) {p} h =
    let cum = cumulative_distance_m dist points in
    let grid = grid_of (path_length_m dist points) in
    elim (Bool-cases (
      length elevations == 0
      || not (length elevations == length points)
      || ltb (length points) 3
      || ltb (length grid) 3)) [
        | inl e ↦ absurd (ground (arith, e, h))
        | inr e ↦
            let long =
              enough (length elevations == 0) (not (length elevations == length points))
                (ltb (length points) 3) (length grid) e in
            let q : some (profile_of grid (interp grid cum elevations)) ≡ some p = rw e at h in
            subst (IsDrawable (path_length_m dist points)) (some_inj q) (
              profile_of-IsDrawable (path_length_m dist points) (interp grid cum elevations) long
                (full grid cum elevations))
      ]
