-- ===== src/Profile/Agree.antt =====
-- That the profile (backend/elevation.py) and the verdict on inclines (`incline_findings` of
-- backend/accessibility.py) agree on whether a route is too steep.
use meander.Geometry.{LatLon, cumulative_distance_m, path_length_m}
use meander.Accessibility.Spans.{Description, Finding, steep, sustained, tagged}
use meander.Accessibility.Incline.{
  argmax_abs, argmax_from, diffs, grid_of, incline_at, incline_findings, pair_sums, steep_findings,
  sustained_findings, sustained_incline_pct, sustained_windows, window_mm,
}
use meander.Common.{
  Bool, Bool-cases, List, Option, Option_ind, [], ap, arith, false, if_ind, if◌then◌else◌, inl, inr,
  length, ltb, map, none, not, refl, some, sym, true, ℕ, ◌*◌, ◌+◌, ◌==◌, ◌||◌, ◌↔◌, ◌∙◌, ◌∷◌, ◌≡◌,
  ◌≢◌, ◌⊎◌,
}
use meander.Common.Int.{abs, ℤ}
use meander.Profile.{ElevationProfile, build_profile, is_over, profile_of, steep_runs}

-- The finding is of a gradient above the limit over one window.
abbrev pub SteepText : Description → Type 0
SteepText (tagged type value) = ⊥
SteepText (steep climb up) = Unit
SteepText (sustained climb) = ⊥

abbrev pub IsSteep : List Finding → Type 0
IsSteep [] = ⊥
IsSteep (f ∷ fs) = SteepText f.description ⊎ IsSteep fs

-- What the profile says of steepness.
abbrev pub IsMarked : Option ElevationProfile → Type 0
IsMarked none = ⊥
IsMarked (some p) = p.steep_spans ≢ []

-- A run is found exactly when a window is over the limit.
pub any_over : List ℤ → Bool
any_over [] = false
any_over (x ∷ xs) = is_over x || any_over xs

steep_runs-open : (i start : ℕ) (over : List Bool) → steep_runs i (some start) over ≢ []
unfolding steep_runs
steep_runs-open i start [] = ground arith
steep_runs-open i start (true ∷ over) = steep_runs-open (i + 1) start over
steep_runs-open i start (false ∷ over) = ground arith

steep_runs-over :
    (i : ℕ) (deltas : List ℤ)
    → (steep_runs i none (map is_over deltas) ≢ []) ↔ (any_over deltas ≡ true)
unfolding steep_runs any_over
steep_runs-over i [] = ground arith
steep_runs-over i (x ∷ xs) = elim (Bool-cases (is_over x)) [
  | inl e ↦ rw e ((λ h. refl), (λ h. steep_runs-open (i + 1) i (map is_over xs)))
  | inr e ↦ rw e (steep_runs-over (i + 1) xs)
]

is_over-larger :
    (best x : ℤ)
    → is_over (if ltb (abs best) (abs x) then x else best) ≡ (is_over best || is_over x)
is_over-larger best x = elim (Bool-cases (ltb (abs best) (abs x))) [
  | inl e ↦ rw e (ground (arith, e))
  | inr e ↦ rw e (ground (arith, e))
]

or_assoc : (a b c : Bool) → ((a || b) || c) ≡ (a || (b || c))
or_assoc true b c = refl
or_assoc false b c = refl

or_false : (a : Bool) → a ≡ (a || false)
or_false true = refl
or_false false = refl

argmax_from-over :
    (i place : ℕ) (best : ℤ) (xs : List ℤ)
    → is_over (argmax_from i place best xs).1 ≡ (is_over best || any_over xs)
unfolding argmax_from any_over
argmax_from-over i place best [] = or_false (is_over best)
argmax_from-over i place best (x ∷ xs) =
    argmax_from-over (i + 1) _ (if ltb (abs best) (abs x) then x else best) xs
    ∙ ap (λ b. b || any_over xs) (is_over-larger best x)
    ∙ or_assoc (is_over best) (is_over x) (any_over xs)

-- The engine reports the steepest window exactly when one is over the limit.
steep_findings-over :
    (points : List LatLon) (cum grid : List ℕ) (deltas : List ℤ)
    → ((steep_findings points cum grid deltas ≡ []) × (any_over deltas ≡ false))
      ⊎ (IsSteep (steep_findings points cum grid deltas) × (any_over deltas ≡ true))
unfolding steep_findings argmax_abs incline_at any_over
steep_findings-over points cum grid [] = inl (refl, refl)
steep_findings-over points cum grid (x ∷ xs) =
    let e = argmax_from-over 1 0 x xs in
    elim (Bool-cases (is_over (argmax_from 1 0 x xs).1)) [
      | inl h ↦ inr (rw h (inl tt), sym e ∙ h)
      | inr h ↦ inl (rw h refl, sym e ∙ h)
    ]

sustained_findings-not-IsSteep :
    (points : List LatLon) (cum grid : List ℕ) (deltas : List ℤ)
    → ¬ IsSteep (sustained_findings points cum grid deltas)
unfolding sustained_findings incline_at
sustained_findings-not-IsSteep points cum grid deltas =
    Option_ind (λ fs. ¬ IsSteep fs) (argmax_abs (pair_sums deltas)) (λ e h. h)
      λ (place, climb) e.
        if_ind (λ fs. ¬ IsSteep fs)
          (ltb (sustained_incline_pct * window_mm * sustained_windows) (abs climb * 100))
          (λ o h. elim h [ inl l ↦ l | inr r ↦ r ]) (λ o h. h)

map-nil {ℓ κ} : {A : Type ℓ} {B : Type κ} (f : A → B) (xs : List A) → map f xs ≡ [] → xs ≡ []
map-nil f [] h = refl
map-nil f (x ∷ xs) h = cc

first-IsSteep :
    (first rest : List Finding)
    → IsSteep first
    → IsSteep (elim first [ f ∷ fs ↦ f ∷ fs | [] ↦ rest ])
first-IsSteep [] rest h = absurd h
first-IsSteep (f ∷ fs) rest h = h

rest-IsSteep :
    (first rest : List Finding)
    → first ≡ []
    → IsSteep (elim first [ f ∷ fs ↦ f ∷ fs | [] ↦ rest ])
    → IsSteep rest
rest-IsSteep [] rest e h = h
rest-IsSteep (f ∷ fs) rest e h = absurd cc

-- What the engine reports of a grid with enough points, from its steepest windows.
abbrev found_in : List LatLon → List ℕ → List ℕ → List ℤ → List Finding
found_in points cum grid deltas = elim (steep_findings points cum grid deltas) [
  | f ∷ fs ↦ f ∷ fs
  | [] ↦ sustained_findings points cum grid deltas
]

found_in-marked :
    (points : List LatLon) (cum grid : List ℕ) (heights : List ℤ)
    → IsSteep (found_in points cum grid (diffs heights))
      ↔ ((profile_of grid heights).steep_spans ≢ [])
unfolding profile_of
found_in-marked points cum grid heights =
    let runs = steep_runs-over 0 (diffs heights) in
    elim (steep_findings-over points cum grid (diffs heights)) [
      | inl (clear, e) ↦ (
        (λ h. absurd (
            sustained_findings-not-IsSteep points cum grid (diffs heights)
              (rest-IsSteep (steep_findings points cum grid (diffs heights)) _ clear h))),
        (λ h. absurd (let o = runs.0 (λ n. h (ap (map _) n)) in cc)),
      )
      | inr (s, e) ↦ (
        (λ h n. runs.1 e (map-nil _ _ n)),
        (λ h. first-IsSteep (steep_findings points cum grid (diffs heights)) _ s),
      )
    ]

-- A profile marks a stretch exactly when the engine reports a gradient above the limit over one window
-- of the same route; and where there is no profile, the engine reports no gradient at all.
pub build_profile_agrees :
    (dist : LatLon → LatLon → ℕ) (interp : List ℕ → List ℕ → List ℤ → List ℤ) (points : List LatLon)
    (elevations : Option (List ℤ))
    → (IsSteep (incline_findings dist interp points elevations)
        ↔ IsMarked (build_profile dist interp points elevations))
      × (build_profile dist interp points elevations ≡ none
          → incline_findings dist interp points elevations ≡ [])
unfolding build_profile incline_findings
build_profile_agrees dist interp points none = (((λ h. h), (λ h. h)), λ e. refl)
build_profile_agrees dist interp points (some elevations) =
    let cum = cumulative_distance_m dist points in
    let grid = grid_of (path_length_m dist points) in
    elim (Bool-cases (
      length elevations == 0
      || not (length elevations == length points)
      || ltb (length points) 3
      || ltb (length grid) 3)) [
        | inl e ↦ rw e (((λ h. h), (λ h. h)), λ n. refl)
        | inr e ↦ rw e (found_in-marked points cum grid (interp grid cum elevations), λ n. cc)
      ]
