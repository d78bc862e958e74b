-- ===== src/Profile/Tests.antt =====
-- A profile at a concrete route, and the theorems about it there.
use meander.Common.Round.{round_div}
use meander.Profile.Agree.{IsMarked, IsSteep, build_profile_agrees}
use meander.Geometry.{LatLon, path_length_m}
use meander.Accessibility.Incline.{incline_findings}
use meander.Profile.Bounds.{IsDrawable, build_profile-IsDrawable}
use meander.Common.{List, [], length-map, map, none, refl, some, ℕ, ◌*◌, ◌-◌, ◌↔◌, ◌∷◌, ◌≡◌}
use meander.Common.Int.{pos, pos_part, ℤ}
use meander.Profile.{ElevationProfile, build_profile}

-- Points 20 m apart on one meridian, whose `lat` counts the steps.
abbrev steps_apart : LatLon → LatLon → ℕ
steps_apart p q = (pos_part q.lat - pos_part p.lat) * 20000

abbrev at_step : ℕ → LatLon
at_step n = record { lat = pos n; lon = pos 0 }

abbrev line : List LatLon
line = at_step 0 ∷ at_step 1 ∷ at_step 2 ∷ at_step 3 ∷ []

-- The vertices are the grid.
abbrev at_vertices : List ℕ → List ℕ → List ℤ → List ℤ
at_vertices grid cum heights = heights

-- A height for each place of the grid, whatever the vertices.
abbrev level : List ℕ → List ℕ → List ℤ → List ℤ
level grid cum heights = map (λ d. pos 0) grid

-- 1 m and 3 m up, then 2 m down.
abbrev heights : List ℤ
heights = pos 0 ∷ pos 1000 ∷ pos 4000 ∷ pos 2000 ∷ []

drawn :
    build_profile steps_apart at_vertices line (some heights)
    ≡ some (record {
      distances_m = 0 ∷ 200 ∷ 400 ∷ 600 ∷ [];
      elevations_m = pos 0 ∷ pos 10 ∷ pos 40 ∷ pos 20 ∷ [];
      ascent_m = 40;
      descent_m = 20;
      max_gradient_pct = 150;
      steep_spans = (1, 4) ∷ [];
      limit_pct = 8;
    })
unfolding build_profile round_div
drawn = refl

build_profile_agrees_example :
    (IsSteep (incline_findings steps_apart at_vertices line (some heights))
      ↔ IsMarked (build_profile steps_apart at_vertices line (some heights)))
    × (build_profile steps_apart at_vertices line (some heights) ≡ none
        → incline_findings steps_apart at_vertices line (some heights) ≡ [])
build_profile_agrees_example = build_profile_agrees steps_apart at_vertices line (some heights)

level_profile : ElevationProfile
level_profile = record {
  distances_m = 0 ∷ 200 ∷ 400 ∷ 600 ∷ [];
  elevations_m = pos 0 ∷ pos 0 ∷ pos 0 ∷ pos 0 ∷ [];
  ascent_m = 0;
  descent_m = 0;
  max_gradient_pct = 0;
  steep_spans = [];
  limit_pct = 8;
}

built : build_profile steps_apart level line (some heights) ≡ some level_profile
unfolding build_profile level_profile round_div
built = refl

build_profile-IsDrawable_example : IsDrawable 60000 level_profile
unfolding path_length_m
build_profile-IsDrawable_example =
    build_profile-IsDrawable steps_apart level (λ grid cum hs. length-map (λ d. pos 0) grid) line
      (some heights) built
