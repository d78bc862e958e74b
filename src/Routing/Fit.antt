-- ===== src/Routing/Fit.antt =====
-- Which loop `_route_preference` (backend/routing.py) returns, and what its note says of the time.
use meander.Geometry.{LatLon}
use meander.Common.{All, Among, List, arith, map, none, ℕ, ◌*◌, ◌<◌, ◌≡◌, ◌≤◌, ◌⊎◌}
use meander.Routing.{
  EffectiveMode, Preset, PresetNote, RawRoute, RequestBody, Result, Server, inferred,
  inferred_over_budget, inferred_under_budget, ok, set_note,
}
use meander.Routing.Scenic.{budget_fit, budget_ms, gap, settled_routes}
use meander.Routing.Preference.{loop_candidate, note_for, preference_loop_scales, route_preference}
use meander.Routing.Post.{Fetched}

-- The fit is better the nearer a duration is to the budget.
pub budget_fit_nearer :
    (minutes d e : ℕ)
    → gap d (budget_ms minutes) ≤ gap e (budget_ms minutes)
    → budget_fit e minutes ≤ budget_fit d minutes
unfolding budget_fit
budget_fit_nearer minutes d e h = omega arith

module _ (minutes : ℕ) where
  abbrev fit : RawRoute → ℕ
  fit r = budget_fit r.duration minutes

  -- The note on a loop: over the budget by more than 35 %, short of it by more than 30 %, or neither.
  abbrev pub IsNoted : Preset → RawRoute → PresetNote → Type 0
  IsNoted preset c note =
      ((note ≡ inferred_over_budget preset)
        × (0 < minutes)
        × (budget_ms minutes * 135 < c.duration * 100))
      ⊎ ((note ≡ inferred_under_budget preset)
          × (0 < minutes)
          × (c.duration * 10 < budget_ms minutes * 7))
      ⊎ ((note ≡ inferred preset)
          × ((minutes ≡ 0)
              ⊎ ((c.duration * 100 ≤ budget_ms minutes * 135)
                  × (budget_ms minutes * 7 ≤ c.duration * 10))))

  abbrev pub IsNearest : Preset → List RawRoute → Result RawRoute → RawRoute → Type 0
  IsNearest preset routes outcome c =
      Among c routes
      × All (λ o. budget_fit o.duration minutes ≤ budget_fit c.duration minutes) routes
      × (outcome ≡ ok (set_note (note_for preset minutes c) c))
      × IsNoted preset c (note_for preset minutes c)

module _ (dist : LatLon → LatLon → ℕ) (server : Server) (fetch : RequestBody → Fetched)
    (preset : Preset) (origin : LatLon) (minutes : ℕ) (mode : EffectiveMode) where
  abbrev pub fit_outcome : Result RawRoute
  fit_outcome = (route_preference dist server fetch preset origin minutes mode none).1

  -- The loops that the server has for the scales of the search.
  abbrev pub loop_offers : List RawRoute
  loop_offers =
      settled_routes
        (map (loop_candidate dist server fetch preset origin minutes mode) preference_loop_scales)
