-- ===== src/Routing/Preference.antt =====
-- `_route_preference` of backend/routing.py, and the presets that are made of it.
use meander.Geometry.{LatLon}
use meander.Common.{
  Bool, List, Option, [], if◌then◌else◌, ltb, map, none, some, take, ℕ, ◌&&◌, ◌*◌, ◌++◌, ◌∷◌,
}
use meander.Routing.{
  EffectiveMode, Preset, PresetNote, RawRoute, RequestBody, Result, Server, crashed, inferred,
  inferred_over_budget, inferred_under_budget, ok, raised, set_note,
}
use meander.Routing.Body.{build_request_body}
use meander.Routing.Post.{Fetched, post_route}
use meander.Routing.Scenic.{
  Scored, best_first, budget_fit, budget_ms, first_failure, settled_routes,
}

-- PREFERENCE_LOOP_SCALES, in hundredths
abbrev pub preference_loop_scales : List ℕ
preference_loop_scales = 100 ∷ 70 ∷ 45 ∷ []

-- duration > minutes * PREFERENCE_BUDGET_OVERSHOOT
unfoldable pub is_over : ℕ → RawRoute → Bool
is_over minutes route = ltb (budget_ms minutes * 135) (route.duration * 100)

-- duration < minutes * SCENIC_BUDGET_UNDERSHOOT
unfoldable pub is_under : ℕ → RawRoute → Bool
is_under minutes route = ltb (route.duration * 10) (budget_ms minutes * 7)

unfoldable pub note_for : Preset → ℕ → RawRoute → PresetNote
unfolding is_over is_under
note_for preset minutes route =
    if ltb 0 minutes && is_over minutes route
    then inferred_over_budget preset
    else if ltb 0 minutes && is_under minutes route
    then inferred_under_budget preset
    else inferred preset

unfoldable pub score_fit : ℕ → RawRoute → Scored
unfolding budget_fit
score_fit minutes route = (budget_fit route.duration minutes, route)

-- scored.sort(…); chosen = scored[0][1]; `crashed` is the IndexError of an empty list
unfoldable pub pick_from : Preset → ℕ → (sorted : List Scored) → Result RawRoute
pick_from preset minutes [] = crashed
pick_from preset minutes (best ∷ others) = ok (set_note (note_for preset minutes best.1) best.1)

unfoldable pub pick_fit : Preset → ℕ → List Scored → Result RawRoute
pick_fit preset minutes scored = pick_from preset minutes (best_first scored)

-- The choice among the routes that came back; `failure` is raised where none did.
unfoldable pub settle_fit :
    Preset → ℕ → List RawRoute → (failure : Result RawRoute) → Result RawRoute
settle_fit preset minutes [] failure = failure
settle_fit preset minutes (r ∷ routes) failure =
    pick_fit preset minutes (map (score_fit minutes) (r ∷ routes))

module _ (dist : LatLon → LatLon → ℕ) (server : Server) (fetch : RequestBody → Fetched)
    (preset : Preset) (origin : LatLon) (minutes : ℕ) (mode : EffectiveMode) where
  unfoldable pub loop_body : ℕ → RequestBody
  loop_body scale = build_request_body server origin none minutes mode preset none scale

  unfoldable pub loop_candidate : ℕ → Result RawRoute
  loop_candidate scale = post_route dist server (fetch (loop_body scale)) mode preset

  unfoldable pub fit_all : List ℕ → List RequestBody × Result RawRoute
  fit_all scales =
      let outcomes = map loop_candidate scales in
      (
        map loop_body scales,
        settle_fit preset minutes (settled_routes outcomes) (first_failure outcomes),
      )

  -- Up to the first that is not over the budget, or that fails.
  unfoldable pub fit_first : List ℕ → List Scored → List RequestBody × Result RawRoute
  fit_first [] scored = ([], pick_fit preset minutes scored)
  fit_first (scale ∷ scales) scored = elim (loop_candidate scale) [
    | raised e ↦ (loop_body scale ∷ [], raised e)
    | crashed ↦ (loop_body scale ∷ [], crashed)
    | ok route ↦
        let next = scored ++ score_fit minutes route ∷ [] in
        let (sent, outcome) = fit_first scales next in
        if is_over minutes route
        then (loop_body scale ∷ sent, outcome)
        else (loop_body scale ∷ [], pick_fit preset minutes next)
  ]

  -- A trip to a destination is one request.
  unfoldable pub route_direct : LatLon → List RequestBody × Result RawRoute
  route_direct destination =
      let body = build_request_body server origin (some destination) minutes mode preset none 100 in
      (
        body ∷ [],
        elim (post_route dist server (fetch body) mode preset) [
          | ok route ↦ ok (set_note (inferred preset) route)
          | raised e ↦ raised e
          | crashed ↦ crashed
        ],
      )

  unfoldable pub route_preference : Option LatLon → List RequestBody × Result RawRoute
  route_preference (some destination) = route_direct destination
  route_preference none =
      if server.self_hosted
      then fit_all preference_loop_scales
      else fit_first (take 2 preference_loop_scales) []
