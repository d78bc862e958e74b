-- ===== src/Routing/Scenic.antt =====
-- `_budget_fit` and `route_scenic` of backend/routing.py.
--
-- `fetch` is what the server answers to each body, and `greenness` the scenic score of a route in
-- ten-thousandths. A merit is in units of the request: with `budget` the minutes asked for in
-- milliseconds, 0.6 of the greenness and 0.4 of the fit over the common denominator 100000 * budget.
-- Beside its outcome every search returns the bodies that it sent, in order.
use meander.Geometry.{LatLon}
use meander.Common.{
  Bool, List, Option, [], false, if◌then◌else◌, leb, ltb, map, max, none, some, take, true, ℕ, ◌&&◌,
  ◌*◌, ◌++◌, ◌+◌, ◌-◌, ◌∷◌,
}
use meander.Common.Sort.{sort_by}
use meander.Routing.{
  EffectiveMode, RawRoute, RequestBody, Result, Server, accessible, crashed, fastest, no_greener,
  ok, over_budget, raised, scenic, set_note, shorter_than_asked, uncompared,
}
use meander.Routing.Body.{build_request_body, distance_influence_ladder}
use meander.Routing.Post.{Fetched, post_route}

abbrev pub budget_ms : ℕ → ℕ
budget_ms minutes = minutes * 60000

-- The distance between two numbers.
abbrev pub gap : ℕ → ℕ → ℕ
gap x y = (x - y) + (y - x)

-- `_budget_fit`, as a share of the budget: the budget less the gap, and 0 where the gap is larger.
unfoldable pub budget_fit : (duration : ℕ) → (minutes : ℕ) → ℕ
budget_fit duration minutes = budget_ms minutes - gap duration (budget_ms minutes)

-- SCENIC_LOOP_CANDIDATES: an influence and a scale in hundredths
abbrev pub scenic_loop_candidates : List (ℕ × ℕ)
scenic_loop_candidates = (20, 100) ∷ (20, 80) ∷ (20, 60) ∷ (20, 45) ∷ (45, 70) ∷ (90, 35) ∷ []

unfoldable pub candidates_for : Server → Option LatLon → List (ℕ × ℕ)
candidates_for server none =
    if server.self_hosted then scenic_loop_candidates else take 2 scenic_loop_candidates
candidates_for server (some destination) =
    map (λ influence. (influence, 100)) distance_influence_ladder

abbrev pub Scored : Type 0
Scored = ℕ × RawRoute

-- The candidates that clear both bars, and the least bad of the others.
pub record Found : Type 0 where
  pub acceptable : List Scored
  pub fallback : Option Scored

abbrev pub nothing_found : Found
nothing_found = record { acceptable = []; fallback = none }

-- The routes among the outcomes, and the first failure.
unfoldable pub settled_routes : List (Result RawRoute) → List RawRoute
settled_routes [] = []
settled_routes (ok route ∷ outcomes) = route ∷ settled_routes outcomes
settled_routes (raised e ∷ outcomes) = settled_routes outcomes
settled_routes (crashed ∷ outcomes) = settled_routes outcomes

unfoldable pub first_failure : List (Result RawRoute) → Result RawRoute
first_failure [] = crashed
first_failure (ok route ∷ outcomes) = first_failure outcomes
first_failure (raised e ∷ outcomes) = raised e
first_failure (crashed ∷ outcomes) = crashed

-- pairs.sort(key=lambda pair: pair[0], reverse=True)
unfoldable pub best_first : List Scored → List Scored
best_first scored = sort_by (λ x y. leb y.0 x.0) scored

module _ (greenness : RawRoute → ℕ) (minutes : ℕ) (is_loop : Bool)
    (baseline : Option RawRoute) where
  unfoldable pub merit : RawRoute → ℕ
  merit route =
      if is_loop
      then 6 * greenness route * max 1 (budget_ms minutes)
        + 40000 * budget_fit route.duration minutes
      else greenness route

  -- Inside SCENIC_DURATION_CAP times the fastest route's duration.
  unfoldable pub within_cap : RawRoute → Bool
  within_cap route = elim baseline [
    | none ↦ true
    | some f ↦ leb (route.duration * 10) (f.duration * 16)
  ]

  unfoldable pub is_greener : RawRoute → Bool
  is_greener route = elim baseline [ none ↦ true | some f ↦ ltb (greenness f) (greenness route) ]

  unfoldable pub qualifies : RawRoute → Bool
  qualifies route = within_cap route && is_greener route

  unfoldable pub is_better : RawRoute → Option Scored → Bool
  is_better route none = true
  is_better route (some (best, other)) = within_cap route && ltb best (merit route)

  -- The body of the loop over the candidates.
  unfoldable pub consider : RawRoute → Found → Found
  consider route found =
      if qualifies route
      then record {
        acceptable = found.acceptable ++ (merit route, route) ∷ [];
        fallback = found.fallback;
      }
      else record {
        acceptable = found.acceptable;
        fallback =
            if is_better route found.fallback then some (merit route, route) else found.fallback;
      }

  unfoldable pub consider_all : List RawRoute → Found → Found
  consider_all [] found = found
  consider_all (route ∷ routes) found = consider_all routes (consider route found)

  -- The note on a candidate that cleared both bars.
  unfoldable pub note_accepted : RawRoute → RawRoute
  note_accepted route =
      if is_loop && (ltb 0 minutes && ltb (route.duration * 10) (budget_ms minutes * 7))
      then set_note shorter_than_asked route
      else elim baseline [ none ↦ set_note uncompared route | some f ↦ route ]

  unfoldable pub note_fallback : RawRoute → RawRoute
  note_fallback route = set_note (if within_cap route then no_greener else over_budget) route

  -- The choice; `crashed` is the failed assertion that some candidate ran.
  unfoldable pub choose_from : (sorted : List Scored) → (fallback : Option Scored) → Result RawRoute
  choose_from (best ∷ others) fallback = ok (note_accepted best.1)
  choose_from [] (some best) = ok (note_fallback best.1)
  choose_from [] none = crashed

  unfoldable pub choose : Found → Result RawRoute
  choose found = choose_from (best_first found.acceptable) found.fallback

  -- The choice among the routes that came back; `failure` is raised where none did.
  unfoldable pub settle : List RawRoute → (failure : Result RawRoute) → Result RawRoute
  settle [] failure = failure
  settle (r ∷ routes) failure = choose (consider_all (r ∷ routes) nothing_found)

module _ (dist : LatLon → LatLon → ℕ) (server : Server) (fetch : RequestBody → Fetched) where
  unfoldable pub route_fastest :
      LatLon → Option LatLon → ℕ → EffectiveMode → List RequestBody × Result RawRoute
  route_fastest origin destination minutes mode =
      let body = build_request_body server origin destination minutes mode fastest none 100 in
      (body ∷ [], post_route dist server (fetch body) mode fastest)

  unfoldable pub route_accessible :
      LatLon → Option LatLon → ℕ → EffectiveMode → List RequestBody × Result RawRoute
  route_accessible origin destination minutes mode =
      let body = build_request_body server origin destination minutes mode accessible none 100 in
      (body ∷ [], post_route dist server (fetch body) mode accessible)

  module _ (greenness : RawRoute → ℕ) (origin : LatLon) (destination : Option LatLon) (minutes : ℕ)
      (mode : EffectiveMode) (baseline : Option RawRoute) where
    abbrev pub loop : Bool
    loop = elim destination [ none ↦ true | some d ↦ false ]

    unfoldable pub candidate_body : ℕ × ℕ → RequestBody
    candidate_body (influence, scale) =
        build_request_body server origin destination minutes mode scenic (some influence) scale

    unfoldable pub candidate : ℕ × ℕ → Result RawRoute
    candidate spec = post_route dist server (fetch (candidate_body spec)) mode scenic

    -- All the candidates at once, the failed ones left out.
    unfoldable pub search_all : List (ℕ × ℕ) → List RequestBody × Result RawRoute
    search_all specs =
        let outcomes = map candidate specs in
        (
          map candidate_body specs,
          settle greenness minutes loop baseline (settled_routes outcomes) (first_failure outcomes),
        )

    -- One candidate after the other, up to the first that qualifies or fails.
    unfoldable pub search_first : List (ℕ × ℕ) → Found → List RequestBody × Result RawRoute
    search_first [] found = ([], choose greenness minutes loop baseline found)
    search_first (spec ∷ specs) found = elim (candidate spec) [
      | raised e ↦ (candidate_body spec ∷ [], raised e)
      | crashed ↦ (candidate_body spec ∷ [], crashed)
      | ok route ↦
          let next = consider greenness minutes loop baseline route found in
          let (sent, outcome) = search_first specs next in
          if qualifies greenness minutes loop baseline route
          then (candidate_body spec ∷ [], choose greenness minutes loop baseline next)
          else (candidate_body spec ∷ sent, outcome)
    ]

    unfoldable pub route_scenic : List RequestBody × Result RawRoute
    route_scenic =
        if server.self_hosted
        then search_all (candidates_for server destination)
        else search_first (candidates_for server destination) nothing_found
