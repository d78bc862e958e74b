-- ===== src/Routing/Choice.antt =====
-- Which candidate `route_scenic` (backend/routing.py) returns.
use mathlib.Core.Path.{subst}
use meander.Geometry.{LatLon}
use meander.Common.{
  All, All-imp, Among, Among-All, Among-self, Bool, Bool-cases, List, List-cases, Option,
  Option-cases, [], ap, arith, false, if_true, inl, inr, map, none, refl, some, sym, true, ℕ, ◌∙◌,
  ◌∷◌, ◌≡◌, ◌≢◌, ◌≤◌, ◌⊎◌,
}
use meander.Common.Sort.{keep, sort_by-first}
use meander.Routing.{EffectiveMode, RawRoute, RequestBody, Result, Server, ok}
use meander.Routing.Post.{Fetched}
use meander.Routing.Scenic.{
  Found, Scored, best_first, candidate, candidates_for, choose, choose_from, consider, consider_all,
  first_failure, merit, note_accepted, note_fallback, nothing_found, qualifies, route_scenic,
  search_all, settle, settled_routes,
}
use meander.Routing.Candidates.{
  All-map-keep, acceptable_nil, acceptable_of, cons_not_nil, consider_first, fallback_from,
  fallback_there, none_not_some,
}

module _ (greenness : RawRoute → ℕ) (minutes : ℕ) (is_loop : Bool)
    (baseline : Option RawRoute) where
  abbrev pub good : RawRoute → Bool
  good = qualifies greenness minutes is_loop baseline

  abbrev pub worth : RawRoute → ℕ
  worth = merit greenness minutes is_loop baseline

  abbrev scored : RawRoute → Scored
  scored r = (worth r, r)

  abbrev pub all_considered : List RawRoute → Found → Found
  all_considered = consider_all greenness minutes is_loop baseline

  choose_accepted :
      (found : Found) (best : Scored) (others : List Scored)
      → best_first found.acceptable ≡ best ∷ others
      → choose greenness minutes is_loop baseline found
        ≡ ok (note_accepted greenness minutes is_loop baseline best.1)
  unfolding choose choose_from
  choose_accepted found best others e =
      ap (λ sorted. choose_from greenness minutes is_loop baseline sorted found.fallback) e

  choose_fallback :
      (found : Found) (p : Scored)
      → best_first found.acceptable ≡ []
      → found.fallback ≡ some p
      → choose greenness minutes is_loop baseline found
        ≡ ok (note_fallback greenness minutes is_loop baseline p.1)
  unfolding choose choose_from
  choose_fallback found p e f =
      ap (λ sorted. choose_from greenness minutes is_loop baseline sorted found.fallback) e
      ∙ ap (choose_from greenness minutes is_loop baseline []) f

  -- The choice among candidates of which there is at least one.
  abbrev pub IsBest : List RawRoute → Result RawRoute → RawRoute → Type 0
  IsBest routes outcome c =
      Among c routes
      × (((outcome ≡ ok (note_accepted greenness minutes is_loop baseline c))
            × (good c ≡ true)
            × All (λ o. good o ≡ true → worth o ≤ worth c) routes)
          ⊎ ((outcome ≡ ok (note_fallback greenness minutes is_loop baseline c))
              × All (λ o. good o ≡ false) routes))

  abbrev pub found_among : List RawRoute → Found
  found_among routes = all_considered routes nothing_found

  abbrev pub chosen_among : List RawRoute → Result RawRoute
  chosen_among routes = choose greenness minutes is_loop baseline (found_among routes)

  acceptable_among :
      (routes : List RawRoute) → (found_among routes).acceptable ≡ map scored (keep good routes)
  acceptable_among routes = acceptable_of greenness minutes is_loop baseline routes nothing_found

  offered :
      (P : RawRoute → Type 0) (routes : List RawRoute)
      → All P routes
      → All (λ p. (p.0 ≡ worth p.1) × (good p.1 ≡ true) × P p.1) (map scored (keep good routes))
  unfolding keep
  offered P [] h = tt
  offered P (r ∷ routes) h = elim (Bool-cases (good r)) [
    | inl e ↦ rw e ((refl, e, h.0), offered P routes h.1)
    | inr e ↦ rw e (offered P routes h.1)
  ]

  IsBest-accepted :
      (routes : List RawRoute) (best : Scored) (others : List Scored)
      → best_first (found_among routes).acceptable ≡ best ∷ others
      → IsBest routes (chosen_among routes) best.1
  unfolding best_first
  IsBest-accepted routes best others e =
      let scores = (found_among routes).acceptable in
      let (m, top) = sort_by-first (λ (p : Scored). p.0) scores best others e in
      let (worthy, qualified, among) =
        Among-All (λ (p : Scored). (p.0 ≡ worth p.1) × (good p.1 ≡ true) × Among p.1 routes) best
          (map scored (keep good routes)) (subst (Among best) (acceptable_among routes) m)
          (offered (λ r. Among r routes) routes (Among-self routes)) in
      let top' =
        All-map-keep (λ (p : Scored). p.0 ≤ best.0) scored good routes
          (subst (All (λ (p : Scored). p.0 ≤ best.0)) (acceptable_among routes) top) in
      (
        among,
        inl (
          choose_accepted (found_among routes) best others e,
          qualified,
          All-imp (λ o. good o ≡ true → worth o ≤ best.0)
              (λ o. good o ≡ true → worth o ≤ worth best.1) routes
              (λ o f t. omega (arith, f t, worthy)) top',
        ),
      )

  none_good :
      (routes : List RawRoute)
      → map scored (keep good routes) ≡ []
      → All (λ o. good o ≡ false) routes
  unfolding keep
  none_good [] e = tt
  none_good (r ∷ routes) e = elim (Bool-cases (good r)) [
    | inl g ↦ absurd (cons_not_nil (rw g at e))
    | inr g ↦ (g, none_good routes (rw g at e))
  ]

  fallback_among :
      (r : RawRoute) (routes : List RawRoute)
      → good r ≡ false
      → (found_among (r ∷ routes)).fallback ≢ none
  unfolding consider_all
  fallback_among r routes h =
      fallback_there greenness minutes is_loop baseline routes
        (consider greenness minutes is_loop baseline r nothing_found)
        (consider_first greenness minutes is_loop baseline r h)

  IsBest-fallback :
      (r : RawRoute) (routes : List RawRoute)
      → best_first (found_among (r ∷ routes)).acceptable ≡ []
      → (c : RawRoute) × IsBest (r ∷ routes) (chosen_among (r ∷ routes)) c
  IsBest-fallback r routes e =
      let empty = acceptable_nil (found_among (r ∷ routes)).acceptable e in
      let bad = none_good (r ∷ routes) (sym (acceptable_among (r ∷ routes)) ∙ empty) in
      elim (Option-cases (found_among (r ∷ routes)).fallback) [
        | inl n ↦ absurd (fallback_among r routes bad.0 n)
        | inr (p, f) ↦ (
          p.1,
          (
            fallback_from greenness minutes is_loop baseline (λ c. Among c (r ∷ routes))
                (r ∷ routes) nothing_found (Among-self (r ∷ routes))
                (λ q h. absurd (none_not_some h)) p f,
            inr (choose_fallback (found_among (r ∷ routes)) p e f, bad),
          ),
        )
      ]

  pub choose-IsBest :
      (r : RawRoute) (routes : List RawRoute)
      → (c : RawRoute) × IsBest (r ∷ routes) (chosen_among (r ∷ routes)) c
  choose-IsBest r routes = elim (List-cases (best_first (found_among (r ∷ routes)).acceptable)) [
    | inl e ↦ IsBest-fallback r routes e
    | inr (best, others, e) ↦ (best.1, IsBest-accepted (r ∷ routes) best others e)
  ]

pub settle-IsBest :
    (greenness : RawRoute → ℕ) (minutes : ℕ) (is_loop : Bool) (baseline : Option RawRoute)
    (routes : List RawRoute) (failure : Result RawRoute)
    → routes ≢ []
    → (c : RawRoute) × IsBest greenness minutes is_loop baseline routes
        (settle greenness minutes is_loop baseline routes failure)
        c
unfolding settle
settle-IsBest greenness minutes is_loop baseline [] failure h = absurd (h refl)
settle-IsBest greenness minutes is_loop baseline (r ∷ routes) failure h =
    choose-IsBest greenness minutes is_loop baseline r routes

module _ (dist : LatLon → LatLon → ℕ) (server : Server) (fetch : RequestBody → Fetched)
    (greenness : RawRoute → ℕ) (origin : LatLon) (destination : Option LatLon) (minutes : ℕ)
    (mode : EffectiveMode) (baseline : Option RawRoute) where
  abbrev pub scenic_outcome : Result RawRoute
  scenic_outcome =
      (route_scenic dist server fetch greenness origin destination minutes mode baseline).1

  abbrev pub is_a_loop : Bool
  is_a_loop = elim destination [ none ↦ true | some d ↦ false ]

  -- The routes that the server has for the candidates of the search.
  abbrev pub offers : List RawRoute
  offers = settled_routes (
      map (candidate dist server fetch greenness origin destination minutes mode baseline)
        (candidates_for server destination))

  scenic_settled :
      server.self_hosted ≡ true
      → scenic_outcome
        ≡ settle greenness minutes is_a_loop baseline offers (
            first_failure (
              map
                (candidate dist server fetch greenness origin destination minutes mode baseline)
                (candidates_for server destination)))
  unfolding route_scenic search_all
  scenic_settled h =
      ap (λ (r : List RequestBody × Result RawRoute). r.1) (if_true server.self_hosted _ _ h)

  -- On a self-hosted server that has a route for some candidate, the search returns one of those
  -- routes: one of the greatest merit among the routes within the cap and greener than the fastest, or,
  -- where no route is both, one with the note of a fallback.
  pub scenic_choice :
      server.self_hosted ≡ true
      → offers ≢ []
      → (c : RawRoute) × IsBest greenness minutes is_a_loop baseline offers scenic_outcome c
  scenic_choice h some_offer =
      let (c, best) = settle-IsBest greenness minutes is_a_loop baseline offers _ some_offer in
      (
        c,
        subst (λ o. IsBest greenness minutes is_a_loop baseline offers o c) (sym (scenic_settled h))
            best,
      )
