-- ===== src/Routing/Requests.antt =====
-- What backend/routing.py sends: when flexible mode is asked for, and how many requests a search costs.
use meander.Accessibility.{
  Verdict, assess_road_class, assess_smoothness, assess_surface, fail, is_among, is_unknown,
  normalise,
}
use meander.Common.Text.{codes, is_space, lstrip, member, replace_char, strip, text_eq, upper}
use meander.Geometry.{LatLon}
use meander.Common.{
  All, Bool-cases, List, Option, String, [], arith, false, if_ind, inl, inr, length, length-map,
  none, some, suc, true, ℕ, ◌↔◌, ◌∷◌, ◌≡◌, ◌≢◌, ◌≤◌, ◌⊎◌,
}
use meander.Routing.{
  EffectiveMode, EncodedValue, Preset, RawRoute, RequestBody, Result, Result_ind, Server, fastest,
  road_class, road_environment, smoothness, surface,
}
use meander.Routing.Body.{build_request_body, is_there, loop_of, model_for}
use meander.Routing.Post.{Fetched}
use meander.Routing.Scenic.{
  Found, candidate, candidate_body, candidates_for, consider, loop, nothing_found, qualifies,
  route_scenic, search_all, search_first,
}
use meander.Common.Dict.{elem}
use meander.Routing.Models.{accessible_custom_model, smoothness_rules}

-- Flexible mode is asked for exactly when the preset is another than `fastest` or the request is a
-- loop on a server that is self-hosted.
pub flexible_when_needed :
    (server : Server) (origin : LatLon) (destination : Option LatLon) (minutes : ℕ)
    (mode : EffectiveMode) (preset : Preset) (influence : Option ℕ) (scale : ℕ)
    → ((build_request_body server origin destination minutes mode preset influence scale).ch_disable
        ≡ true)
      ↔ ((preset ≢ fastest) ⊎ ((destination ≡ none) × (server.self_hosted ≡ true)))
unfolding build_request_body model_for is_there loop_of
flexible_when_needed server origin destination minutes mode preset influence scale = ground arith

candidates_for_bound :
    (server : Server) (destination : Option LatLon)
    → (length (candidates_for server destination) ≤ 6)
      × (server.self_hosted ≡ false → length (candidates_for server destination) ≤ 3)
      × (server.self_hosted ≡ false
          → destination ≡ none
          → length (candidates_for server destination) ≤ 2)
unfolding candidates_for
candidates_for_bound server none = ground arith
candidates_for_bound server (some destination) = ground arith

module _ (dist : LatLon → LatLon → ℕ) (server : Server) (fetch : RequestBody → Fetched) where
  module _ (greenness : RawRoute → ℕ) (origin : LatLon) (destination : Option LatLon) (minutes : ℕ)
      (mode : EffectiveMode) (baseline : Option RawRoute) where
    search_all_cost :
        (specs : List (ℕ × ℕ))
        → length
            (search_all dist server fetch greenness origin destination minutes mode baseline
              specs).0
          ≡ length specs
    unfolding search_all
    search_all_cost specs =
        length-map
          (candidate_body dist server fetch greenness origin destination minutes mode baseline)
          specs

    search_first_cost :
        (specs : List (ℕ × ℕ)) (found : Found)
        → length
            (search_first dist server fetch greenness origin destination minutes mode baseline specs
              found).0
          ≤ length specs
    unfolding search_first
    search_first_cost [] found = omega arith
    search_first_cost (spec ∷ specs) found =
        let rest = search_first_cost specs in
        Result_ind (λ (p : List RequestBody × Result RawRoute). length p.0 ≤ suc (length specs))
          (candidate dist server fetch greenness origin destination minutes mode baseline spec)
          (λ route e.
            let next =
              consider greenness minutes
                (loop dist server fetch greenness origin destination minutes mode baseline) baseline
                route found in
            if_ind (λ (p : List RequestBody × Result RawRoute). length p.0 ≤ suc (length specs))
              (qualifies greenness minutes
                (loop dist server fetch greenness origin destination minutes mode baseline) baseline
                route)
              (λ h. omega arith) (λ h. omega (arith, rest next)))
          (λ error e. omega arith) (λ e. omega arith)

    -- A scenic search costs at most six requests, and on a metered server at most three: at most two for a
    -- loop.
    pub scenic_cost :
        (length
            (route_scenic dist server fetch greenness origin destination minutes mode baseline).0
          ≤ 6)
        × (server.self_hosted ≡ false
            → length
                (route_scenic dist server fetch greenness origin destination minutes mode
                  baseline).0
              ≤ 3)
        × (server.self_hosted ≡ false
            → destination ≡ none
            → length
                (route_scenic dist server fetch greenness origin destination minutes mode
                  baseline).0
              ≤ 2)
    unfolding route_scenic
    scenic_cost =
        let cost = search_first_cost (candidates_for server destination) nothing_found in
        let sent = search_all_cost (candidates_for server destination) in
        ground (arith, candidates_for_bound server destination)

-- A rule that keeps the router off a way, by a surface or a smoothness value or by its being steps,
-- and the verdict on that value; the assessment never looks at the road's environment.
abbrev pub verdict_on : EncodedValue → String → Option Verdict
verdict_on surface value = some (assess_surface (some (codes value)))
verdict_on smoothness value = some (assess_smoothness (some (codes value)))
verdict_on road_class value = some (assess_road_class (some (codes value)))
verdict_on road_environment value = none

-- A value that the assessment fails, or a ferry.
abbrev pub IsFailedOrFerry : EncodedValue → String → Type 0
IsFailedOrFerry field value =
    (verdict_on field value ≡ some fail) ⊎ ((field ≡ road_environment) × (value ≡ "FERRY"))

-- Whatever the path details in use, every value that the accessible preset keeps the router off is a
-- surface, a smoothness or a class of way that the assessment of a route fails; or it is a ferry, which
-- the assessment does not look at.
pub refused_ways_fail :
    (path_details : List String)
    → All
        (λ r. r.multiply_by ≡ 0 → All (λ v. IsFailedOrFerry r.field v) r.values)
        (accessible_custom_model path_details none).priority
unfolding accessible_custom_model smoothness_rules assess_surface assess_smoothness
    assess_road_class is_unknown is_among normalise member text_eq strip lstrip is_space upper
    replace_char
refused_ways_fail path_details = elim (Bool-cases (elem "smoothness" path_details)) [
  | inl e ↦ rw e (ground arith)
  | inr e ↦ rw e (ground arith)
]
