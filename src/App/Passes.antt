-- ===== src/App/Passes.antt =====
-- backend/main.py: the two passes of `route_events` over what was routed, and the answer at their end.
use meander.Common.{
  Bool, List, Option, [], false, if◌then◌else◌, leb, ltb, map, none, not, some, true, ℕ, ◌&&◌, ◌*◌,
  ◌++◌, ◌||◌, ◌∷◌,
}
use meander.Common.Sort.{keep, sort_by}
use meander.Common.Text.{Text}
use meander.Routing.{Preset, RawRoute, fastest}
use meander.App.Request.{RouteRequest, budget_minutes, has}
use meander.App.Wire.{Assessment, Measured, Route, RouteStatus, blocked, usable}
use meander.App.Scored.{assess, reassess_with_barriers, scored_route}
use meander.App.Events.{
  Attempt, Context, Event, Payload, Reason, Run, Services, Tried, baseline, best_failure, departing,
  done, every_route_blocked, go, index, longer_than_budget, objectives, ordered, others, outside,
  progress, route, stop, try_fastest, try_others, uncovered, unexpected,
}

abbrev pub is_usable : RouteStatus → Bool
is_usable usable = true
is_usable blocked = false

abbrev pub is_nil {ℓ} : {A : Type ℓ} → List A → Bool
is_nil [] = true
is_nil (x ∷ xs) = false

abbrev pub unmeasured : Measured
unmeasured = record { air = none; shade_need = none }

module _ {E R : Type 0} where
  unfoldable pub any_usable : List (Route E R) → Bool
  any_usable [] = false
  any_usable (x ∷ xs) = is_usable x.status || any_usable xs

  unfoldable pub usable_routes : List (Route E R) → List (Route E R)
  usable_routes routes = keep (λ x. is_usable x.status) routes

  -- Every duration exceeds the budget. Durations are tenths of a minute.
  unfoldable pub all_longer : ℕ → List (Route E R) → Bool
  all_longer limit [] = true
  all_longer limit (x ∷ xs) = ltb (10 * limit) x.duration_min && all_longer limit xs

  unfoldable pub blocked_reason : List (Route E R) → Option Reason
  blocked_reason routes =
      if not (is_nil routes) && is_nil (usable_routes routes)
      then some every_route_blocked
      else none

  -- The sentence over the whole answer.
  unfoldable pub reason_for : Option ℕ → List (Route E R) → Option Reason
  reason_for none routes = blocked_reason routes
  reason_for (some limit) routes =
      if not (is_nil (usable_routes routes)) && all_longer limit (usable_routes routes)
      then some (longer_than_budget limit)
      else blocked_reason routes

  unfoldable pub set_narration : Option Text → Route E R → Route E R
  set_narration text x = record {
    id = x.id;
    status = x.status;
    geometry = x.geometry;
    duration_min = x.duration_min;
    distance_m = x.distance_m;
    mode = x.mode;
    scores = x.scores;
    scoring_method = x.scoring_method;
    confidence = x.confidence;
    blockers = x.blockers;
    elevation = x.elevation;
    rest_stops = x.rest_stops;
    steps = x.steps;
    synthetic_upstream = x.synthetic_upstream;
    confidence_note = x.confidence_note;
    status_note = x.status_note;
    enrichment_pending = x.enrichment_pending;
    narration = text;
  }

  abbrev pub is_narrated : Route E R → Bool
  is_narrated x = elim x.narration [ none ↦ false | some text ↦ true ]

  -- A blocked route that has no shape of its own.
  abbrev pub is_unrouted : Route E R → Bool
  is_unrouted x = not (is_usable x.status) && is_nil x.geometry

-- reason or (context.departure.reason if context.departure else None)
unfoldable pub or_departure : Option (ℕ × Text) → Option Reason → Option Reason
or_departure departure (some reason) = some reason
or_departure none none = none
or_departure (some (at, text)) none = some (departing text)

abbrev pub when_of : Option (ℕ × Text) → Option ℕ
when_of none = none
when_of (some (at, text)) = some at

module _ {E R N : Type 0} (services : Services E R N) (r : RouteRequest) where
  open services use {
    stages, enrich, rest_stops, barrier_spans, narrate, segment_count, hit_rate, routable_extent,
    region_boxes,
  }

  -- A route as soon as it exists, before anything is known of its surroundings.
  unfoldable pub first_route : Preset × RawRoute → Route E R
  first_route (o, raw) = scored_route o raw none unmeasured (assess stages raw) true

  unfoldable pub stops_for : RawRoute → Option N → Option (List R)
  stops_for raw none = none
  stops_for raw (some nodes) = some (rest_stops raw nodes)

  -- Without an answer about barriers the first assessment stands.
  unfoldable pub assessed_with : RawRoute → Option N → Assessment E
  assessed_with raw none = assess stages raw
  assessed_with raw (some nodes) =
      reassess_with_barriers stages (assess stages raw) raw (barrier_spans raw nodes)

  unfoldable pub second_route : Context N → Preset × RawRoute → Route E R
  second_route c (o, raw) =
      scored_route o raw (stops_for raw c.rest_stop_nodes) c.measured
        (assessed_with raw c.barrier_nodes) false

  unfoldable pub context_for : List (Preset × RawRoute) → Context N
  context_for [] = record {
    rest_stop_nodes = none;
    barrier_nodes = none;
    measured = unmeasured;
    departure = none;
  }
  context_for (x ∷ xs) = enrich (map (λ e. e.1) (x ∷ xs)) r.depart_at

  -- Narration may fail for a route, and then the route goes without.
  unfoldable pub narrated : List (Route E R) → List (Route E R)
  narrated routes = map (λ x. set_narration (narrate x.id) x) routes

  unfoldable pub payload_of : ℕ → Context N → List (Route E R) → Payload E R
  payload_of scored c routes =
      let final =
        sort_by
          (λ a b. leb (index (objectives services r) a.id) (index (objectives services r) b.id))
          routes in
      record {
        routes = final;
        best_departure = when_of c.departure;
        reason = or_departure c.departure (reason_for (budget_minutes r) final);
        segments_scored = scored;
        hit_rate = hit_rate;
      }

  abbrev pub in_order : List (Preset × RawRoute) → List (Preset × RawRoute)
  in_order routed =
      let place : Preset × RawRoute → ℕ = λ e. index (ordered (objectives services r)) e.0 in
      sort_by (λ a b. leb (place a) (place b)) routed

  unfoldable pub second_pass : Tried E R → List (Route E R)
  second_pass t = map (second_route (context_for (in_order t.routed))) (in_order t.routed)

  unfoldable pub final_routes : Tried E R → List (Route E R)
  final_routes t = narrated (t.routes ++ second_pass t)

  abbrev pub after : List (Event E R) → Run E R → Run E R
  after events run = (events ++ run.0, run.1)

  -- The events of the two passes.
  unfoldable pub told : Tried E R → List (Event E R)
  told t =
      map (λ e. route (first_route e)) (in_order t.routed)
      ++ (map route (keep is_unrouted t.routes)
          ++ (progress 60 ∷ map route (second_pass t)
              ++ progress 90 ∷ map route (keep is_narrated (final_routes t))))

  -- The end: the scored segments are counted for it, which may raise when all the routes are told.
  unfoldable pub closing : Tried E R → Run E R
  closing t = elim segment_count [
    | none ↦ ([], some unexpected)
    | some scored ↦ (
      done false (payload_of scored (context_for (in_order t.routed)) (final_routes t)) ∷ [],
      none,
    )
  ]

  -- The events from the first pass on.
  unfoldable pub passes : Tried E R → Run E R
  passes t = after (told t) (closing t)

  -- Nothing routed is a failure; routes that are all blocked are an answer.
  unfoldable pub settle : Attempt E R → Run E R
  settle (stop f) = ([], some f)
  settle (go t) =
      if is_nil t.routed && not (any_usable t.routes)
      then ([], some (best_failure routable_extent region_boxes r.origin t.failures))
      else passes t

  unfoldable pub then_others : Attempt E R → Run E R
  then_others (stop f) = ([], some f)
  then_others (go t) =
      after (if is_nil (others services r) then [] else progress 35 ∷ [])
        (settle (try_others services r (others services r) (go t)))

  unfoldable pub run_presets : Attempt E R → Run E R
  run_presets (stop f) = ([], some f)
  run_presets (go t) =
      after (if has fastest (objectives services r) then progress 15 ∷ [] else [])
        (then_others (try_fastest services r t))

  unfoldable pub route_events : Run E R
  route_events = after (progress 5 ∷ []) (elim (uncovered services r) [
    | some extent ↦ ([], some (outside extent))
    | none ↦ run_presets (baseline services r)
  ])
