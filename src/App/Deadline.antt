-- ===== src/App/Deadline.antt =====
-- backend/main.py: `route_events_with_deadline`, which gives what there is when the time is up.
--
-- Producing the event number `k` of a run, or its end, takes `cost k`. An event that takes exactly what
-- remains still arrives.
use meander.Common.{
  Bool, List, Option, [], if◌then◌else◌, ltb, none, not, some, suc, true, ℕ, ◌-◌, ◌==◌, ◌||◌, ◌∷◌,
}
use meander.Common.Sort.{keep}
use meander.App.Request.{same_preset}
use meander.App.Wire.{Route}
use meander.App.Events.{Event, Failure, Payload, Run, cut_short, done, route, timeout}
use meander.App.Passes.{is_nil}

-- The time is up before an event that costs `cost`.
abbrev pub is_late : ℕ → ℕ → Bool
is_late remaining cost = (remaining == 0) || ltb remaining cost

module _ {E R : Type 0} where
  -- partial[route["id"]] = route
  unfoldable pub merge : Route E R → List (Route E R) → List (Route E R)
  merge x [] = x ∷ []
  merge x (y ∷ ys) = let rest = merge x ys in if same_preset x.id y.id then x ∷ ys else y ∷ rest

  unfoldable pub note_route : Event E R → List (Route E R) → List (Route E R)
  note_route (route x) partial = merge x partial
  note_route _ partial = partial

  abbrev pub has_shape : Route E R → Bool
  has_shape x = not (is_nil x.geometry)

  -- The answer of what was ready.
  abbrev pub partial_payload : ℕ → List (Route E R) → Payload E R
  partial_payload hit_rate ready = record {
    routes = ready;
    best_departure = none;
    reason = some cut_short;
    segments_scored = 0;
    hit_rate = hit_rate;
  }

  unfoldable pub last_event : ℕ → List (Route E R) → Event E R
  last_event hit_rate [] = timeout
  last_event hit_rate (x ∷ xs) = done true (partial_payload hit_rate (x ∷ xs))

  unfoldable pub cut_off : ℕ → List (Route E R) → Run E R
  cut_off hit_rate partial = (last_event hit_rate (keep has_shape partial) ∷ [], none)

  module _ (hit_rate : ℕ) (cost : ℕ → ℕ) where
    unfoldable pub deadline_from :
        ℕ → ℕ → List (Route E R) → List (Event E R) → Option Failure → Run E R
    deadline_from k remaining partial [] f =
        if is_late remaining (cost k) then cut_off hit_rate partial else ([], f)
    deadline_from k remaining partial (e ∷ es) f =
        let rest = deadline_from (suc k) (remaining - cost k) (note_route e partial) es f in
        if is_late remaining (cost k) then cut_off hit_rate partial else (e ∷ rest.0, rest.1)

    unfoldable pub route_events_with_deadline : ℕ → Run E R → Run E R
    route_events_with_deadline deadline (events, f) = deadline_from 0 deadline [] events f
