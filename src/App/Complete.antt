-- ===== src/App/Complete.antt =====
-- How a run of `route_events` (backend/main.py) ends.
use mathlib.Core.List.{append_assoc}
use meander.Common.{
  All, All-append, All-imp, Bool, List, Option_ind, [], ap, arith, false, if_ind, if◌then◌else◌,
  inl, inr, leb, map, none, not, refl, some, sym, ℕ, ◌&&◌, ◌++◌, ◌+◌, ◌∙◌, ◌∷◌, ◌≡◌, ◌⊎◌,
}
use meander.Common.Sort.{
  IsAscending, count_if, count_if-append, count_if-map, count_if-sort_by, keep, sort_by-IsAscending,
}
use meander.Routing.{Preset, RawRoute, fastest}
use meander.App.Request.{RouteRequest, has, same_preset}
use meander.App.Wire.{Route}
use meander.App.Events.{
  Attempt, Event, Payload, Run, Services, Tried, baseline, done, go, index, objectives, ordered,
  others, progress, route, stop, timeout, try_fastest, try_others, uncovered, unexpected,
}
use meander.App.Passes.{
  after, any_usable, closing, context_for, final_routes, first_route, in_order, is_narrated, is_nil,
  is_unrouted, narrated, passes, payload_of, route_events, run_presets, second_pass, second_route,
  set_narration, settle, then_others, told,
}
use meander.App.Answer.{
  Holds, Holds-eq, IsUnique, asked, asked-others, baseline-Holds, tally, try_fastest-Holds,
  try_others-Holds,
}
use meander.App.Scored.{scored_route}

abbrev pub IsProgress : {E R : Type 0} → Event E R → Type 0
IsProgress (progress n) = Unit
IsProgress _ = ⊥

abbrev pub IsNews : {E R : Type 0} → Event E R → Type 0
IsNews (progress n) = Unit
IsNews (route x) = Unit
IsNews _ = ⊥

pub IsProgress-IsNews : {E R : Type 0} (e : Event E R) → IsProgress e → IsNews e
IsProgress-IsNews (progress n) h = tt
IsProgress-IsNews (route x) h = absurd h
IsProgress-IsNews (done b p) h = absurd h
IsProgress-IsNews timeout h = absurd h

module _ {E R : Type 0} where
  -- Events that end with their one `done`.
  abbrev pub EndsIn : Payload E R → List (Event E R) → Type 0
  EndsIn p events =
      (front : List (Event E R)) × (events ≡ front ++ done false p ∷ []) × All IsNews front

  EndsIn-append :
      (p : Payload E R) (before events : List (Event E R))
      → All IsNews before
      → EndsIn p events
      → EndsIn p (before ++ events)
  EndsIn-append p before events h (front, e, rest) = (
    before ++ front,
    ap (before ++◌) e ∙ sym (append_assoc before front (done false p ∷ [])),
    All-append IsNews before front h rest,
  )

  All-map-route : (routes : List (Route E R)) → All IsNews (map route routes)
  All-map-route [] = tt
  All-map-route (x ∷ xs) = (tt, All-map-route xs)

module _ {E R N : Type 0} (services : Services E R N) (r : RouteRequest) where
  -- The routes are those asked for, each once, in the order asked.
  abbrev pub IsComplete : Payload E R → Type 0
  IsComplete p =
      ((o : Preset) → count_if (λ x. same_preset o x.id) p.routes ≡ asked o (objectives services r))
      × IsAscending (λ x. index (objectives services r) x.id) p.routes

  -- A run that raises has told of its progress only, unless it is the count of the scored segments that
  -- raised at its end; any other ends with its one `done` event, which is not partial.
  abbrev pub IsAnswered : Run E R → Type 0
  IsAnswered (events, some f) =
      All IsProgress events
      ⊎ ((services.segment_count ≡ none) × (f ≡ unexpected) × All IsNews events)
  IsAnswered (events, none) =
      (front : List (Event E R)) × (p : Payload E R) × (events ≡ front ++ done false p ∷ [])
      × All IsNews front
      × IsComplete p

  abbrev end_of : ℕ → Tried E R → Payload E R
  end_of scored t =
      payload_of services r scored (context_for services r (in_order services r t.routed))
        (final_routes services r t)

  All-told : (t : Tried E R) → All IsNews (told services r t)
  unfolding told
  All-told t = All-append IsNews _ _ (All-map-first (in_order services r t.routed)) (
      All-append IsNews _ _ (All-map-route (keep is_unrouted t.routes)) (
        tt,
        All-append IsNews _ _ (All-map-route (second_pass services r t))
            (tt, All-map-route (keep is_narrated (final_routes services r t))),
      ))
    where
      All-map-first :
          (routed : List (Preset × RawRoute))
          → All IsNews (map (λ e. route (first_route services r e)) routed)
      All-map-first [] = tt
      All-map-first (x ∷ xs) = (tt, All-map-first xs)

  end_of-IsComplete :
      (scored : ℕ) (t : Tried E R)
      → ((o : Preset) → tally services r o t ≡ asked o (objectives services r))
      → IsComplete (end_of scored t)
  unfolding payload_of final_routes narrated second_pass set_narration second_route scored_route
  end_of-IsComplete scored t h = (
    λ o.
        let p : Route E R → Bool = λ x. same_preset o x.id in
        let c = context_for services r (in_order services r t.routed) in
        let second = map (second_route services r c) (in_order services r t.routed) in
        omega (
          arith,
          h o,
          count_if-sort_by
              (λ a b. leb (index (objectives services r) a.id) (index (objectives services r) b.id))
              p (map (λ x. set_narration (services.narrate x.id) x) (t.routes ++ second)),
          count_if-map p (λ x. set_narration (services.narrate x.id) x) (t.routes ++ second),
          count_if-append p t.routes second,
          count_if-map p (second_route services r c) (in_order services r t.routed),
          count_if-sort_by
              (λ a b.
                leb (index (ordered (objectives services r)) a.0)
                  (index (ordered (objectives services r)) b.0))
              (λ e. same_preset o e.0) t.routed,
        ),
    sort_by-IsAscending (λ x. index (objectives services r) x.id) _,
  )

  after-IsAnswered :
      (before : List (Event E R)) (run : Run E R)
      → All IsProgress before
      → IsAnswered run
      → IsAnswered (after services r before run)
  after-IsAnswered before (events, some f) h (inl a) = inl (All-append IsProgress before events h a)
  after-IsAnswered before (events, some f) h (inr (uncounted, same, news)) = inr (
    uncounted,
    same,
    All-append IsNews before events (All-imp IsProgress IsNews before IsProgress-IsNews h) news,
  )
  after-IsAnswered before (events, none) h (front, p, e, rest, complete) =
      let ends =
        EndsIn-append p before events (All-imp IsProgress IsNews before IsProgress-IsNews h)
          (front, e, rest) in
      (ends.0, p, ends.1, ends.2, complete)

  passes-IsAnswered :
      (t : Tried E R)
      → ((o : Preset) → tally services r o t ≡ asked o (objectives services r))
      → IsAnswered (passes services r t)
  unfolding passes closing
  passes-IsAnswered t h =
      Option_ind (λ run. IsAnswered (after services r (told services r t) run))
        services.segment_count
        (λ e. inr (e, refl, All-append IsNews (told services r t) [] (All-told t) tt))
        λ scored e.
          (told services r t, end_of scored t, refl, All-told t, end_of-IsComplete scored t h)

  settle-IsAnswered :
      (a : Attempt E R)
      → Holds services r (λ o. asked o (objectives services r)) a
      → IsAnswered (settle services r a)
  unfolding settle
  settle-IsAnswered (stop f) h = inl tt
  settle-IsAnswered (go t) h =
      if_ind IsAnswered (is_nil t.routed && not (any_usable t.routes)) (λ e. inl tt)
        λ e. passes-IsAnswered t h

  asked-ordered :
      (o : Preset) → asked o (ordered (objectives services r)) ≡ asked o (objectives services r)
  unfolding ordered
  asked-ordered o = count_if-sort_by _ (same_preset o) (objectives services r)

  then_others-IsAnswered :
      (a : Attempt E R)
      → Holds services r
          (λ o. if same_preset o fastest then asked o (objectives services r) else 0)
          a
      → IsAnswered (then_others services r a)
  unfolding then_others
  then_others-IsAnswered (stop f) h = inl tt
  then_others-IsAnswered (go t) h =
      let first : Preset → ℕ =
        λ o. if same_preset o fastest then asked o (objectives services r) else 0 in
      let tried = try_others services r (others services r) (go t) in
      after-IsAnswered _ (settle services r tried)
        (if_ind (All IsProgress) (is_nil (others services r)) (λ e. tt) λ e. (tt, tt))
        (settle-IsAnswered tried (
          Holds-eq services r (λ o. first o + asked o (others services r))
            (λ o. asked o (objectives services r)) tried
            (λ o. ground (arith, asked-others o (ordered (objectives services r)), asked-ordered o))
            (try_others-Holds services r (others services r) first (go t) h)))

  run_presets-IsAnswered :
      (a : Attempt E R)
      → IsUnique (objectives services r)
      → Holds services r (λ o. 0) a
      → IsAnswered (run_presets services r a)
  unfolding run_presets
  run_presets-IsAnswered (stop f) u h = inl tt
  run_presets-IsAnswered (go t) u h =
      after-IsAnswered _ (then_others services r (try_fastest services r t))
        (if_ind (All IsProgress) (has fastest (objectives services r)) (λ e. (tt, tt)) λ e. tt)
        (then_others-IsAnswered (try_fastest services r t) (try_fastest-Holds services r t u h))

  pub route_events-IsAnswered :
      IsUnique (objectives services r) → IsAnswered (route_events services r)
  unfolding route_events
  route_events-IsAnswered u =
      after-IsAnswered (progress 5 ∷ []) _ (tt, tt)
        (Option_ind IsAnswered (uncovered services r)
          (λ e. run_presets-IsAnswered (baseline services r) u (baseline-Holds services r))
          λ extent e. inl tt)
