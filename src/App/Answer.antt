-- ===== src/App/Answer.antt =====
-- What an answer holds (backend/main.py: `route_events`): each objective that was asked for, once, in
-- the order asked.
use meander.Common.{
  List, [], arith, false, if_ind, if◌then◌else◌, inr, none, not, refl, true, ℕ, ◌&&◌, ◌++◌, ◌+◌,
  ◌<◌, ◌∙◌, ◌∷◌, ◌≡◌, ◌≤◌, ◌⊎◌,
}
use meander.Common.Sort.{count_if, count_if-append, keep}
use meander.Routing.{Preset, RawRoute, Result, RoutingError, crashed, fastest, ok, raised, scenic}
use meander.App.Request.{RouteRequest, has, same_preset}
use meander.App.Scored.{blocked_route}
use meander.App.Events.{
  Attempt, Services, Tried, add_fastest, add_other, baseline, compared_with, go, is_no_route, mode,
  objectives, record_failure, start_from, stop, try_fastest, try_others,
}

-- How often an objective is among those asked for.
abbrev pub asked : Preset → List Preset → ℕ
asked o os = count_if (same_preset o) os

-- No objective is asked for twice.
abbrev pub IsUnique : List Preset → Type 0
IsUnique os = (o : Preset) → asked o os ≤ 1

pub asked-others :
    (o : Preset) (os : List Preset)
    → asked o (keep (λ p. not (same_preset p fastest)) os)
      ≡ (if same_preset o fastest then 0 else asked o os)
unfolding count_if keep same_preset
asked-others o [] = ground arith
asked-others o (p ∷ os) = ground (arith, asked-others o os)

has_lem :
    (p : Preset) (os : List Preset)
    → ((has p os ≡ true) × (0 < asked p os)) ⊎ ((has p os ≡ false) × (asked p os ≡ 0))
unfolding has count_if same_preset
has_lem p [] = inr (refl, refl)
has_lem p (q ∷ os) = ground (arith, has_lem p os)

asked_same : (o p : Preset) (os : List Preset) → same_preset o p ≡ true → asked o os ≡ asked p os
unfolding count_if same_preset
asked_same o p [] h = refl
asked_same o p (q ∷ os) h = ground (arith, asked_same o p os h)

module _ {E R N : Type 0} (services : Services E R N) (r : RouteRequest) where
  -- How many routes and paths there are of an objective.
  abbrev pub tally : Preset → Tried E R → ℕ
  tally o t =
      count_if (λ x. same_preset o x.id) t.routes + count_if (λ e. same_preset o e.0) t.routed

  abbrev pub Holds : (Preset → ℕ) → Attempt E R → Type 0
  Holds n (stop f) = Unit
  Holds n (go t) = (o : Preset) → tally o t ≡ n o

  abbrev one : Preset → Preset → ℕ
  one p o = if same_preset o p then 1 else 0

  tally-record_failure :
      (o p : Preset) (e : RoutingError) (t : Tried E R)
      → tally o (record_failure services r p e t) ≡ tally o t + one p o
  unfolding record_failure blocked_route count_if
  tally-record_failure o p e t = omega (
    arith,
    count_if-append (λ x. same_preset o x.id) t.routes
        (blocked_route p (mode services r) e.human_message ∷ []),
  )

  tally-routed :
      (o p : Preset) (raw : RawRoute) (routed : List (Preset × RawRoute))
      → count_if (λ e. same_preset o e.0) (routed ++ (p, raw) ∷ [])
        ≡ count_if (λ e. same_preset o e.0) routed + one p o
  unfolding count_if
  tally-routed o p raw routed =
      omega (arith, count_if-append (λ e. same_preset o e.0) routed ((p, raw) ∷ []))

  add_other-Holds :
      (p : Preset) (t : Tried E R) (n : Preset → ℕ) (o : Result RawRoute)
      → Holds n (go t)
      → Holds (λ q. n q + one p q) (add_other services r p t o)
  unfolding add_other
  add_other-Holds p t n (ok raw) h = λ o. omega (arith, tally-routed o p raw t.routed, h o)
  add_other-Holds p t n (raised e) h = λ o. omega (arith, tally-record_failure o p e t, h o)
  add_other-Holds p t n crashed h = tt

  pub Holds-eq :
      (n m : Preset → ℕ) (a : Attempt E R) → ((o : Preset) → n o ≡ m o) → Holds n a → Holds m a
  Holds-eq n m (stop f) e h = tt
  Holds-eq n m (go t) e h = λ o. h o ∙ e o

  pub try_others-Holds :
      (os : List Preset) (n : Preset → ℕ) (a : Attempt E R)
      → Holds n a
      → Holds (λ o. n o + asked o os) (try_others services r os a)
  unfolding try_others count_if
  try_others-Holds os n (stop f) h = tt
  try_others-Holds [] n (go t) h = λ o. omega (arith, h o)
  try_others-Holds (p ∷ os) n (go t) h =
      let tried =
        add_other services r p t
          (services.preset p r (mode services r) (compared_with services r p t.fastest_route)) in
      let rest =
        try_others-Holds os (λ o. n o + one p o) tried
          (add_other-Holds p t n
            (services.preset p r (mode services r) (compared_with services r p t.fastest_route))
            h) in
      Holds-eq (λ o. n o + one p o + asked o os) (λ o. n o + asked o (p ∷ os))
        (try_others services r os tried) (λ o. ground arith) rest

  add_fastest-Holds :
      (t : Tried E R) (n : Preset → ℕ) (o : Result RawRoute)
      → Holds n (go t)
      → Holds (λ q. n q + one fastest q) (add_fastest services r t o)
  unfolding add_fastest
  add_fastest-Holds t n (ok raw) h = λ o. omega (arith, tally-routed o fastest raw t.routed, h o)
  add_fastest-Holds t n (raised e) h =
      if_ind (Holds (λ q. n q + one fastest q)) (is_no_route e)
        (λ i o. omega (arith, tally-record_failure o fastest e t, h o)) λ i. tt
  add_fastest-Holds t n crashed h = tt

  abbrev pub wanted : List Preset
  wanted = objectives services r

  pub try_fastest-Holds :
      (t : Tried E R)
      → IsUnique wanted
      → Holds (λ o. 0) (go t)
      → Holds (λ o. if same_preset o fastest then asked o wanted else 0) (try_fastest services r t)
  unfolding try_fastest
  try_fastest-Holds t u h =
      if_ind (Holds (λ o. if same_preset o fastest then asked o wanted else 0)) (has fastest wanted)
        (λ e.
          Holds-eq (λ q. 0 + one fastest q)
            (λ o. if same_preset o fastest then asked o wanted else 0)
            (add_fastest services r t (services.preset fastest r (mode services r) none))
            (λ o. ground (arith, has_lem fastest wanted, asked_same o fastest wanted, u o))
            (add_fastest-Holds t (λ o. 0) _ h))
        λ e o. ground (arith, h o, has_lem fastest wanted, asked_same o fastest wanted)

  start_from-Holds : (o : Result RawRoute) → Holds (λ q. 0) (start_from services r o)
  unfolding start_from count_if
  start_from-Holds (ok raw) = λ o. refl
  start_from-Holds (raised e) = λ o. refl
  start_from-Holds crashed = tt

  pub baseline-Holds : Holds (λ o. 0) (baseline services r)
  unfolding baseline count_if
  baseline-Holds =
      if_ind (Holds (λ o. 0)) (has scenic wanted && not (has fastest wanted))
        (λ e. start_from-Holds (services.preset fastest r (mode services r) none)) λ e o. refl
