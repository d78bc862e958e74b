-- ===== src/App/Timely.antt =====
-- What the time limit does to an answer (backend/main.py: `route_events_with_deadline`).
use meander.Common.{
  List, Option, [], ap, arith, if_ind, inl, inr, length, none, refl, suc, take, true, zero, ℕ, ◌++◌,
  ◌+◌, ◌-◌, ◌∷◌, ◌≡◌, ◌≤◌, ◌⊎◌,
}
use meander.Common.Sort.{keep}
use meander.App.Wire.{Route}
use meander.App.Events.{Event, Failure, Run}
use meander.App.Deadline.{
  cut_off, deadline_from, has_shape, is_late, last_event, note_route, route_events_with_deadline,
}
use meander.App.Ready.{IsCutShort, last_event-IsCutShort, noted, noted-IsReady}

-- The time that `n` events take, from the event number `k` on.
abbrev pub time_of : (ℕ → ℕ) → ℕ → ℕ → ℕ
time_of cost k zero = 0
time_of cost k (suc n) = cost k + time_of cost (suc k) n

module _ {E R : Type 0} (hit_rate : ℕ) (cost : ℕ → ℕ) where
  -- The run as it was, within the time; or a part of it within the time, and one event more.
  abbrev pub IsTimely : ℕ → List (Event E R) → Option Failure → Run E R → Type 0
  IsTimely deadline events f run =
      ((run ≡ (events, f)) × (time_of cost 0 (suc (length events)) ≤ deadline))
      ⊎ ((n : ℕ) × (last : Event E R) × (run ≡ (take n events ++ last ∷ [], none))
          × (n ≤ length events)
          × (time_of cost 0 n ≤ deadline)
          × (deadline ≤ time_of cost 0 (suc n))
          × IsCutShort (take n events) last)

  -- The same from the event number `k` on, with what was noted before it.
  abbrev IsTimelyFrom :
      ℕ → ℕ → List (Route E R) → List (Event E R) → Option Failure → Run E R → Type 0
  IsTimelyFrom k remaining partial events f run =
      ((run ≡ (events, f)) × (time_of cost k (suc (length events)) ≤ remaining))
      ⊎ ((n : ℕ) × (run ≡ (
        take n events ++ last_event hit_rate (keep has_shape (noted partial (take n events))) ∷ [],
        none,
      ))
          × (n ≤ length events)
          × (time_of cost k n ≤ remaining)
          × (remaining ≤ time_of cost k (suc n)))

  cut_off-IsTimely :
      (k remaining : ℕ) (partial : List (Route E R)) (events : List (Event E R))
      (f : Option Failure)
      → is_late remaining (cost k) ≡ true
      → IsTimelyFrom k remaining partial events f (cut_off hit_rate partial)
  unfolding cut_off noted
  cut_off-IsTimely k remaining partial events f late =
      inr (0, refl, omega arith, omega arith, ground (arith, late))

  deadline_from-IsTimely :
      (k remaining : ℕ) (partial : List (Route E R)) (events : List (Event E R))
      (f : Option Failure)
      → IsTimelyFrom k remaining partial events f
          (deadline_from hit_rate cost k remaining partial events f)
  unfolding deadline_from noted
  deadline_from-IsTimely k remaining partial [] f =
      if_ind (IsTimelyFrom k remaining partial [] f) (is_late remaining (cost k))
        (cut_off-IsTimely k remaining partial [] f) λ early. inl (refl, ground (arith, early))
  deadline_from-IsTimely k remaining partial (e ∷ es) f =
      let cons : Run E R → Run E R = λ run. (e ∷ run.0, run.1) in
      if_ind (IsTimelyFrom k remaining partial (e ∷ es) f) (is_late remaining (cost k))
        (cut_off-IsTimely k remaining partial (e ∷ es) f)
        λ early.
          elim (deadline_from-IsTimely (suc k) (remaining - cost k) (note_route e partial) es f) [
            | inl (same_run, within) ↦ inl (ap cons same_run, ground (arith, early))
            | inr (n, shorter, bound, within, over) ↦ inr (
              suc n,
              ap cons shorter,
              omega (arith, bound),
              ground (arith, early, within),
              ground (arith, early, over),
            )
          ]

  -- A run under a deadline is the run itself, produced in time, or as much of it as was produced in
  -- time, followed by one event: for each preset that a route was told of, the last one told if it has a
  -- shape, once and marked partial; or an error where there is none of these.
  pub deadline-IsTimely :
      (deadline : ℕ) (events : List (Event E R)) (f : Option Failure)
      → IsTimely deadline events f (route_events_with_deadline hit_rate cost deadline (events, f))
  unfolding route_events_with_deadline
  deadline-IsTimely deadline events f = elim (deadline_from-IsTimely 0 deadline [] events f) [
    | inl whole ↦ inl whole
    | inr (n, shorter, bound, within, over) ↦ inr (
      n,
      last_event hit_rate (keep has_shape (noted [] (take n events))),
      shorter,
      bound,
      within,
      over,
      last_event-IsCutShort hit_rate (take n events) _ (noted-IsReady (take n events)),
    )
  ]
