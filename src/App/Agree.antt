-- ===== src/App/Agree.antt =====
-- That the two transports of backend/main.py tell of one answer.
use mathlib.Core.Path.{subst}
use native.Mathlib.Decide.{ℕ_discrete}
use meander.Common.{
  All, All-imp, Bool, List, Option, [], ap, arith, false, inl, inr, length, none, refl, some, suc,
  sym, take, true, zero, ℕ, ◌++◌, ◌+◌, ◌<◌, ◌∙◌, ◌∷◌, ◌≡◌, ◌≢◌, ◌≤◌, ◌⊎◌,
}
use meander.App.Events.{Event, Failure, Run, Services, done, objectives, progress, route, timeout}
use meander.App.Complete.{
  IsAnswered, IsNews, IsProgress, IsProgress-IsNews, route_events-IsAnswered,
}
use meander.App.Serve.{
  Drained, Frame, Reply, drain, ended, error, frame, note, nothing_yet, raising, reply_of, served,
  stream_from, timed_out, trouble,
}
use meander.App.Request.{RouteRequest}
use meander.App.Passes.{route_events, told}
use meander.App.Deadline.{route_events_with_deadline}
use meander.App.Ready.{IsCutShort}
use meander.App.Timely.{deadline-IsTimely, time_of}
use meander.App.Answer.{IsUnique}

-- Nobody asks the process to stop.
abbrev pub never : ℕ → Bool
never k = false

zero_right : (k : ℕ) → k + 0 ≡ k
zero_right k = omega arith

zero_left : (n : ℕ) → 0 + n ≡ n
zero_left n = omega arith

suc_right : (k n : ℕ) → suc k + n ≡ k + suc n
suc_right k n = omega arith

time_of-last : (cost : ℕ → ℕ) (k n : ℕ) → time_of cost k (suc n) ≡ time_of cost k n + cost (k + n)
time_of-last cost k zero = omega (arith, ap cost (zero_right k))
time_of-last cost k (suc n) = omega (arith, time_of-last cost (suc k) n, ap cost (suc_right k n))

module _ {E R : Type 0} where
  abbrev pub outcome_of : Frame E R → Option (Reply E R)
  outcome_of (frame (done partial p)) = some (served p)
  outcome_of (frame timeout) = some (trouble timed_out)
  outcome_of (frame _) = none
  outcome_of (error t) = some (trouble t)

  abbrev pub or_earlier : Option (Reply E R) → Option (Reply E R) → Option (Reply E R)
  or_earlier earlier (some o) = some o
  or_earlier earlier none = earlier

  -- What the frames of a stream come to: the last one that settles anything.
  unfoldable pub settled : List (Frame E R) → Option (Reply E R)
  settled [] = none
  settled (x ∷ xs) = or_earlier (outcome_of x) (settled xs)

  -- The event that ends an answer.
  abbrev pub IsFinal : Event E R → Type 0
  IsFinal (done partial p) = Unit
  IsFinal timeout = Unit
  IsFinal _ = ⊥

  -- A run that raises, or that ends with the only event that settles it.
  abbrev pub Concludes : Run E R → Type 0
  Concludes (events, some f) = Unit
  Concludes (events, none) =
      (front : List (Event E R)) × (last : Event E R) × (events ≡ front ++ last ∷ [])
      × All IsNews front
      × IsFinal last

  abbrev pub streamed : ℕ → Run E R → Option (Reply E R)
  streamed k run = settled (stream_from never k run.0 run.1)

  abbrev pub in_json : ℕ → Run E R → Reply E R
  in_json k run = reply_of (drain never k run.0 run.1 nothing_yet)

  raising_agrees :
      (k : ℕ) (events : List (Event E R)) (f : Failure) (d : Drained E R)
      → (settled (stream_from never k events (some f)) ≡ some (trouble (ended f)))
        × (drain never k events (some f) d ≡ raising f)
  unfolding settled stream_from drain
  raising_agrees k [] f d = (refl, refl)
  raising_agrees k (e ∷ es) f d =
      let rest = raising_agrees (suc k) es f (note e d) in
      (ap (or_earlier (outcome_of (frame e))) rest.0, rest.1)

  ending_agrees :
      (k : ℕ) (front : List (Event E R)) (last : Event E R)
      → All IsNews front
      → IsFinal last
      → streamed k (front ++ last ∷ [], none) ≡ some (in_json k (front ++ last ∷ [], none))
  unfolding settled stream_from drain note reply_of
  ending_agrees k [] (done partial p) n h = refl
  ending_agrees k [] timeout n h = refl
  ending_agrees k [] (progress m) n h = absurd h
  ending_agrees k [] (route x) n h = absurd h
  ending_agrees k (progress m ∷ front) last n h =
      ap (or_earlier none) (ending_agrees (suc k) front last n.1 h)
  ending_agrees k (route x ∷ front) last n h =
      ap (or_earlier none) (ending_agrees (suc k) front last n.1 h)
  ending_agrees k (done partial p ∷ front) last n h = absurd n.0
  ending_agrees k (timeout ∷ front) last n h = absurd n.0

  settled_alike : (run : Run E R) → Concludes run → streamed 0 run ≡ some (in_json 0 run)
  unfolding reply_of
  settled_alike (events, some f) h =
      let both = raising_agrees 0 events f nothing_yet in
      both.0 ∙ sym (ap (λ d. some (reply_of d)) both.1)
  settled_alike (events, none) (front, last, e, news, final) =
      subst (λ es. streamed 0 (es, none) ≡ some (in_json 0 (es, none))) (sym e)
        (ending_agrees 0 front last news final)

  IsCutShort-IsFinal :
      (told : List (Event E R)) (last : Event E R) → IsCutShort told last → IsFinal last
  IsCutShort-IsFinal told (done true p) h = tt
  IsCutShort-IsFinal told (done false p) h = absurd h
  IsCutShort-IsFinal told timeout h = tt
  IsCutShort-IsFinal told (progress n) h = absurd h
  IsCutShort-IsFinal told (route x) h = absurd h

  take-IsNews :
      (n : ℕ) (front : List (Event E R)) (last : Event E R)
      → n < length (front ++ last ∷ [])
      → All IsNews front
      → All IsNews (take n (front ++ last ∷ []))
  take-IsNews zero front last h news = tt
  take-IsNews (suc n) [] last h news = absurd (omega (arith, h))
  take-IsNews (suc n) (e ∷ front) last h news =
      (news.0, take-IsNews n front last (omega (arith, h)) news.1)

  All-take : (n : ℕ) (events : List (Event E R)) → All IsNews events → All IsNews (take n events)
  All-take zero events h = tt
  All-take (suc n) [] h = tt
  All-take (suc n) (e ∷ es) h = (h.0, All-take n es h.1)

module _ {E R N : Type 0} (services : Services E R N) (r : RouteRequest) (cost : ℕ → ℕ)
    (deadline : ℕ) where
  abbrev pub whole_run : Run E R
  whole_run = route_events services r

  abbrev pub timed_run : Run E R
  timed_run = route_events_with_deadline services.hit_rate cost deadline whole_run

  -- The end of the run takes no time of its own, and its last event does not come at the last moment.
  abbrev pub EndsEarly : Type 0
  EndsEarly = (cost (length whole_run.0) ≡ 0) × (time_of cost 0 (length whole_run.0) ≢ deadline)

  -- A run that raises, whatever its time; or one that ends early.
  abbrev pub IsSettledEarly : Type 0
  IsSettledEarly = (whole_run.1 ≢ none) ⊎ EndsEarly

  run-Concludes : (run : Run E R) → IsAnswered services r run → Concludes run
  run-Concludes (events, some f) h = tt
  run-Concludes (events, none) (front, p, e, news, complete) = (front, done false p, e, news, tt)

  raising-IsNews :
      (run : Run E R) (n : ℕ) → IsAnswered services r run → run.1 ≢ none → All IsNews (take n run.0)
  raising-IsNews (events, none) n h raises = absurd (raises refl)
  raising-IsNews (events, some f) n (inl h) raises =
      All-take n events (All-imp IsProgress IsNews events IsProgress-IsNews h)
  raising-IsNews (events, some f) n (inr (uncounted, same, news)) raises = All-take n events news

  shorter-IsNews :
      (run : Run E R) (n : ℕ)
      → IsAnswered services r run
      → n < length run.0
      → All IsNews (take n run.0)
  shorter-IsNews (events, some f) n h short = raising-IsNews (events, some f) n h (λ e. cc)
  shorter-IsNews (events, none) n (front, p, e, news, complete) short =
      subst (λ es. All IsNews (take n es)) (sym e)
        (take-IsNews n front (done false p) (subst (λ es. n < length es) e short) news)

  before_the_end :
      (n : ℕ)
      → n ≤ length whole_run.0
      → time_of cost 0 n ≤ deadline
      → deadline ≤ time_of cost 0 (suc n)
      → EndsEarly
      → n < length whole_run.0
  before_the_end n bound within over (free, early) = elim (ℕ_discrete n (length whole_run.0)) [
    | yes e ↦ absurd (at_the_end e)
    | no ne ↦ omega (arith, bound)
  ]
    where
      at_the_end : n ≡ length whole_run.0 → ⊥
      at_the_end e = early (
          omega (
            arith,
            time_of-last cost 0 n,
            ap cost (zero_left n),
            within,
            over,
            ap cost e,
            ap (time_of cost 0) e,
            free,
          ))

  timed_run-Concludes : IsUnique (objectives services r) → IsSettledEarly → Concludes timed_run
  timed_run-Concludes u early =
      let answered = route_events-IsAnswered services r u in
      elim (deadline-IsTimely services.hit_rate cost deadline whole_run.0 whole_run.1) [
        | inl (e, within) ↦ subst Concludes (sym e) (run-Concludes whole_run answered)
        | inr (n, last, e, bound, within, over, short) ↦ subst Concludes (sym e) (
          take n whole_run.0,
          last,
          refl,
          elim early [
            | inl raises ↦ raising-IsNews whole_run n answered raises
            | inr ends ↦
                shorter-IsNews whole_run n answered (before_the_end n bound within over ends)
          ],
          IsCutShort-IsFinal (take n whole_run.0) last short,
        )
      ]

  -- The stream and the JSON answer to a request come to the same: the same payload, or the same
  -- trouble, whatever the time limit and the time that each event takes, while the process is not told
  -- to stop; for a run that does not raise, where its end after the last event takes no time of its own
  -- and that event does not come at the very last moment.
  pub transports_agree :
      IsUnique (objectives services r)
      → IsSettledEarly
      → streamed 0 timed_run ≡ some (in_json 0 timed_run)
  transports_agree u early = settled_alike timed_run (timed_run-Concludes u early)
