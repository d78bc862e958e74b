-- ===== src/Routing/Promise.antt =====
-- What a scenic route without a note promises (backend/routing.py), on a metered server too.

use mathlib.Core.Path.{subst}
use meander.Geometry.{LatLon}
use meander.Common.{
  All, All-append, Bool, Bool-cases, List, Option, [], arith, false, if_ind, inl, inr, leb, ltb,
  none, some, true, ℕ, ◌&&◌, ◌*◌, ◌<◌, ◌∷◌, ◌≡◌, ◌≤◌,
}
use meander.Common.Sort.{sort_by-All}
use meander.Routing.{
  EffectiveMode, RawRoute, RequestBody, Result, Result_ind, Server, crashed, ok, raised, set_note,
}
use meander.Routing.Scenic.{
  Found, Scored, best_first, budget_ms, candidate, candidates_for, choose, choose_from, consider,
  consider_all, first_failure, is_greener, merit, note_accepted, note_fallback, nothing_found,
  qualifies, route_scenic, search_all, search_first, settle, within_cap,
}
use meander.Routing.Post.{Fetched}

module _ (greenness : RawRoute → ℕ) (minutes : ℕ) (is_loop : Bool) (fastest : RawRoute) where
  abbrev pub Promised : RawRoute → Type 0
  Promised r = (r.duration * 10 ≤ fastest.duration * 16) × (greenness fastest < greenness r)

  -- An outcome that keeps the promise, or says that it does not.
  abbrev pub IsHonest : Result RawRoute → Type 0
  IsHonest (ok r) = r.preset_note ≡ none → Promised r
  IsHonest (raised e) = Unit
  IsHonest crashed = Unit

  abbrev fine : RawRoute → Bool
  fine = qualifies greenness minutes is_loop (some fastest)

  qualifies-Promised : (r : RawRoute) → fine r ≡ true → Promised r
  unfolding qualifies within_cap is_greener
  qualifies-Promised r h = ground arith

  abbrev AllFine : Found → Type 0
  AllFine found = All (λ p. fine p.1 ≡ true) found.acceptable

  consider-AllFine :
      (r : RawRoute) (found : Found)
      → AllFine found
      → AllFine (consider greenness minutes is_loop (some fastest) r found)
  unfolding consider
  consider-AllFine r found h = elim (Bool-cases (fine r)) [
    | inl e ↦ rw e (
        All-append (λ p. fine p.1 ≡ true) found.acceptable
          ((merit greenness minutes is_loop (some fastest) r, r) ∷ []) h (e, tt))
    | inr e ↦ rw e h
  ]

  consider_all-AllFine :
      (routes : List RawRoute) (found : Found)
      → AllFine found
      → AllFine (consider_all greenness minutes is_loop (some fastest) routes found)
  unfolding consider_all
  consider_all-AllFine [] found h = h
  consider_all-AllFine (r ∷ routes) found h =
      consider_all-AllFine routes (consider greenness minutes is_loop (some fastest) r found)
        (consider-AllFine r found h)

  note_accepted-IsHonest :
      (r : RawRoute)
      → fine r ≡ true
      → IsHonest (ok (note_accepted greenness minutes is_loop (some fastest) r))
  unfolding note_accepted set_note
  note_accepted-IsHonest r h =
      if_ind (λ (q : RawRoute). q.preset_note ≡ none → Promised q)
        (is_loop && (ltb 0 minutes && ltb (r.duration * 10) (budget_ms minutes * 7)))
        (λ t e. absurd (ground arith)) (λ t e. qualifies-Promised r h)

  note_fallback-IsHonest :
      (r : RawRoute) → IsHonest (ok (note_fallback greenness minutes is_loop (some fastest) r))
  unfolding note_fallback set_note
  note_fallback-IsHonest r e = absurd (ground arith)

  choose_from-IsHonest :
      (sorted : List Scored) (fallback : Option Scored)
      → All (λ p. fine p.1 ≡ true) sorted
      → IsHonest (choose_from greenness minutes is_loop (some fastest) sorted fallback)
  unfolding choose_from
  choose_from-IsHonest (best ∷ others) fallback h = note_accepted-IsHonest best.1 h.0
  choose_from-IsHonest [] none h = tt
  choose_from-IsHonest [] (some best) h = note_fallback-IsHonest best.1

  pub choose-IsHonest :
      (found : Found)
      → AllFine found
      → IsHonest (choose greenness minutes is_loop (some fastest) found)
  unfolding choose best_first
  choose-IsHonest found h =
      choose_from-IsHonest (best_first found.acceptable) found.fallback
        (sort_by-All (λ (x y : Scored). leb y.0 x.0) (λ p. fine p.1 ≡ true) found.acceptable h)

  first_failure-IsHonest : (outcomes : List (Result RawRoute)) → IsHonest (first_failure outcomes)
  unfolding first_failure
  first_failure-IsHonest [] = tt
  first_failure-IsHonest (ok r ∷ outcomes) = first_failure-IsHonest outcomes
  first_failure-IsHonest (raised e ∷ outcomes) = tt
  first_failure-IsHonest (crashed ∷ outcomes) = tt

  settle-IsHonest :
      (routes : List RawRoute) (failure : Result RawRoute)
      → IsHonest failure
      → IsHonest (settle greenness minutes is_loop (some fastest) routes failure)
  unfolding settle
  settle-IsHonest [] failure h = h
  settle-IsHonest (r ∷ routes) failure h =
      choose-IsHonest
        (consider_all greenness minutes is_loop (some fastest) (r ∷ routes) nothing_found)
        (consider_all-AllFine (r ∷ routes) nothing_found tt)

module _ (dist : LatLon → LatLon → ℕ) (server : Server) (fetch : RequestBody → Fetched)
    (greenness : RawRoute → ℕ) (origin : LatLon) (destination : Option LatLon) (minutes : ℕ)
    (mode : EffectiveMode) (fastest : RawRoute) where
  abbrev looping : Bool
  looping = elim destination [ none ↦ true | some d ↦ false ]

  search_first-IsHonest :
      (specs : List (ℕ × ℕ)) (found : Found)
      → AllFine greenness minutes looping fastest found
      → IsHonest greenness minutes looping fastest
          (search_first dist server fetch greenness origin destination minutes mode
            (some fastest)
            specs
            found).1
  unfolding search_first
  search_first-IsHonest [] found h = choose-IsHonest greenness minutes looping fastest found h
  search_first-IsHonest (spec ∷ specs) found h =
      Result_ind
        (λ (p : List RequestBody × Result RawRoute). IsHonest greenness minutes looping fastest p.1)
        (candidate dist server fetch greenness origin destination minutes mode (some fastest) spec)
        (λ r e.
          let next = consider greenness minutes looping (some fastest) r found in
          let kept = consider-AllFine greenness minutes looping fastest r found h in
          if_ind
            (λ (p : List RequestBody × Result RawRoute).
              IsHonest greenness minutes looping fastest p.1)
            (qualifies greenness minutes looping (some fastest) r)
            (λ t. choose-IsHonest greenness minutes looping fastest next kept)
            (λ t. search_first-IsHonest specs next kept))
        (λ error e. tt) (λ e. tt)

  scenic-IsHonest :
      IsHonest greenness minutes looping fastest
        (route_scenic dist server fetch greenness origin destination minutes mode (some fastest)).1
  unfolding route_scenic search_all
  scenic-IsHonest =
      if_ind
        (λ (p : List RequestBody × Result RawRoute). IsHonest greenness minutes looping fastest p.1)
        server.self_hosted
        (λ t.
          settle-IsHonest greenness minutes looping fastest _ _
            (first_failure-IsHonest greenness minutes looping fastest _))
        (λ t. search_first-IsHonest (candidates_for server destination) nothing_found tt)

  -- Compared with a fastest route, a scenic route that carries no note takes at most 1.6 times as long
  -- and is strictly greener, on a metered and on a self-hosted server.
  pub scenic_promise :
      (r : RawRoute)
      → (route_scenic dist server fetch greenness origin destination minutes mode (some fastest)).1
        ≡ ok r
      → r.preset_note ≡ none
      → (r.duration * 10 ≤ fastest.duration * 16) × (greenness fastest < greenness r)
  scenic_promise r e n = subst (IsHonest greenness minutes looping fastest) e scenic-IsHonest n
