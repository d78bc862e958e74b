-- ===== src/Accessibility/Shares.antt =====
-- The shares of a route that `assess_route` reports and the sentence made of them
-- (backend/accessibility.py).
use meander.Geometry.{LatLon, path_length_m}
use meander.Common.{
  Bool-cases, List, Option, arith, false, if◌then◌else◌, inl, inr, length, ltb, max, min, none, not,
  refl, some, ℕ, ◌*◌, ◌+◌, ◌-◌, ◌<◌, ◌==◌, ◌||◌, ◌↔◌, ◌≡◌, ◌≢◌, ◌≤◌,
}
use meander.Common.Int.{ℤ}
use meander.Common.Round.{round_div, round_div-le, round_div_near}
use meander.Accessibility.Spans.{Span}
use meander.Accessibility.Route.{
  Details, RouteAccessibility, assess_route, fraction, is_some, smooth_part, sources, surface_part,
}
use meander.Accessibility.Sentence.{
  accessibility_data, do_not_rely, sentence, surface_data, very_low_confidence,
}

cancel : (m n w : ℕ) → 0 < w → m * w ≤ n * w → m ≤ n
cancel m n w h le = grind arith

-- Two shares of a whole, both rounded, make up the whole to within one unit.
shares_complement :
    (part rest whole : ℕ)
    → 0 < whole
    → part + rest ≡ whole
    → (round_div (part * 10000) whole + round_div (rest * 10000) whole ≤ 10001)
      × (9999 ≤ round_div (part * 10000) whole + round_div (rest * 10000) whole)
shares_complement part rest whole h e =
    let c = round_div (part * 10000) whole in
    let u = round_div (rest * 10000) whole in
    let (c_low, c_high) = round_div_near (part * 10000) whole h in
    let (u_low, u_high) = round_div_near (rest * 10000) whole h in
    let upper : (c + u) * whole ≤ 10001 * whole = omega arith in
    let lower : 9999 * whole ≤ (c + u) * whole = omega arith in
    (cancel (c + u) 10001 whole h upper, cancel 9999 (c + u) whole h lower)

fraction_pair :
    (part whole : ℕ)
    → 0 < whole
    → (fraction part whole + round_div ((whole - min part whole) * 10000) whole ≤ 10001)
      × (9999 ≤ fraction part whole + round_div ((whole - min part whole) * 10000) whole)
unfolding fraction
fraction_pair part whole h =
    shares_complement (min part whole) (whole - min part whole) whole h (omega arith)

fraction-le : (part whole : ℕ) → 0 < whole → fraction part whole ≤ 10000
unfolding fraction
fraction-le part whole h = round_div-le (min part whole * 10000) whole 10000 h (omega arith)

subject_iff :
    {A : Type 0} (o : Option A)
    → (if is_some o then accessibility_data else surface_data) ≡ accessibility_data ↔ o ≢ none
unfolding is_some
subject_iff none = ground arith
subject_iff (some a) = ground arith

module _ (dist : LatLon → LatLon → ℕ) (interp : List ℕ → List ℕ → List ℤ → List ℤ)
    (points : List LatLon) (elevations : Option (List ℤ)) (details : Details)
    (barrier_spans : Option (List Span)) where
  abbrev assessed : RouteAccessibility
  assessed = assess_route dist interp points elevations details barrier_spans

  positive_route :
      (path_length_m dist points == 0 || ltb (length points) 2) ≡ false
      → 0
        < path_length_m dist points
          * max 1 (
              sources
                (surface_part dist interp points elevations details barrier_spans).0
                (smooth_part dist interp points elevations details barrier_spans).0)
  positive_route long = grind arith

  -- Each share is at most the whole route, and the share with a definite verdict and the unknown share
  -- add up to the whole route, to within one ten-thousandth of rounding.
  pub shares_of_route :
      (assessed.coverage ≤ 10000)
      × (assessed.pass_fraction ≤ 10000)
      × (assessed.fail_fraction ≤ 10000)
      × (assessed.coverage + assessed.unknown_fraction ≤ 10001)
      × (9999 ≤ assessed.coverage + assessed.unknown_fraction)
  unfolding assess_route
  shares_of_route = elim (Bool-cases (path_length_m dist points == 0 || ltb (length points) 2)) [
    | inl short ↦ rw short (omega arith)
    | inr long ↦
        let far = positive_route long in
        rw long (
          fraction-le _ _ far,
          fraction-le _ _ far,
          fraction-le _ _ far,
          (fraction_pair _ _ far).0,
          (fraction_pair _ _ far).1,
        )
  ]

  checked_of_source : assessed.barriers_checked ≡ is_some barrier_spans
  unfolding assess_route
  checked_of_source = elim (Bool-cases (path_length_m dist points == 0 || ltb (length points) 2)) [
    | inl short ↦ rw short refl
    | inr long ↦ rw long refl
  ]

  -- The sentence speaks for accessibility as a whole exactly when a source of barriers was consulted,
  -- whatever it found, and otherwise says that gates were not checked; it tells the reader not to rely
  -- on a route exactly when the coverage is below 30 %; its percentage is at most 100.
  pub sentence_claims :
      ((sentence assessed).subject ≡ accessibility_data ↔ barrier_spans ≢ none)
      × ((sentence assessed).disclaims ≡ not (is_some barrier_spans))
      × ((sentence assessed).body ≡ do_not_rely ↔ assessed.coverage < very_low_confidence)
      × ((sentence assessed).percent ≤ 100)
  unfolding sentence
  sentence_claims =
      let whole : round_div assessed.coverage 100 ≤ 100 =
        round_div-le assessed.coverage 100 100 (omega arith) (omega (arith, shares_of_route.0)) in
      rw checked_of_source (subject_iff barrier_spans, refl, ground arith, whole)
