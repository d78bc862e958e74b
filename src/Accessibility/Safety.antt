-- ===== src/Accessibility/Safety.antt =====
-- What a verdict of `assess_route` (backend/accessibility.py) may be relied on for.
use meander.Geometry.{LatLon, path_length_m, segment_lengths_m, sum}
use meander.Common.{
  Bool, Bool-cases, List, Option, [], arith, false, inl, inr, length, ltb, none, refl, sym, true, ℕ,
  ◌++◌, ◌+◌, ◌<◌, ◌==◌, ◌||◌, ◌∙◌, ◌≡◌, ◌≢◌, ◌⊎◌,
}
use meander.Common.Int.{ℤ}
use meander.Accessibility.{
  acceptable_surfaces, assess_barrier, assess_road_class, assess_smoothness, assess_surface, fail,
  good_smoothness, is_among, is_unknown, pass, unknown,
}
use meander.Accessibility.Spans.{
  Finding, Span, Weighted, barrier, smoothness, span_length, span_verdicts, steps, surface,
}
use meander.Accessibility.Incline.{incline_findings}
use meander.Accessibility.Route.{
  Details, RouteAccessibility, all_findings, assess_route, barrier_part, smooth_part, steps_part,
  surface_part, totals, verdict_of,
}
use meander.Accessibility.Sentence.{is_blocked}
use meander.Accessibility.Sums.{
  length-segment_lengths_m, lengths_of_sum, span_length-le, totals-append,
}
use meander.Accessibility.Evidence.{
  Covers, blocked_of, Covers-length, four_nil, lengths, parts_nil, pass_is_tagged, positive_part,
  unknown_not_pass, verdict_of-clear, verdict_of-fail, verdict_of-pass, verdicts_fail,
  verdicts_pass,
}

module _ (dist : LatLon → LatLon → ℕ) (interp : List ℕ → List ℕ → List ℤ → List ℤ)
    (points : List LatLon) (elevations : Option (List ℤ)) (details : Details) where
  abbrev pub assess : Option (List Span) → RouteAccessibility
  assess b = assess_route dist interp points elevations details b

  -- Where a failing span of one of the four constraints stands.
  pub data FailingSpan (barrier_spans : Option (List Span)) (s : Span) : Type 0 where
    on_steps :
        Covers dist points s details.road_class
        → assess_road_class s.value ≡ fail
        → FailingSpan barrier_spans s
    on_surface :
        Covers dist points s details.surface_spans
        → assess_surface s.value ≡ fail
        → FailingSpan barrier_spans s
    on_smoothness :
        Covers dist points s details.smoothness_spans
        → assess_smoothness s.value ≡ fail
        → FailingSpan barrier_spans s
    on_barrier :
        Covers dist points s barrier_spans
        → assess_barrier s.value ≡ fail
        → FailingSpan barrier_spans s

  module _ (b : Option (List Span)) where
    abbrev found : List Finding
    found = all_findings dist interp points elevations details b

    -- The length whose surface or smoothness has a definite verdict.
    abbrev definite_length : ℕ
    definite_length =
        (totals (
          (surface_part dist interp points elevations details b).0
          ++ (smooth_part dist interp points elevations details b).0)).0

    abbrev too_short : Bool
    too_short = path_length_m dist points == 0 || ltb (length points) 2

    assess_short : too_short ≡ true → (assess b).verdict ≡ unknown
    unfolding assess_route
    assess_short h = rw h refl

    assess_long :
        too_short ≡ false
        → ((assess b).verdict ≡ verdict_of found definite_length) × ((assess b).findings ≡ found)
    unfolding assess_route
    assess_long h = rw h (refl, refl)

    -- A route with a span that covers some of it is not degenerate.
    not_short : (s : Span) → 0 < span_length (lengths dist points) s → too_short ≡ false
    unfolding path_length_m
    not_short s h =
        let far : 0 < sum (segment_lengths_m dist points) =
          omega (arith, span_length-le (segment_lengths_m dist points) s) in
        let some_part = lengths_of_sum (segment_lengths_m dist points) far in
        let two = length-segment_lengths_m dist points in ground arith

    abbrev walked : Weighted × List Finding
    walked = surface_part dist interp points elevations details b

    abbrev smoothed : Weighted × List Finding
    smoothed = smooth_part dist interp points elevations details b

    no_finding :
        found ≡ []
        → ((steps_part dist interp points elevations details b).1 ≡ [])
          × (walked.1 ≡ [])
          × (smoothed.1 ≡ [])
          × ((barrier_part dist interp points elevations details b).1 ≡ [])
          × (incline_findings dist interp points elevations ≡ [])
    no_finding =
        parts_nil (steps_part dist interp points elevations details b).1 walked.1 smoothed.1
          (barrier_part dist interp points elevations details b).1
          (incline_findings dist interp points elevations)

    finding_of_span :
        (s : Span) → FailingSpan b s → (0 < span_length (lengths dist points) s) × (found ≢ [])
    finding_of_span s (on_steps c bad) = (
      Covers-length dist points details.road_class s c,
      λ e.
          verdicts_fail dist points details.road_class assess_road_class steps s c bad
            (no_finding e).0,
    )
    finding_of_span s (on_surface c bad) = (
      Covers-length dist points details.surface_spans s c,
      λ e.
          verdicts_fail dist points details.surface_spans assess_surface surface s c bad
            (no_finding e).1,
    )
    finding_of_span s (on_smoothness c bad) = (
      Covers-length dist points details.smoothness_spans s c,
      λ e.
          verdicts_fail dist points details.smoothness_spans assess_smoothness smoothness s c bad
            (no_finding e).2,
    )
    finding_of_span s (on_barrier c bad) = (
      Covers-length dist points b s c,
      λ e. verdicts_fail dist points b assess_barrier barrier s c bad (no_finding e).3,
    )

    -- What a pass rests on.
    pass_parts :
        (assess b).verdict ≡ pass → (too_short ≡ false) × (found ≡ []) × (0 < definite_length)
    pass_parts h = elim (Bool-cases too_short) [
      | inl short ↦ absurd (unknown_not_pass (sym (assess_short short) ∙ h))
      | inr long ↦
          let (clear, definite) =
            verdict_of-pass found definite_length (sym (assess_long long).0 ∙ h) in
          (long, clear, definite)
    ]

    definite_parts : definite_length ≡ (totals walked.0).0 + (totals smoothed.0).0
    definite_parts = (totals-append walked.0 smoothed.0).0

  -- A stretch of the route that has a length and fails any one of the four tag constraints blocks the
  -- whole route, whatever the other tags say.
  pub FailingSpan-blocks :
      (barrier_spans : Option (List Span)) (s : Span)
      → FailingSpan barrier_spans s
      → is_blocked (assess barrier_spans) ≡ true
  FailingSpan-blocks b s f =
      let (far, some_finding) = finding_of_span b s f in
      let e = (assess_long b (not_short b s far)).0 in
      blocked_of (assess b) (e ∙ verdict_of-fail (found b) (definite_length b) some_finding)

  -- A route with the verdict `pass` has no finding, and has a stretch of positive length whose surface
  -- or smoothness is tagged with an accepted value: a missing tag is never enough.
  pub pass_has_evidence :
      (barrier_spans : Option (List Span))
      → (assess barrier_spans).verdict ≡ pass
      → ((assess barrier_spans).findings ≡ [])
        × (((s : Span) × Covers dist points s details.surface_spans
              × (is_unknown s.value ≡ false)
              × (is_among acceptable_surfaces s.value ≡ true))
            ⊎ ((s : Span) × Covers dist points s details.smoothness_spans
                × (is_unknown s.value ≡ false)
                × (is_among good_smoothness s.value ≡ true)))
  pass_has_evidence b h =
      let (long, none_found, definite) = pass_parts b h in
      let (_, no_surface, no_smooth, _, _) = no_finding b none_found in
      (
        (assess_long b long).1 ∙ none_found,
        elim (positive_part _ _ (rw (definite_parts b) at definite)) [
          | inl far ↦
              let (s, c, good) =
                verdicts_pass dist points details.surface_spans assess_surface surface no_surface
                  far in
              let (tagged_so, accepted) = (pass_is_tagged s.value).0 good in
              inl (s, c, tagged_so, accepted)
          | inr far ↦
              let (s, c, good) =
                verdicts_pass dist points details.smoothness_spans assess_smoothness smoothness
                  no_smooth far in
              let (tagged_so, accepted) = (pass_is_tagged s.value).1 good in
              inr (s, c, tagged_so, accepted)
        ],
      )

  clear_without : (b : Option (List Span)) → found b ≡ [] → found none ≡ []
  unfolding span_verdicts
  clear_without b clear =
      let (a, b', c, _, e) = no_finding b clear in
      four_nil (steps_part dist interp points elevations details b).1 (walked b).1 (smoothed b).1
        (incline_findings dist interp points elevations) a b' c e

  coverage_same :
      (b : Option (List Span))
      → ((assess b).coverage ≡ (assess none).coverage)
        × ((assess b).pass_fraction ≡ (assess none).pass_fraction)
        × ((assess b).fail_fraction ≡ (assess none).fail_fraction)
  unfolding assess_route
  coverage_same b = elim (Bool-cases (too_short b)) [
    | inl short ↦ rw short (refl, refl, refl)
    | inr long ↦ rw long (refl, refl, refl)
  ]

  -- What was found about barriers never grants a pass and never changes how much of the route is
  -- covered: a route that passes with it passes without it.
  pub barriers_never_grant :
      (barrier_spans : Option (List Span))
      → ((assess barrier_spans).verdict ≡ pass → (assess none).verdict ≡ pass)
        × ((assess barrier_spans).coverage ≡ (assess none).coverage)
        × ((assess barrier_spans).pass_fraction ≡ (assess none).pass_fraction)
        × ((assess barrier_spans).fail_fraction ≡ (assess none).fail_fraction)
  barriers_never_grant b = (
    λ h.
        let (long, clear, definite) = pass_parts b h in
        (assess_long none long).0
        ∙ verdict_of-clear (found none) (definite_length none) (clear_without b clear) definite,
    (coverage_same b).0,
    (coverage_same b).1,
    (coverage_same b).2,
  )
