-- ===== src/Accessibility/Tests.antt =====
-- Runs of `assess_route` on a route of three points, and the theorems at them.
use meander.Geometry.{LatLon, clamp_index, path_length_m, segment_lengths_m}
use meander.Common.{
  List, String, [], arith, false, inl, none, not, refl, some, true, ℕ, ◌+◌, ◌<◌, ◌↔◌, ◌∷◌, ◌≡◌, ◌≢◌,
  ◌≤◌, ◌⊎◌,
}
use meander.Common.Int.{pos, ℤ}
use meander.Common.Text.{codes, is_space, lstrip, member, replace_char, strip, text_eq, upper}
use meander.Accessibility.{
  acceptable_surfaces, assess_barrier, assess_surface, fail, good_smoothness, is_among, is_unknown,
  normalise, pass,
}
use meander.Accessibility.Spans.{
  Span, add_span, span_hi, span_length, span_lo, span_loop, span_verdicts,
}
use meander.Accessibility.Incline.{incline_findings}
use meander.Accessibility.Route.{
  Details, RouteAccessibility, assess_route, is_some, totals, verdict_of,
}
use meander.Accessibility.Sentence.{
  accessibility_data, do_not_rely, is_blocked, sentence, very_low_confidence,
}
use meander.Accessibility.Evidence.{Covers}
use meander.Accessibility.Safety.{
  barriers_never_grant, FailingSpan-blocks, on_barrier, pass_has_evidence,
}
use meander.Accessibility.Shares.{sentence_claims, shares_of_route}

abbrev ten_metres : LatLon → LatLon → ℕ
ten_metres p q = 10000

abbrev same_heights : List ℕ → List ℕ → List ℤ → List ℤ
same_heights grid cum heights = heights

abbrev at_lon : ℕ → LatLon
at_lon x = record { lat = pos 41; lon = pos x }

abbrev three_points : List LatLon
three_points = at_lon 1 ∷ at_lon 2 ∷ at_lon 3 ∷ []

abbrev span : ℕ → ℕ → String → Span
span lo hi value = record { start = pos lo; stop = pos hi; value = some (codes value); node = none }

abbrev asphalt : Span
asphalt = span 0 2 "asphalt"

abbrev stile : Span
stile = span 1 2 "stile"

abbrev paved : Details
paved = record { road_class = none; surface_spans = some (asphalt ∷ []); smoothness_spans = none }

paved_verdict : (assess_route ten_metres same_heights three_points none paved none).verdict ≡ pass
unfolding assess_route span_verdicts segment_lengths_m path_length_m span_loop add_span
    assess_surface is_unknown is_among normalise member incline_findings verdict_of totals
    span_length span_lo span_hi clamp_index text_eq strip lstrip is_space upper replace_char
paved_verdict = refl

stile_fails : assess_barrier stile.value ≡ fail
unfolding assess_barrier is_unknown is_among normalise member text_eq strip lstrip is_space upper
    replace_char
stile_fails = refl

stile_length : 0 < span_length (segment_lengths_m ten_metres three_points) stile
unfolding span_length span_lo span_hi clamp_index segment_lengths_m
stile_length = omega arith

FailingSpan-blocks_example :
    is_blocked (assess_route ten_metres same_heights three_points none paved (some (stile ∷ [])))
    ≡ true
FailingSpan-blocks_example =
    FailingSpan-blocks ten_metres same_heights three_points none paved (some (stile ∷ [])) stile
      (on_barrier (inl refl, stile_length) stile_fails)

pass_has_evidence_example :
    ((assess_route ten_metres same_heights three_points none paved none).findings ≡ [])
    × (((s : Span) × Covers ten_metres three_points s (some (asphalt ∷ []))
          × (is_unknown s.value ≡ false)
          × (is_among acceptable_surfaces s.value ≡ true))
        ⊎ ((s : Span) × Covers ten_metres three_points s none
            × (is_unknown s.value ≡ false)
            × (is_among good_smoothness s.value ≡ true)))
pass_has_evidence_example =
    pass_has_evidence ten_metres same_heights three_points none paved none paved_verdict

abbrev with_stile : RouteAccessibility
with_stile = assess_route ten_metres same_heights three_points none paved (some (stile ∷ []))

abbrev without_stile : RouteAccessibility
without_stile = assess_route ten_metres same_heights three_points none paved none

barriers_never_grant_example :
    (with_stile.verdict ≡ pass → without_stile.verdict ≡ pass)
    × (with_stile.coverage ≡ without_stile.coverage)
    × (with_stile.pass_fraction ≡ without_stile.pass_fraction)
    × (with_stile.fail_fraction ≡ without_stile.fail_fraction)
barriers_never_grant_example =
    barriers_never_grant ten_metres same_heights three_points none paved (some (stile ∷ []))

shares_of_route_test :
    (with_stile.coverage ≤ 10000)
    × (with_stile.pass_fraction ≤ 10000)
    × (with_stile.fail_fraction ≤ 10000)
    × (with_stile.coverage + with_stile.unknown_fraction ≤ 10001)
    × (9999 ≤ with_stile.coverage + with_stile.unknown_fraction)
shares_of_route_test =
    shares_of_route ten_metres same_heights three_points none paved (some (stile ∷ []))

sentence_claims_test :
    ((sentence with_stile).subject ≡ accessibility_data ↔ some (stile ∷ []) ≢ none)
    × ((sentence with_stile).disclaims ≡ not (is_some (some (stile ∷ []))))
    × ((sentence with_stile).body ≡ do_not_rely ↔ with_stile.coverage < very_low_confidence)
    × ((sentence with_stile).percent ≤ 100)
sentence_claims_test =
    sentence_claims ten_metres same_heights three_points none paved (some (stile ∷ []))
