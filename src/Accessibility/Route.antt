-- ===== src/Accessibility/Route.antt =====
-- `assess_route` of backend/accessibility.py. Fractions of the route's length are kept exact up to
-- `round(…, 4)`, whose results are ten-thousandths.
use meander.Geometry.{LatLon, path_length_m}
use meander.Common.{
  Bool, List, Option, [], false, if◌then◌else◌, length, ltb, max, min, none, some, true, ℕ, ◌*◌,
  ◌++◌, ◌+◌, ◌-◌, ◌==◌, ◌||◌, ◌∷◌,
}
use meander.Common.Round.{round_div}
use meander.Common.Int.{ℤ}
use meander.Accessibility.{
  Verdict, assess_barrier, assess_road_class, assess_smoothness, assess_surface, fail, pass,
  unknown,
}
use meander.Accessibility.Spans.{
  Finding, Span, Weighted, barrier, smoothness, span_verdicts, steps, surface,
}
use meander.Accessibility.Incline.{incline_findings}

pub record Details : Type 0 where
  pub road_class : Option (List Span)
  pub surface_spans : Option (List Span)
  pub smoothness_spans : Option (List Span)

pub record RouteAccessibility : Type 0 where
  pub verdict : Verdict
  pub findings : List Finding
  pub coverage : ℕ
  pub pass_fraction : ℕ
  pub fail_fraction : ℕ
  pub unknown_fraction : ℕ
  pub barriers_checked : Bool

-- The loop over the weighted verdicts: the lengths with a definite verdict, passed, and failed.
unfoldable pub totals : Weighted → ℕ × ℕ × ℕ
totals [] = (0, 0, 0)
totals ((length, pass) ∷ w) =
    let (definite, passed, failed) = totals w in (length + definite, length + passed, failed)
totals ((length, fail) ∷ w) =
    let (definite, passed, failed) = totals w in (length + definite, passed, length + failed)
totals ((length, unknown) ∷ w) = totals w

-- sum(1 for spans in (surface_weighted, smooth_weighted) if spans)
unfoldable pub sources : Weighted → Weighted → ℕ
sources [] [] = 0
sources [] (y ∷ ys) = 1
sources (x ∷ xs) [] = 1
sources (x ∷ xs) (y ∷ ys) = 2

-- round(min(1.0, part / denominator), 4)
unfoldable pub fraction : ℕ → ℕ → ℕ
fraction part denominator = round_div (min part denominator * 10000) denominator

-- The verdict on the findings and the length with a definite verdict.
unfoldable pub verdict_of : List Finding → ℕ → Verdict
verdict_of (f ∷ fs) definite = fail
verdict_of [] definite = if definite == 0 then unknown else pass

unfoldable pub is_some {ℓ} : {A : Type ℓ} → Option A → Bool
is_some none = false
is_some (some a) = true

module _ (dist : LatLon → LatLon → ℕ) (interp : List ℕ → List ℕ → List ℤ → List ℤ) where
  module _ (points : List LatLon) (elevations : Option (List ℤ)) (details : Details)
      (barrier_spans : Option (List Span)) where
    abbrev pub steps_part : Weighted × List Finding
    steps_part = span_verdicts dist points details.road_class assess_road_class steps

    abbrev pub surface_part : Weighted × List Finding
    surface_part = span_verdicts dist points details.surface_spans assess_surface surface

    abbrev pub smooth_part : Weighted × List Finding
    smooth_part = span_verdicts dist points details.smoothness_spans assess_smoothness smoothness

    abbrev pub barrier_part : Weighted × List Finding
    barrier_part = span_verdicts dist points barrier_spans assess_barrier barrier

    abbrev pub all_findings : List Finding
    all_findings =
        steps_part.1
        ++ (surface_part.1
            ++ (smooth_part.1
                ++ (barrier_part.1 ++ incline_findings dist interp points elevations)))

    unfoldable pub assess_route : RouteAccessibility
    assess_route =
        let total = path_length_m dist points in
        let weighted = surface_part.0 ++ smooth_part.0 in
        let (definite, passed, failed) = totals weighted in
        let denominator = total * max 1 (sources surface_part.0 smooth_part.0) in
        if total == 0 || ltb (length points) 2
        then record {
          verdict = unknown;
          findings = [];
          coverage = 0;
          pass_fraction = 0;
          fail_fraction = 0;
          unknown_fraction = 10000;
          barriers_checked = is_some barrier_spans;
        }
        else record {
          verdict = verdict_of all_findings definite;
          findings = all_findings;
          coverage = fraction definite denominator;
          pass_fraction = fraction passed denominator;
          fail_fraction = fraction failed denominator;
          unknown_fraction =
              round_div ((denominator - min definite denominator) * 10000) denominator;
          barriers_checked = is_some barrier_spans;
        }
