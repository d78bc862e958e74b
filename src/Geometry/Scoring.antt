-- ===== src/Geometry/Scoring.antt =====
-- backend/geometry.py: `weighted_tag_score`, the terms of a score, and `score_geometry`.
--
-- A float is a fraction of natural numbers, exact up to the last `round(…, 4)`, whose results are
-- ten-thousandths. The sum of `turn_angles_deg`, in millidegrees, and numpy's standard deviation, in
-- millimetres and none where a height is not finite, are the parameters `turning` and `std`.
use meander.Common.{
  List, Option, String, [], if◌then◌else◌, length, ltb, map, max, min, none, some, ℕ, ◌*◌, ◌+◌, ◌-◌,
  ◌==◌, ◌∷◌,
}
use meander.Common.Text.{Text, codes, member, replace_char, strip, text_eq, upper}
use meander.Common.Round.{round_div}
use meander.Common.Int.{ℤ}
use meander.Geometry.{LatLon, clamp_index, segment_lengths_m, slice, sum}
use meander.Geometry.Tables.{Table}

-- num / den
pub record Ratio : Type 0 where
  pub num : ℕ
  pub den : ℕ

pub record TagSpan : Type 0 where
  pub start : ℤ
  pub stop : ℤ
  pub value : Text

pub record WeightedTagScore : Type 0 where
  pub score : Option Ratio
  pub coverage : Ratio

-- UNKNOWN_TAG_VALUES
abbrev pub unknown_tag_values : List String
unknown_tag_values = "" ∷ "MISSING" ∷ "OTHER" ∷ "UNKNOWN" ∷ "NONE" ∷ []

unfoldable pub normalise_tag : Text → Text
normalise_tag value = map (replace_char 45 95) (map upper (strip value))

unfoldable pub entry : Text → Table → Option ℕ
entry key [] = none
entry key ((k, v) ∷ table) = if text_eq key (codes k) then some v else entry key table

-- The value that a tag scores, for one that is known and in the table.
unfoldable pub value_in : Table → Text → Option ℕ
value_in table value =
    let key = normalise_tag value in if member key unknown_tag_values then none else entry key table

abbrev pub zero_ratio : Ratio
zero_ratio = record { num = 0; den = 1 }

abbrev pub unscored : WeightedTagScore
unscored = record { score = none; coverage = zero_ratio }

-- lengths[lo:hi].sum(), of the span's ends within the lengths
unfoldable pub span_length : List ℕ → TagSpan → ℕ
span_length lengths s =
    let lo = clamp_index s.start (length lengths) in
    sum (slice lo (max lo (clamp_index s.stop (length lengths))) lengths)

-- A span's length and value, added to the scored length and the weighted sum.
unfoldable pub add_value : Option ℕ → ℕ → ℕ × ℕ → ℕ × ℕ
add_value none n sums = sums
add_value (some v) n (scored, weighted) = (scored + n, weighted + v * n)

unfoldable pub add_spans : Table → List ℕ → List TagSpan → ℕ × ℕ → ℕ × ℕ
add_spans table lengths [] sums = sums
add_spans table lengths (s ∷ spans) sums =
    add_spans table lengths spans (add_value (value_in table s.value) (span_length lengths s) sums)

-- The mean, and the share of the route that it is based on.
unfoldable pub mean_of : ℕ → ℕ × ℕ → WeightedTagScore
mean_of total (scored, weighted) = if scored == 0 then unscored else record {
  score = some (record { num = weighted; den = 100 * scored });
  coverage = record { num = min scored total; den = total };
}

unfoldable pub score_spans : Table → List ℕ → List TagSpan → WeightedTagScore
score_spans table lengths [] = unscored
score_spans table lengths (s ∷ spans) =
    if sum lengths == 0
    then unscored
    else mean_of (sum lengths) (add_spans table lengths (s ∷ spans) (0, 0))

unfoldable pub weighted_tag_score :
    (LatLon → LatLon → ℕ) → List LatLon → Option (List TagSpan) → Table → WeightedTagScore
weighted_tag_score dist points none table = unscored
weighted_tag_score dist points (some spans) table =
    score_spans table (segment_lengths_m dist points) spans

-- The weighted mean of two terms; the weights are hundredths.
unfoldable pub blend_terms : Option Ratio → ℕ → Option Ratio → ℕ → Option Ratio
blend_terms none v second w = second
blend_terms (some a) v none w = some a
blend_terms (some a) v (some b) w =
    some (record { num = a.num * v * b.den + b.num * w * a.den; den = a.den * b.den * (v + w) })

-- canopy * (1 - coverage) + score * coverage, where the coverage is at most 1
unfoldable pub blend_cover : Option Ratio → WeightedTagScore → Option Ratio
blend_cover none cover = cover.score
blend_cover (some canopy) cover = elim cover.score [
  | none ↦ some canopy
  | some s ↦ some (record {
    num =
        canopy.num * (cover.coverage.den - cover.coverage.num) * s.den
        + s.num * cover.coverage.num * canopy.den;
    den = canopy.den * s.den * cover.coverage.den;
  })
]

unfoldable pub clip : ℕ → ℕ → Ratio
clip n d = record { num = min n d; den = d }

-- 45 degrees in 100 m count as 1; a route below 50 m has no curves.
unfoldable pub curviness_of : (turning distance : ℕ) → Ratio
curviness_of turning distance =
    if ltb distance 50000 then zero_ratio else clip (100 * turning) (45 * distance)

unfoldable pub elevation_variance_of : (List ℤ → Option ℕ) → List ℤ → Option Ratio
elevation_variance_of std elevations =
    if ltb (length elevations) 3
    then none
    else elim (std elevations) [ none ↦ none | some s ↦ some (clip s 15000) ]

abbrev pub Terms : Type 0
Terms = List (ℕ × Ratio)

abbrev pub term : ℕ → Option Ratio → Terms
term w none = []
term w (some v) = (w, v) ∷ []

unfoldable pub weight_total : Terms → ℕ
weight_total [] = 0
weight_total ((w, v) ∷ terms) = w + weight_total terms

-- sum(w * v for w, v in terms)
unfoldable pub weighted_sum : Terms → Ratio
weighted_sum [] = zero_ratio
weighted_sum ((w, v) ∷ terms) =
    let rest = weighted_sum terms in
    record { num = w * v.num * rest.den + rest.num * v.den; den = v.den * rest.den }

-- round(x, 4), and round(clip(x, 0, 1), 4)
unfoldable pub round_ratio : Ratio → ℕ
round_ratio r = round_div (10000 * r.num) r.den

unfoldable pub round_clipped : Ratio → ℕ
round_clipped r = round_ratio (clip r.num r.den)

unfoldable pub scenic_of : Terms → ℕ
scenic_of terms =
    let s = weighted_sum terms in
    round_clipped (record { num = s.num; den = s.den * weight_total terms })
