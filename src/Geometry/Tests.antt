-- ===== src/Geometry/Tests.antt =====
-- backend/geometry.py: the scores of a short path, half of it tagged.
use meander.Common.{List, [], arith, none, refl, some, ℕ, ◌∷◌, ◌≡◌}
use meander.Common.Text.{codes, member, replace_char, strip, upper}
use meander.Common.Sort.{keep}
use meander.Common.Int.{pos}
use meander.Geometry.{LatLon, clamp_index, segment_lengths_m}
use meander.Geometry.Tables.{road_class_naturalness}
use meander.Geometry.Scoring.{
  TagSpan, add_spans, add_value, entry, mean_of, normalise_tag, score_spans, span_length, value_in,
  weighted_tag_score,
}
use meander.Geometry.Route.{TagDetails, score_geometry}
use meander.Geometry.Scores.{is_scored, untagged_never_scores}
use meander.Geometry.Bounds.{IsBounded, score_geometry-IsBounded}

abbrev point_at : ℕ → LatLon
point_at n = record { lat = pos n; lon = pos 0 }

abbrev apart : LatLon → LatLon → ℕ
apart a b = 100000

abbrev two_stretches : List LatLon
two_stretches = point_at 0 ∷ point_at 1 ∷ point_at 2 ∷ []

abbrev tagged : List TagSpan
tagged =
    record { start = pos 0; stop = pos 1; value = codes " path" }
    ∷ record { start = pos 1; stop = pos 2; value = codes "missing" }
    ∷ []

-- The tagged half scores 1, and is half of the path.
tag_test : weighted_tag_score apart two_stretches (some tagged) road_class_naturalness ≡ record {
  score = some (record { num = 10000000; den = 10000000 });
  coverage = record { num = 100000; den = 200000 };
}
unfolding weighted_tag_score score_spans segment_lengths_m mean_of add_spans add_value value_in
    member normalise_tag strip replace_char upper entry span_length clamp_index
tag_test = refl

untagged_never_scores_example :
    weighted_tag_score apart two_stretches (some tagged) road_class_naturalness
    ≡ weighted_tag_score apart two_stretches
        (some (keep (is_scored road_class_naturalness) tagged))
        road_class_naturalness
untagged_never_scores_example =
    untagged_never_scores apart two_stretches tagged road_class_naturalness

abbrev path_details : TagDetails
path_details = record { road_class = some tagged; surface = none; road_environment = none }

score_geometry-IsBounded_example : IsBounded (
    score_geometry apart
      (λ points. 9000)
      (λ heights. none)
      two_stretches
      []
      path_details
      (some (record { num = 1; den = 2 })))
score_geometry-IsBounded_example =
    score_geometry-IsBounded apart (λ points. 9000) (λ heights. none) two_stretches [] path_details
      (some (record { num = 1; den = 2 })) (omega arith, omega arith)
