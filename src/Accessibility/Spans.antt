-- ===== src/Accessibility/Spans.antt =====
-- `_span_verdicts` of backend/accessibility.py: one constraint over the spans of one path detail.
use meander.Geometry.{LatLon, clamp_index, cumulative_distance_m, segment_lengths_m, slice, sum}
use meander.Common.{
  Bool, List, Option, [], get_elem?, if◌then◌else◌, length, map, max, min, none, some, ℕ, ◌-◌, ◌==◌,
  ◌∷◌,
}
use meander.Common.Round.{round_div}
use meander.Common.Text.{Text, codes, lower_text, replace_char}
use meander.Common.Int.{pos, ℤ}
use meander.Accessibility.{Value, Verdict, fail, pass, unknown}

pub data FindingType : Type 0 where
  steps surface smoothness barrier incline : FindingType

-- The sentence of a finding: for a tag its value in words; for a gradient its height in millimetres
-- over one or two windows, and whether it goes up.
pub data Description : Type 0 where
  tagged : FindingType → Text → Description
  steep : ℕ → Bool → Description
  sustained : ℕ → Description

pub record Finding : Type 0 where
  pub type : FindingType
  pub at : LatLon
  pub description : Description
  pub at_m : ℕ

-- A span of a path detail. A barrier span carries the node's own coordinates, and may carry its
-- distance along the route.
pub record Span : Type 0 where
  pub start : ℤ
  pub stop : ℤ
  pub value : Value
  pub node : Option (LatLon × Option ℕ)

-- str(value).lower().replace("_", " ")
unfoldable pub in_words : Value → Text
unfolding lower_text replace_char
in_words none = codes "none"
in_words (some value) = map (replace_char b'_' b' ') (lower_text value)

abbrev pub origin : LatLon
origin = record { lat = pos 0; lon = pos 0 }

-- points[i], where i is in range
abbrev pub get_or {ℓ} : {A : Type ℓ} → List A → ℕ → A → A
get_or xs i d = elim (get_elem? xs i) [ none ↦ d | some x ↦ x ]

abbrev pub Weighted : Type 0
Weighted = List (ℕ × Verdict)

-- The first segment of a span, and one past its last.
unfoldable pub span_lo : Span → ℕ → ℕ
unfolding clamp_index
span_lo s n = clamp_index s.start n

unfoldable pub span_hi : Span → ℕ → ℕ
unfolding clamp_index span_lo
span_hi s n = max (span_lo s n) (clamp_index s.stop n)

unfoldable pub span_length : List ℕ → Span → ℕ
unfolding span_lo span_hi
span_length lengths s =
    sum (slice (span_lo s (length lengths)) (span_hi s (length lengths)) lengths)

-- Where a failing span's finding stands: the node's own point, or the span's first vertex.
unfoldable pub finding_of : FindingType → List LatLon → List ℕ → ℕ → Span → Finding
unfolding in_words
finding_of type points cum lo s = record {
  type = type;
  at = elim s.node [ none ↦ get_or points (min lo (length points - 1)) origin | some (p, m) ↦ p ];
  description = tagged type (in_words s.value);
  at_m =
      round_div
        (elim s.node [
          | none ↦ get_or cum (min lo (length cum - 1)) 0
          | some (p, none) ↦ get_or cum (min lo (length cum - 1)) 0
          | some (p, some m) ↦ m
        ])
        1000;
}

module _ (points : List LatLon) (lengths cum : List ℕ) (check : Value → Verdict)
    (type : FindingType) where
  -- The body of the loop.
  unfoldable pub add_span : Span → Weighted × List Finding → Weighted × List Finding
  unfolding finding_of
  add_span s (weighted, findings) =
      if span_length lengths s == 0 then (weighted, findings) else elim (check s.value) [
        | pass ↦ ((span_length lengths s, pass) ∷ weighted, findings)
        | unknown ↦ ((span_length lengths s, unknown) ∷ weighted, findings)
        | fail ↦ (
          (span_length lengths s, fail) ∷ weighted,
          finding_of type points cum (span_lo s (length lengths)) s ∷ findings,
        )
      ]

  unfoldable pub span_loop : List Span → Weighted × List Finding
  span_loop [] = ([], [])
  span_loop (s ∷ spans) = add_span s (span_loop spans)

unfoldable pub span_verdicts :
    (LatLon → LatLon → ℕ)
    → List LatLon
    → Option (List Span)
    → (Value → Verdict)
    → FindingType
    → Weighted × List Finding
unfolding segment_lengths_m cumulative_distance_m
span_verdicts dist points none check type = ([], [])
span_verdicts dist points (some spans) check type =
    let lengths = segment_lengths_m dist points in
    if length lengths == 0
    then ([], [])
    else span_loop points lengths (cumulative_distance_m dist points) check type spans
