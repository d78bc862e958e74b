-- ===== src/Geometry/Scores.antt =====
-- What the scores of backend/geometry.py depend on, and their bounds.
use meander.Common.{
  All, Bool, Bool-cases, List, Option, Option-cases, [], ap, arith, false, if_ind, if◌then◌else◌,
  inl, inr, none, not, refl, some, sym, true, ℕ, ◌&&◌, ◌*◌, ◌<◌, ◌==◌, ◌||◌, ◌∙◌, ◌∷◌, ◌≡◌, ◌≤◌,
}
use meander.Common.Sort.{keep}
use meander.Common.Text.{Text, codes, member, text_eq}
use meander.Geometry.{LatLon, segment_lengths_m, sum}
use meander.Geometry.Tables.{Table}
use meander.Geometry.Scoring.{
  Ratio, TagSpan, WeightedTagScore, add_spans, add_value, entry, mean_of, normalise_tag,
  score_spans, span_length, unknown_tag_values, unscored, value_in, weighted_tag_score,
}

abbrev is_there : Option ℕ → Bool
is_there none = false
is_there (some v) = true

unfoldable pub is_listed : Text → Table → Bool
is_listed key [] = false
is_listed key ((k, v) ∷ table) = text_eq key (codes k) || is_listed key table

-- The span's tag is known and in the table.
abbrev pub is_scored : Table → TagSpan → Bool
is_scored table s =
    let key = normalise_tag s.value in not (member key unknown_tag_values) && is_listed key table

is_listed-entry : (key : Text) (table : Table) → is_there (entry key table) ≡ is_listed key table
unfolding entry is_listed
is_listed-entry key [] = refl
is_listed-entry key ((k, v) ∷ table) = elim (Bool-cases (text_eq key (codes k))) [
  | inl e ↦ rw e refl
  | inr e ↦ rw e (is_listed-entry key table)
]

abbrev has_value : Table → TagSpan → Bool
has_value table s = is_there (value_in table s.value)

-- Being in the table and known is what gives a value.
has_value-is_scored : (table : Table) (s : TagSpan) → has_value table s ≡ is_scored table s
unfolding value_in
has_value-is_scored table s =
    elim (Bool-cases (member (normalise_tag s.value) unknown_tag_values)) [
      | inl e ↦ rw e refl
      | inr e ↦ rw e (is_listed-entry (normalise_tag s.value) table)
    ]

keep-is_scored :
    (table : Table) (spans : List TagSpan)
    → keep (has_value table) spans ≡ keep (is_scored table) spans
unfolding keep
keep-is_scored table [] = refl
keep-is_scored table (s ∷ spans) =
    ap (λ b. if b then s ∷ keep (has_value table) spans else keep (has_value table) spans)
      (has_value-is_scored table s)
    ∙ ap (λ l. if is_scored table s then s ∷ l else l) (keep-is_scored table spans)

add_spans-keep :
    (table : Table) (lengths : List ℕ) (spans : List TagSpan) (sums : ℕ × ℕ)
    → add_spans table lengths spans sums
      ≡ add_spans table lengths (keep (has_value table) spans) sums
unfolding add_spans add_value keep
add_spans-keep table lengths [] sums = refl
add_spans-keep table lengths (s ∷ spans) sums =
    let n = span_length lengths s in
    let rest = keep (has_value table) spans in
    let added : Option ℕ → ℕ × ℕ = λ o. add_spans table lengths spans (add_value o n sums) in
    let kept : Option ℕ → ℕ × ℕ =
      λ o. add_spans table lengths (if is_there o then s ∷ rest else rest) sums in
    elim (Option-cases (value_in table s.value)) [
      | inl e ↦ ap added e ∙ add_spans-keep table lengths spans sums ∙ sym (ap kept e)
      | inr (v, e) ↦
          ap added e
          ∙ add_spans-keep table lengths spans (add_value (some v) n sums)
          ∙ sym (ap (λ o. add_spans table lengths rest (add_value o n sums)) e)
          ∙ sym (ap kept e)
    ]

score_spans_lem :
    (table : Table) (lengths : List ℕ) (spans : List TagSpan)
    → score_spans table lengths spans ≡ (
        if sum lengths == 0
        then unscored
        else mean_of (sum lengths) (add_spans table lengths spans (0, 0)))
unfolding score_spans add_spans mean_of
score_spans_lem table lengths [] =
    if_ind (λ (m : WeightedTagScore). unscored ≡ m) (sum lengths == 0) (λ e. refl) λ e. refl
score_spans_lem table lengths (s ∷ spans) = refl

-- A way whose tag is unknown, or not in the table, neither raises nor lowers a score, and adds nothing
-- to what the score is based on.
pub untagged_never_scores :
    (dist : LatLon → LatLon → ℕ) (points : List LatLon) (spans : List TagSpan) (table : Table)
    → weighted_tag_score dist points (some spans) table
      ≡ weighted_tag_score dist points (some (keep (is_scored table) spans)) table
unfolding weighted_tag_score
untagged_never_scores dist points spans table =
    let lengths = segment_lengths_m dist points in
    score_spans_lem table lengths spans
    ∙ ap (λ sums. if sum lengths == 0 then unscored else mean_of (sum lengths) sums)
        (add_spans-keep table lengths spans (0, 0)
          ∙ ap (λ l. add_spans table lengths l (0, 0)) (keep-is_scored table spans))
    ∙ sym (score_spans_lem table lengths (keep (is_scored table) spans))

-- A fraction between 0 and 1.
abbrev pub IsUnit : Ratio → Type 0
IsUnit r = (r.num ≤ r.den) × (0 < r.den)

abbrev pub AreUnit : Option Ratio → Type 0
AreUnit none = Unit
AreUnit (some r) = IsUnit r

-- A table of shares.
abbrev pub IsTable : Table → Type 0
IsTable table = All (λ e. e.1 ≤ 100) table

entry-le : (key : Text) (table : Table) (v : ℕ) → IsTable table → entry key table ≡ some v → v ≤ 100
unfolding entry
entry-le key [] v h e = absurd (ground arith)
entry-le key ((k, u) ∷ table) v h e = ground (arith, entry-le key table v h.1, h.0)

value_in-le :
    (table : Table) (value : Text) (v : ℕ) → IsTable table → value_in table value ≡ some v → v ≤ 100
unfolding value_in
value_in-le table value v h e = ground (arith, entry-le (normalise_tag value) table v h)

scaled : (v n : ℕ) → v ≤ 100 → v * n ≤ 100 * n
scaled v n h = grind arith

abbrev IsShare : ℕ × ℕ → Type 0
IsShare sums = sums.1 ≤ 100 * sums.0

add_value-IsShare :
    (o : Option ℕ) (n : ℕ) (sums : ℕ × ℕ)
    → ((v : ℕ) → o ≡ some v → v ≤ 100)
    → IsShare sums
    → IsShare (add_value o n sums)
unfolding add_value
add_value-IsShare none n sums h le = le
add_value-IsShare (some v) n sums h le = omega (arith, le, scaled v n (h v refl))

add_spans-IsShare :
    (table : Table) (lengths : List ℕ) (spans : List TagSpan) (sums : ℕ × ℕ)
    → IsTable table
    → IsShare sums
    → IsShare (add_spans table lengths spans sums)
unfolding add_spans
add_spans-IsShare table lengths [] sums h le = le
add_spans-IsShare table lengths (s ∷ spans) sums h le = add_spans-IsShare table lengths spans _ h (
    add_value-IsShare (value_in table s.value) (span_length lengths s) sums
      (λ v. value_in-le table s.value v h) le)

mean_of-AreUnit :
    (total : ℕ) (sums : ℕ × ℕ) → sums.1 ≤ 100 * sums.0 → AreUnit (mean_of total sums).score
unfolding mean_of
mean_of-AreUnit total sums le =
    if_ind (λ (m : WeightedTagScore). AreUnit m.score) (sums.0 == 0) (λ e. tt)
      λ e. (le, ground (arith, e))

mean_of-coverage : (total : ℕ) (sums : ℕ × ℕ) → 0 < total → IsUnit (mean_of total sums).coverage
unfolding mean_of
mean_of-coverage total sums h =
    if_ind (λ (m : WeightedTagScore). IsUnit m.coverage) (sums.0 == 0)
      (λ e. (omega arith, omega arith)) λ e. (omega arith, h)

abbrev pub IsMean : WeightedTagScore → Type 0
IsMean w = AreUnit w.score × IsUnit w.coverage

score_spans-IsMean :
    (table : Table) (lengths : List ℕ) (spans : List TagSpan)
    → IsTable table
    → IsMean (score_spans table lengths spans)
unfolding score_spans
score_spans-IsMean table lengths [] h = (tt, (omega arith, omega arith))
score_spans-IsMean table lengths (s ∷ spans) h =
    if_ind IsMean (sum lengths == 0) (λ e. (tt, (omega arith, omega arith)))
      λ e. (
        mean_of-AreUnit (sum lengths) (add_spans table lengths (s ∷ spans) (0, 0))
            (add_spans-IsShare table lengths (s ∷ spans) (0, 0) h (omega arith)),
        mean_of-coverage (sum lengths) (add_spans table lengths (s ∷ spans) (0, 0))
            (ground (arith, e)),
      )

pub weighted_tag_score-IsMean :
    (dist : LatLon → LatLon → ℕ) (points : List LatLon) (spans : Option (List TagSpan))
    (table : Table)
    → IsTable table
    → IsMean (weighted_tag_score dist points spans table)
unfolding weighted_tag_score
weighted_tag_score-IsMean dist points none table h = (tt, (omega arith, omega arith))
weighted_tag_score-IsMean dist points (some spans) table h =
    score_spans-IsMean table (segment_lengths_m dist points) spans h
