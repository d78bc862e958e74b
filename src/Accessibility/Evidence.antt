-- ===== src/Accessibility/Evidence.antt =====
-- What one constraint's spans leave behind (`_span_verdicts`, backend/accessibility.py), and what a
-- verdict says of the findings and of the definite length.
use meander.Geometry.{LatLon, cumulative_distance_m, segment_lengths_m}
use meander.Common.{
  Among, Bool-cases, List, Option, [], arith, false, inl, inr, length, none, refl, some, true, ℕ,
  ◌++◌, ◌+◌, ◌<◌, ◌==◌, ◌∷◌, ◌≡◌, ◌≢◌, ◌⊎◌,
}
use meander.Accessibility.{
  Value, Verdict, acceptable_surfaces, assess_road_class, assess_smoothness, assess_surface, fail,
  good_smoothness, is_among, is_unknown, pass, unknown,
}
use meander.Accessibility.Spans.{Finding, FindingType, Span, span_length, span_verdicts}
use meander.Accessibility.Route.{RouteAccessibility, totals, verdict_of}
use meander.Accessibility.Sentence.{is_blocked}
use meander.Accessibility.Sums.{fail_finding, lengths_of_sum, pass_evidence, span_length-le}

-- A value that passed is tagged, and is one of the values accepted for its kind.
pub pass_is_tagged :
    (v : Value)
    → (assess_surface v ≡ pass → (is_unknown v ≡ false) × (is_among acceptable_surfaces v ≡ true))
      × (assess_smoothness v ≡ pass → (is_unknown v ≡ false) × (is_among good_smoothness v ≡ true))
      × (assess_road_class v ≢ pass)
unfolding assess_surface assess_smoothness assess_road_class
pass_is_tagged v = ((λ h. ground arith), (λ h. ground arith), λ h. ground arith)

module _ (dist : LatLon → LatLon → ℕ) (points : List LatLon) where
  abbrev pub lengths : List ℕ
  lengths = segment_lengths_m dist points

  -- The span is among the spans of a detail, and covers a part of the route that has a length.
  abbrev pub Covers : Span → Option (List Span) → Type 0
  Covers s none = ⊥
  Covers s (some spans) = Among s spans × (0 < span_length lengths s)

  some_length : (s : Span) → 0 < span_length lengths s → (length lengths == 0) ≡ false
  some_length s h =
      let some_part : 0 < length lengths =
        lengths_of_sum lengths (omega (arith, span_length-le lengths s)) in
      ground arith

  none_definite : 0 < (totals []).0 → ⊥
  unfolding totals
  none_definite h = omega arith

  pub verdicts_fail :
      (spans : Option (List Span)) (check : Value → Verdict) (type : FindingType) (s : Span)
      → Covers s spans
      → check s.value ≡ fail
      → (span_verdicts dist points spans check type).1 ≢ []
  unfolding span_verdicts
  verdicts_fail none check type s c bad = absurd c
  verdicts_fail (some spans) check type s (m, long) bad = rw (some_length s long) (
      fail_finding points lengths (cumulative_distance_m dist points) check type s spans m bad long)

  pub verdicts_pass :
      (spans : Option (List Span)) (check : Value → Verdict) (type : FindingType)
      → (span_verdicts dist points spans check type).1 ≡ []
      → 0 < (totals (span_verdicts dist points spans check type).0).0
      → (s : Span) × Covers s spans × (check s.value ≡ pass)
  unfolding span_verdicts
  verdicts_pass none check type clear long = absurd (unfold totals in omega arith)
  verdicts_pass (some spans) check type clear long = elim (Bool-cases (length lengths == 0)) [
    | inl short ↦ absurd (none_definite (rw short at long))
    | inr far ↦
        let (s, m, good, far_enough) =
          pass_evidence points lengths (cumulative_distance_m dist points) check type spans
            (rw far at clear) (rw far at long) in
        (s, (m, far_enough), good)
  ]

  pub Covers-length :
      (spans : Option (List Span)) (s : Span) → Covers s spans → 0 < span_length lengths s
  Covers-length none s c = absurd c
  Covers-length (some spans) s (m, far) = far

append_nil {ℓ} : {A : Type ℓ} (xs ys : List A) → xs ++ ys ≡ [] → (xs ≡ []) × (ys ≡ [])
append_nil [] ys h = (refl, h)
append_nil (x ∷ xs) ys h = absurd (ground arith)

pub verdict_of-fail : (fs : List Finding) (d : ℕ) → fs ≢ [] → verdict_of fs d ≡ fail
unfolding verdict_of
verdict_of-fail [] d h = absurd (h refl)
verdict_of-fail (f ∷ fs) d h = refl

pub verdict_of-pass : (fs : List Finding) (d : ℕ) → verdict_of fs d ≡ pass → (fs ≡ []) × (0 < d)
unfolding verdict_of
verdict_of-pass [] d h = (refl, ground arith)
verdict_of-pass (f ∷ fs) d h = absurd (ground arith)

pub parts_nil {ℓ} :
    {A : Type ℓ} (a b c d e : List A)
    → a ++ (b ++ (c ++ (d ++ e))) ≡ []
    → (a ≡ []) × (b ≡ []) × (c ≡ []) × (d ≡ []) × (e ≡ [])
parts_nil a b c d e h =
    let (ha, h1) = append_nil a (b ++ (c ++ (d ++ e))) h in
    let (hb, h2) = append_nil b (c ++ (d ++ e)) h1 in
    let (hc, h3) = append_nil c (d ++ e) h2 in
    let (hd, he) = append_nil d e h3 in (ha, hb, hc, hd, he)

pub four_nil {ℓ} :
    {A : Type ℓ} (a b c d : List A) → a ≡ [] → b ≡ [] → c ≡ [] → d ≡ [] → a ++ (b ++ (c ++ d)) ≡ []
four_nil a b c d ha hb hc hd = simp (ha, hb, hc, hd)

pub unknown_not_pass : unknown ≢ pass
unknown_not_pass h = ground arith

pub blocked_of : (r : RouteAccessibility) → r.verdict ≡ fail → is_blocked r ≡ true
unfolding is_blocked
blocked_of r h = rw h refl

pub positive_part : (m n : ℕ) → 0 < m + n → (0 < m) ⊎ (0 < n)
positive_part m n h = ground arith

pub verdict_of-clear : (fs : List Finding) (d : ℕ) → fs ≡ [] → 0 < d → verdict_of fs d ≡ pass
unfolding verdict_of
verdict_of-clear [] d e h = ground arith
verdict_of-clear (f ∷ fs) d e h = absurd (ground arith)
