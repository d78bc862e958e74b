-- ===== src/Accessibility/Sums.antt =====
-- Lengths along a route and of its stretches (backend/geometry.py), and what the loop over the spans
-- of backend/accessibility.py adds up.
use meander.Geometry.{LatLon, segment_lengths_m, sum}
use meander.Common.{
  Among, List, [], arith, drop, inl, inr, length, refl, suc, take, zero, ℕ, ◌++◌, ◌+◌, ◌-◌, ◌<◌,
  ◌∷◌, ◌≡◌, ◌≢◌, ◌≤◌, ◌⊎◌,
}
use meander.Accessibility.{Value, Verdict, fail, pass, unknown}
use meander.Accessibility.Spans.{
  Finding, FindingType, Span, Weighted, add_span, span_hi, span_length, span_lo, span_loop,
}
use meander.Accessibility.Route.{totals}

sum-take-le : (n : ℕ) (xs : List ℕ) → sum (take n xs) ≤ sum xs
sum-take-le zero xs = omega arith
sum-take-le (suc n) [] = omega arith
sum-take-le (suc n) (x ∷ xs) = omega (arith, sum-take-le n xs)

sum-drop-le : (n : ℕ) (xs : List ℕ) → sum (drop n xs) ≤ sum xs
sum-drop-le zero xs = omega arith
sum-drop-le (suc n) [] = omega arith
sum-drop-le (suc n) (x ∷ xs) = omega (arith, sum-drop-le n xs)

pub span_length-le : (lengths : List ℕ) (s : Span) → span_length lengths s ≤ sum lengths
unfolding span_length
span_length-le lengths s =
    let lo = span_lo s (length lengths) in
    omega (
      arith,
      sum-take-le (span_hi s (length lengths) - lo) (drop lo lengths),
      sum-drop-le lo lengths,
    )

pub length-segment_lengths_m :
    (dist : LatLon → LatLon → ℕ) (points : List LatLon)
    → length (segment_lengths_m dist points) ≡ length points - 1
unfolding segment_lengths_m
length-segment_lengths_m dist [] = refl
length-segment_lengths_m dist (p ∷ []) = refl
length-segment_lengths_m dist (p ∷ q ∷ points) =
    omega (arith, length-segment_lengths_m dist (q ∷ points))

-- No length is in a route of no length.
pub lengths_of_sum : (lengths : List ℕ) → 0 < sum lengths → 0 < length lengths
lengths_of_sum [] h = h
lengths_of_sum (x ∷ xs) h = omega arith

pub totals-append :
    (v w : Weighted)
    → ((totals (v ++ w)).0 ≡ (totals v).0 + (totals w).0)
      × ((totals (v ++ w)).1 ≡ (totals v).1 + (totals w).1)
      × ((totals (v ++ w)).2 ≡ (totals v).2 + (totals w).2)
unfolding totals
totals-append [] w = omega arith
totals-append ((n, pass) ∷ v) w = let h = totals-append v w in omega arith
totals-append ((n, fail) ∷ v) w = let h = totals-append v w in omega arith
totals-append ((n, unknown) ∷ v) w = totals-append v w

-- What is definite either passed or failed.
pub totals_split : (w : Weighted) → (totals w).0 ≡ (totals w).1 + (totals w).2
unfolding totals
totals_split [] = refl
totals_split ((n, pass) ∷ w) = omega (arith, totals_split w)
totals_split ((n, fail) ∷ w) = omega (arith, totals_split w)
totals_split ((n, unknown) ∷ w) = totals_split w

module _ (points : List LatLon) (lengths cum : List ℕ) (check : Value → Verdict)
    (type : FindingType) where
  abbrev loop : List Span → Weighted × List Finding
  loop = span_loop points lengths cum check type

  add_span_keeps :
      (s : Span) (r : Weighted × List Finding)
      → r.1 ≢ []
      → (add_span points lengths cum check type s r).1 ≢ []
  unfolding add_span
  add_span_keeps s r h = ground arith

  add_span_fail :
      (s : Span) (r : Weighted × List Finding)
      → check s.value ≡ fail
      → 0 < span_length lengths s
      → (add_span points lengths cum check type s r).1 ≢ []
  unfolding add_span
  add_span_fail s r bad long = ground arith

  add_span_clear :
      (s : Span) (r : Weighted × List Finding)
      → (add_span points lengths cum check type s r).1 ≡ []
      → (r.1 ≡ [])
        × (((totals (add_span points lengths cum check type s r).0).0 ≡ (totals r.0).0)
            ⊎ ((check s.value ≡ pass) × (0 < span_length lengths s)))
  unfolding add_span totals
  add_span_clear s r h = ground arith

  -- A failing span of positive length leaves a finding.
  pub fail_finding :
      (s : Span) (spans : List Span)
      → Among s spans
      → check s.value ≡ fail
      → 0 < span_length lengths s
      → (loop spans).1 ≢ []
  unfolding span_loop
  fail_finding s [] m bad long = absurd m
  fail_finding s (x ∷ spans) (inl e) bad long = add_span_fail x (loop spans) (rw e bad) (rw e long)
  fail_finding s (x ∷ spans) (inr m) bad long =
      add_span_keeps x (loop spans) (fail_finding s spans m bad long)

  -- With no finding, a definite length comes from a span that passed.
  pub pass_evidence :
      (spans : List Span)
      → (loop spans).1 ≡ []
      → 0 < (totals (loop spans).0).0
      → (s : Span) × Among s spans × (check s.value ≡ pass) × (0 < span_length lengths s)
  unfolding span_loop
  pass_evidence [] clear long = absurd (unfold totals in omega arith)
  pass_evidence (x ∷ spans) clear long =
      let (rest, step) = add_span_clear x (loop spans) clear in
      elim step [
        | inl same ↦
            let (s, m, good, far) = pass_evidence spans rest (omega arith) in (s, inr m, good, far)
        | inr (good, far) ↦ (x, inl refl, good, far)
      ]
