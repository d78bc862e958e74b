-- ===== src/App/Scored.antt =====
-- backend/main.py: `_assess` and `_scored_route`, with what they say of a route.
--
-- Scores and confidence are ten-thousandths. An elevation profile (`E`) and a rest stop (`R`) are
-- passed through. A stage that `_guard` runs is a function that gives none where it raises.
use meander.App.Wire.{
  Assessment, ConfidenceNote, Measured, Route, RouteScores, Scores, ScoringMethod, StatusNote, Step,
  assessed, blocked, clip, constraints_reject, could_not_be_checked, geometry_only,
  nothing_found_but_little_recorded, placeholder, preset, synthetic, unassessed, unroutable, usable,
}
use meander.Common.{
  Bool, List, Option, [], false, if◌then◌else◌, leb, map, none, some, suc, true, ℕ, ◌*◌, ◌+◌, ◌-◌,
}
use meander.Common.Round.{round_div}
use meander.Common.Int.{negsuc, pos, sub_ℕ, ℤ}
use meander.Routing.{
  EffectiveMode, HumanMessage, Preset, RawRoute, RouteStep, accessible, to_post_point,
}
use meander.Accessibility.Spans.{Finding, Span}
use meander.Accessibility.Route.{RouteAccessibility}
use meander.Accessibility.Sentence.{is_blocked, sentence, very_low_confidence}

-- measured * (0.55 + 0.45 * proxy), rounded to four places
unfoldable pub blend_air : Option ℕ → Option ℕ → Option ℕ
blend_air none proxy = proxy
blend_air (some measured) none = some measured
blend_air (some measured) (some proxy) =
    some (round_div (measured * (55000000 + 4500 * proxy)) 100000000)

-- 1 - need * (1 - cover), within 0 and 1, rounded to four places
unfoldable pub blend_shade : Option ℕ → Option ℕ → Option ℕ
blend_shade none cover = none
blend_shade (some need) none = none
blend_shade (some need) (some cover) = some (round_div (100000000 - need * (10000 - cover)) 10000)

-- What is said of the accessible route when almost nothing along it is recorded.
unfoldable pub for_access : Preset → Option RouteAccessibility → Option StatusNote
for_access accessible (some access) =
    if leb very_low_confidence access.coverage
    then none
    else if access.barriers_checked
    then some nothing_found_but_little_recorded
    else some could_not_be_checked
for_access _ _ = none

unfoldable pub status_note :
    Preset → Bool → Option RouteAccessibility → RawRoute → Option StatusNote
status_note id is_rejected access raw =
    if is_rejected
    then some constraints_reject
    else elim raw.preset_note [ some note ↦ some (preset note) | none ↦ for_access id access ]

-- Round half to even on either side of zero.
unfoldable pub round_ℤ : ℤ → ℕ → ℤ
round_ℤ (pos n) d = pos (round_div n d)
round_ℤ (negsuc n) d = sub_ℕ 0 (round_div (suc n) d)

unfoldable pub step_of : RouteStep → Step
step_of st = record {
  text = st.text;
  distance_m = round_ℤ st.distance_m 100;
  duration_min = round_ℤ st.duration_ms 600;
  street_name = st.street_name;
  sign = st.sign;
  interval = st.interval;
}

-- The stages of an assessment. `clip_term` gives a term whose score may be missing.
pub record Stages (E : Type 0) : Type 0 where
  pub clip_term : RawRoute → Option (Option ℕ)
  pub score_geometry : RawRoute → Option ℕ → Option RouteScores
  pub assess_route : RawRoute → Option (List Span) → Option RouteAccessibility
  pub build_profile : RawRoute → Option E

unfoldable pub score_of : Option (Option ℕ) → Option ℕ
score_of none = none
score_of (some score) = score

unfoldable pub method_of : Bool → Option RouteScores → Option ℕ → ScoringMethod
method_of true scores clip_score = placeholder
method_of false none clip_score = placeholder
method_of false (some s) (some c) = clip
method_of false (some s) none = geometry_only

-- blocked = route_id == "accessible" and access is not None and access.is_blocked
unfoldable pub rejects : Preset → Option RouteAccessibility → Bool
rejects accessible (some access) = is_blocked access
rejects _ _ = false

abbrev pub findings_of : Option RouteAccessibility → List Finding
findings_of none = []
findings_of (some access) = access.findings

unfoldable pub confidence_of : Bool → Option RouteAccessibility → ℕ
confidence_of true access = 0
confidence_of false none = 0
confidence_of false (some access) = access.coverage

unfoldable pub confidence_note_of : Bool → Option RouteAccessibility → ConfidenceNote
confidence_note_of true access = synthetic
confidence_note_of false none = unassessed
confidence_note_of false (some access) = assessed (sentence access)

unfoldable pub scores_of : Option RouteScores → Measured → Scores
scores_of none m = record {
  scenic = none;
  air = blend_air m.air none;
  shade = blend_shade m.shade_need none;
  quiet = none;
}
scores_of (some s) m = record {
  scenic = s.scenic;
  air = blend_air m.air s.air;
  shade = blend_shade m.shade_need s.shade_cover;
  quiet = s.quiet;
}

module _ {E : Type 0} where
  unfoldable pub assess : Stages E → RawRoute → Assessment E
  assess stages raw = record {
    scores = stages.score_geometry raw (score_of (stages.clip_term raw));
    access = stages.assess_route raw none;
    clip_score = score_of (stages.clip_term raw);
    elevation = stages.build_profile raw;
  }

  unfoldable pub with_access : Assessment E → Option RouteAccessibility → Assessment E
  with_access a none = a
  with_access a (some access) = record {
    scores = a.scores;
    access = some access;
    clip_score = a.clip_score;
    elevation = a.elevation;
  }

  unfoldable pub reassess_with_barriers :
      Stages E → Assessment E → RawRoute → List Span → Assessment E
  reassess_with_barriers stages a raw spans = with_access a (stages.assess_route raw (some spans))

module _ {E R : Type 0} where
  -- Durations in tenths of a minute, distances in metres.
  unfoldable pub scored_route :
      Preset → RawRoute → Option (List R) → Measured → Assessment E → Bool → Route E R
  scored_route id raw rest_stops m a pending = record {
    id = id;
    status = if rejects id a.access then blocked else usable;
    geometry = map to_post_point raw.points;
    duration_min = round_div raw.duration 6000;
    distance_m = round_div raw.distance_m 1000;
    mode = raw.mode;
    scores = scores_of a.scores m;
    scoring_method = method_of raw.synthetic_upstream a.scores a.clip_score;
    confidence = confidence_of raw.synthetic_upstream a.access;
    blockers = findings_of a.access;
    elevation = a.elevation;
    rest_stops = rest_stops;
    steps = map step_of raw.steps;
    synthetic_upstream = raw.synthetic_upstream;
    confidence_note = some (confidence_note_of raw.synthetic_upstream a.access);
    status_note = status_note id (rejects id a.access) a.access raw;
    enrichment_pending = pending;
    narration = none;
  }

  unfoldable pub blocked_route : Preset → EffectiveMode → HumanMessage → Route E R
  blocked_route id mode note = record {
    id = id;
    status = blocked;
    geometry = [];
    duration_min = 0;
    distance_m = 0;
    mode = mode;
    scores = record { scenic = none; air = none; shade = none; quiet = none };
    scoring_method = placeholder;
    confidence = 0;
    blockers = [];
    elevation = none;
    rest_stops = none;
    steps = [];
    synthetic_upstream = false;
    confidence_note = none;
    status_note = some (unroutable note);
    enrichment_pending = false;
    narration = none;
  }
