-- ===== src/App/Wire.antt =====
-- backend/models.py and backend/main.py: a route of the answer, and what it is scored from.
--
-- Scores and confidence are ten-thousandths, durations tenths of a minute, distances metres. An
-- elevation profile (`E`) and a rest stop (`R`) are passed through.
use meander.Common.{Bool, List, Option, ℕ}
use meander.Common.Int.{ℤ}
use meander.Common.Text.{Text}
use meander.Routing.{EffectiveMode, HumanMessage, PostPoint, Preset, PresetNote}
use meander.Accessibility.Spans.{Finding}
use meander.Accessibility.Route.{RouteAccessibility}
use meander.Accessibility.Sentence.{Sentence}

-- What `score_geometry` returns.
pub record RouteScores : Type 0 where
  pub scenic : Option ℕ
  pub air : Option ℕ
  pub quiet : Option ℕ
  pub shade_cover : Option ℕ

-- The scores of the answer; none is "not measured".
pub record Scores : Type 0 where
  pub scenic : Option ℕ
  pub air : Option ℕ
  pub shade : Option ℕ
  pub quiet : Option ℕ

pub data ScoringMethod : Type 0 where
  clip geometry_only placeholder : ScoringMethod

pub data RouteStatus : Type 0 where
  usable blocked : RouteStatus

pub data StatusNote : Type 0 where
  constraints_reject could_not_be_checked nothing_found_but_little_recorded : StatusNote
  preset : PresetNote → StatusNote
  unroutable : HumanMessage → StatusNote

pub data ConfidenceNote : Type 0 where
  synthetic unassessed : ConfidenceNote
  assessed : Sentence → ConfidenceNote

-- Tenths of a metre and hundredths of a minute.
pub record Step : Type 0 where
  pub text : Text
  pub distance_m : ℤ
  pub duration_min : ℤ
  pub street_name : Option Text
  pub sign : ℤ
  pub interval : ℤ × ℤ

pub record Route (E R : Type 0) : Type 0 where
  pub id : Preset
  pub status : RouteStatus
  pub geometry : List PostPoint
  pub duration_min : ℕ
  pub distance_m : ℕ
  pub mode : EffectiveMode
  pub scores : Scores
  pub scoring_method : ScoringMethod
  pub confidence : ℕ
  pub blockers : List Finding
  pub elevation : Option E
  pub rest_stops : Option (List R)
  pub steps : List Step
  pub synthetic_upstream : Bool
  pub confidence_note : Option ConfidenceNote
  pub status_note : Option StatusNote
  pub enrichment_pending : Bool
  pub narration : Option Text

pub record Assessment (E : Type 0) : Type 0 where
  pub scores : Option RouteScores
  pub access : Option RouteAccessibility
  pub clip_score : Option ℕ
  pub elevation : Option E

-- What the context of a request says of every route in it.
pub record Measured : Type 0 where
  pub air : Option ℕ
  pub shade_need : Option ℕ
