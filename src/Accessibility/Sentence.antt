-- ===== src/Accessibility/Sentence.antt =====
-- `RouteAccessibility.sentence` and `is_blocked` of backend/accessibility.py: the parts of the
-- sentence, in the order in which it is read.
use meander.Common.{Bool, false, if◌then◌else◌, ltb, not, true, ℕ}
use meander.Common.Round.{round_div}
use meander.Accessibility.{fail}
use meander.Accessibility.Route.{RouteAccessibility}

-- "Accessibility data" or "Surface data"
pub data Subject : Type 0 where
  accessibility_data surface_data : Subject

-- "covers only …% of this route. Most of it is unverified. Do not rely on it.", "covers …% of this
-- route; treat the remainder as unverified." and "covers …% of this route."
pub data Body : Type 0 where
  do_not_rely treat_remainder plain : Body

-- `disclaims` stands for "Gates and stiles were not checked."
pub record Sentence : Type 0 where
  pub subject : Subject
  pub body : Body
  pub percent : ℕ
  pub disclaims : Bool

-- VERY_LOW_CONFIDENCE_THRESHOLD and LOW_CONFIDENCE_THRESHOLD, in ten-thousandths
abbrev pub very_low_confidence : ℕ
very_low_confidence = 3000

abbrev pub low_confidence : ℕ
low_confidence = 6000

unfoldable pub sentence : RouteAccessibility → Sentence
sentence a = record {
  subject = if a.barriers_checked then accessibility_data else surface_data;
  body =
      if ltb a.coverage very_low_confidence
      then do_not_rely
      else if ltb a.coverage low_confidence
      then treat_remainder
      else plain;
  percent = round_div a.coverage 100;
  disclaims = not a.barriers_checked;
}

unfoldable pub is_blocked : RouteAccessibility → Bool
is_blocked a = elim a.verdict [ fail ↦ true | _ ↦ false ]
