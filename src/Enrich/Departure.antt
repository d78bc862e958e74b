-- ===== src/Enrich/Departure.antt =====
-- backend/enrich.py: the light of an hour, `route_heading` and `best_departure`.
--
-- Instants are seconds in UTC. Angles are whole millidegrees, as `solar_position` rounds them; it is the
-- parameter `solar`, `bearing_deg` is `bearing`, and `sin` and `cos` give millionths. Air and cloud are
-- ten-thousandths. A score is exact, in units of 1 / (400 * 10 ^ 12).
use meander.Accessibility.Spans.{get_or, origin}
use meander.Geometry.{LatLon}
use meander.Common.{
  Bool, List, Option, [], false, if◌then◌else◌, leb, length, ltb, map, none, not, some, suc, zero,
  ℕ, ◌&&◌, ◌*◌, ◌+◌, ◌-◌, ◌/◌, ◌||◌, ◌∷◌,
}
use meander.Common.Int.{leb_ℤ, negsuc, pos, pos_part, sub_ℕ, ℤ}
use meander.Enrich.{Attempt, raised, returned}
use meander.Enrich.Series.{AirQuality}

pub record Sun : Type 0 where
  pub elevation : ℤ
  pub azimuth : ℕ

-- What the source takes from `math`, and its own formulas on floats.
pub record Sky : Type 0 where
  pub sin : ℤ → ℤ
  pub cos : ℤ → ℤ
  pub solar : ℕ → LatLon → Sun
  pub bearing : LatLon → LatLon → ℕ

-- DEPARTURE_STEP_MIN and DEPARTURE_HORIZON_H
abbrev pub departure_step_s : ℕ
departure_step_s = 15 * 60

abbrev pub departure_horizon_h : ℕ
departure_horizon_h = 6

unfoldable pub is_up : Sun → Bool
is_up sun = not (leb_ℤ sun.elevation (pos 0))

-- max(0, cos(azimuth - heading)) when the sun is low
unfoldable pub golden_hour : Sky → Sun → ℕ → ℕ
unfolding is_up
golden_hour sky sun heading =
    if is_up sun && not (leb_ℤ (pos 15000) sun.elevation)
    then pos_part (sky.cos (sub_ℕ sun.azimuth heading))
    else 0

unfoldable pub shade_need : Sky → Sun → ℕ
shade_need sky sun = pos_part (sky.sin sun.elevation)

-- backend/geometry.py, within 120 m
unfoldable pub closes_loop : (LatLon → LatLon → ℕ) → List LatLon → Bool
closes_loop dist points =
    if ltb (length points) 2
    then false
    else leb (dist (get_or points 0 origin) (get_or points (length points - 1) origin)) 120000

unfoldable pub route_heading : (LatLon → LatLon → ℕ) → Sky → List LatLon → Option ℕ
unfolding closes_loop
route_heading dist sky points =
    if ltb (length points) 2 || closes_loop dist points
    then none
    else some (sky.bearing (get_or points 0 origin) (get_or points (length points - 1) origin))

pub data LightReason : Type 0 where
  low_along_your_way off_your_back dark : LightReason

pub data AirReason : Type 0 where
  good poor : AirReason

-- The parts of the sentence, in their order.
pub record DepartureReason : Type 0 where
  pub light : Option LightReason
  pub air : Option AirReason

pub record DepartureSuggestion : Type 0 where
  pub when : ℕ
  pub reason : DepartureReason
  pub score : ℕ

unfoldable pub light_reason : Sun → (light exposure : ℕ) → Option LightReason
unfolding is_up
light_reason sun light exposure =
    if ltb 300000 light
    then some low_along_your_way
    else if ltb exposure 2500000000 && is_up sun
    then some off_your_back
    else if not (is_up sun)
    then some dark
    else none

unfoldable pub air_reason : Option AirQuality → Option AirReason
air_reason none = none
air_reason (some air) =
    if ltb 7000 air.score then some good else if ltb air.score 4000 then some poor else none

-- Need times clear sky: half a sky where no cloud is known.
abbrev pub or_half : Option ℕ → ℕ
or_half none = 5000
or_half (some x) = x

abbrev pub air_score : Option AirQuality → Option ℕ
air_score none = none
air_score (some air) = some air.score

unfoldable pub exposure_of : Sky → Sun → Option ℕ → ℕ
unfolding shade_need
exposure_of sky sun cloud = shade_need sky sun * (10000 - or_half cloud)

unfoldable pub light_of : Sky → Sun → Option ℕ → ℕ
unfolding golden_hour
light_of sky sun none = 0
light_of sky sun (some heading) = golden_hour sky sun heading

-- 0.45 * air + 0.35 * (1 - exposure), and 0.20 * light, which has no share without a heading
unfoldable pub slot_score : (air exposure light : ℕ) → Option ℕ → ℕ
slot_score air exposure light none = 5 * (45 * 1000000 * air + 35 * (10000000000 - exposure))
slot_score air exposure light (some heading) =
    4 * (45 * 1000000 * air + 35 * (10000000000 - exposure) + 20 * 10000 * light)

-- After civil twilight a slot counts for 0.35 of itself.
unfoldable pub dimmed : Sun → ℕ → ℕ
dimmed sun score = if not (leb_ℤ (negsuc 5999) sun.elevation) then 35 * score else 100 * score

module _ (sky : Sky) (midpoint : LatLon) (heading : Option ℕ) (air : Option AirQuality)
    (cloud : Option ℕ) where
  unfoldable pub slot : ℕ → DepartureSuggestion
  unfolding exposure_of light_of slot_score dimmed light_reason air_reason
  slot moment =
      let sun = sky.solar moment midpoint in
      let exposure = exposure_of sky sun cloud in
      let light = light_of sky sun heading in
      record {
        when = moment;
        reason = record { light = light_reason sun light exposure; air = air_reason air };
        score = dimmed sun (slot_score (or_half (air_score air)) exposure light heading);
      }

-- start + timedelta(minutes=step * 15), for `n` steps from `step` on
unfoldable pub moments_from : ℕ → (n : ℕ) (step : ℕ) → List ℕ
moments_from start zero step = []
moments_from start (suc n) step =
    (start + step * departure_step_s) ∷ moments_from start n (step + 1)

-- The first of the best.
unfoldable pub best_of : DepartureSuggestion → List DepartureSuggestion → DepartureSuggestion
best_of best [] = best
best_of best (s ∷ slots) = best_of (if ltb best.score s.score then s else best) slots

unfoldable pub best_slot : List DepartureSuggestion → Option DepartureSuggestion
unfolding best_of
best_slot [] = none
best_slot (s ∷ slots) = some (best_of s slots)

module _ (dist : LatLon → LatLon → ℕ) (sky : Sky) (points : List LatLon) (start : ℕ) where
  abbrev pub slots : Option AirQuality → Option ℕ → List DepartureSuggestion
  slots air cloud =
      map
        (slot sky (get_or points (length points / 2) origin) (route_heading dist sky points) air
          cloud)
        (moments_from start (departure_horizon_h * 60 * 60 / departure_step_s + 1) 0)

  -- The search over what was measured.
  unfoldable pub search_slots : Option AirQuality → Option ℕ → Option DepartureSuggestion
  unfolding slot route_heading moments_from best_slot
  search_slots none none = none
  search_slots (some air) cloud = best_slot (slots (some air) cloud)
  search_slots none (some cloud) = best_slot (slots none (some cloud))

  unfoldable pub with_cloud : Option AirQuality → Option ℕ → Attempt ℕ → Attempt DepartureSuggestion
  unfolding search_slots
  with_cloud air (some cloud) again = returned (search_slots air (some cloud))
  with_cloud air none raised = raised
  with_cloud air none (returned cloud) = returned (search_slots air cloud)

  -- What is not given is asked for; `air_again` and `cloud_again` are what that comes to.
  unfoldable pub best_departure :
      Option AirQuality → Option ℕ → Attempt AirQuality → Attempt ℕ → Attempt DepartureSuggestion
  unfolding with_cloud
  best_departure air cloud air_again cloud_again =
      if ltb (length points) 2 then returned none else elim air [
        | some a ↦ with_cloud (some a) cloud cloud_again
        | none ↦ elim air_again [ raised ↦ raised | returned a ↦ with_cloud a cloud cloud_again ]
      ]
