-- ===== src/Enrich/Series.antt =====
-- backend/enrich.py: the readings of Open-Meteo, `_hour_index`, `_value_at`, `fetch_air_quality` and
-- `fetch_cloud_cover`.
--
-- Instants are seconds in UTC, readings are hundredths, and scores ten-thousandths. `stamp_of` is
-- `strftime` of an instant, with the format of the series' own stamps.
use meander.Fixtures.Envelope.{Response}
use meander.Fixtures.Fetch.{Fetched}
use meander.Common.{
  List, Option, String, [], get_elem?, if◌then◌else◌, min, none, some, str_eq, suc, ℕ, ◌*◌, ◌-◌,
  ◌/◌, ◌∷◌,
}
use meander.Common.Int.{negsuc, pos, ℤ}
use meander.Enrich.{Attempt, Decoded, checked, decoded, malformed, raised, returned, unusable}

-- A null, or a value that is no number, is none.
abbrev pub Readings : Type 0
Readings = List (Option ℤ)

-- The series under `hourly`; one that is not there is empty.
pub record Hourly : Type 0 where
  pub time : List String
  pub european_aqi : Readings
  pub pm2_5 : Readings
  pub cloud_cover : Readings

pub record AirQuality : Type 0 where
  pub score : ℕ
  pub aqi : ℤ
  pub pm2_5 : Option ℤ

-- moment.replace(minute=0, second=0, microsecond=0)
abbrev pub hour_of : ℕ → ℕ
hour_of moment = moment / 3600 * 3600

-- stamps.index(key), and None where it raises
unfoldable pub index_of : String → List String → Option ℕ
index_of key [] = none
index_of key (s ∷ stamps) =
    let rest = index_of key stamps in
    if str_eq s key then some 0 else elim rest [ none ↦ none | some i ↦ some (suc i) ]

unfoldable pub hour_index : (ℕ → String) → ℕ → List String → Option ℕ
unfolding index_of
hour_index stamp_of moment stamps = index_of (stamp_of (hour_of moment)) stamps

unfoldable pub value_at : Readings → Option ℕ → Option ℤ
value_at series none = none
value_at series (some i) = elim (get_elem? series i) [ none ↦ none | some value ↦ value ]

-- max(0.0, min(1.0, 1.0 - aqi / AQI_WORST))
unfoldable pub clean : ℤ → ℕ
clean (pos n) = 10000 - n
clean (negsuc n) = 10000

-- max(0.0, min(1.0, value / 100.0))
unfoldable pub share : ℤ → ℕ
share (pos n) = min n 10000
share (negsuc n) = 0

module _ (stamp_of : ℕ → String) (hourly_of : Response → Decoded Hourly) (moment : ℕ) where
  abbrev pub reading : Hourly → Readings → Option ℤ
  reading h series = value_at series (hour_index stamp_of moment h.time)

  unfoldable pub air_of : Decoded Hourly → Attempt AirQuality
  unfolding value_at hour_index clean
  air_of (decoded h) = returned (elim (reading h h.european_aqi) [
    | none ↦ none
    | some aqi ↦ some (record { score = clean aqi; aqi = aqi; pm2_5 = reading h h.pm2_5 })
  ])
  air_of malformed = returned none
  air_of unusable = raised

  unfoldable pub fetch_air_quality : Fetched → Attempt AirQuality
  unfolding checked air_of
  fetch_air_quality answer = checked answer (λ r. air_of (hourly_of r))

  unfoldable pub cloud_of : Decoded Hourly → Attempt ℕ
  unfolding value_at hour_index share
  cloud_of (decoded h) =
      returned (elim (reading h h.cloud_cover) [ none ↦ none | some value ↦ some (share value) ])
  cloud_of malformed = returned none
  cloud_of unusable = raised

  unfoldable pub fetch_cloud_cover : Fetched → Attempt ℕ
  unfolding checked cloud_of
  fetch_cloud_cover answer = checked answer (λ r. cloud_of (hourly_of r))
