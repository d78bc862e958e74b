-- ===== src/Enrich/Hours.antt =====
-- That a reading of Open-Meteo (backend/enrich.py) is one of the hour that was asked about.
use mathlib.Core.Path.{subst}
use meander.Fixtures.Fetch.{
  Fetched, answered, budget_exhausted, failed, fixture_missing, response_too_large, secret_leaked,
  transport_error,
}
use meander.Fixtures.Envelope.{Response}
use meander.Common.{
  Bool-cases, List, Option, Option-cases, String, [], ap, arith, eq_iff, get_elem?, if_false,
  if_true, inl, inr, leb, none, refl, some, str_eq, suc, sym, ℕ, ◌<◌, ◌∙◌, ◌∷◌, ◌≡◌,
}
use meander.Common.Int.{ℤ}
use meander.Enrich.{Attempt, Decoded, checked, decoded, malformed, returned, unusable}
use meander.Enrich.Series.{
  AirQuality, Hourly, Readings, air_of, clean, fetch_air_quality, hour_index, hour_of, index_of,
  reading, value_at,
}

-- The reading stands in the series at the place of the hour's own stamp.
pub record IsOfHour (stamp_of : ℕ → String) (moment : ℕ) (h : Hourly) (series : Readings) (v : ℤ)
    : Type 0 where
  pub place : ℕ
  pub stamp : get_elem? h.time place ≡ some (stamp_of (hour_of moment))
  pub value : get_elem? series place ≡ some (some v)

index_of-get :
    (key : String) (stamps : List String) (i : ℕ)
    → index_of key stamps ≡ some i
    → get_elem? stamps i ≡ some key
unfolding index_of
index_of-get key [] i h = absurd cc
index_of-get key (s ∷ stamps) i h = elim (Bool-cases (str_eq s key)) [
  | inl e ↦ let z : i ≡ 0 = ground (arith, e, h) in rw (z) (ap some ((eq_iff s key).0 e))
  | inr e ↦ elim (Option-cases (index_of key stamps)) [
    | inl n ↦ absurd (ground (arith, e, n, h))
    | inr (j, q) ↦
        let z : suc j ≡ i = ground (arith, e, q, h) in
        subst (λ k. get_elem? (s ∷ stamps) k ≡ some key) z (index_of-get key stamps j q)
  ]
]

value_at-get :
    (series : Readings) (o : Option ℕ) (v : ℤ)
    → value_at series o ≡ some v
    → (i : ℕ) × (o ≡ some i) × (get_elem? series i ≡ some (some v))
unfolding value_at
value_at-get series none v h = absurd cc
value_at-get series (some i) v h = elim (Option-cases (get_elem? series i)) [
  | inl e ↦ absurd (ground (arith, e, h))
  | inr (x, e) ↦ (i, refl, ground (arith, e, h))
]

-- An answer that was read: its status and its body.
pub record IsAnswer {ℓ} {A : Type ℓ} (read : Response → Decoded A) (answer : Fetched) (a : A)
    : Type ℓ where
  pub response : Response
  pub arrived : answer ≡ answered response
  pub accepted : response.status < 400
  pub content : read response ≡ decoded a

pub checked-answer {ℓ} :
    {A : Type ℓ} (answer : Fetched) (read : Response → Attempt A) (a : A)
    → checked answer read ≡ returned (some a)
    → (r : Response) × (answer ≡ answered r) × (r.status < 400) × (read r ≡ returned (some a))
unfolding checked
checked-answer (failed fixture_missing) read a h = absurd cc
checked-answer (failed budget_exhausted) read a h = absurd cc
checked-answer (failed transport_error) read a h = absurd cc
checked-answer (failed response_too_large) read a h = absurd cc
checked-answer (failed secret_leaked) read a h = absurd cc
checked-answer (answered r) read a h = elim (Bool-cases (leb 400 r.status)) [
  | inl e ↦ absurd (let q = sym (if_true (leb 400 r.status) (returned none) (read r) e) ∙ h in cc)
  | inr e ↦
      (r, refl, ground (arith, e), sym (if_false (leb 400 r.status) (returned none) (read r) e) ∙ h)
]

pub reading-IsOfHour :
    (stamp_of : ℕ → String) (moment : ℕ) (h : Hourly) (series : Readings) (v : ℤ)
    → value_at series (hour_index stamp_of moment h.time) ≡ some v
    → IsOfHour stamp_of moment h series v
unfolding hour_index
reading-IsOfHour stamp_of moment h series v e =
    let (i, found, value) = value_at-get series (hour_index stamp_of moment h.time) v e in
    record {
      place = i;
      stamp = index_of-get (stamp_of (hour_of moment)) h.time i found;
      value = value;
    }

air_of-reading :
    (stamp_of : ℕ → String) (hourly_of : Response → Decoded Hourly) (moment : ℕ)
    (d : Decoded Hourly) (a : AirQuality)
    → air_of stamp_of hourly_of moment d ≡ returned (some a)
    → (h : Hourly) × (d ≡ decoded h)
      × IsOfHour stamp_of moment h h.european_aqi a.aqi
      × (a.score ≡ clean a.aqi)
unfolding air_of hour_index
air_of-reading stamp_of hourly_of moment malformed a h = absurd cc
air_of-reading stamp_of hourly_of moment unusable a h = absurd cc
air_of-reading stamp_of hourly_of moment (decoded b) a h =
    elim (Option-cases (reading stamp_of hourly_of moment b b.european_aqi)) [
      | inl e ↦ absurd (ground (arith, e, h))
      | inr (v, e) ↦
          let aqi : v ≡ a.aqi = ground (arith, e, h) in
          (
            b,
            refl,
            subst (IsOfHour stamp_of moment b b.european_aqi) aqi
                (reading-IsOfHour stamp_of moment b b.european_aqi v e),
            ground (arith, e, h),
          )
    ]

-- A score of the air is that of a reading, above 400 never, and the reading is the one that the answer
-- gives for the hour asked about: a series that lacks the hour, be it of another day, gives none.
pub fetch_air_quality-IsOfHour :
    (stamp_of : ℕ → String) (hourly_of : Response → Decoded Hourly) (moment : ℕ) (answer : Fetched)
    (a : AirQuality)
    → fetch_air_quality stamp_of hourly_of moment answer ≡ returned (some a)
    → (h : Hourly) × IsAnswer hourly_of answer h
      × IsOfHour stamp_of moment h h.european_aqi a.aqi
      × (a.score ≡ clean a.aqi)
unfolding fetch_air_quality
fetch_air_quality-IsOfHour stamp_of hourly_of moment answer a h =
    let (r, arrived, accepted, e) = checked-answer answer _ a h in
    let (b, d, o, s) = air_of-reading stamp_of hourly_of moment (hourly_of r) a e in
    (b, record { response = r; arrived = arrived; accepted = accepted; content = d }, o, s)
