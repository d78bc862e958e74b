-- ===== src/Enrich.antt =====
-- backend/enrich.py: what enrichment asks Overpass and Open-Meteo, and how it reads an answer. Series,
-- Barriers, Stops, Departure and Context model its parts; the other children are their proofs.
--
-- An answer of `fetch` is a `Fetched` of Fixtures. What `response.json()` holds is the result of a
-- parameter, a `Decoded`. An exception that a function lets pass is `raised`. The counters of metrics
-- and the log lines are left out. Coordinates are whole ten-millionths of a degree, as OpenStreetMap has
-- them, so the rounding to seven places leaves them as they are.
pub mod Series
pub mod Hours
pub mod Barriers
pub mod Nearest
pub mod Gates
pub mod Stops
pub mod Places
pub mod Departure
pub mod Best
pub mod Context
pub mod Measured
mod Tests
use meander.Fixtures.Envelope.{Response}
use meander.Fixtures.Fetch.{
  Fetched, answered, budget_exhausted, failed, fixture_missing, response_too_large, secret_leaked,
  transport_error,
}
use meander.Accessibility.{accepted_barriers, rejected_barriers}
use meander.Geometry.{LatLon}
use meander.Common.{
  Bool, List, Option, String, [], false, if◌then◌else◌, leb, length, ltb, map, none, some, suc, ℕ,
  ◌*◌, ◌++◌, ◌∷◌,
}
use meander.Common.Sort.{sort_by}
use meander.Common.Round.{round_div}
use meander.Common.Text.{Text, codes, lower_text, text_leb}
use meander.Common.Int.{leb_ℤ, negsuc, pos, sub_ℕ, ℤ, ◌+ℤ◌, ◌-ℤ◌}

-- OVERPASS_MAX_RESULTS and OVERPASS_TIMEOUT_S
abbrev pub overpass_max_results : ℕ
overpass_max_results = 6000

abbrev pub overpass_timeout_s : ℕ
overpass_timeout_s = 25

-- REST_STOP_AMENITIES and REST_STOP_TOURISM
abbrev pub rest_stop_amenities : List Text
rest_stop_amenities =
    codes "bench" ∷ codes "drinking_water" ∷ codes "toilets" ∷ codes "shelter" ∷ []

abbrev pub rest_stop_tourism : List Text
rest_stop_tourism = codes "viewpoint" ∷ []

-- An element of an answer: `LatLon(float(…), float(…))`, if that does not raise, and its tags as texts.
pub record Element : Type 0 where
  pub position : Option LatLon
  pub barrier_tag : Option Text
  pub amenity : Option Text
  pub tourism : Option Text

-- A JSON body: what was looked for in it, nothing of the kind where `json` or `get` raises what the
-- caller catches, or a value on which the caller fails later.
pub data Decoded {ℓ} (A : Type ℓ) : Type ℓ where
  decoded : A → Decoded A
  malformed : Decoded A
  unusable : Decoded A

pub data Attempt {ℓ} (A : Type ℓ) : Type ℓ where
  raised : Attempt A
  returned : Option A → Attempt A

-- A tag that is there and not empty.
unfoldable pub truthy : Option Text → Option Text
truthy none = none
truthy (some []) = none
truthy (some (c ∷ s)) = some (c ∷ s)

-- In hundred-thousandths of a degree.
pub record Box : Type 0 where
  pub south : ℤ
  pub west : ℤ
  pub north : ℤ
  pub east : ℤ

-- The ends of a range of numbers.
unfoldable pub widen : ℤ → ℤ × ℤ → ℤ × ℤ
widen x (lo, hi) = ((if leb_ℤ x lo then x else lo), (if leb_ℤ hi x then x else hi))

unfoldable pub range_of : ℤ → List ℤ → ℤ × ℤ
unfolding widen
range_of x [] = (x, x)
range_of x (y ∷ ys) = widen y (range_of x ys)

-- f"{x:.5f}"
unfoldable pub five_places : ℤ → ℤ
five_places (pos n) = pos (round_div n 100)
five_places (negsuc n) = sub_ℕ 0 (round_div (suc n) 100)

-- round(x, …), to whole units of `unit` ten-millionths
unfoldable pub rounded_to : ℕ → ℤ → ℤ
rounded_to unit (pos n) = pos (round_div n unit * unit)
rounded_to unit (negsuc n) = sub_ℕ 0 (round_div (suc n) unit * unit)

unfoldable pub rounded_point : ℕ → LatLon → LatLon
unfolding rounded_to
rounded_point unit p = record { lat = rounded_to unit p.lat; lon = rounded_to unit p.lon }

-- `_bbox` of points that are there, as the queries write it; the padding is a thousandth of a degree.
unfoldable pub bbox : LatLon → List LatLon → Box
unfolding range_of five_places ◌+ℤ◌ ◌-ℤ◌
bbox p points =
    let lats = range_of p.lat (map (λ q. q.lat) points) in
    let lons = range_of p.lon (map (λ q. q.lon) points) in
    record {
      south = five_places (lats.0 -ℤ pos 10000);
      west = five_places (lons.0 -ℤ pos 10000);
      north = five_places (lats.1 +ℤ pos 10000);
      east = five_places (lons.1 +ℤ pos 10000);
    }

-- node["key"~"^(value|value)$"](box); for each key, `out body` with the limit
pub record Query : Type 0 where
  pub nodes : List (String × List Text)
  pub box : Box
  pub limit : ℕ
  pub timeout : ℕ

unfoldable pub overpass_query : Box → Query
overpass_query b = record {
  nodes = ("amenity", rest_stop_amenities) ∷ ("tourism", rest_stop_tourism) ∷ [];
  box = b;
  limit = overpass_max_results;
  timeout = overpass_timeout_s;
}

-- BARRIER_VALUES_WITH_A_VERDICT, in lower case and sorted
unfoldable pub barrier_values : List Text
unfolding sort_by text_leb lower_text
barrier_values =
    sort_by text_leb (map (λ v. lower_text (codes v)) (rejected_barriers ++ accepted_barriers))

unfoldable pub overpass_barrier_query : Box → Query
unfolding barrier_values
overpass_barrier_query b = record {
  nodes = ("barrier", barrier_values) ∷ [];
  box = b;
  limit = overpass_max_results;
  timeout = overpass_timeout_s;
}

-- The failures and the statuses that a fetcher turns into None.
unfoldable pub checked {ℓ} : {A : Type ℓ} → Fetched → (Response → Attempt A) → Attempt A
checked (failed fixture_missing) read = returned none
checked (failed budget_exhausted) read = returned none
checked (failed transport_error) read = returned none
checked (failed response_too_large) read = raised
checked (failed secret_leaked) read = raised
checked (answered r) read = if leb 400 r.status then returned none else read r

pub record OverpassNodes : Type 0 where
  pub elements : List Element
  pub truncated : Bool

unfoldable pub usable_of : OverpassNodes → Option (List Element)
usable_of nodes = if nodes.truncated then none else some nodes.elements

unfoldable pub nodes_of : Decoded (List Element) → Attempt OverpassNodes
nodes_of (decoded elements) =
    returned (
      some (record { elements = elements; truncated = leb overpass_max_results (length elements) }))
nodes_of malformed = returned none
nodes_of unusable = raised

-- `ask` is the answer to a query.
unfoldable pub fetch_overpass :
    (Response → Decoded (List Element))
    → (Query → Fetched)
    → List LatLon
    → Query
    → Attempt OverpassNodes
unfolding checked nodes_of
fetch_overpass elements_of ask points query =
    if ltb (length points) 2
    then returned (some (record { elements = []; truncated = false }))
    else checked (ask query) (λ r. nodes_of (elements_of r))
