-- ===== src/Lib.antt =====
-- The Meander backend: routes for a walker, a cyclist or a driver with a time budget, assessed for
-- wheelchair users, with the caches and the rate limiter that stand in front of the services it asks.
--
-- The parts and the files that model them. A request reaches the application (backend/main.py),
-- passes the rate limiter (backend/ratelimit.py), is looked up in the cache (backend/cache.py), is
-- sent to GraphHopper once for each preset (backend/routing.py), and each route that comes back is
-- scored (backend/geometry.py) and assessed (backend/accessibility.py). A point that cannot be
-- routed is explained by backend/coverage.py. What Overpass and Open-Meteo know of a route is added
-- by backend/enrich.py, and backend/elevation.py draws its profile; backend/photos.py serves
-- photographs. Every request to the outside goes through backend/fixtures.py, which records and
-- replays.
--   RateLimit      backend/ratelimit.py. `RateLimiter` is the record of its configuration and its
--                  state; `check`, `refund`, `served_today` and `reset` are the methods. Buckets,
--                  Invariant, Requests, Accounts, Rate, Retry and Refund prove.
--   Geometry       backend/geometry.py: the lengths along a polyline; Samples is `sample_every`,
--                  Tables and Scoring what a tag scores, Route `score_geometry`. Scores and Bounds prove.
--   Accessibility  backend/accessibility.py: the verdict on each tag; Spans is `_span_verdicts`, Incline
--                  `incline_findings`, Route `assess_route`, Sentence `RouteAccessibility.sentence`.
--                  Sums, Evidence, Safety and Shares prove.
--   Routing        backend/routing.py: the records of a request, a route and a failure; Models has the
--                  custom models, Body `build_request_body`, Errors `_shape_upstream_error`, Parse
--                  `_parse_path` and what it calls, Post `_post_route`, Scenic `route_scenic`,
--                  Preference `_route_preference`. Requests, Outcomes, Candidates, Choice, Promise and
--                  Fit prove.
--   Cache          backend/cache.py: the two tables of payloads, the look-ups and `close`; Sweep is
--                  `sweep`, Writes the two `put` methods, Schema `_init_schema`. Rows, Bounds and
--                  Lifetime prove.
--   Coverage       backend/coverage.py: the extent that the router reports, the imported regions, and
--                  what is said of a point. Claims proves.
--   Fixtures       backend/fixtures.py: Budget is `LiveCallBudget`, Secrets the signature of a request
--                  and the redaction, Envelope the files of a recording, Fetch the function `fetch`.
--                  Spending, Cases, Replay, Recording and RoundTrip prove.
--   Profile        backend/elevation.py: `build_profile`. Agree and Bounds prove.
--   Enrich         backend/enrich.py: the queries to Overpass; Series the readings of Open-Meteo,
--                  Barriers `barrier_spans_on_route`, Stops `rest_stops_on_route` and
--                  `rest_stop_gap_score`, Departure `best_departure`, Context `enrich_context`.
--                  Hours, Nearest, Gates, Places, Best and Measured prove.
--   Photos         backend/photos.py: the signed references and the addresses they may carry; Proxy is
--                  `proxied_image`. Signed, Allowed and Guarded prove.
--   App            backend/main.py and the wire contract of backend/models.py: Client the sender's
--                  address and the limit on bodies, Request `RouteRequest`, Wire and Scored a route of
--                  the answer, Events and Passes `route_events`, Deadline
--                  `route_events_with_deadline`, Serve `post_routes` and `_stream`. Forwarded,
--                  Honest, Answer, Complete, Ready, Timely, Agree and Served prove.
--   Common         what they share: Boolean tests, lists, Python's dict, sorting, rounding, texts,
--                  integers.
--
-- Units. The source computes with floats; here every quantity is a whole number of a unit that is
-- small enough: milliseconds and 60000ths of a token in RateLimit (so that a refill of whole tokens
-- a minute is exact), microseconds in Cache, millimetres and millionths of a degree in Geometry,
-- Accessibility, Routing and Coverage, ten-millionths of a degree in Enrich and tenths of a
-- micrometre on its flat map, decimetres in Profile, milliseconds for durations, ten-thousandths for
-- shares and scores that the source rounds to four places. Rounding is Python's, ties to even.
--
-- Parameters. The great-circle distance (`dist`), the turning angles and the standard deviation of
-- numpy (`turning`, `std`), `np.interp` (`interp`), what the server answers to a body (`fetch`),
-- the scenic score of a route (`greenness`), the texts of timestamps (`Stamps`, with `StampLaws`)
-- and JSON (`Json`) are arguments of the definitions that use them. In Fixtures the `Environment`
-- holds the HTTP client (`send`), JSON and the encodings (`Codec`), `urlsplit`, the digest and the
-- text of a file; in App the `Services` of a run are the presets, the enrichment, the coverage and
-- the narrator, and `Stages` what an assessment is made of. In Enrich the flat map about a route
-- (`plane`), `hypot`, the sun's position with sine, cosine and bearing (`Sky`), `interpolate`
-- of backend/geometry.py, the reading of bodies and the text of an hour (`Formats`) and the answers
-- to the requests (`Outside`) are arguments. In Photos `Signing` holds the HMAC, base64, UTF-8 and
-- `urlsplit`.
--
-- State that methods mutate is passed and returned. Methods that hold a lock, or a transaction, are
-- one step; interleavings of threads inside one method are not modelled. Coroutines are run to their
-- end; requests that the source sends at once are answered independently of each other. A search
-- returns the bodies that it sent beside its outcome. The one loop on fuel, `migrate`, has two rounds:
-- `_MIGRATIONS` has one entry, and the test that ends the loop needs one more.
--
-- Not modelled: logging; the text of messages, which are constructors; the segment scores and the
-- statistics of the cache; geocoding; the photograph scores of backend/scoring.py; the sun's
-- position; the choice of photographs in backend/photos.py; the narration, report, health, metrics
-- and configuration modules; of backend/main.py the cache keys, the place search, the start-up, the
-- health, photo and report endpoints and the middleware for request ids and compression; of
-- backend/fixtures.py the service of a URL, which is given; keepalive comments of a stream;
-- scripts, the web frontend and the deployment files.
pub mod Common
pub mod RateLimit
pub mod Geometry
pub mod Accessibility
pub mod Routing
pub mod App
pub mod Cache
pub mod Coverage
pub mod Profile
pub mod Fixtures
pub mod Enrich
pub mod Photos
