-- ===== src/App/Serve.antt =====
-- backend/main.py: `post_routes` and `_stream`, the two transports of one answer, with the limiter and
-- the cache.
--
-- `down k` tells whether the process is shutting down when the event number `k` is looked at. Keepalive
-- comments are left out. A payload that is served from the cache is what `json` makes of its row.
use meander.Common.{
  Bool, List, Option, String, [], false, if◌then◌else◌, map, max, none, some, suc, true, ℕ, ◌++◌,
  ◌||◌, ◌∷◌,
}
use meander.RateLimit.{Decision, RateLimiter, check, refund}
use meander.Cache.{Cache, Json, Reply as CacheReply, Stamps, cache_closed, get_route, value}
use meander.Cache.Writes.{put_route}
use meander.App.Events.{
  Event, Failure, Payload, done, off_the_graph, outside, route, routing, timeout, unexpected,
}

-- What a client can be told instead of an answer.
pub data Trouble : Type 0 where
  limited : Decision → Trouble
  shutting_down timed_out nothing_produced : Trouble
  ended : Failure → Trouble

-- _STATUS_FOR_ERROR_KIND, and the status of each other answer.
unfoldable pub status_of : Trouble → ℕ
status_of (limited d) = 429
status_of shutting_down = 503
status_of timed_out = 504
status_of nothing_produced = 502
status_of (ended (routing e)) = e.status_code
status_of (ended (outside box)) = 422
status_of (ended (off_the_graph message)) = 422
status_of (ended unexpected) = 500

-- "Retry-After"
unfoldable pub retry_after : Decision → ℕ
retry_after d = max 1 d.retry_after_s

pub data Reply (E R : Type 0) : Type 0 where
  served : Payload E R → Reply E R
  trouble : Trouble → Reply E R

-- A frame of the stream: an event, or an error that travels as one.
pub data Frame (E R : Type 0) : Type 0 where
  frame : Event E R → Frame E R
  error : Trouble → Frame E R

module _ {E R : Type 0} (down : ℕ → Bool) where
  -- The frames of `_stream`.
  unfoldable pub stream_from : ℕ → List (Event E R) → Option Failure → List (Frame E R)
  stream_from k [] none = if down k then error shutting_down ∷ [] else []
  stream_from k [] (some f) = if down k then error shutting_down ∷ [] else error (ended f) ∷ []
  stream_from k (e ∷ es) f =
      let rest = stream_from (suc k) es f in
      if down k then error shutting_down ∷ [] else frame e ∷ rest

-- The frames of an answer from the cache.
unfoldable pub replay_frames : {E R : Type 0} → Payload E R → List (Frame E R)
replay_frames p = map (λ x. frame (route x)) p.routes ++ frame (done false p) ∷ []

-- What the loop of the JSON path has gathered: the last payload and whether it is partial, and whether
-- an error event has come.
pub record Drained (E R : Type 0) : Type 0 where
  pub payload : Option (Bool × Payload E R)
  pub failure : Bool

pub data Drain (E R : Type 0) : Type 0 where
  interrupted : Drain E R
  raising : Failure → Drain E R
  drained : Drained E R → Drain E R

module _ {E R : Type 0} where
  unfoldable pub note : Event E R → Drained E R → Drained E R
  note (done partial p) d = record { payload = some (partial, p); failure = d.failure }
  note timeout d = record { payload = d.payload; failure = true }
  note _ d = d

  unfoldable pub drain :
      (ℕ → Bool) → ℕ → List (Event E R) → Option Failure → Drained E R → Drain E R
  drain down k [] none d = drained d
  drain down k [] (some f) d = raising f
  drain down k (e ∷ es) f d =
      let rest = drain down (suc k) es f (note e d) in if down k then interrupted else rest

  unfoldable pub reply_of : Drain E R → Reply E R
  reply_of interrupted = trouble shutting_down
  reply_of (raising f) = trouble (ended f)
  reply_of (drained d) = elim d.payload [
    | some answer ↦ served answer.1
    | none ↦ if d.failure then trouble timed_out else trouble nothing_produced
  ]

  -- A partial answer is not handed to the next caller.
  abbrev pub complete_of : Option (Bool × Payload E R) → Option (Payload E R)
  complete_of none = none
  complete_of (some (partial, p)) = if partial then none else some p

  unfoldable pub to_cache : Drain E R → Option (Payload E R)
  to_cache (drained d) = complete_of d.payload
  to_cache _ = none

  abbrev pub nothing_yet : Drained E R
  nothing_yet = record { payload = none; failure = false }

-- What `_stream` keeps for the cache: the payload it has sent, whether it is stored, and the payloads
-- it has tried to store, the latest last.
pub record Keeping (E R : Type 0) : Type 0 where
  pub finished : Option (Payload E R)
  pub cached : Bool
  pub writes : List (Payload E R)

module _ {E R : Type 0} (write_ok : Bool) where
  unfoldable pub keep_event : Event E R → Keeping E R → Keeping E R
  keep_event (done partial p) s = record {
    finished = some p;
    cached = if partial then s.cached else s.cached || write_ok;
    writes = if partial then s.writes else s.writes ++ p ∷ [];
  }
  keep_event _ s = s

  unfoldable pub keep_events : List (Event E R) → Keeping E R → Keeping E R
  keep_events [] s = s
  keep_events (e ∷ es) s = keep_events es (keep_event e s)

  -- The handler of `CancelledError`: the client hung up while the next event was awaited.
  unfoldable pub on_hang_up : Keeping E R → List (Payload E R)
  on_hang_up s = elim s.finished [
    | none ↦ s.writes
    | some p ↦ if s.cached then s.writes else s.writes ++ p ∷ []
  ]

abbrev pub nothing_kept : {E R : Type 0} → Keeping E R
nothing_kept = record { finished = none; cached = false; writes = [] }

-- The service's shared state.
pub record Site (S P : Type 0) : Type 0 where
  pub limiter : RateLimiter
  pub cache : Cache S P

-- The readings of the clocks for one request: of the limiter, and of the cache at the look-up, at the
-- write and at a sweep after it.
pub record Clocks : Type 0 where
  pub monotonic : ℕ
  pub wall : ℕ
  pub look : ℕ
  pub write : ℕ
  pub swept : ℕ

-- `route_cache_ttl_s`
abbrev pub route_cache_ttl_s : ℕ
route_cache_ttl_s = 21600

module _ {S P E R : Type 0} (stamps : Stamps S) (json : Json (Payload E R) P)
    (blake2b : String → String) where
  -- The write after an answer; a failure of it is swallowed.
  unfoldable pub store : Clocks → String → Option (Payload E R) → Cache S P → Cache S P
  store t key none c = c
  store t key (some p) c = (put_route stamps json t.write t.swept key p route_cache_ttl_s c).0

  -- A miss: the run is drained, answered and stored.
  unfoldable pub on_miss :
      Clocks → String → Drain E R → RateLimiter → Cache S P → Site S P × Reply E R
  on_miss t key d l c = (record { limiter = l; cache = store t key (to_cache d) c }, reply_of d)

  unfoldable pub after_look_up :
      Clocks
      → Option String
      → String
      → Drain E R
      → RateLimiter
      → Cache S P × CacheReply (Option (Payload E R))
      → Site S P × Reply E R
  after_look_up t ip key d l (c, cache_closed) =
      (record { limiter = l; cache = c }, trouble (ended unexpected))
  after_look_up t ip key d l (c, value none) = on_miss t key d l c
  after_look_up t ip key d l (c, value (some p)) =
      (record { limiter = refund blake2b ip l; cache = c }, served p)

  unfoldable pub after_check :
      Clocks
      → Option String
      → String
      → Drain E R
      → Cache S P
      → RateLimiter × Decision
      → Site S P × Reply E R
  after_check t ip key d c (l, decision) =
      if decision.is_allowed
      then after_look_up t ip key d l (get_route stamps json t.look key c)
      else (record { limiter = l; cache = c }, trouble (limited decision))

  -- `post_routes` for a client that takes JSON; `d` is what draining the run gives.
  unfoldable pub post_routes :
      Clocks → Option String → String → Drain E R → Site S P → Site S P × Reply E R
  post_routes t ip key d site =
      after_check t ip key d site.cache (check blake2b ip t.monotonic t.wall true site.limiter)
