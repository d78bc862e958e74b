-- ===== src/Fixtures/Fetch.antt =====
-- backend/fixtures.py: `fetch`, through which every outbound request goes.
--
-- The shared httpx client is the parameter `send`: the status, the headers and the decoded chunks of
-- an answer, or none when the transport raises. `get_budget` and the process's other globals are the
-- fields of `World`. A signature and a service are given; `service_for_url` is not modelled.
use meander.Common.{
  Bool, List, Option, String, [], false, if◌then◌else◌, leb, length, ltb, none, not, some, str_eq,
  true, ℕ, ◌++◌, ◌+◌, ◌∷◌,
}
use meander.Common.Dict.{Dict}
use meander.Fixtures.{
  Mode, budget_applies, live, max_response_bytes, provenance_header, provenance_live,
  provenance_synthetic, recording, replay,
}
use meander.Fixtures.Secrets.{Payload, Request, Url, named_in, signature}
use meander.Fixtures.Envelope.{
  Bytes, Codec, Envelope, Response, Store, envelope, envelope_of, leaks, read_fixture, replace,
  unlink,
}
use meander.Fixtures.Budget.{LiveCallBudget, remaining, try_spend}
use meander.Common.Sort.{keep}
use meander.Common.Text.{Text}

-- An answer as it arrives.
pub record Upstream : Type 0 where
  pub status : ℕ
  pub headers : Dict String
  pub chunks : List Bytes

pub data FetchError : Type 0 where
  fixture_missing budget_exhausted response_too_large transport_error secret_leaked : FetchError

pub data Fetched : Type 0 where
  answered : Response → Fetched
  failed : FetchError → Fetched

-- One call of `fetch`.
pub record Call : Type 0 where
  pub request : Request
  pub service : String
  pub cost : ℕ
  pub persist : Option Bool

-- The process and its disk; `sent` lists what went out, the latest first.
pub record World : Type 0 where
  pub store : Store
  pub budget : LiveCallBudget
  pub record_provenance : String
  pub sent : List Request

-- What `fetch` takes from libraries and from the settings.
pub record Environment : Type 0 where
  pub urlsplit : String → Url
  pub digest : Payload → String
  pub codec : Codec
  pub rendering : Envelope → Text
  pub send : Request → Option Upstream
  pub secrets : List String
  pub self_hosted : Bool

-- The chunks in one, cut off when they exceed the limit.
unfoldable pub read_body : ℕ → List Bytes → Option Bytes
read_body size [] = some []
read_body size (chunk ∷ chunks) =
    let rest = read_body (size + length chunk) chunks in
    if ltb max_response_bytes (size + length chunk)
    then none
    else elim rest [ none ↦ none | some body ↦ some (chunk ++ body) ]

-- The headers that do not describe the transfer.
unfoldable pub passthrough : Dict String → Dict String
passthrough headers =
    keep
      (λ h. not (named_in ("content-encoding" ∷ "content-length" ∷ "transfer-encoding" ∷ []) h.0))
      headers

-- `response.headers[k] = v`: the one entry of that name.
unfoldable pub set_header : String → String → Dict String → Dict String
set_header k v headers = (k, v) ∷ keep (λ h. not (str_eq h.0 k)) headers

unfoldable pub should_persist : Mode → Option Bool → Bool
should_persist mode (some b) = b
should_persist recording none = true
should_persist _ none = false

module _ (env : Environment) where
  open env use {urlsplit, digest, codec, rendering, send, secrets, self_hosted}

  abbrev pub sig_of : Call → String
  sig_of c = signature urlsplit digest c.request

  unfoldable pub labelled : String → Response → Response
  labelled provenance r = record r {
    headers =
        set_header provenance_header
          (if str_eq provenance provenance_synthetic then provenance_synthetic else provenance_live)
          r.headers;
  }

  -- `write_fixture`, then `_assert_no_secret_in_fixture`.
  unfoldable pub persisted : Call → Response → World → World × Fetched
  persisted c r w =
      let e = envelope_of codec urlsplit w.record_provenance c.request r in
      let store = replace c.service (sig_of c) (envelope e) w.store in
      if leaks secrets (rendering e)
      then (record w { store = unlink c.service (sig_of c) store }, failed secret_leaked)
      else (record w { store = store }, answered (labelled w.record_provenance r))

  -- The end of `fetch`, on the answer that was read.
  unfoldable pub finish : Mode → Call → Response → World → World × Fetched
  finish mode c r w =
      if leb 400 r.status
      then (w, answered (labelled w.record_provenance r))
      else if should_persist mode c.persist
      then persisted c r w
      else (w, answered (labelled w.record_provenance r))

  unfoldable pub receive : Mode → Call → Option Upstream → World → World × Fetched
  receive mode c none w = (w, failed transport_error)
  receive mode c (some up) w = elim (read_body 0 up.chunks) [
    | none ↦ (w, failed response_too_large)
    | some body ↦
        finish mode c
          (record { status = up.status; headers = passthrough up.headers; content = body }) w
  ]

  unfoldable pub send_request : Mode → Call → World → World × Fetched
  send_request mode c w = receive mode c (send c.request) (record w { sent = c.request ∷ w.sent })

  -- `fetch` from the budget on.
  unfoldable pub go_live : Mode → ℕ → Call → World → World × Fetched
  go_live mode today c w =
      let (b, granted) = try_spend c.service c.cost today w.budget in
      if (budget_applies mode self_hosted c.service).0
      then if granted
        then send_request mode c (record w { budget = (remaining c.service today b).0 })
        else (record w { budget = b }, failed budget_exhausted)
      else send_request mode c w

  unfoldable pub or_go_live : Mode → ℕ → Call → World → Option Response → World × Fetched
  or_go_live mode today c w (some cached) = (w, answered cached)
  or_go_live replay today c w none = (w, failed fixture_missing)
  or_go_live mode today c w none = go_live mode today c w

  unfoldable pub fetch : Mode → ℕ → Call → World → World × Fetched
  fetch live today c w = go_live live today c w
  fetch mode today c w = or_go_live mode today c w (read_fixture codec c.service (sig_of c) w.store)

-- `with recording_as(provenance)`: the label is put back at the end.
unfoldable pub recording_as {ℓ} : {A : Type ℓ} → String → (World → World × A) → World → World × A
recording_as provenance body w =
    let (w', a) = body (record w { record_provenance = provenance }) in
    (record w' { record_provenance = w.record_provenance }, a)
