-- ===== src/Fixtures.antt =====
-- backend/fixtures.py: the record-and-replay layer under every outbound request, and its budget of
-- live calls. Budget models `LiveCallBudget` and its file, Spending what it promises; Secrets the
-- request's signature and the redaction of secrets, Envelope the files of a recording, Fetch the
-- function `fetch`; Replay and Recording what `fetch` promises.
pub mod Budget
pub mod Spending
pub mod Secrets
pub mod Envelope
pub mod Fetch
pub mod Cases
pub mod Replay
pub mod Recording
pub mod RoundTrip
mod Tests
use meander.Common.{Bool, List, String, [], false, if◌then◌else◌, str_eq, true, ℕ, ◌&&◌, ◌∷◌}

-- settings.fixture_mode
pub data Mode : Type 0 where
  replay recording live : Mode

abbrev pub provenance_header : String
provenance_header = "x-meander-provenance"

abbrev pub provenance_live : String
provenance_live = "live"

abbrev pub provenance_recorded : String
provenance_recorded = "recorded"

abbrev pub provenance_synthetic : String
provenance_synthetic = "synthetic"

abbrev pub redacted : String
redacted = "<redacted>"

abbrev pub max_response_bytes : ℕ
max_response_bytes = 33554432

abbrev pub secret_query_params : List String
secret_query_params = "key" ∷ "access_token" ∷ "api_key" ∷ []

abbrev pub secret_headers : List String
secret_headers = "authorization" ∷ "x-api-key" ∷ "anthropic-api-key" ∷ []

pub data Regime : Type 0 where
  live_mode self_hosted_router enforced : Regime

-- Whether the budget is consulted, and why not. `self_hosted` is `graphhopper_is_self_hosted()`.
unfoldable pub budget_applies : Mode → Bool → String → Bool × Regime
budget_applies live self_hosted service = (false, live_mode)
budget_applies mode self_hosted service =
    if str_eq service "graphhopper" && self_hosted
    then (false, self_hosted_router)
    else (true, enforced)

-- What the health page reports: the regime of the router's calls.
unfoldable pub budget_regime : Mode → Bool → Bool × Regime
budget_regime mode self_hosted = budget_applies mode self_hosted "graphhopper"
