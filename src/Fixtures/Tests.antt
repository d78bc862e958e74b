-- ===== src/Fixtures/Tests.antt =====
-- backend/fixtures.py on a small recording session: one server, two requests, one secret.
use meander.Common.{List, Option, [], arith, false, max, none, refl, some, ℕ, ◌+◌, ◌∷◌, ◌≡◌, ◌≤◌}
use meander.Common.Dict.{get, put}
use meander.Common.Text.{codes, lower, lower_text, member, text_eq}
use meander.Common.Int.{pos}
use meander.Fixtures.{budget_applies, live, recording, replay}
use meander.Fixtures.Secrets.{
  Request, Value, integer, named_in, none_left, null, same, secret_left, secret_right, signature,
  signature-SameButSecrets, text,
}
use meander.Routing.Errors.{mentions}
use meander.Fixtures.Envelope.{Bytes, Response, directory, leaks, lookup, opened, read_fixture}
use meander.Fixtures.Budget.{
  LiveCallBudget, cap_for, counts_of, load, missing, new, roll_if_new_day, save, try_spend,
}
use meander.Fixtures.Fetch.{
  Call, Environment, Upstream, World, answered, fetch, finish, go_live, labelled, or_go_live,
  passthrough, persisted, read_body, receive, send_request, set_header, should_persist,
}
use meander.Fixtures.Spending.{
  Event, IsSaved, granted_on, granted_on-le, restarts, spends, step, used_on,
}
use meander.Fixtures.Replay.{IsCareful, IsUntouched, fetch-IsCareful, fetch-live}
use meander.Fixtures.Recording.{AreClean, IsLabelled, fetch-AreClean, fetch-IsLabelled}
use meander.Fixtures.RoundTrip.{fetch_again}
use meander.Common.Sort.{keep}

-- A JSON library of one-byte documents.
abbrev parse_byte : Bytes → Option Value
parse_byte [] = none
parse_byte (b ∷ rest) = some (integer (pos b))

abbrev dump_byte : Value → Bytes
dump_byte (integer (pos n)) = n ∷ []
dump_byte _ = []

abbrev route_request : Request
route_request = record {
  method = "get";
  url = "https://graphhopper.com/route?key=k1";
  params = ("key", text "k1") ∷ ("Point", text "a") ∷ [];
  json_body = null;
  form = [];
  content = none;
  headers = ("Accept", "json") ∷ [];
}

abbrev server : Request → Option Upstream
server r = some (record {
  status = 200;
  headers =
      ("content-type", "application/json")
      ∷ ("x-meander-provenance", "recorded")
      ∷ ("content-length", "1")
      ∷ [];
  chunks = (7 ∷ []) ∷ [] ∷ [];
})

abbrev route_env : Environment
route_env = record {
  urlsplit = λ u. record {
    scheme = "https";
    netloc = "graphhopper.com";
    hostname = some "graphhopper.com";
    path = "/route";
  };
  digest = λ p. p.path;
  codec = record { parse = parse_byte; dumps = dump_byte; decode = λ b. ""; encode = λ s. [] };
  rendering = λ e. codes "url";
  send = server;
  secrets = "k1" ∷ "" ∷ [];
  self_hosted = false;
}

abbrev route_call : Call
route_call = record { request = route_request; service = "graphhopper"; cost = 3; persist = none }

abbrev fresh : LiveCallBudget
fresh = record { caps = ("graphhopper", 4) ∷ []; day = 20; state = []; warned = []; file = missing }

abbrev empty_world : World
empty_world = record { store = []; budget = fresh; record_provenance = "recorded"; sent = [] }

-- The first spending is granted, the second is refused, and the next day begins anew.
abbrev session : List (ℕ × Event)
session =
    (20, spends "graphhopper" 3)
    ∷ (20, restarts)
    ∷ (20, spends "graphhopper" 3)
    ∷ (21, spends "graphhopper" 3)
    ∷ []

granted_test : granted_on "graphhopper" 20 session fresh ≡ 3
unfolding granted_on step try_spend new load counts_of cap_for get roll_if_new_day save put
granted_test = refl

fresh-IsSaved : IsSaved fresh
unfolding load
fresh-IsSaved = record { counts = refl; not_later = omega arith }

granted_on-le_example :
    used_on "graphhopper" 20 fresh + granted_on "graphhopper" 20 session fresh
    ≤ max (cap_for "graphhopper" fresh) (used_on "graphhopper" 20 fresh)
granted_on-le_example =
    granted_on-le "graphhopper" 20 session fresh fresh-IsSaved
      (omega arith, (omega arith, (omega arith, (omega arith, tt))))

signature-SameButSecrets_example :
    signature route_env.urlsplit route_env.digest route_request
    ≡ signature route_env.urlsplit route_env.digest (record route_request {
      params = ("Point", text "a") ∷ ("api_key", text "k2") ∷ [];
      form = [];
      headers = ("Authorization", "k2") ∷ ("Accept", "json") ∷ [];
    })
unfolding named_in member text_eq lower_text lower
signature-SameButSecrets_example =
    signature-SameButSecrets route_env.urlsplit route_env.digest route_request
      (("Point", text "a") ∷ ("api_key", text "k2") ∷ []) [] "k2"
      (secret_left ("key", text "k1") refl
        (same ("Point", text "a") (secret_right ("api_key", text "k2") refl none_left)))
      none_left

fetch-IsCareful_example :
    IsCareful route_env empty_world.store (fetch route_env recording 20 route_call empty_world)
fetch-IsCareful_example = fetch-IsCareful route_env recording 20 route_call empty_world

fetch-live_test : IsUntouched route_env empty_world (fetch route_env live 20 route_call empty_world)
fetch-live_test = fetch-live route_env 20 route_call empty_world (λ e. absurd (ground arith))

fetch-AreClean_example :
    AreClean route_env (fetch route_env recording 20 route_call empty_world).0.store
fetch-AreClean_example = fetch-AreClean route_env recording 20 route_call empty_world tt

fetch-IsLabelled_example :
    IsLabelled route_env route_call empty_world
      (fetch route_env recording 20 route_call empty_world)
fetch-IsLabelled_example = fetch-IsLabelled route_env recording 20 route_call empty_world

abbrev route_answer : Response
route_answer = record {
  status = 200;
  headers = ("x-meander-provenance", "live") ∷ ("content-type", "application/json") ∷ [];
  content = 7 ∷ [];
}

abbrev recorded_world : World
recorded_world = (fetch route_env recording 20 route_call empty_world).0

fetch_again_example :
    (r' : Response) × (fetch route_env replay 99 route_call recorded_world
      ≡ (recorded_world, answered r'))
    × (r'.status ≡ 200)
    × (parse_byte r'.content ≡ some (integer (pos 7)))
unfolding fetch or_go_live read_fixture lookup directory opened get go_live try_spend budget_applies
    send_request receive read_body finish should_persist persisted leaks labelled passthrough
    cap_for roll_if_new_day mentions set_header keep named_in member lower_text
fetch_again_example =
    fetch_again route_env route_call (integer (pos 7)) replay 20 99 empty_world recorded_world
      route_answer refl refl (λ e. absurd (ground arith)) refl (omega arith) refl
