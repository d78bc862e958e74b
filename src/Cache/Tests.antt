-- ===== src/Cache/Tests.antt =====
-- The theorems on the cache at a small one, with instants as their own texts and payloads as their own
-- JSON.
use meander.Common.{
  String, [], arith, false, if◌then◌else◌, leb, ltb, none, not, refl, some, str_eq, true, ℕ, ◌∷◌,
  ◌≡◌, ◌≤◌,
}
use meander.Common.Int.{pos}
use meander.Cache.{
  Cache, Json, Row, StampLaws, Stamps, cache_closed, close, get_geocode, get_route, is_live, value,
}
use meander.Common.Dict.{get}
use meander.Cache.Sweep.{is_expired, sweep}
use meander.Cache.Writes.{put_geocode, put_route}
use meander.Cache.Schema.{File, IsOpened, init_schema, init_schema-IsOpened}
use meander.Cache.Bounds.{IsBounded, IsSwept, operations-IsBounded, sweep-IsSwept}
use meander.Cache.Lifetime.{close_refuses, get_route-put_route, is_expired-is_live}

abbrev numbers : Stamps ℕ
numbers = record {
  iso = λ t. t;
  parse = λ t. some t;
  at_most = λ s t. leb s t;
  ends_utc = λ t. true;
}

numbers_laws : StampLaws ℕ numbers
numbers_laws = record { parse-iso = λ t. refl; at_most-iso = λ s t. refl; ends_utc-iso = λ t. refl }

abbrev plain_json : Json ℕ ℕ
plain_json = record { dumps = λ j. j; loads = λ p. some p; is_list = λ j. true }

-- A route that expires at one second, and a place that expires at two.
abbrev small : Cache ℕ ℕ
small = record {
  routes = ("a", record { payload = 7; created_at = 0; expires_at = 1000000 }) ∷ [];
  geocodes = ("b", record { payload = 8; created_at = 0; expires_at = 2000000 }) ∷ [];
  writes_since_sweep = 3;
  removed_since_reclaim = 0;
  reclaims = 0;
  closed = false;
}

small-IsBounded : IsBounded numbers small
small-IsBounded = ground arith

sweep-IsSwept_example :
    IsSwept numbers 1500000 small (sweep numbers 1500000 small).0 (sweep numbers 1500000 small).1
sweep-IsSwept_example = sweep-IsSwept numbers 1500000 small

operations-IsBounded_example :
    IsBounded numbers (put_route numbers plain_json 0 1 "c" 9 60 small).0
    × IsBounded numbers (put_geocode numbers plain_json 0 1 "c" 9 60 small).0
    × IsBounded numbers (get_route numbers plain_json 0 "c" small).0
    × IsBounded numbers (get_geocode numbers plain_json 0 "c" small).0
    × IsBounded numbers (close small)
operations-IsBounded_example =
    operations-IsBounded numbers plain_json 0 1 "c" 9 60 small small-IsBounded

get_route-put_route_example :
    ((get_route numbers plain_json 5 "c" (put_route numbers plain_json 0 1 "c" 9 60 small).0).1
      ≡ value (if ltb 5 60000000 then some 9 else none))
    × (60000000 ≤ 5
        → get "c"
            (get_route numbers plain_json 5 "c"
              (put_route numbers plain_json 0 1 "c" 9 60 small).0).0.routes
          ≡ none)
    × ((j : String)
        → str_eq "c" j ≡ false
        → (get_route numbers plain_json 5 j (put_route numbers plain_json 0 1 "c" 9 60 small).0).1
          ≡ (get_route numbers plain_json 5 j small).1)
get_route-put_route_example =
    get_route-put_route numbers numbers_laws plain_json 0 1 5 "c" 9 60 small refl (ground arith)
      refl

close_refuses_test :
    (get_route numbers plain_json 0 "a" (close small) ≡ (close small, cache_closed))
    × (get_geocode numbers plain_json 0 "a" (close small) ≡ (close small, cache_closed))
    × (put_route numbers plain_json 0 1 "a" 9 60 (close small) ≡ (close small, cache_closed))
    × (put_geocode numbers plain_json 0 1 "a" 9 60 (close small) ≡ (close small, cache_closed))
close_refuses_test = close_refuses numbers plain_json 0 1 "a" 9 60 small

abbrev old_file : File
old_file = record { version = some (some (pos 3)); has_access_segments = true; has_schema = false }

init_schema-IsOpened_example : IsOpened old_file (init_schema old_file)
init_schema-IsOpened_example = init_schema-IsOpened old_file

abbrev a_row : Row ℕ ℕ
a_row = record { payload = 7; created_at = 0; expires_at = 1000000 }

is_expired-is_live_test : is_expired numbers 1000000 a_row ≡ not (is_live numbers 1000000 a_row)
is_expired-is_live_test =
    is_expired-is_live numbers numbers_laws plain_json 1000000 1000000 a_row refl
