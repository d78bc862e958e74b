-- ===== src/App/Client.antt =====
-- backend/main.py: the address that is rate-limited, the origin that is reflected, and the limit on a
-- request's body.
use meander.Common.{
  Bool, List, Option, String, [], false, get_elem?, if◌then◌else◌, length, ltb, map, none, not,
  some, suc, true, zero, ℕ, ◌&&◌, ◌++◌, ◌-◌, ◌==◌, ◌||◌, ◌∷◌,
}
use meander.Common.Text.{Text, codes, member, strip}
use meander.Common.Sort.{keep}

abbrev pub comma : ℕ
comma = 44

-- A character of the first part.
abbrev pub extend : ℕ → List Text → List Text
extend c [] = (c ∷ []) ∷ []
extend c (part ∷ parts) = (c ∷ part) ∷ parts

-- text.split(",")
unfoldable pub split_comma : Text → List Text
split_comma [] = [] ∷ []
split_comma (c ∷ s) = let rest = split_comma s in if c == comma then [] ∷ rest else extend c rest

abbrev pub is_blank : Text → Bool
is_blank [] = true
is_blank (c ∷ s) = false

-- [p.strip() for p in forwarded.split(",") if p.strip()]
unfoldable pub parts_of : Text → List Text
parts_of forwarded = keep (λ p. not (is_blank p)) (map strip (split_comma forwarded))

-- The address to rate-limit by, for `hops` trusted proxies: read from the right.
unfoldable pub client_ip : ℕ → Option Text → Option Text → Option Text
client_ip zero peer forwarded = peer
client_ip (suc n) peer none = peer
client_ip (suc n) peer (some forwarded) =
    let parts = parts_of forwarded in
    if ltb (length parts) (suc n) then peer else get_elem? parts (length parts - suc n)

-- The CORS headers of an answer that no middleware has seen: the origin, where it is allowed.
unfoldable pub reflected_cors : List String → Option Text → List (String × Text)
reflected_cors allowed none = []
reflected_cors allowed (some origin) =
    if not (is_blank origin) && (member origin allowed || member (codes "*") allowed)
    then ("Access-Control-Allow-Origin", origin) ∷ ("Vary", codes "Origin") ∷ []
    else []

-- MAX_BODY_BYTES
abbrev pub max_body_bytes : ℕ
max_body_bytes = 65536

-- The `Content-Length` header: missing or empty, no number, or a number.
pub data Declared : Type 0 where
  undeclared unreadable : Declared
  declared : ℕ → Declared

abbrev pub Bytes : Type 0
Bytes = List ℕ

-- A request as far as its size goes; `has_body` stands for POST, PUT and PATCH.
pub record Arriving : Type 0 where
  pub length_header : Declared
  pub has_body : Bool
  pub chunks : List Bytes

-- What comes of it: 413, or the chunks that the handlers are given.
pub data Passed : Type 0 where
  payload_too_large : Passed
  passed : List Bytes → Passed

-- Reading the chunks: the body, unless it exceeds the limit.
unfoldable pub read_capped : Bytes → List Bytes → Option Bytes
read_capped body [] = some body
read_capped body (chunk ∷ chunks) =
    let rest = read_capped (body ++ chunk) chunks in
    if ltb max_body_bytes (length (body ++ chunk)) then none else rest

abbrev pub replay_body : Option Bytes → Passed
replay_body none = payload_too_large
replay_body (some body) = passed (body ∷ [])

unfoldable pub limit_body_size : Arriving → Passed
limit_body_size r = elim r.length_header [
  | undeclared ↦ if r.has_body then replay_body (read_capped [] r.chunks) else passed r.chunks
  | unreadable ↦ passed r.chunks
  | declared n ↦ if ltb max_body_bytes n then payload_too_large else passed r.chunks
]
