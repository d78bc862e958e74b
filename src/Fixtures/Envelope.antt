-- ===== src/Fixtures/Envelope.antt =====
-- backend/fixtures.py: the files of a recording, how one is read, written and checked for secrets.
--
-- A file is found under its service and its signature. `Codec` is what the code takes from `json`
-- and from httpx: `Response.json`, `json.dumps`, `Response.text` and `str.encode`; `rendering` is the
-- text of a file. Header names are as httpx gives them, in lower case.
use meander.Common.{
  Bool, List, Option, String, [], false, if◌then◌else◌, map, none, not, some, str_eq, ℕ, ◌&&◌, ◌++◌,
  ◌+◌, ◌==◌, ◌||◌, ◌∷◌,
}
use meander.Common.Dict.{Dict, delete, delete_all, get, put}
use meander.Common.Text.{Text, codes, str_leb, upper}
use meander.Common.Sort.{keep, sort_by}
use meander.Routing.Errors.{mentions}
use meander.Fixtures.{provenance_header, provenance_live, provenance_synthetic}
use meander.Fixtures.Secrets.{Request, Url, Value, named_in, redact_headers, redact_params}

abbrev pub Bytes : Type 0
Bytes = List ℕ

pub record Codec : Type 0 where
  pub parse : Bytes → Option Value
  pub dumps : Value → Bytes
  pub decode : Bytes → String
  pub encode : String → Bytes

pub record Response : Type 0 where
  pub status : ℕ
  pub headers : Dict String
  pub content : Bytes

pub data Body : Type 0 where
  json_body : Value → Body
  text_body : String → Body
  no_body : Body

-- The request of a file, redacted.
pub record Asked : Type 0 where
  pub method : Text
  pub url : Text
  pub params : Dict Value
  pub json : Value
  pub form : Dict Value
  pub content : Option String
  pub headers : Dict String

-- A key that a file lacks is `none`.
pub record Envelope : Type 0 where
  pub provenance : Option String
  pub asked : Option Asked
  pub status : Option ℕ
  pub headers : Option (Dict String)
  pub body : Body

pub data File : Type 0 where
  unreadable : File
  envelope : Envelope → File

-- FIXTURE_DIR: a directory for each service, a file for each signature.
abbrev pub Store : Type 0
Store = Dict (Dict File)

abbrev pub files_in : Option (Dict File) → Dict File
files_in none = []
files_in (some d) = d

unfoldable pub directory : String → Store → Dict File
directory service store = files_in (get service store)

unfoldable pub lookup : String → String → Store → Option File
lookup service sig store = get sig (directory service store)

unfoldable pub replace : String → String → File → Store → Store
replace service sig f store = put service (put sig f (directory service store)) store

unfoldable pub unlink : String → String → Store → Store
unlink service sig store = put service (delete sig (directory service store)) store

-- A file that does not say where it is from is synthetic.
unfoldable pub envelope_provenance : Envelope → String
envelope_provenance e = elim e.provenance [
  | none ↦ provenance_synthetic
  | some p ↦ if str_eq p "" then provenance_synthetic else p
]

abbrev pub set_default : String → String → Dict String → Dict String
set_default k v d = elim (get k d) [ none ↦ put k v d | some w ↦ d ]

unfoldable pub content_of : Codec → Body → Bytes
content_of codec (json_body v) = codec.dumps v
content_of codec (text_body s) = codec.encode s
content_of codec no_body = codec.encode ""

unfoldable pub typed : Body → Dict String → Dict String
typed (json_body v) headers = set_default "content-type" "application/json" headers
typed _ headers = headers

abbrev pub stale_headers : List String
stale_headers = "content-length" ∷ "Content-Length" ∷ "content-encoding" ∷ "Content-Encoding" ∷ []

abbrev pub or_default {ℓ} : {A : Type ℓ} → A → Option A → A
or_default a none = a
or_default a (some b) = b

unfoldable pub replayed : Codec → Envelope → Response
unfolding content_of typed
replayed codec e = record {
  status = or_default 200 e.status;
  headers =
      delete_all stale_headers
        (typed e.body (put provenance_header (envelope_provenance e) (or_default [] e.headers)));
  content = content_of codec e.body;
}

unfoldable pub opened : Codec → Option File → Option Response
opened codec none = none
opened codec (some unreadable) = none
opened codec (some (envelope e)) = some (replayed codec e)

unfoldable pub read_fixture : Codec → String → String → Store → Option Response
read_fixture codec service sig store = opened codec (lookup service sig store)

unfoldable pub body_of : Codec → Bytes → Body
body_of codec content = elim (codec.parse content) [
  | none ↦ text_body (codec.decode content)
  | some v ↦ json_body v
]

-- The URL may embed a key in its query, so the query is left out.
unfoldable pub asked_of : (String → Url) → Request → Asked
asked_of urlsplit r = record {
  method = map upper (codes r.method);
  url =
      codes (urlsplit r.url).scheme
      ++ codes "://"
      ++ codes (urlsplit r.url).netloc
      ++ codes (urlsplit r.url).path;
  params = redact_params r.params;
  json = r.json_body;
  form = redact_params r.form;
  content = r.content;
  headers = redact_headers r.headers;
}

unfoldable pub envelope_of : Codec → (String → Url) → String → Request → Response → Envelope
unfolding asked_of body_of
envelope_of codec urlsplit provenance r response = record {
  provenance = some provenance;
  asked = some (asked_of urlsplit r);
  status = some response.status;
  headers = some (
      keep (λ h. named_in ("content-type" ∷ "date" ∷ "x-ratelimit-remaining" ∷ []) h.0)
        response.headers);
  body = body_of codec response.content;
}

-- `value and value in text`, for any of the configured secrets
unfoldable pub leaks : List String → Text → Bool
leaks [] content = false
leaks (value ∷ secrets) content =
    (not (str_eq value "") && mentions value content) || leaks secrets content

-- The counts of a directory by provenance; a file that cannot be read is not counted.
unfoldable pub count_files : Dict File → Dict ℕ → Dict ℕ
count_files [] counts = counts
count_files ((sig, unreadable) ∷ files) counts = count_files files counts
count_files ((sig, envelope e) ∷ files) counts =
    let prov = envelope_provenance e in
    count_files files (put prov (or_default 0 (get prov counts) + 1) counts)

abbrev pub any_counted : Dict ℕ → Bool
any_counted [] = false
any_counted ((k, n) ∷ d) = not (n == 0) || any_counted d

unfoldable pub fixture_inventory : Store → Dict (Dict ℕ)
fixture_inventory store =
    keep (λ d. any_counted d.1)
      (map (λ d. (d.0, count_files d.1 (("recorded", 0) ∷ ("synthetic", 0) ∷ [])))
        (sort_by (λ a b. str_leb a.0 b.0) store))

abbrev pub provenance_of : Response → String
provenance_of r = or_default provenance_live (get provenance_header r.headers)

abbrev pub is_synthetic : Response → Bool
is_synthetic r = str_eq (provenance_of r) provenance_synthetic
