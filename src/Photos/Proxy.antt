-- ===== src/Photos/Proxy.antt =====
-- backend/photos.py: `proxied_image`. The limit on the size of an image is a setting.
use meander.Fixtures.{Mode}
use meander.Fixtures.Secrets.{Request, null}
use meander.Fixtures.Fetch.{
  Call, Environment, Fetched, World, answered, budget_exhausted, failed, fetch, fixture_missing,
  response_too_large, secret_leaked, transport_error,
}
use meander.Fixtures.Envelope.{Bytes, Response}
use meander.Common.{
  List, Option, String, [], false, if◌then◌else◌, leb, length, ltb, none, not, some, ℕ, ◌==◌, ◌∷◌,
}
use meander.Common.Dict.{Dict}
use meander.Common.Text.{Text, codes, lower_text, member, strip, text_eq}
use meander.Photos.{Resolved, Signing, crashed, refused, resolve_image_ref, resolved}

-- ALLOWED_IMAGE_CONTENT_TYPES
abbrev pub allowed_image_content_types : List String
allowed_image_content_types =
    "image/jpeg" ∷ "image/png" ∷ "image/webp" ∷ "image/gif" ∷ "image/avif" ∷ []

-- An image with its type, an error with its status, or an exception of another kind.
pub data Proxied : Type 0 where
  image : Bytes → Text → Proxied
  photo_error : ℕ → Proxied
  raises : Proxied

-- response.headers.get, whose names have no case
unfoldable pub header : String → Dict String → Option String
unfolding text_eq lower_text
header name [] = none
header name ((k, v) ∷ headers) =
    if text_eq (lower_text (codes k)) (codes name) then some v else header name headers

-- text.split(";")[0]
unfoldable pub before_semicolon : Text → Text
before_semicolon [] = []
before_semicolon (c ∷ s) = let rest = before_semicolon s in if c == b';' then [] else c ∷ rest

unfoldable pub content_type : Dict String → Text
unfolding header before_semicolon lower_text strip
content_type headers = elim (header "content-type" headers) [
  | none ↦ []
  | some v ↦ lower_text (strip (before_semicolon (codes v)))
]

unfoldable pub image_of : ℕ → Response → Proxied
unfolding content_type member
image_of max_bytes r =
    if leb 400 r.status
    then photo_error 502
    else if not (member (content_type r.headers) allowed_image_content_types)
    then photo_error 502
    else if ltb max_bytes (length r.content)
    then photo_error 502
    else image r.content (content_type r.headers)

unfoldable pub image_from : ℕ → Fetched → Proxied
unfolding image_of
image_from max_bytes (failed fixture_missing) = photo_error 503
image_from max_bytes (failed budget_exhausted) = photo_error 503
image_from max_bytes (failed response_too_large) = photo_error 502
image_from max_bytes (failed transport_error) = photo_error 502
image_from max_bytes (failed secret_leaked) = raises
image_from max_bytes (answered r) = image_of max_bytes r

-- fetch("GET", url, cost=1, service=service, persist=False)
abbrev pub get_request : String → Request
get_request url = record {
  method = "GET";
  url = url;
  params = [];
  json_body = null;
  form = [];
  content = none;
  headers = [];
}

abbrev pub get_call : String → String → Call
get_call url service = record {
  request = get_request url;
  service = service;
  cost = 1;
  persist = some false;
}

module _ (signing : Signing) (env : Environment) (max_bytes : ℕ) (mode : Mode) (today : ℕ) where
  unfoldable pub proxied : Resolved → World → World × Proxied
  unfolding image_from
  proxied refused w = (w, photo_error 404)
  proxied crashed w = (w, raises)
  proxied (resolved url service) w =
      let (w', f) = fetch env mode today (get_call url service) w in (w', image_from max_bytes f)

  unfoldable pub proxied_image : Text → World → World × Proxied
  unfolding resolve_image_ref proxied
  proxied_image ref w = proxied (resolve_image_ref signing ref) w
