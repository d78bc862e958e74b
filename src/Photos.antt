-- ===== src/Photos.antt =====
-- backend/photos.py: the references to images and what they may point at. Proxy is `proxied_image`,
-- Signed, Allowed and Guarded are the proofs.
--
-- A reference is a text as code points. The HMAC under the server's key (`digest`), base64, UTF-8 and
-- `urlsplit` are the fields of `Signing`. All refusals answer 404 with one sentence: they are `refused`.
pub mod Signed
pub mod Allowed
pub mod Proxy
pub mod Guarded
mod Tests
use mathlib.Core.List.{reverse}
use meander.Common.{
  Bool, List, Option, String, [], false, if◌then◌else◌, length, ltb, none, not, some, str_eq, suc,
  take, true, zero, ℕ, ◌%◌, ◌&&◌, ◌++◌, ◌-◌, ◌==◌, ◌||◌, ◌∷◌,
}
use meander.Common.Text.{Text, codes, lower_text, text_eq}

pub data Port : Type 0 where
  no_port : Port
  port : ℕ → Port
  -- `split.port` raises ValueError.
  bad_port : Port

pub record SplitUrl : Type 0 where
  pub scheme : String
  pub hostname : Option String
  pub username : Option String
  pub password : Option String
  pub port_of : Port

-- `decode` is none where base64 raises, `from_utf8` where the bytes are no text, `urlsplit` where it
-- raises.
pub record Signing : Type 0 where
  pub digest : List ℕ → List ℕ
  pub encode : List ℕ → Text
  pub decode : Text → Option (List ℕ)
  pub to_utf8 : String → List ℕ
  pub from_utf8 : List ℕ → Option String
  pub urlsplit : String → Option SplitUrl

-- MAX_REF_CHARS
abbrev pub max_ref_chars : ℕ
max_ref_chars = 1024

abbrev pub dot : ℕ
dot = b'.'

abbrev pub pad : ℕ
pad = b'='

-- text.startswith
unfoldable pub starts_with : Text → Text → Bool
starts_with [] s = true
starts_with (c ∷ p) [] = false
starts_with (c ∷ p) (d ∷ s) = (c == d) && starts_with p s

-- text.endswith, and `part in text`
unfoldable pub ends_with : Text → Text → Bool
unfolding starts_with
ends_with p s = starts_with (reverse p) (reverse s)

unfoldable pub contains : Text → Text → Bool
unfolding starts_with
contains p [] = starts_with p []
contains p (c ∷ s) = starts_with p (c ∷ s) || contains p s

-- host.split(".", 1)[0]
unfoldable pub first_label : Text → Text
first_label [] = []
first_label (c ∷ s) = let rest = first_label s in if c == dot then [] else c ∷ rest

-- `_image_service`
unfoldable pub image_service : Text → Option String
unfolding text_eq ends_with contains first_label
image_service host =
    if text_eq host (codes "upload.wikimedia.org")
    then some "wikimedia_images"
    else if ends_with (codes ".fbcdn.net") host && contains (codes "scontent") (first_label host)
    then some "mapillary_images"
    else none

-- A character before what is left of the rest.
unfoldable pub before_pads : ℕ → Text → Text
before_pads c [] = if c == pad then [] else c ∷ []
before_pads c (d ∷ r) = c ∷ d ∷ r

-- text.rstrip("=")
unfoldable pub rstrip_pads : Text → Text
unfolding before_pads
rstrip_pads [] = []
rstrip_pads (c ∷ s) = before_pads c (rstrip_pads s)

unfoldable pub pads : ℕ → Text
pads zero = []
pads (suc n) = pad ∷ pads n

-- A character before a text `s`, and the parts of the text.
unfoldable pub before_last_dot : ℕ → Text → Option (Text × Text) → Option (Text × Text)
before_last_dot c s (some (a, b)) = some (c ∷ a, b)
before_last_dot c s none = if c == dot then some ([], s) else none

-- text.rpartition("."), where there is a dot
unfoldable pub rpartition : Text → Option (Text × Text)
unfolding before_last_dot
rpartition [] = none
rpartition (c ∷ s) = before_last_dot c s (rpartition s)

-- A name that is there and not empty.
unfoldable pub is_set : Option String → Bool
is_set none = false
is_set (some s) = not (str_eq s "")

pub data Resolved : Type 0 where
  resolved : (url service : String) → Resolved
  refused : Resolved
  crashed : Resolved

unfoldable pub check_port : String → Port → Option String → Resolved
check_port url bad_port service = crashed
check_port url no_port none = refused
check_port url no_port (some service) = resolved url service
check_port url (port n) none = refused
check_port url (port n) (some service) = if n == 443 then resolved url service else refused

-- (split.hostname or "").lower()
unfoldable pub host_of : Option String → Text
unfolding lower_text
host_of none = []
host_of (some host) = lower_text (codes host)

module _ (signing : Signing) where
  open signing use {digest, encode, decode, to_utf8, from_utf8, urlsplit}

  unfoldable pub b64 : List ℕ → Text
  unfolding rstrip_pads
  b64 raw = rstrip_pads (encode raw)

  -- "=" * (-len(text) % 4)
  unfoldable pub unb64 : Text → Option (List ℕ)
  unfolding pads
  unb64 text = decode (text ++ pads ((4 - length text % 4) % 4))

  unfoldable pub tag_of : String → List ℕ
  tag_of url = take 16 (digest (to_utf8 url))

  unfoldable pub image_ref : String → Text
  unfolding b64 tag_of
  image_ref url = b64 (to_utf8 url) ++ dot ∷ b64 (tag_of url)

  -- What is asked of an address that the server has signed.
  unfoldable pub check_url : String → Resolved
  unfolding check_port is_set host_of image_service
  check_url url = elim (urlsplit url) [
    | none ↦ crashed
    | some split ↦
        if not (str_eq split.scheme "https") || is_set split.username || is_set split.password
        then refused
        else check_port url split.port_of (image_service (host_of split.hostname))
  ]

  -- The address and the tag of a reference.
  unfoldable pub parts_of_ref : Text → Option (String × List ℕ)
  unfolding rpartition unb64
  parts_of_ref ref = elim (rpartition ref) [
    | none ↦ none
    | some (payload, tag) ↦ elim (unb64 payload) [
      | none ↦ none
      | some raw ↦ elim (from_utf8 raw) [
        | none ↦ none
        | some url ↦ elim (unb64 tag) [ none ↦ none | some expected ↦ some (url, expected) ]
      ]
    ]
  ]

  unfoldable pub resolve_image_ref : Text → Resolved
  unfolding parts_of_ref tag_of text_eq check_url
  resolve_image_ref ref =
      if ltb max_ref_chars (length ref) then refused else elim (parts_of_ref ref) [
        | none ↦ refused
        | some (url, expected) ↦ if text_eq (tag_of url) expected then check_url url else refused
      ]
