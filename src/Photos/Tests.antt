-- ===== src/Photos/Tests.antt =====
-- The proxy on one picture of Wikimedia Commons, and the theorems about it there.
use meander.Fixtures.Envelope.{directory, lookup, opened, read_fixture}
use meander.Fixtures.Budget.{
  LiveCallBudget, cap_for, counts_of, load, missing, new, roll_if_new_day, save, try_spend,
}
use meander.Fixtures.Fetch.{
  Environment, World, fetch, finish, go_live, labelled, or_go_live, passthrough, read_body, receive,
  send_request, set_header, should_persist,
}
use meander.Fixtures.{budget_applies, recording}
use mathlib.Core.List.{append-nil}
use meander.Fixtures.Secrets.{named_in}
use meander.Common.{
  All, List, String, [], ap, arith, false, length, none, refl, some, sym, ℕ, ◌%◌, ◌+◌, ◌-◌, ◌∙◌,
  ◌∷◌, ◌≡◌, ◌≢◌,
}
use meander.Common.Text.{Text, codes, is_space, lower, lower_text, lstrip, member, strip, text_eq}
use meander.Photos.{
  Signing, SplitUrl, b64, check_url, dot, image_ref, no_port, pad, pads, resolve_image_ref,
  resolved,
}
use meander.Photos.Signed.{AreCodecs, resolve_image_ref-image_ref}
use meander.Photos.Proxy.{image, proxied_image}
use meander.Photos.Guarded.{IsGuarded, proxied_image-IsGuarded}
use meander.Common.Dict.{get, put}
use meander.Common.Sort.{keep}

abbrev picture : String
picture = "https://upload.wikimedia.org/a.jpg"

-- A byte in four characters, so that nothing has to be filled up.
abbrev four_each : List ℕ → Text
four_each [] = []
four_each (b ∷ raw) = (b + 100) ∷ 65 ∷ 65 ∷ 65 ∷ four_each raw

abbrev from_fours : Text → List ℕ
from_fours (a ∷ b ∷ c ∷ d ∷ s) = (a - 100) ∷ from_fours s
from_fours s = []

abbrev commons : SplitUrl
commons = record {
  scheme = "https";
  hostname = some "Upload.Wikimedia.org";
  username = none;
  password = none;
  port_of = no_port;
}

-- A server that knows one address.
abbrev signer : Signing
signer = record {
  digest = λ b. 1 ∷ 2 ∷ b;
  encode = four_each;
  decode = λ s. some (from_fours s);
  to_utf8 = λ s. 7 ∷ [];
  from_utf8 = λ b. some picture;
  urlsplit = λ s. some commons;
}

four_each-plain : (raw : List ℕ) → All (λ c. (c ≢ pad) × (c ≢ dot)) (four_each raw)
four_each-plain [] = tt
four_each-plain (b ∷ raw) = (
  (omega arith, omega arith),
  (
    (omega arith, omega arith),
    ((omega arith, omega arith), ((omega arith, omega arith), four_each-plain raw)),
  ),
)

four_each-whole : (raw : List ℕ) → (length (four_each raw) + 0) % 4 ≡ 0
four_each-whole [] = refl
four_each-whole (b ∷ raw) = omega (arith, four_each-whole raw)

from_fours-four_each : (raw : List ℕ) → from_fours (four_each raw) ≡ raw
from_fours-four_each [] = refl
from_fours-four_each (b ∷ raw) =
    let e : b + 100 - 100 ≡ b = omega arith in
    ap (λ x. x ∷ from_fours (four_each raw)) e ∙ ap (◌∷◌ b) (from_fours-four_each raw)

signer-AreCodecs : AreCodecs signer
unfolding pads
signer-AreCodecs = record {
  core = four_each;
  count = λ raw. 0;
  encoded = λ raw. sym (append-nil (four_each raw));
  plain = four_each-plain;
  few = λ raw. omega arith;
  whole = four_each-whole;
  decoded = λ raw. ap some (from_fours-four_each raw);
}

resolve_image_ref-image_ref_example :
    resolve_image_ref signer (image_ref signer picture) ≡ check_url signer picture
unfolding image_ref b64
resolve_image_ref-image_ref_example =
    resolve_image_ref-image_ref signer signer-AreCodecs picture refl (ground arith)

resolves : check_url signer picture ≡ resolved picture "wikimedia_images"
unfolding check_url
resolves = refl

abbrev commons_env : Environment
commons_env = record {
  urlsplit = λ u. record {
    scheme = "https";
    netloc = "upload.wikimedia.org";
    hostname = some "upload.wikimedia.org";
    path = "/a.jpg";
  };
  digest = λ p. p.path;
  codec = record { parse = λ b. none; dumps = λ v. []; decode = λ b. ""; encode = λ s. [] };
  rendering = λ e. [];
  send = λ r. some (record {
    status = 200;
    headers = ("Content-Type", "image/jpeg; charset=binary") ∷ [];
    chunks = (255 ∷ 216 ∷ []) ∷ [];
  });
  secrets = [];
  self_hosted = false;
}

abbrev unspent : LiveCallBudget
unspent = record {
  caps = ("wikimedia_images", 5) ∷ [];
  day = 20;
  state = [];
  warned = [];
  file = missing;
}

abbrev idle : World
idle = record { store = []; budget = unspent; record_provenance = "recorded"; sent = [] }

serves :
    (proxied_image signer commons_env 1000 recording 20 (image_ref signer picture) idle).1
    ≡ image (255 ∷ 216 ∷ []) (codes "image/jpeg")
unfolding proxied_image fetch image_ref or_go_live read_fixture opened lookup directory go_live
    try_spend roll_if_new_day cap_for budget_applies send_request receive read_body finish
    should_persist labelled set_header passthrough keep named_in member text_eq lower_text lower get
    save put counts_of load new strip lstrip is_space
serves = refl

proxied_image-IsGuarded_example :
    IsGuarded signer commons_env 1000 recording 20
      (image_ref signer picture)
      idle
      (proxied_image signer commons_env 1000 recording 20 (image_ref signer picture) idle)
proxied_image-IsGuarded_example =
    proxied_image-IsGuarded signer commons_env 1000 recording 20 (image_ref signer picture) idle
