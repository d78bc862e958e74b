-- ===== src/Fixtures/Secrets.antt =====
-- backend/fixtures.py: the signature of a request, which leaves its secrets out, and their redaction.
--
-- A JSON number is an integer, or a float as `n / 10^d`. `urlsplit` is the parameter of that name,
-- and `digest` is `json.dumps` with sorted keys, then the start of SHA-256.
use meander.Common.{
  Bool, List, Option, String, [], arith, if◌then◌else◌, map, none, not, refl, some, suc, true, ℕ,
  ◌%◌, ◌&&◌, ◌-◌, ◌/◌, ◌==◌, ◌^◌, ◌∷◌, ◌≡◌,
}
use meander.Common.Dict.{Dict}
use meander.Common.Text.{Text, codes, lower, lower_text, member, str_leb, text_eq, upper}
use meander.Common.Sort.{keep}
use meander.Common.Int.{negsuc, pos, ℤ}
use meander.Fixtures.{redacted, secret_headers, secret_query_params}

mutual
  pub data Value : Type 0 where
    null : Value
    truth : Bool → Value
    integer : ℤ → Value
    float : ℤ → ℕ → Value
    text : String → Value
    array : Values → Value
    object : Fields → Value

  pub data Values : Type 0 where
    no_values : Values
    item : Value → Values → Values

  pub data Fields : Type 0 where
    no_fields : Fields
    field : String → Value → Fields → Fields

unfoldable pub fields_of : Dict Value → Fields
fields_of [] = no_fields
fields_of ((k, v) ∷ d) = field k v (fields_of d)

-- `int(x)` of a float that is an integer, and any other float as it is.
unfoldable pub whole : ℤ → ℕ → Value
whole (pos n) d = if n % 10 ^ d == 0 then integer (pos (n / 10 ^ d)) else float (pos n) d
whole (negsuc n) d =
    if suc n % 10 ^ d == 0 then integer (negsuc (suc n / 10 ^ d - 1)) else float (negsuc n) d

-- A field at its place among fields in the order of their names.
unfoldable pub insert_field : String → Value → Fields → Fields
insert_field k v no_fields = field k v no_fields
insert_field k v (field j w fs) =
    let rest = insert_field k v fs in
    if str_leb k j then field k v (field j w fs) else field j w rest

unfoldable mutual
  pub canonical : Value → Value
  canonical (object fields) = object (canonical_fields fields)
  canonical (array values) = array (canonical_values values)
  canonical (float n d) = whole n d
  canonical null = null
  canonical (truth b) = truth b
  canonical (integer n) = integer n
  canonical (text s) = text s

  pub canonical_values : Values → Values
  canonical_values no_values = no_values
  canonical_values (item v vs) = item (canonical v) (canonical_values vs)

  pub canonical_fields : Fields → Fields
  canonical_fields no_fields = no_fields
  canonical_fields (field k v fs) = insert_field k (canonical v) (canonical_fields fs)

-- `k.lower() in names`
unfoldable pub named_in : List String → String → Bool
named_in names k = member (lower_text (codes k)) names

abbrev pub is_secret : String × Value → Bool
is_secret f = named_in secret_query_params f.0

unfoldable pub strip_secret_params : Dict Value → Dict Value
strip_secret_params params = keep (λ f. not (is_secret f)) params

-- Only the two headers that change what the body means stay; their names in lower case.
unfoldable pub strip_secret_headers : Dict String → List (Text × String)
strip_secret_headers headers =
    map (λ h. (lower_text (codes h.0), h.1))
      (keep
        (λ h. not (named_in secret_headers h.0) && named_in ("content-type" ∷ "accept" ∷ []) h.0)
        headers)

pub record Url : Type 0 where
  pub scheme : String
  pub netloc : String
  pub hostname : Option String
  pub path : String

pub record Request : Type 0 where
  pub method : String
  pub url : String
  pub params : Dict Value
  pub json_body : Value
  pub form : Dict Value
  pub content : Option String
  pub headers : Dict String

-- What is hashed.
pub record Payload : Type 0 where
  pub method : Text
  pub host : Text
  pub path : String
  pub params : Value
  pub json : Value
  pub form : Value
  pub content : Option String
  pub headers : List (Text × String)

abbrev pub host_of : Option String → Text
host_of none = []
host_of (some h) = lower_text (codes h)

unfoldable pub payload_of : (String → Url) → Request → Payload
payload_of urlsplit r = record {
  method = map upper (codes r.method);
  host = host_of (urlsplit r.url).hostname;
  path = (urlsplit r.url).path;
  params = canonical (object (fields_of (strip_secret_params r.params)));
  json = canonical r.json_body;
  form = canonical (object (fields_of (strip_secret_params r.form)));
  content = r.content;
  headers = strip_secret_headers r.headers;
}

unfoldable pub signature : (String → Url) → (Payload → String) → Request → String
signature urlsplit digest r = digest (payload_of urlsplit r)

-- A secret's value is replaced; its name stays.
unfoldable pub redact_params : Dict Value → Dict Value
redact_params params =
    map (λ f. (f.0, if named_in secret_query_params f.0 then text redacted else f.1)) params

unfoldable pub redact_headers : Dict String → Dict String
redact_headers headers =
    map (λ h. (h.0, if named_in secret_headers h.0 then redacted else h.1)) headers

-- Two lists of parameters that differ in secrets only: in their values, their number and their places.
pub data SameButSecrets : Dict Value → Dict Value → Type 0 where
  none_left : SameButSecrets [] []
  same :
      (f : String × Value) {xs ys : Dict Value}
      → SameButSecrets xs ys
      → SameButSecrets (f ∷ xs) (f ∷ ys)
  secret_left :
      (f : String × Value) {xs ys : Dict Value}
      → is_secret f ≡ true
      → SameButSecrets xs ys
      → SameButSecrets (f ∷ xs) ys
  secret_right :
      (f : String × Value) {xs ys : Dict Value}
      → is_secret f ≡ true
      → SameButSecrets xs ys
      → SameButSecrets xs (f ∷ ys)

strip_secret_params-SameButSecrets :
    {xs ys : Dict Value} → SameButSecrets xs ys → strip_secret_params xs ≡ strip_secret_params ys
unfolding strip_secret_params keep
strip_secret_params-SameButSecrets none_left = refl
strip_secret_params-SameButSecrets (same f h) = ground (arith, strip_secret_params-SameButSecrets h)
strip_secret_params-SameButSecrets (secret_left f e h) =
    ground (arith, strip_secret_params-SameButSecrets h)
strip_secret_params-SameButSecrets (secret_right f e h) =
    ground (arith, strip_secret_params-SameButSecrets h)

-- Requests that differ in the secrets among their parameters and form fields, and in their
-- `Authorization` headers, have the same signature, whatever the digest.
pub signature-SameButSecrets :
    (urlsplit : String → Url) (digest : Payload → String) (r : Request) (params form : Dict Value)
    (token : String)
    → SameButSecrets r.params params
    → SameButSecrets r.form form
    → signature urlsplit digest r
      ≡ signature urlsplit digest (record r {
        params = params;
        form = form;
        headers = ("Authorization", token) ∷ r.headers;
      })
unfolding signature payload_of strip_secret_headers keep named_in lower_text lower member text_eq
signature-SameButSecrets urlsplit digest r params form token p q =
    simp (strip_secret_params-SameButSecrets p, strip_secret_params-SameButSecrets q)
