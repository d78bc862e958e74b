-- ===== src/Photos/Allowed.antt =====
-- What a reference that resolves must be (`resolve_image_ref`, backend/photos.py).
use mathlib.Core.Path.{subst}
use meander.Common.{
  ==_iff, Bool, Bool-cases, List, Option, String, ap, arith, false, if_false, if_true,
  if◌then◌else◌, inl, inr, length, ltb, none, not, refl, some, some_of_case, str_eq, sym, true, ℕ,
  ◌==◌, ◌||◌, ◌∙◌, ◌≡◌, ◌⊎◌,
}
use meander.Common.Text.{Text, text_eq, text_eq→eq}
use meander.Photos.{
  Port, Signing, SplitUrl, bad_port, check_port, check_url, crashed, host_of, image_service, is_set,
  max_ref_chars, no_port, parts_of_ref, port, refused, resolve_image_ref, resolved, rpartition,
  tag_of, unb64,
}

module _ (signing : Signing) where
  -- The reference carries the address and the server's own tag for it.
  pub record IsIssued (ref : Text) (url : String) : Type 0 where
    pub payload : Text
    pub tag : Text
    pub raw : List ℕ
    pub parts : rpartition ref ≡ some (payload, tag)
    pub bytes : unb64 signing payload ≡ some raw
    pub address : signing.from_utf8 raw ≡ some url
    pub signed : unb64 signing tag ≡ some (tag_of signing url)

  -- An address on one of the two hosts, over https, with no user and on the standard port.
  pub record IsAllowed (url service : String) : Type 0 where
    pub split : SplitUrl
    pub parsed : signing.urlsplit url ≡ some split
    pub https : str_eq split.scheme "https" ≡ true
    pub no_user : is_set split.username ≡ false
    pub no_password : is_set split.password ≡ false
    pub standard_port : (split.port_of ≡ no_port) ⊎ (split.port_of ≡ port 443)
    pub on_host : image_service (host_of split.hostname) ≡ some service

  check_port-resolved :
      (u url service : String) (p : Port) (o : Option String)
      → check_port u p o ≡ resolved url service
      → (u ≡ url) × (o ≡ some service) × ((p ≡ no_port) ⊎ (p ≡ port 443))
  unfolding check_port
  check_port-resolved u url service bad_port o h = absurd cc
  check_port-resolved u url service no_port none h = absurd cc
  check_port-resolved u url service no_port (some s) h = (cc, cc, inl refl)
  check_port-resolved u url service (port n) none h = absurd cc
  check_port-resolved u url service (port n) (some s) h = elim (Bool-cases (n == 443)) [
    | inl e ↦
        let q = sym (if_true (n == 443) (resolved u s) refused e) ∙ h in
        (cc, cc, inr (ap port ((==_iff n 443).0 e)))
    | inr e ↦ absurd (let q = sym (if_false (n == 443) (resolved u s) refused e) ∙ h in cc)
  ]

  clear_parts : (a b c : Bool) → (not a || b || c) ≡ false → (a ≡ true) × (b ≡ false) × (c ≡ false)
  clear_parts a b c h = ground arith

  check_url-IsAllowed :
      (u url service : String)
      → check_url signing u ≡ resolved url service
      → (u ≡ url) × IsAllowed u service
  unfolding check_url
  check_url-IsAllowed u url service h =
      let (split, parsed, e) = some_of_case (signing.urlsplit u) crashed _ h (λ q. cc) in
      let bad =
        not (str_eq split.scheme "https") || is_set split.username || is_set split.password in
      elim (Bool-cases bad) [
        | inl b ↦ absurd (
            let q =
              sym (
                if_true bad refused
                  (check_port u split.port_of (image_service (host_of split.hostname))) b)
              ∙ e in
            cc)
        | inr b ↦
            let q =
              check_port-resolved u url service split.port_of
                (image_service (host_of split.hostname))
                (sym (
                    if_false bad refused
                      (check_port u split.port_of (image_service (host_of split.hostname))) b)
                  ∙ e) in
            let clear =
              clear_parts (str_eq split.scheme "https") (is_set split.username)
                (is_set split.password) b in
            (
              q.0,
              record {
                split = split;
                parsed = parsed;
                https = clear.0;
                no_user = clear.1;
                no_password = clear.2;
                standard_port = q.2;
                on_host = q.1;
              },
            )
      ]

  parts_of_ref-IsIssued :
      (ref : Text) (url : String) (expected : List ℕ)
      → parts_of_ref signing ref ≡ some (url, expected)
      → tag_of signing url ≡ expected
      → IsIssued ref url
  unfolding parts_of_ref
  parts_of_ref-IsIssued ref url expected h equal =
      let ((payload, tag), parts, h1) = some_of_case (rpartition ref) none _ h (λ q. cc) in
      let (raw, bytes, h2) = some_of_case (unb64 signing payload) none _ h1 (λ q. cc) in
      let (u, address, h3) = some_of_case (signing.from_utf8 raw) none _ h2 (λ q. cc) in
      let (t, signed, h4) = some_of_case (unb64 signing tag) none _ h3 (λ q. cc) in
      let at : u ≡ url = cc in
      let tagged : t ≡ expected = cc in
      record {
        payload = payload;
        tag = tag;
        raw = raw;
        parts = parts;
        bytes = bytes;
        address = address ∙ ap some at;
        signed = signed ∙ ap some (tagged ∙ sym equal);
      }

  pub resolve_image_ref-IsAllowed :
      (ref : Text) (url service : String)
      → resolve_image_ref signing ref ≡ resolved url service
      → IsIssued ref url × IsAllowed url service
  unfolding resolve_image_ref
  resolve_image_ref-IsAllowed ref url service h =
      elim (Bool-cases (ltb max_ref_chars (length ref))) [
        | inl long ↦
            absurd (let q = sym (if_true (ltb max_ref_chars (length ref)) refused _ long) ∙ h in cc)
        | inr short ↦
            let ((u, expected), parts, h1) =
              some_of_case (parts_of_ref signing ref) refused _
                (sym (if_false (ltb max_ref_chars (length ref)) refused _ short) ∙ h) (λ q. cc) in
            verified u expected parts h1
      ]
    where
      verified :
          (u : String) (expected : List ℕ)
          → parts_of_ref signing ref ≡ some (u, expected)
          → (if text_eq (tag_of signing u) expected then check_url signing u else refused)
            ≡ resolved url service
          → IsIssued ref url × IsAllowed url service
      verified u expected parts h1 = elim (Bool-cases (text_eq (tag_of signing u) expected)) [
        | inl e ↦
            let q = check_url-IsAllowed u url service (
              sym (if_true (text_eq (tag_of signing u) expected) (check_url signing u) refused e)
              ∙ h1) in
            (
              subst (IsIssued ref) q.0
                  (parts_of_ref-IsIssued ref u expected parts (text_eq→eq _ _ e)),
              subst (λ (x : String). IsAllowed x service) q.0 q.1,
            )
        | inr e ↦ absurd (
            let q =
              sym (if_false (text_eq (tag_of signing u) expected) (check_url signing u) refused e)
              ∙ h1 in
            cc)
      ]
