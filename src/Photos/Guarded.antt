-- ===== src/Photos/Guarded.antt =====
-- What the image proxy (`proxied_image`, backend/photos.py) can be made to do.
use meander.Fixtures.Budget.{try_spend}
use meander.Fixtures.Envelope.{Bytes, Response}
use meander.Fixtures.Fetch.{
  Call, Environment, Fetched, Upstream, World, answered, budget_exhausted, failed, fetch, finish,
  fixture_missing, go_live, or_go_live, read_body, receive, response_too_large, secret_leaked,
  send_request, should_persist, transport_error,
}
use meander.Fixtures.{Mode, budget_applies, live, recording, replay}
use meander.Fixtures.Secrets.{Request}
use meander.Common.{
  Option, Option_ind, String, ap, arith, false, if_ind, inl, inr, leb, length, ltb, none, not, refl,
  some, sym, true, ℕ, ◌∙◌, ◌∷◌, ◌≡◌, ◌≢◌, ◌≤◌, ◌⊎◌,
}
use meander.Common.Text.{Text, member}
use meander.Photos.{Resolved, Signing, crashed, refused, resolve_image_ref, resolved}
use meander.Photos.Proxy.{
  Proxied, allowed_image_content_types, content_type, get_call, get_request, image, image_from,
  image_of, photo_error, proxied, proxied_image, raises,
}
use meander.Photos.Allowed.{IsAllowed, IsIssued, resolve_image_ref-IsAllowed}

-- What a call that may not be recorded leaves behind: the files as they were, and one request sent at
-- most, its own.
abbrev SendsOnly : World → Request → World × Fetched → Type 0
SendsOnly w r (w', f) = (w'.store ≡ w.store) × ((w'.sent ≡ w.sent) ⊎ (w'.sent ≡ r ∷ w.sent))

never_persists : (m : Mode) → should_persist m (some false) ≡ false
unfolding should_persist
never_persists live = refl
never_persists recording = refl
never_persists replay = refl

true_not_false : true ≢ false
true_not_false h = cc

module _ (env : Environment) (mode : Mode) (today : ℕ) (c : Call) (w : World)
    (kept : c.persist ≡ some false) where
  finish-keeps :
      (r : Response) (v : World)
      → v.store ≡ w.store
      → v.sent ≡ c.request ∷ w.sent
      → SendsOnly w c.request (finish env mode c r v)
  unfolding finish
  finish-keeps r v store sent =
      let never : should_persist mode c.persist ≡ false =
        ap (should_persist mode) kept ∙ never_persists mode in
      if_ind (SendsOnly w c.request) (leb 400 r.status) (λ e. (store, inr sent))
        λ e.
          if_ind (SendsOnly w c.request) (should_persist mode c.persist)
            (λ p. absurd (true_not_false (sym p ∙ never))) (λ p. (store, inr sent))

  send_request-keeps :
      (v : World)
      → v.store ≡ w.store
      → v.sent ≡ w.sent
      → SendsOnly w c.request (send_request env mode c v)
  unfolding send_request receive
  send_request-keeps v store sent = received (env.send c.request)
    where
      received :
          (o : Option Upstream)
          → SendsOnly w c.request (receive env mode c o (record v { sent = c.request ∷ v.sent }))
      received none = (store, inr (ap (◌∷◌ c.request) sent))
      received (some up) =
          Option_ind (SendsOnly w c.request) (read_body 0 up.chunks)
            (λ e. (store, inr (ap (◌∷◌ c.request) sent)))
            λ body e. finish-keeps _ _ store (ap (◌∷◌ c.request) sent)

  go_live-keeps : SendsOnly w c.request (go_live env mode today c w)
  unfolding go_live
  go_live-keeps =
      if_ind (SendsOnly w c.request) (budget_applies mode env.self_hosted c.service).0
        (λ e.
          if_ind (SendsOnly w c.request) (try_spend c.service c.cost today w.budget).1
            (λ g. send_request-keeps _ refl refl) (λ g. (refl, inl refl)))
        (λ e. send_request-keeps w refl refl)

or_go_live-keeps :
    (env : Environment) (mode : Mode) (today : ℕ) (c : Call) (w : World) (o : Option Response)
    → c.persist ≡ some false
    → SendsOnly w c.request (or_go_live env mode today c w o)
unfolding or_go_live
or_go_live-keeps env mode today c w (some r) kept = (refl, inl refl)
or_go_live-keeps env replay today c w none kept = (refl, inl refl)
or_go_live-keeps env recording today c w none kept = go_live-keeps env recording today c w kept
or_go_live-keeps env live today c w none kept = go_live-keeps env live today c w kept

fetch-keeps :
    (env : Environment) (mode : Mode) (today : ℕ) (c : Call) (w : World)
    → c.persist ≡ some false
    → SendsOnly w c.request (fetch env mode today c w)
unfolding fetch
fetch-keeps env replay today c w kept = or_go_live-keeps env replay today c w _ kept
fetch-keeps env recording today c w kept = or_go_live-keeps env recording today c w _ kept
fetch-keeps env live today c w kept = go_live-keeps env live today c w kept

-- What is handed back as an image is of an allowed type and within the limit.
pub data IsServable (max_bytes : ℕ) : Proxied → Type 0 where
  served :
      (body : Bytes) (type : Text)
      → length body ≤ max_bytes
      → member type allowed_image_content_types ≡ true
      → IsServable max_bytes (image body type)
  no_image : (status : ℕ) → IsServable max_bytes (photo_error status)
  no_answer : IsServable max_bytes raises

image_of-IsServable : (max_bytes : ℕ) (r : Response) → IsServable max_bytes (image_of max_bytes r)
unfolding image_of
image_of-IsServable max_bytes r =
    if_ind (IsServable max_bytes) (leb 400 r.status) (λ e. no_image 502)
      λ e.
        if_ind (IsServable max_bytes)
          (not (member (content_type r.headers) allowed_image_content_types)) (λ m. no_image 502)
          λ m.
            if_ind (IsServable max_bytes) (ltb max_bytes (length r.content)) (λ l. no_image 502)
              λ l. served r.content (content_type r.headers) (ground (arith, l)) (ground (arith, m))

image_from-IsServable :
    (max_bytes : ℕ) (f : Fetched) → IsServable max_bytes (image_from max_bytes f)
unfolding image_from
image_from-IsServable max_bytes (failed fixture_missing) = no_image 503
image_from-IsServable max_bytes (failed budget_exhausted) = no_image 503
image_from-IsServable max_bytes (failed response_too_large) = no_image 502
image_from-IsServable max_bytes (failed transport_error) = no_image 502
image_from-IsServable max_bytes (failed secret_leaked) = no_answer
image_from-IsServable max_bytes (answered r) = image_of-IsServable max_bytes r

module _ (signing : Signing) (env : Environment) (max_bytes : ℕ) (mode : Mode) (today : ℕ) where
  -- The one request that may go out: for an address that the server signed, on an allowed host.
  abbrev pub IsOneGet : Text → World → World → Type 0
  IsOneGet ref w w' =
      (url : String) × (service : String) × (w'.sent ≡ get_request url ∷ w.sent)
      × IsIssued signing ref url
      × IsAllowed signing url service

  pub record IsGuarded (ref : Text) (w : World) (answer : World × Proxied) : Type 0 where
    pub unrecorded : answer.0.store ≡ w.store
    pub sent : (answer.0.sent ≡ w.sent) ⊎ IsOneGet ref w answer.0
    pub servable : IsServable max_bytes answer.1

  proxied-IsGuarded :
      (ref : Text) (r : Resolved) (w : World)
      → resolve_image_ref signing ref ≡ r
      → IsGuarded ref w (proxied signing env max_bytes mode today r w)
  unfolding proxied
  proxied-IsGuarded ref refused w h = record {
    unrecorded = refl;
    sent = inl refl;
    servable = no_image 404;
  }
  proxied-IsGuarded ref crashed w h = record {
    unrecorded = refl;
    sent = inl refl;
    servable = no_answer;
  }
  proxied-IsGuarded ref (resolved url service) w h =
      let (issued, allowed) = resolve_image_ref-IsAllowed signing ref url service h in
      let (store, sent) = fetch-keeps env mode today (get_call url service) w refl in
      record {
        unrecorded = store;
        sent = elim sent [ inl e ↦ inl e | inr e ↦ inr (url, service, e, issued, allowed) ];
        servable =
            image_from-IsServable max_bytes (fetch env mode today (get_call url service) w).1;
      }

  -- Whatever reference it is given, and in every mode, the image proxy writes no recording and sends
  -- nothing or one GET, to an address that carries the server's own tag and lies on one of the two image
  -- hosts, over https, with no user and on the standard port; and what it hands back as an image is of
  -- an allowed type and within the size limit.
  pub proxied_image-IsGuarded :
      (ref : Text) (w : World)
      → IsGuarded ref w (proxied_image signing env max_bytes mode today ref w)
  unfolding proxied_image
  proxied_image-IsGuarded ref w = proxied-IsGuarded ref (resolve_image_ref signing ref) w refl
