-- ===== src/App/Served.antt =====
-- What `post_routes` and `_stream` (backend/main.py) hand to the cache, and serve from it.
use mathlib.Core.Path.{subst}
use meander.Common.{
  All, Bool, List, Option, String, [], ap, arith, false, if_ind, if_true, if◌then◌else◌, lt→ltb,
  none, refl, some, sym, true, ℕ, ◌*◌, ◌++◌, ◌+◌, ◌<◌, ◌||◌, ◌∙◌, ◌∷◌, ◌≡◌,
}
use meander.RateLimit.{RateLimiter, check}
use meander.Cache.{
  Cache, Json, Reply as CacheReply, StampLaws, Stamps, cache_closed, get_route, set_routes,
  sweep_every_n_writes, value,
}
use meander.Cache.Writes.{put_route}
use meander.Cache.Lifetime.{get_route-put_route}
use meander.App.Events.{Event, Payload, done, progress, route, timeout}
use meander.App.Complete.{IsNews}
use meander.App.Serve.{
  Clocks, Drain, Keeping, Site, after_check, after_look_up, keep_event, keep_events, nothing_kept,
  on_hang_up, on_miss, post_routes, route_cache_ttl_s, served, store, to_cache,
}

module _ {S P E R : Type 0} (stamps : Stamps S) (laws : StampLaws S stamps)
    (json : Json (Payload E R) P) (blake2b : String → String) where
  abbrev pub LookedUp : Type 0
  LookedUp = Cache S P × CacheReply (Option (Payload E R))

  on_allowed :
      (t : Clocks) (ip : Option String) (key : String) (d : Drain E R) (site : Site S P)
      → (check blake2b ip t.monotonic t.wall true site.limiter).1.is_allowed ≡ true
      → post_routes stamps json blake2b t ip key d site
        ≡ after_look_up stamps json blake2b t ip key d
            (check blake2b ip t.monotonic t.wall true site.limiter).0
            (get_route stamps json t.look key site.cache)
  unfolding post_routes after_check
  on_allowed t ip key d site h =
      if_true (check blake2b ip t.monotonic t.wall true site.limiter).1.is_allowed _ _ h

  missed :
      (t : Clocks) (ip : Option String) (key : String) (d : Drain E R) (l : RateLimiter)
      (x : LookedUp)
      → x.1 ≡ value none
      → after_look_up stamps json blake2b t ip key d l x ≡ on_miss stamps json blake2b t key d l x.0
  unfolding after_look_up
  missed t ip key d l (c, cache_closed) h = absurd (ground arith)
  missed t ip key d l (c, value none) h = refl
  missed t ip key d l (c, value (some p)) h = absurd (ground arith)

  found :
      (t : Clocks) (ip : Option String) (key : String) (d : Drain E R) (l : RateLimiter)
      (x : LookedUp) (p : Payload E R)
      → x.1 ≡ value (some p)
      → (after_look_up stamps json blake2b t ip key d l x).1 ≡ served p
  unfolding after_look_up
  found t ip key d l (c, cache_closed) p h = absurd (ground arith)
  found t ip key d l (c, value none) p h = absurd (ground arith)
  found t ip key d l (c, value (some q)) p h = ground arith

  get_route-fields :
      (now : ℕ) (key : String) (c : Cache S P)
      → ((get_route stamps json now key c).0.closed ≡ c.closed)
        × ((get_route stamps json now key c).0.writes_since_sweep ≡ c.writes_since_sweep)
  unfolding get_route set_routes
  get_route-fields now key c =
      if_ind
        (λ (x : LookedUp).
          (x.0.closed ≡ c.closed) × (x.0.writes_since_sweep ≡ c.writes_since_sweep))
        c.closed (λ e. (refl, refl)) λ e. (refl, refl)

  -- A complete answer to a miss, on an open cache between sweeps, is what the next allowed request for
  -- the same key is served within the lifetime, whoever asks and whatever a new run would have given.
  pub post_routes_again :
      (t t' : Clocks) (ip ip' : Option String) (key : String) (d d' : Drain E R) (site : Site S P)
      (p : Payload E R)
      → (check blake2b ip t.monotonic t.wall true site.limiter).1.is_allowed ≡ true
      → (get_route stamps json t.look key site.cache).1 ≡ value none
      → to_cache d ≡ some p
      → site.cache.closed ≡ false
      → site.cache.writes_since_sweep + 1 < sweep_every_n_writes
      → json.loads (json.dumps p) ≡ some p
      → (check blake2b ip' t'.monotonic t'.wall true
          (post_routes stamps json blake2b t ip key d site).0.limiter).1.is_allowed
        ≡ true
      → t'.look < t.write + route_cache_ttl_s * 1000000
      → (post_routes stamps json blake2b t' ip' key d'
          (post_routes stamps json blake2b t ip key d site).0).1
        ≡ served p
  unfolding on_miss store
  post_routes_again t t' ip ip' key d d' site p let_in miss complete unclosed early loads again
        fresh =
      let after = (post_routes stamps json blake2b t ip key d site).0 in
      let looked = (get_route stamps json t.look key site.cache).0 in
      let stored = (put_route stamps json t.write t.swept key p route_cache_ttl_s looked).0 in
      let same_cache : after.cache ≡ stored =
        ap (λ x. x.0.cache)
          (on_allowed t ip key d site let_in
            ∙ missed t ip key d (check blake2b ip t.monotonic t.wall true site.limiter).0
                (get_route stamps json t.look key site.cache) miss)
        ∙ ap (λ o. store stamps json blake2b t key o looked) complete in
      let fields = get_route-fields t.look key site.cache in
      let live : (get_route stamps json t'.look key stored).1 ≡ value (some p) =
        (get_route-put_route stamps laws json t.write t.swept t'.look key p route_cache_ttl_s looked
          (fields.0 ∙ unclosed) (omega (arith, fields.1, early)) loads).0
        ∙ ap (λ o. value o) (if_true _ (some p) none (lt→ltb _ _ fresh)) in
      ap (λ x. x.1) (on_allowed t' ip' key d' after again)
      ∙ found t' ip' key d' (check blake2b ip' t'.monotonic t'.wall true after.limiter).0
          (get_route stamps json t'.look key after.cache) p
          (ap (λ c. (get_route stamps json t'.look key c).1) same_cache ∙ live)

module _ {E R : Type 0} (write_ok : Bool) where
  keep_news :
      (front events : List (Event E R)) (s : Keeping E R)
      → All IsNews front
      → keep_events write_ok (front ++ events) s ≡ keep_events write_ok events s
  unfolding keep_events keep_event
  keep_news [] events s h = refl
  keep_news (progress n ∷ front) events s h = keep_news front events s h.1
  keep_news (route x ∷ front) events s h = keep_news front events s h.1
  keep_news (done b p ∷ front) events s h = absurd h.0
  keep_news (timeout ∷ front) events s h = absurd h.0

  branches :
      (partial ok : Bool) (p : Payload E R)
      → ((keep_event ok (done partial p) nothing_kept).writes ≡ (if partial then [] else p ∷ []))
        × (on_hang_up ok (keep_event ok (done partial p) nothing_kept)
            ≡ (if partial || ok then p ∷ [] else p ∷ p ∷ []))
  unfolding keep_event on_hang_up
  branches true ok p = (refl, refl)
  branches false true p = (refl, refl)
  branches false false p = (refl, refl)

  -- A stream that ends with an answer stores it, unless it is partial. A client that hangs up after the
  -- answer has it stored again where the first attempt failed, and stored also where it is partial.
  pub stream_writes :
      (front : List (Event E R)) (partial : Bool) (p : Payload E R)
      → All IsNews front
      → ((keep_events write_ok (front ++ done partial p ∷ []) nothing_kept).writes
          ≡ (if partial then [] else p ∷ []))
        × (on_hang_up write_ok (keep_events write_ok (front ++ done partial p ∷ []) nothing_kept)
            ≡ (if partial || write_ok then p ∷ [] else p ∷ p ∷ []))
  unfolding keep_events keep_event on_hang_up
  stream_writes front partial p h =
      let Claim : Keeping E R → Type 0 = λ s.
        (s.writes ≡ (if partial then [] else p ∷ []))
        × (on_hang_up write_ok s ≡ (if partial || write_ok then p ∷ [] else p ∷ p ∷ [])) in
      subst Claim (sym (keep_news front (done partial p ∷ []) nothing_kept h))
        (branches partial write_ok p)
