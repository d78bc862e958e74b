-- ===== src/Cache/Lifetime.antt =====
-- How long an entry of backend/cache.py is served, and what a closed cache does.
use meander.Common.{
  Bool, Option, String, ap, arith, eq_iff, false, if_ind, if◌then◌else◌, leb, ltb, none, not, refl,
  some, str_eq, sym, true, ℕ, ◌*◌, ◌+◌, ◌<◌, ◌||◌, ◌∙◌, ◌≡◌, ◌≤◌,
}
use meander.Common.Dict.{Dict, get, get-delete, get-put, get-put_self, put}
use meander.Cache.{
  Cache, Json, Reply, Row, StampLaws, Stamps, cache_closed, close, get_geocode, get_route, is_live,
  load, look_up, row_of, set_routes, sweep_every_n_writes, value,
}
use meander.Cache.Writes.{maybe_sweep, put_geocode, put_route, set_writes}
use meander.Cache.Sweep.{is_expired}

texts_agree : (now t : ℕ) → (leb t now || false) ≡ not (ltb now t)
texts_agree now t = ground arith

none_when_over : {A : Type 0} (a b : ℕ) (x : A) → b ≤ a → (if ltb a b then some x else none) ≡ none
none_when_over a b x h = ground arith

module _ {S P : Type 0} (stamps : Stamps S) where
  -- What a look-up answers, from the row that the table has.
  read : (at : ℕ) → Option (Row S P) → Option P
  read at none = none
  read at (some row) = if is_live stamps at row then some row.payload else none

  look_up-read :
      (at : ℕ) (key : String) (rows : Dict (Row S P))
      → (look_up stamps at key rows).1 ≡ read at (get key rows)
  unfolding look_up read
  look_up-read at key rows = ground arith

  look_up-gone :
      (at : ℕ) (key : String) (rows : Dict (Row S P))
      → read at (get key rows) ≡ none
      → get key (look_up stamps at key rows).0 ≡ none
  unfolding look_up read
  look_up-gone at key rows h = ground (arith, get-delete key key rows, eq_iff key key)

  module _ {J : Type 0} (laws : StampLaws S stamps) (json : Json J P) where
    is_live-row_of :
        (now at : ℕ) (payload : J) (ttl_s : ℕ)
        → is_live stamps at (row_of stamps json now payload ttl_s) ≡ ltb at (now + ttl_s * 1000000)
    unfolding is_live row_of
    is_live-row_of now at payload ttl_s =
        ap (λ (o : Option ℕ). elim o [ none ↦ false | some t ↦ ltb at t ])
          (laws.parse-iso (now + ttl_s * 1000000))

    -- For a row whose expiry this program wrote, the sweep's comparison of texts and the look-up's
    -- comparison of instants agree: the row goes exactly when it would not be served.
    pub is_expired-is_live :
        (now t : ℕ) (row : Row S P)
        → row.expires_at ≡ stamps.iso t
        → is_expired stamps now row ≡ not (is_live stamps now row)
    unfolding is_expired is_live
    is_expired-is_live now t row e =
        ap (λ s. stamps.at_most s (stamps.iso now) || not (stamps.ends_utc s)) e
        ∙ ap (λ b. stamps.at_most (stamps.iso t) (stamps.iso now) || not b) (laws.ends_utc-iso t)
        ∙ ap (λ b. b || false) (laws.at_most-iso t now)
        ∙ texts_agree now t
        ∙ sym (
            ap (λ (o : Option ℕ). not (elim o [ none ↦ false | some u ↦ ltb now u ]))
              (ap stamps.parse e ∙ laws.parse-iso t))

    read_written :
        (now at : ℕ) (payload : J) (ttl_s : ℕ)
        → read at (some (row_of stamps json now payload ttl_s))
          ≡ (if ltb at (now + ttl_s * 1000000) then some (json.dumps payload) else none)
    unfolding row_of read
    read_written now at payload ttl_s =
        ap (λ b. if b then some (json.dumps payload) else none)
          (is_live-row_of now at payload ttl_s)

    put_route_kept :
        (now later : ℕ) (key : String) (payload : J) (ttl_s : ℕ) (c : Cache S P)
        → c.closed ≡ false
        → c.writes_since_sweep + 1 < sweep_every_n_writes
        → ((put_route stamps json now later key payload ttl_s c).0.routes
            ≡ put key (row_of stamps json now payload ttl_s) c.routes)
          × ((put_route stamps json now later key payload ttl_s c).0.closed ≡ false)
    unfolding put_route maybe_sweep set_writes set_routes
    put_route_kept now later key payload ttl_s c unclosed early =
        let rows = put key (row_of stamps json now payload ttl_s) c.routes in
        if_ind (λ (p : Cache S P × Reply Unit). (p.0.routes ≡ rows) × (p.0.closed ≡ false)) c.closed
          (λ k. absurd (ground arith))
          λ k.
            if_ind (λ (d : Cache S P). (d.routes ≡ rows) × (d.closed ≡ false))
              (ltb (c.writes_since_sweep + 1) sweep_every_n_writes) (λ t. (refl, unclosed))
              λ t. absurd (ground arith)

    get_route-read :
        (at : ℕ) (key : String) (c : Cache S P)
        → c.closed ≡ false
        → ((get_route stamps json at key c).1
            ≡ value (load stamps json (read at (get key c.routes))))
          × ((get_route stamps json at key c).0.routes ≡ (look_up stamps at key c.routes).0)
    unfolding get_route set_routes
    get_route-read at key c unclosed =
        if_ind
          (λ (p : Cache S P × Reply (Option J)).
            (p.1 ≡ value (load stamps json (read at (get key c.routes))))
            × (p.0.routes ≡ (look_up stamps at key c.routes).0))
          c.closed (λ k. absurd (ground arith))
          λ k. (ap (λ p. value (load stamps json p)) (look_up-read at key c.routes), refl)

    load_written :
        (b : Bool) (payload : J)
        → json.loads (json.dumps payload) ≡ some payload
        → load stamps json (if b then some (json.dumps payload) else none)
          ≡ (if b then some payload else none)
    unfolding load
    load_written true payload h = h
    load_written false payload h = refl

    -- On an open cache, between sweeps, a stored route is served until its lifetime is over and not from
    -- then on, when the look-up deletes its row; the answers for other keys stay what they were.
    pub get_route-put_route :
        (now later at : ℕ) (key : String) (payload : J) (ttl_s : ℕ) (c : Cache S P)
        → c.closed ≡ false
        → c.writes_since_sweep + 1 < sweep_every_n_writes
        → json.loads (json.dumps payload) ≡ some payload
        → ((get_route stamps json at key (put_route stamps json now later key payload ttl_s c).0).1
            ≡ value (if ltb at (now + ttl_s * 1000000) then some payload else none))
          × (now + ttl_s * 1000000 ≤ at
              → get key
                  (get_route stamps json at key
                    (put_route stamps json now later key payload ttl_s c).0).0.routes
                ≡ none)
          × ((j : String)
              → str_eq key j ≡ false
              → (get_route stamps json at j
                  (put_route stamps json now later key payload ttl_s c).0).1
                ≡ (get_route stamps json at j c).1)
    get_route-put_route now later at key payload ttl_s c unclosed early loads =
        let row = row_of stamps json now payload ttl_s in
        let after = (put_route stamps json now later key payload ttl_s c).0 in
        let (rows, still) = put_route_kept now later key payload ttl_s c unclosed early in
        let answer : Option (Row S P) → Reply (Option J) =
          λ r. value (load stamps json (read at r)) in
        let here : get key after.routes ≡ some row =
          ap (get key) rows ∙ get-put_self key row c.routes in
        let due = read_written now at payload ttl_s in
        (
          (get_route-read at key after still).0
              ∙ ap answer here
              ∙ ap (λ r. value (load stamps json r)) due
              ∙ ap value (load_written (ltb at (now + ttl_s * 1000000)) payload loads),
          λ over.
              ap (get key) (get_route-read at key after still).1
              ∙ look_up-gone at key after.routes (
                  ap (read at) here
                  ∙ due
                  ∙ none_when_over at (now + ttl_s * 1000000) (json.dumps payload) over),
          λ j other.
              (get_route-read at j after still).0
              ∙ ap answer (ap (get j) rows ∙ get-put key j row c.routes ∙ rw other refl)
              ∙ sym (get_route-read at j c unclosed).0,
        )

  -- Every operation of a closed cache raises `CacheClosed` and changes nothing.
  pub close_refuses :
      {J : Type 0} (json : Json J P) (now later : ℕ) (key : String) (payload : J) (ttl_s : ℕ)
      (c : Cache S P)
      → (get_route stamps json now key (close c) ≡ (close c, cache_closed))
        × (get_geocode stamps json now key (close c) ≡ (close c, cache_closed))
        × (put_route stamps json now later key payload ttl_s (close c) ≡ (close c, cache_closed))
        × (put_geocode stamps json now later key payload ttl_s (close c) ≡ (close c, cache_closed))
  unfolding get_route get_geocode put_route put_geocode close
  close_refuses json now later key payload ttl_s c = (refl, refl, refl, refl)
