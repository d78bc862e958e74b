-- ===== src/Fixtures/RoundTrip.antt =====
-- What `fetch` (backend/fixtures.py) has recorded, it serves again.
use mathlib.Core.Path.{subst}
use meander.Common.{Option, ap, arith, if_ind, none, refl, some, true, ℕ, ◌<◌, ◌∙◌, ◌≡◌, ◌≢◌}
use meander.Fixtures.{Mode, live, recording, replay}
use meander.Fixtures.Secrets.{Value}
use meander.Fixtures.Envelope.{
  Bytes, Response, body_of, content_of, envelope, envelope_of, json_body, leaks, opened,
  read_fixture, replayed, text_body,
}
use meander.Fixtures.Fetch.{
  Call, Environment, Fetched, World, answered, failed, fetch, labelled, or_go_live, persisted,
  should_persist, sig_of,
}
use meander.Fixtures.Cases.{fetch_ind, go_live_ind}
use meander.Fixtures.Recording.{lookup-replace}

module _ (env : Environment) (c : Call) (v : Value) where
  open env use {codec, urlsplit, secrets, rendering}

  -- The world holds a recording of a response: of its status and, for a JSON body, of its value.
  abbrev pub IsHeld : World → Response → Type 0
  IsHeld w r =
      (r' : Response) × (read_fixture codec c.service (sig_of env c) w.store ≡ some r')
      × (r'.status ≡ r.status)
      × (codec.parse r'.content ≡ some v)

  -- The result of a fetch, if it is a JSON answer below 400, is held.
  abbrev IsKept : World × Fetched → Type 0
  IsKept (w, failed e) = Unit
  IsKept (w, answered r) = r.status < 400 → codec.parse r.content ≡ some v → IsHeld w r

  body_of-json :
      (content : Bytes) → codec.parse content ≡ some v → body_of codec content ≡ json_body v
  unfolding body_of
  body_of-json content h =
      ap
        (λ (o : Option Value). elim o [
          | none ↦ text_body (codec.decode content)
          | some u ↦ json_body u
        ])
        h

  persisted-IsKept :
      (r : Response) (w : World)
      → codec.parse (codec.dumps v) ≡ some v
      → IsKept (persisted env c r w)
  unfolding persisted labelled replayed read_fixture opened envelope_of content_of
  persisted-IsKept r w law =
      let e = envelope_of codec urlsplit w.record_provenance c.request r in
      if_ind IsKept (leaks secrets (rendering e)) (λ l. tt)
        λ l below h. (
          replayed codec e,
          ap (opened codec) (lookup-replace c.service (sig_of env c) (envelope e) w.store),
          refl,
          ap (λ b. codec.parse (content_of codec b)) (body_of-json r.content h) ∙ law,
        )

  fetch-IsKept :
      (today : ℕ) (w : World)
      → codec.parse (codec.dumps v) ≡ some v
      → should_persist recording c.persist ≡ true
      → IsKept (fetch env recording today c w)
  unfolding labelled
  fetch-IsKept today w law keeps =
      fetch_ind env IsKept today c w recording (λ r e below h. (r, e, refl, h)) tt
        (go_live_ind env IsKept recording c today w λ b sent.
          ((λ e. tt), (λ r u below. absurd (ground arith)), λ r below. persisted-IsKept r _ law))

  fetch_held :
      (mode : Mode) (later : ℕ) (w : World) (r : Response)
      → mode ≢ live
      → read_fixture codec c.service (sig_of env c) w.store ≡ some r
      → fetch env mode later c w ≡ (w, answered r)
  unfolding fetch or_go_live
  fetch_held replay later w r h e = ap (or_go_live env replay later c w) e
  fetch_held recording later w r h e = ap (or_go_live env recording later c w) e
  fetch_held live later w r h e = absurd (h refl)

  -- A request that was answered below 400 with a JSON body while recording is answered from then on,
  -- in replay as in recording mode, on any day and whatever the upstream would say, with the same
  -- status and the same JSON value, without anything sent, spent or written, unless the caller
  -- forbade the recording.
  pub fetch_again :
      (mode : Mode) (today later : ℕ) (w w' : World) (r : Response)
      → codec.parse (codec.dumps v) ≡ some v
      → should_persist recording c.persist ≡ true
      → mode ≢ live
      → fetch env recording today c w ≡ (w', answered r)
      → r.status < 400
      → codec.parse r.content ≡ some v
      → (r' : Response) × (fetch env mode later c w' ≡ (w', answered r'))
        × (r'.status ≡ r.status)
        × (codec.parse r'.content ≡ some v)
  fetch_again mode today later w w' r law keeps offline e below json =
      let (r', held, agrees, body) = subst IsKept e (fetch-IsKept today w law keeps) below json in
      (r', fetch_held mode later w' r' offline held, agrees, body)
