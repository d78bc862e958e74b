-- ===== src/Fixtures/Replay.antt =====
-- What `fetch` (backend/fixtures.py) promises: where an answer comes from, and what it leaves behind.
use meander.Common.{
  Option, Option-cases, Option_ind, ap, arith, if_ind, inl, inr, leb, none, refl, some, true, ℕ,
  ◌<◌, ◌≡◌, ◌≢◌, ◌⊎◌,
}
use meander.Fixtures.{Mode, budget_applies, live, recording, replay}
use meander.Fixtures.Envelope.{Response, Store, envelope_of, leaks, read_fixture}
use meander.Fixtures.Budget.{try_spend}
use meander.Fixtures.Fetch.{
  Call, Environment, Fetched, Upstream, World, answered, failed, fetch, finish, go_live, labelled,
  or_go_live, persisted, read_body, receive, secret_leaked, send_request, should_persist, sig_of,
}

module _ (env : Environment) where
  open env use {codec, rendering, send, secrets, self_hosted}

  -- An answer below 400, or the removal of a file that holds a secret.
  abbrev pub IsRecorded : Fetched → Type 0
  IsRecorded (answered r) = r.status < 400
  IsRecorded (failed secret_leaked) = Unit
  IsRecorded (failed e) = ⊥

  -- Either nothing was written, or an answer was recorded.
  abbrev pub IsCareful : Store → World × Fetched → Type 0
  IsCareful store (w, f) = (w.store ≡ store) ⊎ IsRecorded f

  finish-IsCareful :
      (mode : Mode) (c : Call) (r : Response) (w : World)
      → IsCareful w.store (finish env mode c r w)
  unfolding finish persisted labelled
  finish-IsCareful mode c r w =
      if_ind (IsCareful w.store) (leb 400 r.status) (λ e. inl refl)
        λ below.
          if_ind (IsCareful w.store) (should_persist mode c.persist)
            (λ e.
              if_ind (IsCareful w.store)
                (leaks secrets
                  (rendering (envelope_of codec env.urlsplit w.record_provenance c.request r)))
                (λ l. inr tt) λ l. inr (ground arith))
            λ e. inl refl

  receive-IsCareful :
      (mode : Mode) (c : Call) (o : Option Upstream) (w : World)
      → IsCareful w.store (receive env mode c o w)
  unfolding receive
  receive-IsCareful mode c none w = inl refl
  receive-IsCareful mode c (some up) w =
      Option_ind (IsCareful w.store) (read_body 0 up.chunks) (λ e. inl refl)
        λ body e. finish-IsCareful mode c _ w

  go_live-IsCareful :
      (mode : Mode) (today : ℕ) (c : Call) (w : World)
      → IsCareful w.store (go_live env mode today c w)
  unfolding go_live send_request
  go_live-IsCareful mode today c w =
      if_ind (IsCareful w.store) (budget_applies mode self_hosted c.service).0
        (λ e.
          if_ind (IsCareful w.store) (try_spend c.service c.cost today w.budget).1
            (λ g. receive-IsCareful mode c (send c.request) _) λ g. inl refl)
        λ e. receive-IsCareful mode c (send c.request) _

  or_go_live-IsCareful :
      (mode : Mode) (today : ℕ) (c : Call) (w : World) (o : Option Response)
      → IsCareful w.store (or_go_live env mode today c w o)
  unfolding or_go_live
  or_go_live-IsCareful mode today c w (some r) = inl refl
  or_go_live-IsCareful replay today c w none = inl refl
  or_go_live-IsCareful recording today c w none = go_live-IsCareful recording today c w
  or_go_live-IsCareful live today c w none = go_live-IsCareful live today c w

  -- A fetch in any mode changes the recordings only when it answers with a status below 400, or when
  -- it takes back a file that held a secret: no failure and no error status is ever recorded.
  pub fetch-IsCareful :
      (mode : Mode) (today : ℕ) (c : Call) (w : World)
      → IsCareful w.store (fetch env mode today c w)
  unfolding fetch
  fetch-IsCareful replay today c w = or_go_live-IsCareful replay today c w _
  fetch-IsCareful recording today c w = or_go_live-IsCareful recording today c w _
  fetch-IsCareful live today c w = go_live-IsCareful live today c w

  -- The disk and the budget are as they were.
  abbrev pub IsUntouched : World → World × Fetched → Type 0
  IsUntouched w r = (r.0.store ≡ w.store) × (r.0.budget ≡ w.budget)

  receive-live :
      (c : Call) (o : Option Upstream) (w : World)
      → c.persist ≢ some true
      → IsUntouched w (receive env live c o w)
  unfolding receive finish should_persist
  receive-live c none w h = (refl, refl)
  receive-live c (some up) w h =
      Option_ind (IsUntouched w) (read_body 0 up.chunks) (λ e. (refl, refl))
        λ body e.
          if_ind (IsUntouched w) (leb 400 up.status) (λ s. (refl, refl))
            λ s.
              if_ind (IsUntouched w) (should_persist live c.persist)
                (λ p. absurd (h (ground arith))) λ p. (refl, refl)

  -- A deployed instance, in live mode, neither writes a file nor spends from the budget, unless the
  -- caller asks for a file.
  pub fetch-live :
      (today : ℕ) (c : Call) (w : World)
      → c.persist ≢ some true
      → IsUntouched w (fetch env live today c w)
  unfolding fetch go_live budget_applies send_request
  fetch-live today c w h = receive-live c (send c.request) _ h

  -- Replay mode changes nothing, and so sends nothing.
  pub fetch-replay : (today : ℕ) (c : Call) (w : World) → (fetch env replay today c w).0 ≡ w
  unfolding fetch or_go_live
  fetch-replay today c w =
      elim (Option-cases (read_fixture codec c.service (sig_of env c) w.store)) [
        | inl e ↦ ap (λ o. (or_go_live env replay today c w o).0) e
        | inr (r, e) ↦ ap (λ o. (or_go_live env replay today c w o).0) e
      ]
