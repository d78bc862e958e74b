-- ===== src/Fixtures/Cases.antt =====
-- The branches of `fetch` (backend/fixtures.py), as an induction for what holds of its result.
use meander.Common.{
  List, Option, Option_ind, arith, false, if_ind, inl, inr, leb, none, refl, some, ℕ, ◌<◌, ◌≡◌, ◌≤◌,
  ◌⊎◌,
}
use meander.Fixtures.{Mode, budget_applies, live, recording, replay}
use meander.Fixtures.Envelope.{Response, read_fixture}
use meander.Fixtures.Budget.{LiveCallBudget, try_spend}
use meander.Fixtures.Fetch.{
  Call, Environment, FetchError, Fetched, Upstream, World, answered, budget_exhausted, failed,
  fetch, finish, fixture_missing, go_live, labelled, or_go_live, persisted, read_body, receive,
  response_too_large, send_request, should_persist, sig_of, transport_error,
}
use meander.Fixtures.Secrets.{Request}

module _ (env : Environment) where
  open env use {codec, send, self_hosted}

  -- A property of the world and the result that sending keeps, kept by the whole of `fetch`.
  module _ {κ} (P : World × Fetched → Type κ) (mode : Mode) (c : Call) where
    -- What is to be shown of an answer that arrives whole.
    abbrev pub Ends : World → Type κ
    Ends w =
        ((e : FetchError) → P (w, failed e))
        × ((r : Response)
            → (400 ≤ r.status) ⊎ (should_persist mode c.persist ≡ false)
            → P (w, answered (labelled env w.record_provenance r)))
        × ((r : Response) → r.status < 400 → P (persisted env c r w))

    receive_ind : (o : Option Upstream) (w : World) → Ends w → P (receive env mode c o w)
    unfolding receive finish
    receive_ind none w h = h.0 transport_error
    receive_ind (some up) w h =
        Option_ind P (read_body 0 up.chunks) (λ e. h.0 response_too_large)
          λ body e.
            if_ind P (leb 400 up.status) (λ s. h.1 _ (inl (ground arith)))
              λ s.
                if_ind P (should_persist mode c.persist) (λ p. h.2 _ (ground arith))
                  λ p. h.1 _ (inr p)

    pub go_live_ind :
        (today : ℕ) (w : World)
        → ((b : LiveCallBudget) (sent : List Request) → Ends (record w { budget = b; sent = sent }))
        → P (go_live env mode today c w)
    unfolding go_live send_request
    go_live_ind today w h =
        if_ind P (budget_applies mode self_hosted c.service).0
          (λ e.
            if_ind P (try_spend c.service c.cost today w.budget).1
              (λ g. receive_ind (send c.request) _ (h _ _)) λ g. (h _ _).0 budget_exhausted)
          λ e. receive_ind (send c.request) _ (h w.budget _)

  module _ {κ} (P : World × Fetched → Type κ) (today : ℕ) (c : Call) (w : World) where
    or_go_live_ind :
        (mode : Mode) (o : Option Response)
        → ((r : Response) → o ≡ some r → P (w, answered r))
        → P (w, failed fixture_missing)
        → P (go_live env mode today c w)
        → P (or_go_live env mode today c w o)
    unfolding or_go_live
    or_go_live_ind mode (some r) h m g = h r refl
    or_go_live_ind replay none h m g = m
    or_go_live_ind recording none h m g = g
    or_go_live_ind live none h m g = g

    pub fetch_ind :
        (mode : Mode)
        → ((r : Response)
            → read_fixture codec c.service (sig_of env c) w.store ≡ some r
            → P (w, answered r))
        → P (w, failed fixture_missing)
        → P (go_live env mode today c w)
        → P (fetch env mode today c w)
    unfolding fetch
    fetch_ind replay h m g = or_go_live_ind replay _ h m g
    fetch_ind recording h m g = or_go_live_ind recording _ h m g
    fetch_ind live h m g = g
