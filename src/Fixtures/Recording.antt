-- ===== src/Fixtures/Recording.antt =====
-- What `fetch` (backend/fixtures.py) records: that it is served again, that it holds no secret, and
-- what an answer says of its origin.
use mathlib.Core.Path.{subst}
use meander.Common.{
  All, List, Option, Option_ind, String, [], ap, arith, false, if_ind, if◌then◌else◌, inl, inr,
  none, refl, some, str_eq, sym, true, ℕ, ◌∙◌, ◌≡◌, ◌⊎◌,
}
use meander.Common.Dict.{
  Dict, delete, delete-All, delete-put, delete_all, get, get-All, get-delete, get-put, get-put_self,
  put, put-All, put-put,
}
use meander.Fixtures.Envelope.{
  Body, Envelope, File, Response, Store, directory, envelope, envelope_of, envelope_provenance,
  files_in, json_body, leaks, lookup, no_body, opened, or_default, provenance_of, read_fixture,
  replace, replayed, text_body, typed, unlink, unreadable,
}
use meander.Fixtures.Cases.{fetch_ind, go_live_ind}
use meander.Fixtures.Fetch.{
  Call, Environment, Fetched, World, answered, failed, fetch, labelled, persisted, set_header,
  sig_of,
}
use meander.Fixtures.{Mode, provenance_header, provenance_live, provenance_synthetic}
use meander.Fixtures.Budget.{LiveCallBudget}
use meander.Fixtures.Secrets.{Request}

directory-put :
    (service : String) (d : Dict File) (store : Store) → directory service (put service d store) ≡ d
unfolding directory
directory-put service d store = ap files_in (get-put_self service d store)

pub lookup-replace :
    (service sig : String) (f : File) (store : Store)
    → lookup service sig (replace service sig f store) ≡ some f
unfolding lookup replace
lookup-replace service sig f store =
    ap (get sig) (directory-put service (put sig f (directory service store)) store)
    ∙ get-put_self sig f (directory service store)

unlink-replace :
    (service sig : String) (f : File) (store : Store)
    → unlink service sig (replace service sig f store) ≡ unlink service sig store
unfolding unlink replace
unlink-replace service sig f store =
    let files = directory service store in
    put-put service _ (put sig f files) store
    ∙ ap (λ d. put service (delete sig d) store) (directory-put service (put sig f files) store)
    ∙ ap (λ d. put service d store) (delete-put sig f files)

files_in-All {κ} :
    (P : String × File → Type κ) (service : String) (store : Store) (o : Option (Dict File))
    → get service store ≡ o
    → All (λ d. All P d.1) store
    → All P (files_in o)
files_in-All P service store none e h = tt
files_in-All P service store (some d) e h = get-All (All P) service d store h e

-- The origin of a file's answer: what the file says, or synthetic where it says nothing.
pub data IsOrigin : Option String → String → Type 0 where
  said : (p : String) → str_eq p "" ≡ false → IsOrigin (some p) p
  said_nothing : (p : String) → str_eq p "" ≡ true → IsOrigin (some p) "synthetic"
  unsaid : IsOrigin none "synthetic"

envelope_provenance-IsOrigin : (e : Envelope) → IsOrigin e.provenance (envelope_provenance e)
unfolding envelope_provenance
envelope_provenance-IsOrigin e = origin_of e.provenance
  where
    origin_of :
        (o : Option String)
        → IsOrigin o (elim o [
          | none ↦ provenance_synthetic
          | some p ↦ if str_eq p "" then provenance_synthetic else p
        ])
    origin_of none = unsaid
    origin_of (some p) =
        if_ind (IsOrigin (some p)) (str_eq p "") (λ e. said_nothing p e) (λ e. said p e)

module _ (env : Environment) where
  open env use {codec, rendering, send, secrets, self_hosted, urlsplit}

  abbrev pub IsClean : File → Type 0
  IsClean unreadable = Unit
  IsClean (envelope e) = leaks secrets (rendering e) ≡ false

  -- No file holds a configured secret.
  abbrev pub AreClean : Store → Type 0
  AreClean store = All (λ d. All (λ f. IsClean f.1) d.1) store

  replace-AreClean :
      (service sig : String) (f : File) (store : Store)
      → IsClean f
      → AreClean store
      → AreClean (replace service sig f store)
  unfolding replace directory
  replace-AreClean service sig f store clean h =
      put-All (All (λ g. IsClean g.1)) service _ store
        (put-All IsClean sig f (files_in (get service store)) clean
          (files_in-All (λ g. IsClean g.1) service store (get service store) refl h))
        h

  unlink-AreClean :
      (service sig : String) (store : Store) → AreClean store → AreClean (unlink service sig store)
  unfolding unlink directory
  unlink-AreClean service sig store h =
      put-All (All (λ g. IsClean g.1)) service _ store
        (delete-All IsClean sig (files_in (get service store))
          (files_in-All (λ g. IsClean g.1) service store (get service store) refl h))
        h

  persisted-AreClean :
      (c : Call) (r : Response) (w : World)
      → AreClean w.store
      → AreClean (persisted env c r w).0.store
  unfolding persisted
  persisted-AreClean c r w h =
      let e = envelope_of codec urlsplit w.record_provenance c.request r in
      let sig = sig_of env c in
      if_ind (λ (p : World × Fetched). AreClean p.0.store) (leaks secrets (rendering e))
        (λ l.
          subst AreClean (sym (unlink-replace c.service sig (envelope e) w.store))
            (unlink-AreClean c.service sig w.store h))
        λ l. replace-AreClean c.service sig (envelope e) w.store l h

  -- A fetch keeps every file free of the configured secrets.
  pub fetch-AreClean :
      (mode : Mode) (today : ℕ) (c : Call) (w : World)
      → AreClean w.store
      → AreClean (fetch env mode today c w).0.store
  fetch-AreClean mode today c w h =
      let P : World × Fetched → Type 0 = λ p. AreClean p.0.store in
      fetch_ind env P today c w mode (λ r e. h) h
        (go_live_ind env P mode c today w
          λ b sent. ((λ e. h), (λ r u. h), λ r s. persisted-AreClean c r _ h))

  -- What the answer to `c` says of its origin: a file's own word, or, of what was sent, that it is
  -- live or, while the generator of synthetic recordings runs, that it is synthetic.
  abbrev pub IsLabelled : Call → World → World × Fetched → Type 0
  IsLabelled c w (_, failed e) = Unit
  IsLabelled c w (_, answered r) =
      ((e : Envelope) × (lookup c.service (sig_of env c) w.store ≡ some (envelope e))
        × IsOrigin e.provenance (provenance_of r))
      ⊎ (provenance_of r ≡ (
          if str_eq w.record_provenance provenance_synthetic
          then provenance_synthetic
          else provenance_live))

  provenance_of-labelled :
      (provenance : String) (r : Response)
      → provenance_of (labelled env provenance r)
        ≡ (if str_eq provenance provenance_synthetic then provenance_synthetic else provenance_live)
  unfolding labelled set_header get
  provenance_of-labelled provenance r = refl

  get-typed :
      (body : Body) (d : Dict String)
      → get provenance_header (typed body d) ≡ get provenance_header d
  unfolding typed
  get-typed (json_body v) d =
      Option_ind (λ (t : Dict String). get provenance_header t ≡ get provenance_header d)
        (get "content-type" d) (λ e. get-put "content-type" provenance_header "application/json" d)
        λ w e. refl
  get-typed (text_body s) d = refl
  get-typed no_body d = refl

  provenance_of-replayed : (e : Envelope) → provenance_of (replayed codec e) ≡ envelope_provenance e
  unfolding replayed typed delete_all
  provenance_of-replayed e =
      let first = put provenance_header (envelope_provenance e) (or_default [] e.headers) in
      let d = typed e.body first in
      let d1 = delete "content-length" d in
      let d2 = delete "Content-Length" d1 in
      let d3 = delete "content-encoding" d2 in
      ap (or_default provenance_live) (
        get-delete "Content-Encoding" provenance_header d3
        ∙ get-delete "content-encoding" provenance_header d2
        ∙ get-delete "Content-Length" provenance_header d1
        ∙ get-delete "content-length" provenance_header d
        ∙ get-typed e.body first
        ∙ get-put_self provenance_header (envelope_provenance e) (or_default [] e.headers))

  opened-IsLabelled :
      (o : Option File) (r : Response)
      → opened codec o ≡ some r
      → (e : Envelope) × (o ≡ some (envelope e)) × IsOrigin e.provenance (provenance_of r)
  unfolding opened
  opened-IsLabelled none r h = absurd (ground arith)
  opened-IsLabelled (some unreadable) r h = absurd (ground arith)
  opened-IsLabelled (some (envelope e)) r h =
      let same = ap (λ o. provenance_of (or_default r o)) (sym h) ∙ provenance_of-replayed e in
      (e, refl, subst (IsOrigin e.provenance) (sym same) (envelope_provenance-IsOrigin e))

  persisted-IsLabelled :
      (c : Call) (r : Response) (w : World) (b : LiveCallBudget) (sent : List Request)
      → IsLabelled c w (persisted env c r (record w { budget = b; sent = sent }))
  unfolding persisted
  persisted-IsLabelled c r w b sent =
      if_ind (IsLabelled c w)
        (leaks secrets (rendering (envelope_of codec urlsplit w.record_provenance c.request r)))
        (λ l. tt) λ l. inr (provenance_of-labelled w.record_provenance r)

  -- A header that an upstream sends about the origin is never believed, and a file that does not say
  -- where it is from is synthetic: every answer is labelled by a file or by the process.
  pub fetch-IsLabelled :
      (mode : Mode) (today : ℕ) (c : Call) (w : World) → IsLabelled c w (fetch env mode today c w)
  unfolding opened read_fixture
  fetch-IsLabelled mode today c w =
      fetch_ind env (IsLabelled c w) today c w mode (λ r e. inl (opened-IsLabelled _ r e)) tt
        (go_live_ind env (IsLabelled c w) mode c today w λ b sent. (
          (λ e. tt),
          (λ r u. inr (provenance_of-labelled w.record_provenance r)),
          λ r below. persisted-IsLabelled c r w b sent,
        ))
