-- ===== src/Routing/Candidates.antt =====
-- The loop over the candidates of `route_scenic` (backend/routing.py): what it keeps.
use mathlib.Core.Path.{subst}
use mathlib.Core.List.{append-nil, append_assoc}
use meander.Common.{
  All, Bool, Bool-cases, List, Option, [], ap, arith, false, if◌then◌else◌, inl, inr, length, map,
  none, refl, some, sym, true, ℕ, ◌++◌, ◌∙◌, ◌∷◌, ◌≡◌, ◌≢◌,
}
use meander.Common.Sort.{descending, keep, length-sort_by}
use meander.Routing.{RawRoute}
use meander.Routing.Scenic.{
  Found, Scored, best_first, consider, consider_all, is_better, merit, nothing_found, qualifies,
}

true_not_false : {b : Bool} → b ≡ true → b ≡ false → ⊥
true_not_false t f = ground arith

pub acceptable_nil : (scores : List Scored) → best_first scores ≡ [] → scores ≡ []
unfolding best_first
acceptable_nil [] e = refl
acceptable_nil (p ∷ scores) e =
    absurd
      (ground (arith, length-sort_by (descending (λ (q : Scored). q.0)) (p ∷ scores), ap length e))

pub All-map-keep :
    {A B : Type 0} (P : B → Type 0) (f : A → B) (p : A → Bool) (xs : List A)
    → All P (map f (keep p xs))
    → All (λ x. p x ≡ true → P (f x)) xs
unfolding keep
All-map-keep P f p [] h = tt
All-map-keep P f p (x ∷ xs) h = elim (Bool-cases (p x)) [
  | inl e ↦
      let (hx, hs) : All P (f x ∷ map f (keep p xs)) = rw e at h in
      (λ _. hx, All-map-keep P f p xs hs)
  | inr e ↦ (λ t. absurd (true_not_false t e), All-map-keep P f p xs (rw e at h))
]

some_second : {p q : Scored} → some p ≡ some q → p.1 ≡ q.1
some_second e = ground arith

pub none_not_some : {p : Scored} → none ≡ some p → ⊥
none_not_some e = ground arith

pub cons_not_nil : {p : Scored} {ps : List Scored} → p ∷ ps ≡ [] → ⊥
cons_not_nil e = ground arith

pick_fallback :
    (P : RawRoute → Type 0) (b : Bool) (q : Scored) (old : Option Scored)
    → P q.1
    → ((p : Scored) → old ≡ some p → P p.1)
    → (p : Scored) → (if b then some q else old) ≡ some p
    → P p.1
pick_fallback P true q old hq k p e = subst P (some_second e) hq
pick_fallback P false q old hq k p e = k p e

module _ (greenness : RawRoute → ℕ) (minutes : ℕ) (is_loop : Bool)
    (baseline : Option RawRoute) where
  abbrev good : RawRoute → Bool
  good = qualifies greenness minutes is_loop baseline

  abbrev worth : RawRoute → ℕ
  worth = merit greenness minutes is_loop baseline

  abbrev scored : RawRoute → Scored
  scored r = (worth r, r)

  abbrev all_considered : List RawRoute → Found → Found
  all_considered = consider_all greenness minutes is_loop baseline

  consider-good :
      (r : RawRoute) (found : Found)
      → good r ≡ true
      → (consider greenness minutes is_loop baseline r found).acceptable
        ≡ found.acceptable ++ scored r ∷ []
  unfolding consider
  consider-good r found h = rw h refl

  consider-bad :
      (r : RawRoute) (found : Found)
      → good r ≡ false
      → (consider greenness minutes is_loop baseline r found).acceptable ≡ found.acceptable
  unfolding consider
  consider-bad r found h = rw h refl

  -- The acceptable candidates are those that qualify, in order.
  pub acceptable_of :
      (routes : List RawRoute) (found : Found)
      → (all_considered routes found).acceptable ≡ found.acceptable ++ map scored (keep good routes)
  unfolding consider_all keep
  acceptable_of [] found = sym (append-nil found.acceptable)
  acceptable_of (r ∷ routes) found =
      let next = consider greenness minutes is_loop baseline r found in
      let rest = acceptable_of routes next in
      elim (Bool-cases (good r)) [
        | inl e ↦ rw e (
            rest
            ∙ ap (λ a. a ++ map scored (keep good routes)) (consider-good r found e)
            ∙ append_assoc found.acceptable (scored r ∷ []) (map scored (keep good routes)))
        | inr e ↦
            rw e (rest ∙ ap (λ a. a ++ map scored (keep good routes)) (consider-bad r found e))
      ]

  consider_fallback :
      (P : RawRoute → Type 0) (r : RawRoute) (found : Found)
      → P r
      → ((p : Scored) → found.fallback ≡ some p → P p.1)
      → (p : Scored) → (consider greenness minutes is_loop baseline r found).fallback ≡ some p
      → P p.1
  unfolding consider
  consider_fallback P r found hr k p e = elim (Bool-cases (good r)) [
    | inl g ↦ k p (rw g at e)
    | inr g ↦
        pick_fallback P (is_better greenness minutes is_loop baseline r found.fallback) (scored r)
          found.fallback hr k p (rw g at e)
  ]

  -- A fallback is one of the candidates.
  pub fallback_from :
      (P : RawRoute → Type 0) (routes : List RawRoute) (found : Found)
      → All P routes
      → ((p : Scored) → found.fallback ≡ some p → P p.1)
      → (p : Scored) → (all_considered routes found).fallback ≡ some p
      → P p.1
  unfolding consider_all
  fallback_from P [] found h k p e = k p e
  fallback_from P (r ∷ routes) found h k p e =
      fallback_from P routes (consider greenness minutes is_loop baseline r found) h.1
        (consider_fallback P r found h.0 k) p e

  consider_there :
      (r : RawRoute) (found : Found)
      → found.fallback ≢ none
      → (consider greenness minutes is_loop baseline r found).fallback ≢ none
  unfolding consider
  consider_there r found h = ground arith

  -- Without a candidate that qualifies there is a fallback.
  pub fallback_there :
      (routes : List RawRoute) (found : Found)
      → found.fallback ≢ none
      → (all_considered routes found).fallback ≢ none
  unfolding consider_all
  fallback_there [] found h = h
  fallback_there (r ∷ routes) found h =
      fallback_there routes (consider greenness minutes is_loop baseline r found)
        (consider_there r found h)

  pub consider_first :
      (r : RawRoute)
      → good r ≡ false
      → (consider greenness minutes is_loop baseline r nothing_found).fallback ≢ none
  unfolding consider is_better
  consider_first r h = rw h (ground arith)
