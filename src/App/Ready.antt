-- ===== src/App/Ready.antt =====
-- What an answer that is cut short shows (backend/main.py: `route_events_with_deadline`): the routes
-- that were ready.
use meander.Common.{
  Bool, Bool-cases, List, Option, [], ap, arith, false, if◌then◌else◌, inl, inr, length, none, refl,
  some, suc, true, ℕ, ◌<◌, ◌∙◌, ◌∷◌, ◌≡◌, ◌≤◌,
}
use meander.Common.Sort.{count_if, keep}
use meander.App.Wire.{Route}
use meander.App.Request.{same_preset}
use meander.Routing.{Preset}
use meander.App.Events.{Event, cut_short, done, progress, route, timeout}
use meander.App.Deadline.{has_shape, last_event, merge, note_route}

-- What a preset that is one of two, or not, is to the other.
same_preset-alike :
    (o a b : Preset) → same_preset a b ≡ true → same_preset o a ≡ false → same_preset o b ≡ false
unfolding same_preset
same_preset-alike o a b e s = ground (arith, e, s)

same_preset-both :
    (o a b : Preset) → same_preset a b ≡ true → same_preset o a ≡ true → same_preset o b ≡ true
unfolding same_preset
same_preset-both o a b e s = ground (arith, e, s)

same_preset-other :
    (o a b : Preset) → same_preset a b ≡ false → same_preset o a ≡ true → same_preset o b ≡ false
unfolding same_preset
same_preset-other o a b e s = ground (arith, e, s)

abbrev pub or_else {ℓ} : {A : Type ℓ} → Option A → Option A → Option A
or_else none other = other
or_else (some a) other = some a

module _ {E R : Type 0} where
  abbrev is_for : Preset → Route E R → Bool
  is_for o x = same_preset o x.id

  -- The last route that the events give for a preset.
  unfoldable pub latest : Preset → List (Event E R) → Option (Route E R)
  latest o [] = none
  latest o (route x ∷ es) = or_else (latest o es) (if same_preset o x.id then some x else none)
  latest o (progress n ∷ es) = latest o es
  latest o (done partial p ∷ es) = latest o es
  latest o (timeout ∷ es) = latest o es

  unfoldable pub find : Preset → List (Route E R) → Option (Route E R)
  find o [] = none
  find o (x ∷ xs) = if same_preset o x.id then some x else find o xs

  -- For each preset that the events gave a route for, the last one, once; of these, those with a shape.
  pub record IsReady (events : List (Event E R)) (shaped : List (Route E R)) : Type 0 where
    pub ready : List (Route E R)
    pub last_each : (o : Preset) → find o ready ≡ latest o events
    pub once : (o : Preset) → count_if (λ x. same_preset o x.id) ready ≤ 1
    pub with_shape : keep has_shape ready ≡ shaped

  -- What an answer that is cut short after `events` ends with: an error where no route is ready, or the
  -- routes that are, marked partial.
  abbrev pub IsCutShort : List (Event E R) → Event E R → Type 0
  IsCutShort events timeout = IsReady events []
  IsCutShort events (done true p) =
      (0 < length p.routes) × IsReady events p.routes × (p.reason ≡ some cut_short)
  IsCutShort events _ = ⊥

  -- The routes noted in the course of the events.
  unfoldable pub noted : List (Route E R) → List (Event E R) → List (Route E R)
  noted partial [] = partial
  noted partial (e ∷ es) = noted (note_route e partial) es

  find-merge :
      (o : Preset) (x : Route E R) (partial : List (Route E R))
      → find o (merge x partial) ≡ (if same_preset o x.id then some x else find o partial)
  unfolding merge find
  find-merge o x [] = refl
  find-merge o x (y ∷ ys) = elim (Bool-cases (same_preset x.id y.id)) [
    | inl e ↦ elim (Bool-cases (same_preset o x.id)) [
      | inl s ↦ rw (e, s) refl
      | inr s ↦ rw (e, s, same_preset-alike o x.id y.id e s) refl
    ]
    | inr e ↦ elim (Bool-cases (same_preset o x.id)) [
      | inl s ↦ rw (e, find-merge o x ys, s, same_preset-other o x.id y.id e s) refl
      | inr s ↦ rw (e, find-merge o x ys, s) refl
    ]
  ]

  -- How many of the routes are for a preset.
  abbrev copies : Preset → List (Route E R) → ℕ
  copies o routes = count_if (λ y. same_preset o y.id) routes

  count_if-merge :
      (o : Preset) (x : Route E R) (partial : List (Route E R))
      → copies o partial ≤ 1
      → copies o (merge x partial) ≡ (if same_preset o x.id then 1 else copies o partial)
  unfolding merge count_if
  count_if-merge o x [] h = refl
  count_if-merge o x (y ∷ ys) h = elim (Bool-cases (same_preset x.id y.id)) [
    | inl e ↦ elim (Bool-cases (same_preset o x.id)) [
      | inl s ↦ let h' = rw (same_preset-both o x.id y.id e s) at h in rw (e, s) (omega (arith, h'))
      | inr s ↦ rw (e, s, same_preset-alike o x.id y.id e s) refl
    ]
    | inr e ↦ elim (Bool-cases (same_preset o x.id)) [
      | inl s ↦
          let other = same_preset-other o x.id y.id e s in
          let h' = rw other at h in
          let ih = count_if-merge o x ys h' in rw (e, s, other) (rw s at ih)
      | inr s ↦
          let rest : copies o ys ≤ 1 = ground (arith, h) in
          let ih = count_if-merge o x ys rest in
          let same = rw s at ih in
          rw (e, s) (ap (λ n. if same_preset o y.id then suc n else n) same)
    ]
  ]

  find-noted :
      (o : Preset) (partial : List (Route E R)) (events : List (Event E R))
      → find o (noted partial events) ≡ or_else (latest o events) (find o partial)
  unfolding noted latest note_route
  find-noted o partial [] = refl
  find-noted o partial (progress n ∷ es) = find-noted o partial es
  find-noted o partial (done b p ∷ es) = find-noted o partial es
  find-noted o partial (timeout ∷ es) = find-noted o partial es
  find-noted o partial (route x ∷ es) =
      find-noted o (merge x partial) es
      ∙ ap (or_else (latest o es)) (find-merge o x partial)
      ∙ chosen (latest o es)
    where
      chosen :
          (last : Option (Route E R))
          → or_else last (if same_preset o x.id then some x else find o partial)
            ≡ or_else (or_else last (if same_preset o x.id then some x else none)) (find o partial)
      chosen (some y) = refl
      chosen none = elim (Bool-cases (same_preset o x.id)) [ inl e ↦ rw e refl | inr e ↦ rw e refl ]

  note_route-once :
      (e : Event E R) (o : Preset) (partial : List (Route E R))
      → count_if (λ x. same_preset o x.id) partial ≤ 1
      → count_if (λ x. same_preset o x.id) (note_route e partial) ≤ 1
  unfolding note_route
  note_route-once (progress n) o partial h = h
  note_route-once (done b p) o partial h = h
  note_route-once timeout o partial h = h
  note_route-once (route x) o partial h = ground (arith, count_if-merge o x partial h, h)

  noted-once :
      (o : Preset) (partial : List (Route E R)) (events : List (Event E R))
      → count_if (λ x. same_preset o x.id) partial ≤ 1
      → count_if (λ x. same_preset o x.id) (noted partial events) ≤ 1
  unfolding noted
  noted-once o partial [] h = h
  noted-once o partial (e ∷ es) h =
      noted-once o (note_route e partial) es (note_route-once e o partial h)

  pub noted-IsReady :
      (events : List (Event E R)) → IsReady events (keep has_shape (noted [] events))
  unfolding find count_if
  noted-IsReady events = record {
    ready = noted [] events;
    last_each = λ o. find-noted o [] events ∙ or_else-none (latest o events);
    once = λ o. noted-once o [] events (omega arith);
    with_shape = refl;
  }
    where
      or_else-none : (last : Option (Route E R)) → or_else last none ≡ last
      or_else-none none = refl
      or_else-none (some x) = refl

  pub last_event-IsCutShort :
      (hit_rate : ℕ) (events : List (Event E R)) (ready : List (Route E R))
      → IsReady events ready
      → IsCutShort events (last_event hit_rate ready)
  unfolding last_event
  last_event-IsCutShort hit_rate events [] h = h
  last_event-IsCutShort hit_rate events (x ∷ xs) h = (omega arith, h, refl)
