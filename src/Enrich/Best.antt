-- ===== src/Enrich/Best.antt =====
-- That the suggested departure (`best_departure`, backend/enrich.py) is the first of the best slots.
use meander.Geometry.{LatLon}
use mathlib.Core.Path.{subst}
use mathlib.Core.List.{append-nil, append_assoc}
use meander.Common.{
  All, All-append, All-imp, List, Option, [], ap, arith, if_false, if_ind, if◌then◌else◌, inl, inr,
  length, ltb, none, refl, some, sym, ℕ, ◌++◌, ◌<◌, ◌∙◌, ◌∷◌, ◌≡◌, ◌≢◌, ◌≤◌, ◌⊎◌,
}
use meander.Enrich.{Attempt, raised, returned}
use meander.Enrich.Departure.{
  DepartureSuggestion, Sky, best_departure, best_of, best_slot, moments_from, search_slots, slots,
  with_cloud,
}
use meander.Enrich.Series.{AirQuality}

-- A slot of the list that is better than every earlier one and no worse than any later one.
pub record IsFirstBest (best : DepartureSuggestion) (slots : List DepartureSuggestion)
    : Type 0 where
  pub earlier : List DepartureSuggestion
  pub later : List DepartureSuggestion
  pub parts : slots ≡ earlier ++ best ∷ later
  pub better : All (λ s. s.score < best.score) earlier
  pub no_worse : All (λ s. s.score ≤ best.score) later

-- One more slot.
next-IsFirstBest :
    (b s : DepartureSuggestion) (seen : List DepartureSuggestion)
    → IsFirstBest b seen
    → IsFirstBest (if ltb b.score s.score then s else b) (seen ++ s ∷ [])
next-IsFirstBest b s seen f =
    if_ind (λ (x : DepartureSuggestion). IsFirstBest x (seen ++ s ∷ [])) (ltb b.score s.score)
      (λ e. record {
        earlier = seen;
        later = [];
        parts = refl;
        better = subst (All (λ x. x.score < s.score)) (sym f.parts) (
            All-append (λ x. x.score < s.score) f.earlier (b ∷ f.later)
              (All-imp (λ x. x.score < b.score) (λ x. x.score < s.score) f.earlier
                (λ x l. ground (arith, e)) f.better)
              (
                ground (arith, e),
                All-imp (λ x. x.score ≤ b.score) (λ x. x.score < s.score) f.later
                    (λ x l. ground (arith, e)) f.no_worse,
              ));
        no_worse = tt;
      })
      λ e. record {
        earlier = f.earlier;
        later = f.later ++ s ∷ [];
        parts = ap (λ l. l ++ s ∷ []) f.parts ∙ append_assoc f.earlier (b ∷ f.later) (s ∷ []);
        better = f.better;
        no_worse =
            All-append (λ x. x.score ≤ b.score) f.later (s ∷ []) f.no_worse (ground (arith, e), tt);
      }

best_of-IsFirstBest :
    (b : DepartureSuggestion) (seen slots : List DepartureSuggestion)
    → IsFirstBest b seen
    → IsFirstBest (best_of b slots) (seen ++ slots)
unfolding best_of
best_of-IsFirstBest b seen [] f = subst (IsFirstBest b) (sym (append-nil seen)) f
best_of-IsFirstBest b seen (s ∷ slots) f =
    subst (IsFirstBest (best_of b (s ∷ slots))) (append_assoc seen (s ∷ []) slots) (
      best_of-IsFirstBest (if ltb b.score s.score then s else b) (seen ++ s ∷ []) slots
        (next-IsFirstBest b s seen f))

-- What there is of a measurement: what was given, or else what asking comes to.
abbrev pub Known : {A : Type 0} → Option A → Attempt A → Option A → Type 0
Known (some a) again o = some a ≡ o
Known none again o = again ≡ returned o

abbrev pub IsChoice :
    {A B : Type 0}
    → Option A
    → Option B
    → List DepartureSuggestion
    → Option DepartureSuggestion
    → Type 0
IsChoice air cloud slots none = (air ≡ none) × (cloud ≡ none)
IsChoice air cloud slots (some d) = ((air ≢ none) ⊎ (cloud ≢ none)) × IsFirstBest d slots

best_slot-IsFirstBest :
    (s : DepartureSuggestion) (slots : List DepartureSuggestion)
    → IsFirstBest (best_of s slots) (s ∷ slots)
best_slot-IsFirstBest s slots =
    best_of-IsFirstBest s (s ∷ []) slots
      (record { earlier = []; later = []; parts = refl; better = tt; no_worse = tt })

some_not_none : {A : Type 0} {x : A} → some x ≢ none
some_not_none h = cc

returned_inj : {A : Type 0} {x y : Option A} → returned x ≡ returned y → x ≡ y
returned_inj h = cc

module _ (dist : LatLon → LatLon → ℕ) (sky : Sky) (points : List LatLon) (start : ℕ) where
  search_slots-IsChoice :
      (air : Option AirQuality) (cloud : Option ℕ)
      → IsChoice air cloud
          (slots dist sky points start air cloud)
          (search_slots dist sky points start air cloud)
  unfolding search_slots best_slot moments_from
  search_slots-IsChoice none none = (refl, refl)
  search_slots-IsChoice (some a) cloud = (inl some_not_none, best_slot-IsFirstBest _ _)
  search_slots-IsChoice none (some c) = (inr some_not_none, best_slot-IsFirstBest _ _)

  -- The result is a choice among the slots that what was measured gives.
  abbrev pub IsBestDeparture :
      Option AirQuality
      → Option ℕ
      → Attempt AirQuality
      → Attempt ℕ
      → Option DepartureSuggestion
      → Type 0
  IsBestDeparture air cloud air_again cloud_again o =
      (a : Option AirQuality) × (c : Option ℕ) × Known air air_again a
      × Known cloud cloud_again c
      × IsChoice a c (slots dist sky points start a c) o

  with_cloud-IsChoice :
      (a : Option AirQuality) (cloud : Option ℕ) (again : Attempt ℕ)
      (o : Option DepartureSuggestion)
      → with_cloud dist sky points start a cloud again ≡ returned o
      → (c : Option ℕ) × Known cloud again c × IsChoice a c (slots dist sky points start a c) o
  unfolding with_cloud
  with_cloud-IsChoice a (some c) again o h = (
    some c,
    refl,
    subst (IsChoice a (some c) _) (returned_inj h) (search_slots-IsChoice a (some c)),
  )
  with_cloud-IsChoice a none raised o h = absurd cc
  with_cloud-IsChoice a none (returned c) o h =
      (c, refl, subst (IsChoice a c _) (returned_inj h) (search_slots-IsChoice a c))

  -- For a route of two points or more, the departure is the earliest of the slots of the next six hours
  -- that score best by what was given or, failing that, asked for; and there is none exactly when neither
  -- the air nor the cloud is known.
  pub best_departure-IsBest :
      (air : Option AirQuality) (cloud : Option ℕ) (air_again : Attempt AirQuality)
      (cloud_again : Attempt ℕ) (o : Option DepartureSuggestion)
      → 2 ≤ length points
      → best_departure dist sky points start air cloud air_again cloud_again ≡ returned o
      → IsBestDeparture air cloud air_again cloud_again o
  unfolding best_departure
  best_departure-IsBest (some a) cloud air_again cloud_again o two h =
      let (c, k, b) =
        with_cloud-IsChoice (some a) cloud cloud_again o
          (sym (if_false (ltb (length points) 2) (returned none) _ (ground arith)) ∙ h) in
      (some a, c, refl, k, b)
  best_departure-IsBest none cloud raised cloud_again o two h = absurd (
      let q = sym (if_false (ltb (length points) 2) (returned none) raised (ground arith)) ∙ h in
      cc)
  best_departure-IsBest none cloud (returned a) cloud_again o two h =
      let (c, k, b) =
        with_cloud-IsChoice a cloud cloud_again o
          (sym (if_false (ltb (length points) 2) (returned none) _ (ground arith)) ∙ h) in
      (a, c, refl, k, b)
