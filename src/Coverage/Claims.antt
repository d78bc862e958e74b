-- ===== src/Coverage/Claims.antt =====
-- What backend/coverage.py claims of a point, and for how long it keeps an answer.
use mathlib.Core.Path.{subst}
use meander.Common.{
  All, Among, Bool, Bool-cases, List, Option, [], ap, arith, false, inl, inr, ltb, ltb→lt, none,
  refl, some, sym, true, ℕ, ◌+◌, ◌-◌, ◌<◌, ◌↔◌, ◌∷◌, ◌≡◌, ◌⊎◌,
}
use meander.Common.Int.{ℤ}
use meander.Coverage.{
  Cached, Coverage, Info, any_contains, cached_extent, contains, excluding, extent_of, info_ttl_ms,
  inside_an_imported_region, is_fresh, message_of, near_no_path, not_covered, outside_coverage,
  routable_extent, unroutable_point_message,
}

excluding_lem :
    (extent : Option Coverage) (lat lon : ℤ) (box : Coverage)
    → excluding extent lat lon ≡ some box
    → (extent ≡ some box) × (contains box lat lon ≡ false)
unfolding excluding
excluding_lem none lat lon box h = absurd (ground arith)
excluding_lem (some extent) lat lon box h = elim (Bool-cases (contains extent lat lon)) [
  | inl e ↦ absurd (ground arith)
  | inr e ↦
      let same : extent ≡ box = ground arith in
      (ap some same, subst (λ b. contains b lat lon ≡ false) same e)
]

routable_from :
    (self_hosted : Bool) (now : ℕ) (info : Info) (cached : Cached) (box : Coverage)
    → (routable_extent self_hosted now info cached).1 ≡ some box
    → (self_hosted ≡ true)
      × ((extent_of info ≡ some box)
          ⊎ ((at : ℕ) × (cached ≡ some (some box, at)) × (now - at < info_ttl_ms)))
unfolding routable_extent is_fresh cached_extent
routable_from false now info cached box h = absurd (ground arith)
routable_from true now info none box h = (refl, inl h)
routable_from true now info (some (extent, at)) box h =
    elim (Bool-cases (ltb (now - at) info_ttl_ms)) [
      | inl e ↦
          let same : extent ≡ some box = rw e at h in
          (refl, inr (at, ap (λ x. some (x, at)) same, ltb→lt (now - at) info_ttl_ms e))
      | inr e ↦ (refl, inl (rw e at h))
    ]

-- A point is called outside only on a self-hosted server, only by an extent that does not contain it,
-- and only by the extent that /info gave, now or within the last hour.
pub outside_coverage_claims :
    (self_hosted : Bool) (now : ℕ) (info : Info) (cached : Cached) (lat lon : ℤ) (box : Coverage)
    → (outside_coverage self_hosted now info cached lat lon).1 ≡ some box
    → (self_hosted ≡ true)
      × (contains box lat lon ≡ false)
      × ((extent_of info ≡ some box)
          ⊎ ((at : ℕ) × (cached ≡ some (some box, at)) × (now - at < info_ttl_ms)))
unfolding outside_coverage
outside_coverage_claims self_hosted now info cached lat lon box h =
    let (found, outside) =
      excluding_lem (routable_extent self_hosted now info cached).1 lat lon box h in
    let (own, source) = routable_from self_hosted now info cached box found in
    (own, outside, source)

-- When nothing fresh is cached, the answer of a call on a self-hosted server is the answer of every
-- call in the hour after it, whatever /info would say then, and none of those calls asks again.
pub routable_extent_kept :
    (now later : ℕ) (info info' : Info) (cached : Cached)
    → is_fresh now cached ≡ false
    → later < now + info_ttl_ms
    → routable_extent true later info' (routable_extent true now info cached).0
      ≡ routable_extent true now info cached
unfolding routable_extent is_fresh cached_extent
routable_extent_kept now later info info' cached stale soon =
    let young : ltb (later - now) info_ttl_ms ≡ true = ground arith in rw stale (rw young refl)

any_contains_none :
    (boxes : List Coverage) (lat lon : ℤ)
    → (any_contains boxes lat lon ≡ false) ↔ All (λ box. contains box lat lon ≡ false) boxes
unfolding any_contains
any_contains_none [] lat lon = (λ h. tt, λ h. refl)
any_contains_none (box ∷ boxes) lat lon = ground (arith, any_contains_none boxes lat lon)

any_contains_some :
    (boxes : List Coverage) (lat lon : ℤ)
    → any_contains boxes lat lon ≡ true
    → (box : Coverage) × Among box boxes × (contains box lat lon ≡ true)
unfolding any_contains
any_contains_some [] lat lon h = absurd (ground arith)
any_contains_some (box ∷ boxes) lat lon h = elim (Bool-cases (contains box lat lon)) [
  | inl e ↦ (box, inl refl, e)
  | inr e ↦ let (b, m, k) = any_contains_some boxes lat lon (rw e at h) in (b, inr m, k)
]

contains_any :
    (boxes : List Coverage) (lat lon : ℤ) (box : Coverage)
    → Among box boxes
    → contains box lat lon ≡ true
    → any_contains boxes lat lon ≡ true
unfolding any_contains
contains_any [] lat lon box m h = absurd m
contains_any (b ∷ boxes) lat lon box (inl e) h =
    let k : contains b lat lon ≡ true = subst (λ x. contains x lat lon ≡ true) (sym e) h in
    ground arith
contains_any (b ∷ boxes) lat lon box (inr m) h =
    let k = contains_any boxes lat lon box m h in ground arith

some_regions : {xs ys : List Coverage} → some xs ≡ some ys → xs ≡ ys
some_regions h = ground arith

-- The area of a point is called not covered exactly when a manifest was read and none of its boxes
-- contains the point, and on the map exactly when one of them does.
pub unroutable_point_claims :
    (boxes : Option (List Coverage)) (lat lon : ℤ)
    → ((unroutable_point_message boxes (some (lat, lon)) ≡ not_covered) ↔ (
        (regions : List Coverage) × (boxes ≡ some regions)
        × All (λ box. contains box lat lon ≡ false) regions))
      × ((unroutable_point_message boxes (some (lat, lon)) ≡ near_no_path) ↔ (
          (regions : List Coverage) × (boxes ≡ some regions)
          × ((box : Coverage) × Among box regions × (contains box lat lon ≡ true))))
unfolding unroutable_point_message inside_an_imported_region message_of
unroutable_point_claims none lat lon = (
  (λ h. absurd (ground arith), λ (regions, e, _). absurd (ground arith)),
  (λ h. absurd (ground arith), λ (regions, e, _). absurd (ground arith)),
)
unroutable_point_claims (some boxes) lat lon = (
  (
    λ h. (boxes, refl, (any_contains_none boxes lat lon).0 (ground arith)),
    λ (regions, e, all).
        let f =
          (any_contains_none boxes lat lon).1
            (subst (All (λ box. contains box lat lon ≡ false)) (sym (some_regions e)) all) in
        rw f refl,
  ),
  (
    λ h. (boxes, refl, any_contains_some boxes lat lon (ground arith)),
    λ (regions, e, (box, m, k)).
        let t = contains_any boxes lat lon box (subst (Among box) (sym (some_regions e)) m) k in
        rw t refl,
  ),
)
