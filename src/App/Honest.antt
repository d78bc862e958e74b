-- ===== src/App/Honest.antt =====
-- What a route of the answer claims (backend/main.py: `_scored_route`, `_status_note`).
use meander.Common.{
  Bool, List, Option, Option_ind, ap, arith, false, if_ind, if_true, none, refl, some, true, ◌∙◌,
  ◌≡◌,
}
use meander.Accessibility.{fail}
use meander.Accessibility.Route.{RouteAccessibility}
use meander.Accessibility.Sentence.{is_blocked}
use meander.Routing.{Preset, RawRoute, accessible, air, fastest, quiet, scenic, shade}
use meander.App.Wire.{
  Assessment, Measured, Route, StatusNote, blocked, nothing_found_but_little_recorded, placeholder,
  synthetic,
}
use meander.App.Scored.{
  confidence_note_of, confidence_of, for_access, method_of, rejects, scored_route, status_note,
}

-- The claims of a route `r` made of `raw` and its assessment `access`.
pub record IsHonest (E R : Type 0) (raw : RawRoute) (access : Option RouteAccessibility)
    (r : Route E R) : Type 0 where
  -- Only the accessible route is blocked, and only for an assessment that fails.
  pub blocks :
      r.status ≡ blocked
      → (r.id ≡ accessible) × (a : RouteAccessibility) × (access ≡ some a) × (a.verdict ≡ fail)
  -- An accessible route that fails is blocked.
  pub rejected :
      r.id ≡ accessible
      → (a : RouteAccessibility) → access ≡ some a
      → a.verdict ≡ fail
      → r.status ≡ blocked
  -- Nothing is claimed to be measured on an invented geometry.
  pub invented :
      raw.synthetic_upstream ≡ true
      → (r.scoring_method ≡ placeholder) × (r.confidence ≡ 0) × (r.confidence_note ≡ some synthetic)
  -- "No barriers were found" is said only after a check for barriers.
  pub checked :
      r.status_note ≡ some nothing_found_but_little_recorded
      → (a : RouteAccessibility) × (access ≡ some a) × (a.barriers_checked ≡ true)

is_blocked_lem : (a : RouteAccessibility) → is_blocked a ≡ true → a.verdict ≡ fail
unfolding is_blocked
is_blocked_lem a h = ground arith

rejects_only :
    (id : Preset) (access : Option RouteAccessibility)
    → rejects id access ≡ true
    → (id ≡ accessible) × (a : RouteAccessibility) × (access ≡ some a) × (a.verdict ≡ fail)
unfolding rejects
rejects_only fastest access h = absurd (ground arith)
rejects_only scenic access h = absurd (ground arith)
rejects_only quiet access h = absurd (ground arith)
rejects_only shade access h = absurd (ground arith)
rejects_only air access h = absurd (ground arith)
rejects_only accessible none h = absurd (ground arith)
rejects_only accessible (some a) h = (refl, a, refl, is_blocked_lem a h)

rejects_failing :
    (id : Preset) (access : Option RouteAccessibility) (a : RouteAccessibility)
    → id ≡ accessible
    → access ≡ some a
    → a.verdict ≡ fail
    → rejects id access ≡ true
unfolding rejects is_blocked
rejects_failing id access a i e f =
    ap (λ j. rejects j access) i
    ∙ ap (rejects accessible) e
    ∙ ap (λ v. elim v [ fail ↦ true | _ ↦ false ]) f

for_access_checked :
    (id : Preset) (access : Option RouteAccessibility)
    → for_access id access ≡ some nothing_found_but_little_recorded
    → (a : RouteAccessibility) × (access ≡ some a) × (a.barriers_checked ≡ true)
unfolding for_access
for_access_checked fastest access h = absurd (ground arith)
for_access_checked scenic access h = absurd (ground arith)
for_access_checked quiet access h = absurd (ground arith)
for_access_checked shade access h = absurd (ground arith)
for_access_checked air access h = absurd (ground arith)
for_access_checked accessible none h = absurd (ground arith)
for_access_checked accessible (some a) h = (a, refl, ground arith)

status_note_checked :
    (id : Preset) (rejected : Bool) (access : Option RouteAccessibility) (raw : RawRoute)
    → status_note id rejected access raw ≡ some nothing_found_but_little_recorded
    → (a : RouteAccessibility) × (access ≡ some a) × (a.barriers_checked ≡ true)
unfolding status_note
status_note_checked id rejected access raw =
    let Claim : Option StatusNote → Type 0 = λ n.
      n ≡ some nothing_found_but_little_recorded
      → (a : RouteAccessibility) × (access ≡ some a) × (a.barriers_checked ≡ true) in
    if_ind Claim rejected (λ e h. absurd (ground arith))
      λ e.
        Option_ind Claim raw.preset_note (λ n. for_access_checked id access)
          λ note n h. absurd (ground arith)

module _ {E R : Type 0} (raw : RawRoute) (rest_stops : Option (List R)) (m : Measured)
    (a : Assessment E) (pending : Bool) where
  -- What a scored route claims is so: it is blocked exactly when it is the accessible one and fails, it
  -- claims no measurement of invented terrain, and it reports that no barriers were found only after a
  -- check for them.
  pub scored_route-IsHonest :
      (id : Preset) → IsHonest E R raw a.access (scored_route id raw rest_stops m a pending)
  unfolding scored_route method_of confidence_of confidence_note_of
  scored_route-IsHonest id = record {
    blocks = λ h. rejects_only id a.access (ground arith);
    rejected = λ i x e f. if_true (rejects id a.access) _ _ (rejects_failing id a.access x i e f);
    invented = λ h. (
      ap (λ b. method_of b a.scores a.clip_score) h,
      ap (λ b. confidence_of b a.access) h,
      ap (λ b. some (confidence_note_of b a.access)) h,
    );
    checked = status_note_checked id (rejects id a.access) a.access raw;
  }
