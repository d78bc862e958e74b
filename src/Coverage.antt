-- ===== src/Coverage.antt =====
-- backend/coverage.py: what the deployment can route, and what it says of a point that it cannot.
--
-- Degrees are whole millionths, clock readings whole milliseconds. What the router's /info answers and
-- what the manifest files hold are arguments, as far as the code looks into them: `float` of a member of
-- a box is `none` where it raises.
pub mod Claims
mod Tests
use meander.Common.{
  Bool, List, Option, [], false, if◌then◌else◌, ltb, none, not, some, true, ℕ, ◌&&◌, ◌-◌, ◌||◌, ◌∷◌,
}
use meander.Common.Int.{leb_ℤ, ℤ}

pub record Coverage : Type 0 where
  pub min_lon : ℤ
  pub min_lat : ℤ
  pub max_lon : ℤ
  pub max_lat : ℤ

unfoldable pub contains : Coverage → (lat lon : ℤ) → Bool
contains box lat lon =
    leb_ℤ box.min_lat lat
    && leb_ℤ lat box.max_lat
    && (leb_ℤ box.min_lon lon && leb_ℤ lon box.max_lon)

-- INFO_TTL_S
abbrev pub info_ttl_ms : ℕ
info_ttl_ms = 3600000

-- A box's members: `Coverage(*(float(v) for v in bbox[:4]))` of a list of four or more.
unfoldable pub box_of : List (Option ℤ) → Option Coverage
box_of (some a ∷ some b ∷ some c ∷ some d ∷ rest) =
    some (record { min_lon = a; min_lat = b; max_lon = c; max_lat = d })
box_of _ = none

-- What asking /info comes to: an exception that is caught, or a status and the `bbox` of the body,
-- `none` where that is no list.
pub data Info : Type 0 where
  failed : Info
  answered : ℕ → Option (List (Option ℤ)) → Info

unfoldable pub extent_of : Info → Option Coverage
unfolding box_of
extent_of failed = none
extent_of (answered status none) = none
extent_of (answered status (some bbox)) = if ltb status 400 then box_of bbox else none

-- `_cached`: the extent, and when it was asked for
abbrev pub Cached : Type 0
Cached = Option (Option Coverage × ℕ)

unfoldable pub is_fresh : (now : ℕ) → Cached → Bool
is_fresh now none = false
is_fresh now (some (extent, at)) = ltb (now - at) info_ttl_ms

unfoldable pub cached_extent : Cached → Option Coverage
cached_extent none = none
cached_extent (some (extent, at)) = extent

-- `_cached` after the call, and the extent.
unfoldable pub routable_extent :
    (self_hosted : Bool) → (now : ℕ) → Info → Cached → Cached × Option Coverage
routable_extent self_hosted now info cached =
    if not self_hosted
    then (cached, none)
    else if is_fresh now cached
    then (cached, cached_extent cached)
    else (some (extent_of info, now), extent_of info)

-- The extent, where it does not contain the point.
unfoldable pub excluding : Option Coverage → (lat lon : ℤ) → Option Coverage
excluding none lat lon = none
excluding (some extent) lat lon = if contains extent lat lon then none else some extent

unfoldable pub outside_coverage :
    Bool → (now : ℕ) → Info → Cached → (lat lon : ℤ) → Cached × Option Coverage
outside_coverage self_hosted now info cached lat lon =
    let (cached', extent) = routable_extent self_hosted now info cached in
    (cached', excluding extent lat lon)

-- A manifest file: unreadable, or its regions' boxes, `none` where a region has no list for one.
abbrev pub Manifest : Type 0
Manifest = Option (List (Option (List (Option ℤ))))

unfoldable pub boxes_of : List (Option (List (Option ℤ))) → List Coverage
boxes_of [] = []
boxes_of (none ∷ entries) = boxes_of entries
boxes_of (some bbox ∷ entries) =
    let rest = boxes_of entries in elim (box_of bbox) [ none ↦ rest | some box ↦ box ∷ rest ]

-- The first file that can be read decides; no boxes are as good as no file.
unfoldable pub read_manifests : List Manifest → Option (List Coverage)
unfolding boxes_of
read_manifests [] = none
read_manifests (none ∷ files) = read_manifests files
read_manifests (some entries ∷ files) = elim (boxes_of entries) [
  | [] ↦ none
  | box ∷ boxes ↦ some (box ∷ boxes)
]

-- `region_boxes` with its cache, whose `none` is False.
unfoldable pub region_boxes :
    List Manifest
    → Option (Option (List Coverage))
    → Option (Option (List Coverage)) × Option (List Coverage)
region_boxes files none = (some (read_manifests files), read_manifests files)
region_boxes files (some boxes) = (some boxes, boxes)

unfoldable pub any_contains : List Coverage → (lat lon : ℤ) → Bool
any_contains [] lat lon = false
any_contains (box ∷ boxes) lat lon =
    let rest = any_contains boxes lat lon in contains box lat lon || rest

-- `none` where there is no manifest to ask
unfoldable pub inside_an_imported_region : Option (List Coverage) → (lat lon : ℤ) → Option Bool
inside_an_imported_region none lat lon = none
inside_an_imported_region (some boxes) lat lon = some (any_contains boxes lat lon)

-- The three sentences of `unroutable_point_message`: the area is not covered, the spot is off every
-- path, or either may be.
pub data PointMessage : Type 0 where
  not_covered near_no_path either : PointMessage

unfoldable pub message_of : Option Bool → PointMessage
message_of none = either
message_of (some true) = near_no_path
message_of (some false) = not_covered

-- The point is `none` where the caller has none to name.
unfoldable pub unroutable_point_message : Option (List Coverage) → Option (ℤ × ℤ) → PointMessage
unroutable_point_message boxes none = message_of none
unroutable_point_message boxes (some (lat, lon)) =
    message_of (inside_an_imported_region boxes lat lon)
