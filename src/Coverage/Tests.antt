-- ===== src/Coverage/Tests.antt =====
-- A server that covers Colombo, and the theorems at it.
use meander.Common.{
  All, Among, List, [], arith, false, none, refl, some, true, ℕ, ◌-◌, ◌<◌, ◌↔◌, ◌∷◌, ◌≡◌, ◌⊎◌,
}
use meander.Common.Int.{negsuc, pos}
use meander.Coverage.{
  Cached, Coverage, Info, answered, box_of, contains, excluding, extent_of, failed, info_ttl_ms,
  is_fresh, near_no_path, not_covered, outside_coverage, routable_extent, unroutable_point_message,
}
use meander.Coverage.Claims.{outside_coverage_claims, routable_extent_kept, unroutable_point_claims}

abbrev colombo : Coverage
colombo = record {
  min_lon = pos 79800000;
  min_lat = pos 6800000;
  max_lon = pos 79950000;
  max_lat = pos 6980000;
}

abbrev colombo_info : Info
colombo_info = answered 200 (
    some (some (pos 79800000) ∷ some (pos 6800000) ∷ some (pos 79950000) ∷ some (pos 6980000) ∷ []))

london_is_outside :
    (outside_coverage true 0 colombo_info none (pos 51500000) (negsuc 100000)).1 ≡ some colombo
unfolding outside_coverage routable_extent is_fresh extent_of box_of excluding contains
london_is_outside = refl

outside_coverage_claims_test :
    (true ≡ true)
    × (contains colombo (pos 51500000) (negsuc 100000) ≡ false)
    × ((extent_of colombo_info ≡ some colombo)
        ⊎ ((at : ℕ) × (◌≡◌ {A = Cached} none (some (some colombo, at))) × (0 - at < info_ttl_ms)))
outside_coverage_claims_test =
    outside_coverage_claims true 0 colombo_info none (pos 51500000) (negsuc 100000) colombo
      london_is_outside

nothing_fresh : is_fresh 0 none ≡ false
unfolding is_fresh
nothing_fresh = refl

routable_extent_kept_test :
    routable_extent true 60000 failed (routable_extent true 0 colombo_info none).0
    ≡ routable_extent true 0 colombo_info none
routable_extent_kept_test =
    routable_extent_kept 0 60000 colombo_info failed none nothing_fresh (omega arith)

unroutable_point_claims_test :
    ((unroutable_point_message (some (colombo ∷ [])) (some (pos 48850000, pos 2350000))
        ≡ not_covered)
      ↔ ((regions : List Coverage) × (some (colombo ∷ []) ≡ some regions)
          × All (λ box. contains box (pos 48850000) (pos 2350000) ≡ false) regions))
    × ((unroutable_point_message (some (colombo ∷ [])) (some (pos 48850000, pos 2350000))
          ≡ near_no_path)
        ↔ ((regions : List Coverage) × (some (colombo ∷ []) ≡ some regions)
            × ((box : Coverage) × Among box regions
                × (contains box (pos 48850000) (pos 2350000) ≡ true))))
unroutable_point_claims_test =
    unroutable_point_claims (some (colombo ∷ [])) (pos 48850000) (pos 2350000)
