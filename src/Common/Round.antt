-- ===== src/Common/Round.antt =====
-- Python's `round` of a quotient of naturals: to the nearest integer, a tie to the even one.
use Prim.Native.Nat.{ℕ, ◌+◌, ◌*◌, ◌/◌, ◌%◌, ◌≤◌, ◌<◌}
use mathlib.Core.Path.{◌≡◌}
use mathlib.Core.Logic.{◌⊎◌, inl, inr}
use native.Mathlib.Nat.{mod-lt, div-add-mod}
use native.Mathlib.Omega.{arith}
use meander.Common.Tests.{ltb, if◌then◌else◌}

-- The quotient `q` with remainder `r` by `d`, rounded.
unfoldable pub round_at : ℕ → ℕ → ℕ → ℕ
round_at q r d = if ltb (2 * r) d then q else if ltb d (2 * r) then q + 1 else q + q % 2

unfoldable pub round_div : ℕ → ℕ → ℕ
unfolding round_at
round_div n d = round_at (n / d) (n % d) d

round_at-cases :
    (q r d : ℕ) → ((round_at q r d ≡ q) × (2 * r ≤ d)) ⊎ ((round_at q r d ≡ q + 1) × (d ≤ 2 * r))
unfolding round_at
round_at-cases q r d = ground (arith, mod-lt q {m = 2})

-- The result is within half a unit of the exact quotient.
pub round_div_near :
    (n d : ℕ)
    → 0 < d
    → (2 * n ≤ 2 * (round_div n d * d) + d) × (2 * (round_div n d * d) ≤ 2 * n + d)
unfolding round_div
round_div_near n d h = elim (round_at-cases (n / d) (n % d) d) [
  | inl (e, s) ↦
      rw e (omega (arith, div-add-mod n d, mod-lt n h), omega (arith, div-add-mod n d, mod-lt n h))
  | inr (e, s) ↦
      rw e (omega (arith, div-add-mod n d, mod-lt n h), omega (arith, div-add-mod n d, mod-lt n h))
]

-- A part of a whole, in units of `k` to the whole, is at most `k`.
pub round_div-le : (n d k : ℕ) → 0 < d → n ≤ k * d → round_div n d ≤ k
unfolding round_div
round_div-le n d k h le = elim (round_at-cases (n / d) (n % d) d) [
  | inl (e, s) ↦ rw e (grind (arith, div-add-mod n d))
  | inr (e, s) ↦ rw e (grind (arith, div-add-mod n d))
]
