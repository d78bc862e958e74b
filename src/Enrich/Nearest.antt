-- ===== src/Enrich/Nearest.antt =====
-- The nearest segment of a route to a barrier (`barrier_spans_on_route`, backend/enrich.py): it is
-- within the corridor if any segment is.
use native.Mathlib.Nat.{mul-pos}
use mathlib.Core.Path.{subst}
use mathlib.Core.Option.{some-injective}
use meander.Common.{
  All, Among, Bool-cases, List, [], arith, get_elem?, if_ind, if◌then◌else◌, inl, inr, leb→le,
  length, le→leb, refl, some, suc, sym, true, zero, ℕ, ◌*◌, ◌+◌, ◌-◌, ◌<◌, ◌==◌, ◌∷◌, ◌≡◌, ◌≤◌, ◌⊎◌,
}
use meander.Common.Int.{abs}
use meander.Enrich.Barriers.{
  Foot, Vector, corridor_squared, dot, feet, foot_of, minus, nearest, nearest_from, no_farther,
  within_corridor,
}

times_le : (x y k : ℕ) → x ≤ y → x * k ≤ y * k
times_le x y k h = grind arith

cancel : (a b c : ℕ) → 0 < c → a * c ≤ b * c → a ≤ b
cancel a b c h k = grind arith

-- A fraction that is at most another's is within the other's bound.
nearer_bounded : (a b c d k : ℕ) → 0 < d → a * d ≤ c * b → c ≤ k * d → a ≤ k * b
nearer_bounded a b c d k h near far = cancel a (k * b) d h (grind (arith, times_le c (k * d) b far))

abbrev pub IsProper : Foot → Type 0
IsProper f = 0 < f.offset.den

within-no_farther :
    (f g : Foot)
    → IsProper f
    → g.offset.num * f.offset.den ≤ f.offset.num * g.offset.den
    → within_corridor f ≡ true
    → within_corridor g ≡ true
unfolding within_corridor
within-no_farther f g p near h = le→leb _ _ (
    nearer_bounded g.offset.num g.offset.den f.offset.num f.offset.den corridor_squared p near
      (leb→le _ _ h))

foot_of-IsProper : (d ab : Vector) → IsProper (foot_of d ab)
unfolding foot_of
foot_of-IsProper d ab = elim (Bool-cases (abs (dot ab ab) == 0)) [
  | inl e ↦ rw e (omega arith)
  | inr e ↦ rw e (mul-pos (ground (arith, e)) (ground (arith, e)))
]

pub feet-IsProper : (n : Vector) (points : List Vector) → All IsProper (feet n points)
unfolding feet
feet-IsProper n [] = tt
feet-IsProper n (a ∷ []) = tt
feet-IsProper n (a ∷ b ∷ points) =
    (foot_of-IsProper (minus n a) (minus b a), feet-IsProper n (b ∷ points))

-- The step of the search: the nearer of two feet is within the corridor if either is.
abbrev nearer : ℕ → Foot → ℕ × Foot → ℕ × Foot
nearer i g best = if no_farther g best.1 then (i, g) else best

nearer-IsProper :
    (i : ℕ) (g : Foot) (best : ℕ × Foot)
    → IsProper g
    → IsProper best.1
    → IsProper (nearer i g best).1
nearer-IsProper i g best p q =
    if_ind (λ (b : ℕ × Foot). IsProper b.1) (no_farther g best.1) (λ e. p) (λ e. q)

nearer-within :
    (i : ℕ) (g : Foot) (best : ℕ × Foot)
    → IsProper g
    → IsProper best.1
    → (within_corridor g ≡ true) ⊎ (within_corridor best.1 ≡ true)
    → within_corridor (nearer i g best).1 ≡ true
unfolding no_farther
nearer-within i g best p q (inl h) =
    if_ind (λ (b : ℕ × Foot). within_corridor b.1 ≡ true) (no_farther g best.1) (λ e. h)
      λ e. within-no_farther g best.1 p (ground (arith, e)) h
nearer-within i g best p q (inr h) =
    if_ind (λ (b : ℕ × Foot). within_corridor b.1 ≡ true) (no_farther g best.1)
      (λ e. within-no_farther best.1 g q (leb→le _ _ e) h) (λ e. h)

nearest_from-keeps :
    (i : ℕ) (best : ℕ × Foot) (fs : List Foot)
    → IsProper best.1
    → All IsProper fs
    → within_corridor best.1 ≡ true
    → within_corridor (nearest_from i best fs).1 ≡ true
unfolding nearest_from
nearest_from-keeps i best [] p ps h = h
nearest_from-keeps i best (g ∷ fs) p ps h =
    nearest_from-keeps (i + 1) (nearer i g best) fs (nearer-IsProper i g best ps.0 p) ps.1
      (nearer-within i g best ps.0 p (inr h))

nearest_from-finds :
    (i : ℕ) (best : ℕ × Foot) (fs : List Foot) (f : Foot)
    → IsProper best.1
    → All IsProper fs
    → Among f fs
    → within_corridor f ≡ true
    → within_corridor (nearest_from i best fs).1 ≡ true
unfolding nearest_from
nearest_from-finds i best [] f p ps m h = absurd m
nearest_from-finds i best (g ∷ fs) f p ps (inl e) h =
    nearest_from-keeps (i + 1) (nearer i g best) fs (nearer-IsProper i g best ps.0 p) ps.1
      (nearer-within i g best ps.0 p (inl (subst (λ x. within_corridor x ≡ true) (sym e) h)))
nearest_from-finds i best (g ∷ fs) f p ps (inr m) h =
    nearest_from-finds (i + 1) (nearer i g best) fs f (nearer-IsProper i g best ps.0 p) ps.1 m h

-- Where one of the feet is within the corridor, the nearest is.
pub nearest-finds :
    (fs : List Foot) (f : Foot)
    → All IsProper fs
    → Among f fs
    → within_corridor f ≡ true
    → (n : ℕ × Foot) × (nearest fs ≡ some n) × (within_corridor n.1 ≡ true)
unfolding nearest
nearest-finds [] f ps m h = absurd m
nearest-finds (g ∷ fs) f ps (inl e) h = (
  nearest_from 1 (0, g) fs,
  refl,
  nearest_from-keeps 1 (0, g) fs ps.0 ps.1 (subst (λ x. within_corridor x ≡ true) (sym e) h),
)
nearest-finds (g ∷ fs) f ps (inr m) h =
    (nearest_from 1 (0, g) fs, refl, nearest_from-finds 1 (0, g) fs f ps.0 ps.1 m h)

-- The nearest foot is that of its segment.
nearest_from-get :
    (all : List Foot) (i : ℕ) (best : ℕ × Foot) (fs : List Foot)
    → get_elem? all best.0 ≡ some best.1
    → ((k : ℕ) → get_elem? all (i + k) ≡ get_elem? fs k)
    → get_elem? all (nearest_from i best fs).0 ≡ some (nearest_from i best fs).1
unfolding nearest_from
nearest_from-get all i best [] h rest = h
nearest_from-get all i best (f ∷ fs) h rest =
    nearest_from-get all (i + 1) (nearer i f best) fs
      (if_ind (λ (b : ℕ × Foot). get_elem? all b.0 ≡ some b.1) (no_farther f best.1)
        (λ e. subst (λ n. get_elem? all n ≡ some f) (omega arith) (rest 0)) (λ e. h))
      (λ k. subst (λ n. get_elem? all n ≡ get_elem? fs k) (omega arith) (rest (suc k)))

pub nearest-get :
    (fs : List Foot) (n : ℕ × Foot) → nearest fs ≡ some n → get_elem? fs n.0 ≡ some n.1
unfolding nearest
nearest-get [] n h = absurd cc
nearest-get (f ∷ fs) n h =
    subst (λ b. get_elem? (f ∷ fs) b.0 ≡ some b.1) (some-injective _ _ h)
      (nearest_from-get (f ∷ fs) 1 (0, f) fs refl
        (λ k.
          subst (λ j. get_elem? (f ∷ fs) j ≡ get_elem? fs k)
            (let e : suc k ≡ 1 + k = omega arith in e) refl))

pub get_elem?-lt : (fs : List Foot) (i : ℕ) (f : Foot) → get_elem? fs i ≡ some f → i < length fs
get_elem?-lt [] i f h = absurd cc
get_elem?-lt (g ∷ fs) zero f h = omega arith
get_elem?-lt (g ∷ fs) (suc i) f h = omega (arith, get_elem?-lt fs i f h)

pub length-feet : (n : Vector) (points : List Vector) → length (feet n points) ≡ length points - 1
unfolding feet
length-feet n [] = refl
length-feet n (a ∷ []) = refl
length-feet n (a ∷ b ∷ points) = omega (arith, length-feet n (b ∷ points))
