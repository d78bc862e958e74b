-- ===== src/Common/Sort.antt =====
-- Python's stable `sorted`, Boolean filters, and the counts that both keep.
use Prim.Native.Nat.{ℕ, suc, ◌+◌, ◌≤◌}
use mathlib.Core.Path.{◌≡◌, refl, ap, subst, sym, ◌∙◌}
use mathlib.Core.Logic.{inl, inr}
use mathlib.Core.Bool.{Bool, true, not}
use mathlib.Core.Option.{Option, none, some}
use mathlib.Core.List.{List, [], ◌∷◌, ◌++◌, map}
use native.Mathlib.Omega.{arith}
use meander.Common.Tests.{Bool-cases, if◌then◌else◌, if_ind, leb, leb→le, Option_ind, some_case}
use meander.Common.Lists.{All, All-imp, Among, Among-self, length}

module _ {ℓ} {A : Type ℓ} where
  -- `[x for x in xs if p(x)]`
  unfoldable pub keep : (A → Bool) → List A → List A
  keep p [] = []
  keep p (x ∷ xs) = let rest = keep p xs in if p x then x ∷ rest else rest

  unfoldable pub count_if : (A → Bool) → List A → ℕ
  count_if p [] = 0
  count_if p (x ∷ xs) = if p x then suc (count_if p xs) else count_if p xs

  pub length-keep : (p : A → Bool) (xs : List A) → length (keep p xs) ≡ count_if p xs
  unfolding keep count_if
  length-keep p [] = refl
  length-keep p (x ∷ xs) = ground (arith, length-keep p xs)

  pub length-keep-le : (p : A → Bool) (xs : List A) → length (keep p xs) ≤ length xs
  unfolding keep
  length-keep-le p [] = omega arith
  length-keep-le p (x ∷ xs) = ground (arith, length-keep-le p xs)

  pub keep-All : (p : A → Bool) (xs : List A) → All (λ x. p x ≡ true) (keep p xs)
  unfolding keep
  keep-All p [] = tt
  keep-All p (x ∷ xs) = ground (arith, keep-All p xs)

  pub All-keep {κ} : (P : A → Type κ) (p : A → Bool) (xs : List A) → All P xs → All P (keep p xs)
  unfolding keep
  All-keep P p [] h = tt
  All-keep P p (x ∷ xs) h = ground (arith, All-keep P p xs h.1)

  pub keep-append : (p : A → Bool) (xs ys : List A) → keep p (xs ++ ys) ≡ keep p xs ++ keep p ys
  unfolding keep
  keep-append p [] ys = refl
  keep-append p (x ∷ xs) ys = ground (arith, keep-append p xs ys)

  -- Every element counted is an element: the elements that fail `p` make up the rest.
  pub count_if-add-not :
      (p : A → Bool) (xs : List A) → count_if p xs + count_if (λ x. not (p x)) xs ≡ length xs
  unfolding count_if
  count_if-add-not p [] = refl
  count_if-add-not p (x ∷ xs) = ground (arith, count_if-add-not p xs)

  pub count_if-append :
      (p : A → Bool) (xs ys : List A) → count_if p (xs ++ ys) ≡ count_if p xs + count_if p ys
  unfolding count_if
  count_if-append p [] ys = omega arith
  count_if-append p (x ∷ xs) ys = ground (arith, count_if-append p xs ys)

pub count_if-map {ℓ κ} :
    {A : Type ℓ} {B : Type κ} (p : A → Bool) (f : B → A) (xs : List B)
    → count_if p (map f xs) ≡ count_if (λ x. p (f x)) xs
unfolding count_if
count_if-map p f [] = refl
count_if-map p f (x ∷ xs) = ground (arith, count_if-map p f xs)

module _ {ℓ} {A : Type ℓ} (before : A → A → Bool) where
  -- `before x y`: an `x` that stood ahead of `y` stays ahead of it.
  unfoldable pub insert_sorted : A → List A → List A
  insert_sorted x [] = x ∷ []
  insert_sorted x (y ∷ ys) = if before x y then x ∷ y ∷ ys else y ∷ insert_sorted x ys

  unfoldable pub sort_by : List A → List A
  unfolding insert_sorted
  sort_by [] = []
  sort_by (x ∷ xs) = insert_sorted x (sort_by xs)

  count_if-insert_sorted :
      (p : A → Bool) (x : A) (ys : List A) → count_if p (insert_sorted x ys) ≡ count_if p (x ∷ ys)
  unfolding insert_sorted count_if
  count_if-insert_sorted p x [] = refl
  count_if-insert_sorted p x (y ∷ ys) = ground (arith, count_if-insert_sorted p x ys)

  -- Sorting keeps every count, so it is a permutation.
  pub count_if-sort_by : (p : A → Bool) (xs : List A) → count_if p (sort_by xs) ≡ count_if p xs
  unfolding sort_by count_if
  count_if-sort_by p [] = refl
  count_if-sort_by p (x ∷ xs) =
      ground (arith, count_if-insert_sorted p x (sort_by xs), count_if-sort_by p xs)

  length-insert_sorted : (x : A) (ys : List A) → length (insert_sorted x ys) ≡ suc (length ys)
  unfolding insert_sorted
  length-insert_sorted x [] = refl
  length-insert_sorted x (y ∷ ys) = ground (arith, length-insert_sorted x ys)

  pub length-sort_by : (xs : List A) → length (sort_by xs) ≡ length xs
  unfolding sort_by
  length-sort_by [] = refl
  length-sort_by (x ∷ xs) = omega (arith, length-sort_by xs, length-insert_sorted x (sort_by xs))

  insert_sorted-All {κ} :
      (P : A → Type κ) (x : A) (ys : List A) → P x → All P ys → All P (insert_sorted x ys)
  unfolding insert_sorted
  insert_sorted-All P x [] h k = (h, tt)
  insert_sorted-All P x (y ∷ ys) h k = ground (arith, insert_sorted-All P x ys h k.1)

  pub sort_by-All {κ} : (P : A → Type κ) (xs : List A) → All P xs → All P (sort_by xs)
  unfolding sort_by
  sort_by-All P [] h = tt
  sort_by-All P (x ∷ xs) h = insert_sorted-All P x (sort_by xs) h.0 (sort_by-All P xs h.1)

-- Sorted from the largest key down, the first element has the largest key and is one of the list's.
module _ {A : Type 0} (key : A → ℕ) where
  abbrev pub descending : A → A → Bool
  descending x y = leb (key y) (key x)

  abbrev Top : List A → Type 0
  Top [] = Unit
  Top (x ∷ xs) = All (λ y. key y ≤ key x) xs

  insert_sorted-Top : (x : A) (ys : List A) → Top ys → Top (insert_sorted descending x ys)
  unfolding insert_sorted
  insert_sorted-Top x [] h = tt
  insert_sorted-Top x (y ∷ ys) h = elim (Bool-cases (leb (key y) (key x))) [
    | inl e ↦ rw e (
      leb→le (key y) (key x) e,
      All-imp (λ z. key z ≤ key y) (λ z. key z ≤ key x) ys (λ z l. ground (arith, e)) h,
    )
    | inr e ↦ rw e (insert_sorted-All descending (λ z. key z ≤ key y) x ys (ground arith) h)
  ]

  sort_by-Top : (xs : List A) → Top (sort_by descending xs)
  unfolding sort_by
  sort_by-Top [] = tt
  sort_by-Top (x ∷ xs) = insert_sorted-Top x (sort_by descending xs) (sort_by-Top xs)

  insert_sorted-All_back {κ} :
      (P : A → Type κ) (x : A) (ys : List A)
      → All P (insert_sorted descending x ys)
      → P x × All P ys
  unfolding insert_sorted
  insert_sorted-All_back P x [] h = (h.0, tt)
  insert_sorted-All_back P x (y ∷ ys) h = ground (arith, insert_sorted-All_back P x ys)

  sort_by-All_back {κ} : (P : A → Type κ) (xs : List A) → All P (sort_by descending xs) → All P xs
  unfolding sort_by
  sort_by-All_back P [] h = tt
  sort_by-All_back P (x ∷ xs) h =
      let (hx, hs) = insert_sorted-All_back P x (sort_by descending xs) h in
      (hx, sort_by-All_back P xs hs)

  pub sort_by-first :
      (xs : List A) (best : A) (others : List A)
      → sort_by descending xs ≡ best ∷ others
      → Among best xs × All (λ x. key x ≤ key best) xs
  sort_by-first xs best others e = (
    (subst (All (λ x. Among x xs)) e
        (sort_by-All descending (λ x. Among x xs) xs (Among-self xs))).0,
    sort_by-All_back (λ x. key x ≤ key best) xs
        (subst (All (λ x. key x ≤ key best)) (sym e) (omega arith, subst Top e (sort_by-Top xs))),
  )

-- Sorted from the smallest key up, every element has a key at most those of the later ones.
module _ {A : Type 0} (key : A → ℕ) where
  abbrev pub ascending : A → A → Bool
  ascending x y = leb (key x) (key y)

  abbrev pub IsAscending : List A → Type 0
  IsAscending [] = Unit
  IsAscending (x ∷ xs) = All (λ y. key x ≤ key y) xs × IsAscending xs

  insert_sorted-IsAscending :
      (x : A) (ys : List A) → IsAscending ys → IsAscending (insert_sorted ascending x ys)
  unfolding insert_sorted
  insert_sorted-IsAscending x [] h = (tt, tt)
  insert_sorted-IsAscending x (y ∷ ys) h = elim (Bool-cases (leb (key x) (key y))) [
    | inl e ↦ rw e (
      (
        leb→le (key x) (key y) e,
        All-imp (λ z. key y ≤ key z) (λ z. key x ≤ key z) ys (λ z l. ground (arith, e)) h.0,
      ),
      h,
    )
    | inr e ↦ rw e (
      insert_sorted-All ascending (λ z. key y ≤ key z) x ys (ground arith) h.0,
      insert_sorted-IsAscending x ys h.1,
    )
  ]

  pub sort_by-IsAscending : (xs : List A) → IsAscending (sort_by ascending xs)
  unfolding sort_by
  sort_by-IsAscending [] = tt
  sort_by-IsAscending (x ∷ xs) =
      insert_sorted-IsAscending x (sort_by ascending xs) (sort_by-IsAscending xs)

module _ {A : Type 0} (before : A → A → Bool) where
  Among-insert_sorted :
      (x y : A) (ys : List A) → Among x (y ∷ ys) → Among x (insert_sorted before y ys)
  unfolding insert_sorted
  Among-insert_sorted x y [] m = m
  Among-insert_sorted x y (z ∷ ys) m =
      if_ind (Among x) (before y z) (λ e. m)
        λ e. elim m [
          | inl p ↦ inr (Among-insert_sorted x y ys (inl p))
          | inr q ↦ elim q [ inl p ↦ inl p | inr n ↦ inr (Among-insert_sorted x y ys (inr n)) ]
        ]

  -- Sorting loses no element.
  pub Among-sort_by : (x : A) (xs : List A) → Among x xs → Among x (sort_by before xs)
  unfolding sort_by
  Among-sort_by x [] m = absurd m
  Among-sort_by x (y ∷ ys) (inl p) = Among-insert_sorted x y (sort_by before ys) (inl p)
  Among-sort_by x (y ∷ ys) (inr m) =
      Among-insert_sorted x y (sort_by before ys) (inr (Among-sort_by x ys m))

-- The results of the elements that have one.
unfoldable pub filter_map {ℓ κ} : {A : Type ℓ} {B : Type κ} → (A → Option B) → List A → List B
filter_map f [] = []
filter_map f (x ∷ xs) = let rest = filter_map f xs in elim (f x) [ none ↦ rest | some y ↦ y ∷ rest ]

pub Among-filter_map :
    {A B : Type 0} (f : A → Option B) (x : A) (y : B) (xs : List A)
    → Among x xs
    → f x ≡ some y
    → Among y (filter_map f xs)
unfolding filter_map
Among-filter_map f x y [] m h = absurd m
Among-filter_map f x y (z ∷ xs) (inl p) h = some_case (Among y) (f z) _ _ y (ap f p ∙ h) (inl refl)
Among-filter_map f x y (z ∷ xs) (inr m) h =
    Option_ind (Among y) (f z) (λ n. Among-filter_map f x y xs m h)
      (λ b n. inr (Among-filter_map f x y xs m h))

pub All-filter_map {ℓ κ μ} :
    {A : Type ℓ} {B : Type κ} (P : B → Type μ) (f : A → Option B) (xs : List A)
    → ((x : A) (y : B) → f x ≡ some y → P y)
    → All P (filter_map f xs)
unfolding filter_map
All-filter_map P f [] h = tt
All-filter_map P f (x ∷ xs) h =
    Option_ind (All P) (f x) (λ n. All-filter_map P f xs h)
      (λ y e. (h x y e, All-filter_map P f xs h))
