-- ===== src/Common/Dict.antt =====
-- Python's `dict` with text keys: entries in the order of first insertion, one to a key.
use Prim.Native.Nat.{ℕ, suc, ◌-◌, ◌≤◌}
use Prim.Native.String.{String}
use mathlib.Core.Path.{◌≡◌, refl, ap}
use mathlib.Core.Bool.{Bool, false, true, not, ◌||◌}
use mathlib.Core.Option.{Option, none, some}
use mathlib.Core.List.{List, [], ◌∷◌, map}
use native.Mathlib.Omega.{arith}
use text.Mathlib.TextPositions.{eq_refl}
use meander.Common.Tests.{eq_iff, if◌then◌else◌, str_eq}
use meander.Common.Lists.{All, drop, length, length-drop, take, take-append-drop}
use meander.Common.Sort.{
  count_if, count_if-add-not, count_if-append, count_if-sort_by, length-sort_by, sort_by,
}

abbrev pub Dict {ℓ} : Type ℓ → Type ℓ
Dict V = List (String × V)

-- `k in ks`
unfoldable pub elem : String → List String → Bool
elem k [] = false
elem k (j ∷ ks) = str_eq j k || elem k ks

module _ {ℓ} {V : Type ℓ} where
  -- The keys, in order.
  abbrev pub keys : Dict V → List String
  keys d = map (λ e. e.0) d

  -- d.get(k)
  unfoldable pub get : String → Dict V → Option V
  get k [] = none
  get k ((j, v) ∷ d) = if str_eq j k then some v else get k d

  -- d[k] = v
  unfoldable pub put : String → V → Dict V → Dict V
  put k v [] = (k, v) ∷ []
  put k v ((j, w) ∷ d) = if str_eq j k then (j, v) ∷ d else (j, w) ∷ put k v d

  -- del d[k]
  unfoldable pub delete : String → Dict V → Dict V
  delete k [] = []
  delete k ((j, w) ∷ d) = let rest = delete k d in if str_eq j k then rest else (j, w) ∷ rest

  -- for k in ks: del d[k]
  unfoldable pub delete_all : List String → Dict V → Dict V
  delete_all [] d = d
  delete_all (k ∷ ks) d = delete_all ks (delete k d)

  pub get-put :
      (k j : String) (v : V) (d : Dict V)
      → get j (put k v d) ≡ (if str_eq k j then some v else get j d)
  unfolding get put
  get-put k j v [] = refl
  get-put k j v ((i, w) ∷ d) = ground (arith, eq_iff k j, eq_iff i k, eq_iff i j, get-put k j v d)

  pub get-put_self : (k : String) (v : V) (d : Dict V) → get k (put k v d) ≡ some v
  get-put_self k v d = simp (get-put, eq_refl)

  pub get-delete :
      (k j : String) (d : Dict V) → get j (delete k d) ≡ (if str_eq k j then none else get j d)
  unfolding get delete
  get-delete k j [] = ground arith
  get-delete k j ((i, w) ∷ d) = ground (arith, eq_iff k j, eq_iff i k, eq_iff i j, get-delete k j d)

  pub put-put : (k : String) (v w : V) (d : Dict V) → put k v (put k w d) ≡ put k v d
  unfolding put
  put-put k v w [] = simp eq_refl refl
  put-put k v w ((j, u) ∷ d) = ground (arith, put-put k v w d)

  pub delete-put : (k : String) (v : V) (d : Dict V) → delete k (put k v d) ≡ delete k d
  unfolding put delete
  delete-put k v [] = simp eq_refl refl
  delete-put k v ((j, u) ∷ d) = ground (arith, delete-put k v d)

  pub length-put-le : (k : String) (v : V) (d : Dict V) → length (put k v d) ≤ suc (length d)
  unfolding put
  length-put-le k v [] = omega arith
  length-put-le k v ((j, w) ∷ d) = ground (arith, length-put-le k v d)

  -- A write to a key that is there adds no entry.
  pub length-put_present :
      (k : String) (v w : V) (d : Dict V) → get k d ≡ some w → length (put k v d) ≡ length d
  unfolding get put
  length-put_present k v w [] h = ground arith
  length-put_present k v w ((j, u) ∷ d) h = ground (arith, length-put_present k v w d)

  pub length-delete-le : (k : String) (d : Dict V) → length (delete k d) ≤ length d
  unfolding delete
  length-delete-le k [] = omega arith
  length-delete-le k ((j, w) ∷ d) = ground (arith, length-delete-le k d)

  pub length-delete_all-le : (ks : List String) (d : Dict V) → length (delete_all ks d) ≤ length d
  unfolding delete_all
  length-delete_all-le [] d = omega arith
  length-delete_all-le (k ∷ ks) d =
      omega (arith, length-delete_all-le ks (delete k d), length-delete-le k d)

  -- What a run of deletions leaves: the entries whose key is not among the deleted ones.
  count_if-delete :
      (k : String) (ks : List String) (d : Dict V)
      → count_if (λ e. not (elem e.0 ks)) (delete k d) ≡ count_if (λ e. not (elem e.0 (k ∷ ks))) d
  unfolding delete count_if elem
  count_if-delete k ks [] = refl
  count_if-delete k ks ((j, w) ∷ d) = ground (arith, count_if-delete k ks d, eq_iff j k, eq_iff k j)

  count_if-all : (d : Dict V) → count_if (λ e. not (elem e.0 [])) d ≡ length d
  unfolding count_if elem
  count_if-all [] = refl
  count_if-all (e ∷ d) = ground (arith, count_if-all d)

  pub length-delete_all :
      (ks : List String) (d : Dict V)
      → length (delete_all ks d) ≡ count_if (λ e. not (elem e.0 ks)) d
  unfolding delete_all
  length-delete_all [] d = omega (arith, count_if-all d)
  length-delete_all (k ∷ ks) d =
      omega (arith, length-delete_all ks (delete k d), count_if-delete k ks d)

  pub put-All {κ} :
      (P : V → Type κ) (k : String) (v : V) (d : Dict V)
      → P v
      → All (λ e. P e.1) d
      → All (λ e. P e.1) (put k v d)
  unfolding put
  put-All P k v [] h k' = (h, tt)
  put-All P k v ((j, w) ∷ d) h k' = ground (arith, put-All P k v d h k'.1)

  pub delete-All {κ} :
      (P : V → Type κ) (k : String) (d : Dict V)
      → All (λ e. P e.1) d
      → All (λ e. P e.1) (delete k d)
  unfolding delete
  delete-All P k [] h = tt
  delete-All P k ((j, w) ∷ d) h = ground (arith, delete-All P k d h.1)

  pub delete_all-All {κ} :
      (P : V → Type κ) (ks : List String) (d : Dict V)
      → All (λ e. P e.1) d
      → All (λ e. P e.1) (delete_all ks d)
  unfolding delete_all
  delete_all-All P [] d h = h
  delete_all-All P (k ∷ ks) d h = delete_all-All P ks (delete k d) (delete-All P k d h)

  pub get-All {κ} :
      (P : V → Type κ) (k : String) (v : V) (d : Dict V)
      → All (λ e. P e.1) d
      → get k d ≡ some v
      → P v
  unfolding get
  get-All P k v [] h e = absurd (ground arith)
  get-All P k v ((j, w) ∷ d) h e = ground (arith, get-All P k v d h.1)

  -- No entry of a list is outside a set of keys that holds the list's own.
  none_outside :
      (ks : List String) (xs : Dict V)
      → ((k : String) → elem k (keys xs) ≡ true → elem k ks ≡ true)
      → count_if (λ e. not (elem e.0 ks)) xs ≡ 0
  unfolding count_if elem
  none_outside ks [] sub = refl
  none_outside ks ((k, b) ∷ xs) sub =
      ground (arith, eq_iff k k, sub k, none_outside ks xs (λ j h. sub j (ground arith)))

  -- Deleting the first `n` entries of an ordering of a dictionary deletes `n` of its entries or more.
  pub length-delete_prefix :
      (before : String × V → String × V → Bool) (n : ℕ) (d : Dict V)
      → length (delete_all (keys (take n (sort_by before d))) d) ≤ length d - n
  length-delete_prefix before n d =
      let s = sort_by before d in
      let first = take n s in
      let outside : String × V → Bool = λ e. not (elem e.0 (keys first)) in
      omega (
        arith,
        length-delete_all (keys first) d,
        count_if-sort_by before outside d,
        ap (count_if outside) (take-append-drop n s),
        count_if-append outside first (drop n s),
        none_outside (keys first) first (λ k h. h),
        count_if-add-not outside (drop n s),
        length-drop n s,
        length-sort_by before d,
      )
