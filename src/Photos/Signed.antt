-- ===== src/Photos/Signed.antt =====
-- The round trip of a reference (`image_ref` and `resolve_image_ref`, backend/photos.py).
use mathlib.Core.Path.{subst}
use meander.Common.{
  All, List, String, [], ap, arith, if_false, if_true, length, ltb, none, refl, some, some_case,
  suc, sym, zero, ℕ, ◌%◌, ◌++◌, ◌+◌, ◌-◌, ◌<◌, ◌∙◌, ◌∷◌, ◌≡◌, ◌≢◌, ◌≤◌,
}
use meander.Common.Text.{Text, text_eq, text_eq_refl}
use meander.Photos.{
  Signing, b64, before_last_dot, before_pads, check_url, dot, image_ref, max_ref_chars, pad, pads,
  parts_of_ref, refused, resolve_image_ref, rpartition, rstrip_pads, tag_of, unb64,
}

-- What base64 promises: a text of letters, digits and the like, filled up to a multiple of four
-- by at most three "=", from which the bytes come back.
pub record AreCodecs (signing : Signing) : Type 0 where
  pub core : List ℕ → Text
  pub count : List ℕ → ℕ
  pub encoded : (raw : List ℕ) → signing.encode raw ≡ core raw ++ pads (count raw)
  pub plain : (raw : List ℕ) → All (λ c. (c ≢ pad) × (c ≢ dot)) (core raw)
  pub few : (raw : List ℕ) → count raw < 4
  pub whole : (raw : List ℕ) → (length (core raw) + count raw) % 4 ≡ 0
  pub decoded : (raw : List ℕ) → signing.decode (signing.encode raw) ≡ some raw

rstrip_pads-pads : (n : ℕ) → rstrip_pads (pads n) ≡ []
unfolding rstrip_pads pads
rstrip_pads-pads zero = refl
rstrip_pads-pads (suc n) = rw (rstrip_pads-pads n) refl

last_kept : (c : ℕ) → c ≢ pad → before_pads c [] ≡ c ∷ []
unfolding before_pads
last_kept c h = ground arith

none_there : (c : ℕ) (t : Text) → c ≢ dot → before_last_dot c t none ≡ none
unfolding before_last_dot
none_there c t h = ground arith

rstrip_pads-append :
    (s : Text) (n : ℕ) → All (λ c. (c ≢ pad) × (c ≢ dot)) s → rstrip_pads (s ++ pads n) ≡ s
unfolding rstrip_pads
rstrip_pads-append [] n h = rstrip_pads-pads n
rstrip_pads-append (c ∷ []) n h = ap (before_pads c) (rstrip_pads-pads n) ∙ last_kept c h.0.0
rstrip_pads-append (c ∷ d ∷ s) n h = ap (before_pads c) (rstrip_pads-append (d ∷ s) n h.1)

no_dot : (t : Text) → All (λ c. (c ≢ pad) × (c ≢ dot)) t → rpartition t ≡ none
unfolding rpartition
no_dot [] h = refl
no_dot (c ∷ t) h = ap (before_last_dot c t) (no_dot t h.1) ∙ none_there c t h.0.1

rpartition-append :
    (p t : Text) → All (λ c. (c ≢ pad) × (c ≢ dot)) t → rpartition (p ++ dot ∷ t) ≡ some (p, t)
unfolding rpartition
rpartition-append [] t h = ap (before_last_dot dot t) (no_dot t h)
rpartition-append (c ∷ p) t h = ap (before_last_dot c (p ++ dot ∷ t)) (rpartition-append p t h)

fill : (n k : ℕ) → k < 4 → (n + k) % 4 ≡ 0 → (4 - n % 4) % 4 ≡ k
fill n k h e = omega arith

module _ (signing : Signing) (codecs : AreCodecs signing) where
  b64_lem : (raw : List ℕ) → b64 signing raw ≡ codecs.core raw
  unfolding b64
  b64_lem raw =
      rw (codecs.encoded raw)
        (rstrip_pads-append (codecs.core raw) (codecs.count raw) (codecs.plain raw))

  unb64-b64 : (raw : List ℕ) → unb64 signing (b64 signing raw) ≡ some raw
  unfolding unb64
  unb64-b64 raw = rw (b64_lem raw) (
      ap (λ n. signing.decode (codecs.core raw ++ pads n))
        (fill (length (codecs.core raw)) (codecs.count raw) (codecs.few raw) (codecs.whole raw))
      ∙ ap signing.decode (sym (codecs.encoded raw))
      ∙ codecs.decoded raw)

  parts_of_ref-image_ref :
      (url : String)
      → signing.from_utf8 (signing.to_utf8 url) ≡ some url
      → parts_of_ref signing (image_ref signing url) ≡ some (url, tag_of signing url)
  unfolding parts_of_ref image_ref
  parts_of_ref-image_ref url read_back =
      let payload = b64 signing (signing.to_utf8 url) in
      let tag = b64 signing (tag_of signing url) in
      let split : rpartition (payload ++ dot ∷ tag) ≡ some (payload, tag) =
        rpartition-append payload tag (
          subst (All (λ c. (c ≢ pad) × (c ≢ dot))) (sym (b64_lem (tag_of signing url)))
            (codecs.plain (tag_of signing url))) in
      some_case (λ r. r ≡ some (url, tag_of signing url)) (rpartition (payload ++ dot ∷ tag)) _ _
        (payload, tag) split
        (some_case (λ r. r ≡ some (url, tag_of signing url)) (unb64 signing payload) _ _
          (signing.to_utf8 url) (unb64-b64 (signing.to_utf8 url))
          (some_case (λ r. r ≡ some (url, tag_of signing url))
            (signing.from_utf8 (signing.to_utf8 url)) _ _ url read_back
            (some_case (λ r. r ≡ some (url, tag_of signing url)) (unb64 signing tag) _ _
              (tag_of signing url) (unb64-b64 (tag_of signing url)) refl)))

  -- A reference that is short enough, to an address that UTF-8 can write, leads back to that address and
  -- to what is asked of it.
  pub resolve_image_ref-image_ref :
      (url : String)
      → signing.from_utf8 (signing.to_utf8 url) ≡ some url
      → length (image_ref signing url) ≤ max_ref_chars
      → resolve_image_ref signing (image_ref signing url) ≡ check_url signing url
  unfolding resolve_image_ref
  resolve_image_ref-image_ref url read_back short =
      if_false (ltb max_ref_chars (length (image_ref signing url))) refused _ (ground arith)
      ∙ some_case (λ r. r ≡ check_url signing url) (parts_of_ref signing (image_ref signing url)) _
          _ (url, tag_of signing url) (parts_of_ref-image_ref url read_back)
          (if_true (text_eq (tag_of signing url) (tag_of signing url)) (check_url signing url)
            refused (text_eq_refl (tag_of signing url)))
