-- ===== src/App/Forwarded.antt =====
-- What a client can do to the address it is rate-limited by (backend/main.py: `_client_ip`), and to the
-- memory that its body takes (`limit_body_size`).
use mathlib.Core.Path.{subst}
use mathlib.Core.List.{append_assoc, append-nil, map-append}
use meander.Common.{
  All, Bool, Bool-cases, List, List-cases, Option, [], ap, arith, false, get_elem?, if_ind,
  if◌then◌else◌, inl, inr, length, length-append, length-map, ltb, map, not, refl, some, suc, sym,
  true, ℕ, ◌++◌, ◌-◌, ◌<◌, ◌==◌, ◌∙◌, ◌∷◌, ◌≡◌, ◌≤◌,
}
use meander.Common.Text.{Text, strip}
use meander.Common.Sort.{keep, keep-append}
use meander.App.Client.{
  Bytes, Passed, client_ip, comma, extend, is_blank, limit_body_size, max_body_bytes, parts_of,
  passed, payload_too_large, read_capped, replay_body, split_comma, undeclared,
}

extend-append :
    (c : ℕ) (xs ys : List Text) → 0 < length xs → extend c (xs ++ ys) ≡ extend c xs ++ ys
extend-append c [] ys h = absurd (omega (arith, h))
extend-append c (x ∷ xs) ys h = refl

length-split_comma : (s : Text) → 0 < length (split_comma s)
unfolding split_comma
length-split_comma [] = omega arith
length-split_comma (c ∷ s) =
    if_ind (λ (parts : List Text). 0 < length parts) (c == comma) (λ e. omega arith) λ e. extended
  where
    extended : 0 < length (extend c (split_comma s))
    extended = elim (List-cases (split_comma s)) [
      | inl none_there ↦ rw none_there (omega arith)
      | inr (x, xs, there) ↦ rw there (omega arith)
    ]

split_comma-append : (s t : Text) → split_comma (s ++ comma ∷ t) ≡ split_comma s ++ split_comma t
unfolding split_comma
split_comma-append [] t = refl
split_comma-append (c ∷ s) t = elim (Bool-cases (c == comma)) [
  | inl e ↦ rw e (ap ([] ∷◌) (split_comma-append s t))
  | inr e ↦ rw e (
      ap (extend c) (split_comma-append s t)
      ∙ extend-append c (split_comma s) (split_comma t) (length-split_comma s))
]

parts_of-append : (s t : Text) → parts_of (s ++ comma ∷ t) ≡ parts_of s ++ parts_of t
unfolding parts_of
parts_of-append s t =
    let blank : Text → Bool = λ p. not (is_blank p) in
    ap (λ parts. keep blank (map strip parts)) (split_comma-append s t)
    ∙ ap (keep blank) (map-append strip (split_comma s) (split_comma t))
    ∙ keep-append blank (map strip (split_comma s)) (map strip (split_comma t))

-- An address as a proxy writes it: no comma, and something other than blanks.
abbrev pub IsAddress : Text → Type 0
IsAddress a = (is_blank (strip a) ≡ false) × All (λ c. (c == comma) ≡ false) a

split_comma-single : (a : Text) → All (λ c. (c == comma) ≡ false) a → split_comma a ≡ a ∷ []
unfolding split_comma
split_comma-single [] h = refl
split_comma-single (c ∷ s) h = rw h.0 (ap (extend c) (split_comma-single s h.1))

parts_of-address : (a : Text) → IsAddress a → parts_of a ≡ strip a ∷ []
unfolding parts_of keep
parts_of-address a h =
    ap (λ parts. keep (λ p. not (is_blank p)) (map strip parts)) (split_comma-single a h.1)
    ∙ ap (λ b. if not b then strip a ∷ [] else []) h.0

-- The header after each of the proxies has appended what it saw.
abbrev pub appended : Text → List Text → Text
appended sent [] = sent
appended sent (a ∷ seen) = appended (sent ++ comma ∷ a) seen

parts_of-appended :
    (sent : Text) (seen : List Text)
    → All IsAddress seen
    → parts_of (appended sent seen) ≡ parts_of sent ++ map strip seen
parts_of-appended sent [] h = sym (append-nil (parts_of sent))
parts_of-appended sent (a ∷ seen) h =
    parts_of-appended (sent ++ comma ∷ a) seen h.1
    ∙ ap (◌++ map strip seen)
        (parts_of-append sent a ∙ ap (parts_of sent ++◌) (parts_of-address a h.0))
    ∙ append_assoc (parts_of sent) (strip a ∷ []) (map strip seen)

get_elem?-length :
    (xs : List Text) (y : Text) (ys : List Text) → get_elem? (xs ++ y ∷ ys) (length xs) ≡ some y
get_elem?-length [] y ys = refl
get_elem?-length (x ∷ xs) y ys = get_elem?-length xs y ys

-- The entry taken from the right, counted over what lies to its left.
from_right :
    (peer : Option Text) (xs : List Text) (y : Text) (ys : List Text) (n : ℕ)
    → length ys ≡ n
    → (if ltb (length (xs ++ y ∷ ys)) (suc n)
        then peer
        else get_elem? (xs ++ y ∷ ys) (length (xs ++ y ∷ ys) - suc n))
      ≡ some y
from_right peer xs y ys n e =
    let parts = xs ++ y ∷ ys in
    let index : length parts - suc n ≡ length xs = omega (arith, length-append xs (y ∷ ys), e) in
    if_ind (λ (o : Option Text). o ≡ some y) (ltb (length parts) (suc n))
      (λ short. absurd (ground (arith, length-append xs (y ∷ ys))))
      λ long. ap (get_elem? parts) index ∙ get_elem?-length xs y ys

-- Behind as many proxies as are configured, a request is limited by the address that the outermost of
-- them saw, whatever the client put into the header itself.
pub client_ip-appended :
    (peer : Option Text) (sent a : Text) (seen : List Text)
    → All IsAddress (a ∷ seen)
    → client_ip (suc (length seen)) peer (some (appended sent (a ∷ seen))) ≡ some (strip a)
unfolding client_ip
client_ip-appended peer sent a seen h =
    let from_parts : List Text → Option Text = λ parts.
      if ltb (length parts) (suc (length seen))
      then peer
      else get_elem? parts (length parts - suc (length seen)) in
    ap from_parts (parts_of-appended sent (a ∷ seen) h)
    ∙ from_right peer (parts_of sent) (strip a) (map strip seen) (length seen)
        (length-map strip seen)

abbrev pub joined : List Bytes → Bytes
joined [] = []
joined (chunk ∷ chunks) = chunk ++ joined chunks

-- A body: refused over the limit, and otherwise handed on in one piece.
abbrev pub IsCapped : Bytes → Passed → Type 0
IsCapped body payload_too_large = max_body_bytes < length body
IsCapped body (passed given) = (given ≡ body ∷ []) × (length body ≤ max_body_bytes)

read_capped-IsCapped :
    (body : Bytes) (chunks : List Bytes)
    → length body ≤ max_body_bytes
    → IsCapped (body ++ joined chunks) (replay_body (read_capped body chunks))
unfolding read_capped
read_capped-IsCapped body [] h =
    subst (λ b. IsCapped b (passed (body ∷ []))) (sym (append-nil body)) (refl, h)
read_capped-IsCapped body (chunk ∷ chunks) h =
    subst (λ b. IsCapped b (replay_body (read_capped body (chunk ∷ chunks))))
      (append_assoc body chunk (joined chunks))
      (if_ind (λ (o : Option Bytes). IsCapped ((body ++ chunk) ++ joined chunks) (replay_body o))
        (ltb max_body_bytes (length (body ++ chunk)))
        (λ over. ground (arith, length-append (body ++ chunk) (joined chunks)))
        λ within. read_capped-IsCapped (body ++ chunk) chunks (ground arith))

-- A body whose length was not declared is refused exactly when it exceeds 64 KB, and is otherwise handed
-- on whole, in one piece.
pub limit_body_size-IsCapped :
    (chunks : List Bytes)
    → IsCapped
        (joined chunks)
        (limit_body_size (record { length_header = undeclared; has_body = true; chunks = chunks }))
unfolding limit_body_size
limit_body_size-IsCapped chunks = read_capped-IsCapped [] chunks (omega arith)
