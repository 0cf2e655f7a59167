-- ===== src/Llm/JsonText/Pieces.antt =====
-- What `_json_substring` of agentkit/llm.py returns: a piece of the answer, in braces.
use mathlib.Core.List.{append_assoc, append-nil}
use agent_bakery.Prelude.{
  ℕ, ◌≡◌, refl, ap, sym, ◌∙◌, inl, inr, ◌⊎◌, some, [], ◌∷◌, ◌++◌, map, arith, ◌==◌, if◌then◌else◌,
  Bool, take, Option-cases, Bool-cases, take-append-drop,
}
use agent_bakery.Prelude.Chars.{
  Chars, is_space, lstrip, rstrip, strip, after_prefix, before, from_first, up_to_last, lower,
}
use agent_bakery.Llm.JsonText.{fence, json_tag, unfence, without_tag, braces, json_substring}

-- A contiguous piece of a text.
abbrev pub IsPiece : Chars → Chars → Type 0
IsPiece r t = (a : Chars) × (b : Chars) × (t ≡ a ++ r ++ b)

-- A text that begins with { and ends with }.
abbrev pub IsBraced : Chars → Type 0
IsBraced r = (m : Chars) × (r ≡ b'{' ∷ m ++ b'}' ∷ [])

IsPiece-refl : (t : Chars) → IsPiece t t
IsPiece-refl t = ([], [], simp append-nil)

IsPiece-trans : {r s t : Chars} → IsPiece r s → IsPiece s t → IsPiece r t
IsPiece-trans (a, b, p) (c, d, q) = (c ++ a, b ++ d, q ∙ simp (p, append_assoc))

from_first-IsPiece :
    (c : ℕ) (s : Chars) (r : Chars)
    → from_first c s ≡ some r
    → ((a : Chars) × (s ≡ a ++ r)) × ((m : Chars) × (r ≡ c ∷ m))
unfolding from_first
from_first-IsPiece c [] r h = cc
from_first-IsPiece c (d ∷ s) r h = elim (Bool-cases (d == c)) [
  | inl e ↦ (([], ground arith), (s, ground arith))
  | inr e ↦ let ((a, p), m) = from_first-IsPiece c s r (ground arith) in ((d ∷ a, ap (◌∷◌ d) p), m)
]

up_to_last-IsPiece :
    (c : ℕ) (s r : Chars)
    → up_to_last c s ≡ some r
    → ((b : Chars) × (s ≡ r ++ b)) × ((m : Chars) × (r ≡ m ++ c ∷ []))
unfolding up_to_last
up_to_last-IsPiece c [] r h = cc
up_to_last-IsPiece c (d ∷ s) r h = elim (Option-cases (up_to_last c s)) [
  | inl e ↦ ((s, ground arith), ([], ground arith))
  | inr (q, e) ↦
      let ((b, p), (m, l)) = up_to_last-IsPiece c s q e in
      let whole : r ≡ d ∷ q = ground arith in ((b, cc (p, whole)), (d ∷ m, cc (l, whole)))
]

-- Of a text that begins with {, what ends at its last } begins with { too.
both_ends : (t r m n b : Chars) → t ≡ b'{' ∷ n → t ≡ r ++ b → r ≡ m ++ b'}' ∷ [] → IsBraced r
both_ends t r [] n b p q l =
    let whole : b'{' ∷ n ≡ b'}' ∷ b = sym p ∙ q ∙ ap (λ (x : Chars). x ++ b) l in
    absurd (ground arith)
both_ends t r (d ∷ m) n b p q l =
    let whole : b'{' ∷ n ≡ d ∷ ((m ++ b'}' ∷ []) ++ b) = sym p ∙ q ∙ ap (λ (x : Chars). x ++ b) l in
    (m, ground arith)

abbrev Good : Chars → Chars → Type 0
Good r t = (r ≡ []) ⊎ (IsPiece r t × IsBraced r)

braces-Good : (t : Chars) → Good (braces t) t
unfolding braces
braces-Good t = elim (Option-cases (from_first b'{' t)) [
  | inl e ↦ inl (rw (e, braces))
  | inr (s, e) ↦ elim (Option-cases (up_to_last b'}' s)) [
    | inl f ↦ inl (rw (e, f, braces))
    | inr (r, f) ↦
        let ((a, p), (n, k)) = from_first-IsPiece b'{' t s e in
        let ((b, q), (m, l)) = up_to_last-IsPiece b'}' s r f in
        rw (e, f, braces)
          (inr ((a, b, p ∙ ap (◌++◌ a) q ∙ sym (append_assoc a r b)), both_ends s r m n b k q l))
  ]
]

Good-IsPiece : {r s t : Chars} → Good r s → IsPiece s t → Good r t
Good-IsPiece (inl e) p = inl e
Good-IsPiece (inr (q, b)) p = inr (IsPiece-trans q p, b)

lstrip-IsPiece : (p : ℕ → Bool) (s : Chars) → IsPiece (lstrip p s) s
unfolding lstrip
lstrip-IsPiece p [] = ([], [], refl)
lstrip-IsPiece p (c ∷ s) = elim (Bool-cases (p c)) [
  | inl e ↦ rw e (let (a, b, q) = lstrip-IsPiece p s in (c ∷ a, b, ap (◌∷◌ c) q))
  | inr e ↦ rw e (IsPiece-refl (c ∷ s))
]

rstrip-IsPiece : (p : ℕ → Bool) (s : Chars) → (b : Chars) × (s ≡ rstrip p s ++ b)
unfolding rstrip
rstrip-IsPiece p [] = ([], refl)
rstrip-IsPiece p (c ∷ s) = let (b, q) = rstrip-IsPiece p s in go (rstrip p s) b q
  where
    go :
        (r : Chars) (b : Chars)
        → s ≡ r ++ b
        → (b' : Chars) × (c ∷ s
            ≡ (elim r [ [] ↦ if p c then [] else c ∷ [] | d ∷ r' ↦ c ∷ d ∷ r' ]) ++ b')
    go [] b q = elim (Bool-cases (p c)) [
      | inl e ↦ (c ∷ b, rw e (ap (◌∷◌ c) q))
      | inr e ↦ (b, rw e (ap (◌∷◌ c) q))
    ]
    go (d ∷ r) b q = (b, ap (◌∷◌ c) q)

strip-IsPiece : (p : ℕ → Bool) (s : Chars) → IsPiece (strip p s) s
unfolding strip
strip-IsPiece p s =
    let (b, q) = rstrip-IsPiece p (lstrip p s) in IsPiece-trans ([], b, q) (lstrip-IsPiece p s)

before-IsPiece : (sep s r : Chars) → before sep s ≡ some r → (b : Chars) × (s ≡ r ++ b)
unfolding before
before-IsPiece sep [] r h = elim (Option-cases (after_prefix sep [])) [
  | inl e ↦ absurd (ground arith)
  | inr (x, e) ↦ let empty : r ≡ [] = ground arith in ([], rw empty)
]
before-IsPiece sep (c ∷ s) r h = elim (Option-cases (after_prefix sep (c ∷ s))) [
  | inr (x, e) ↦ let empty : r ≡ [] = ground arith in (c ∷ s, rw empty)
  | inl e ↦ elim (Option-cases (before sep s)) [
    | inl f ↦ absurd (ground arith)
    | inr (q, f) ↦
        let whole : r ≡ c ∷ q = ground arith in
        let (b, p) = before-IsPiece sep s q f in (b, cc (p, whole))
  ]
]

after_prefix-IsPiece : (p s r : Chars) → after_prefix p s ≡ some r → s ≡ p ++ r
unfolding after_prefix
after_prefix-IsPiece [] s r h = ground arith
after_prefix-IsPiece (p ∷ ps) [] r h = cc
after_prefix-IsPiece (p ∷ ps) (c ∷ s) r h = ground (arith, after_prefix-IsPiece ps s r)

without_tag-IsPiece : (t : Chars) → IsPiece (without_tag t) t
unfolding without_tag
without_tag-IsPiece t =
    elim (Option-cases (after_prefix (json_tag) (map lower (lstrip is_space t)))) [
      | inl e ↦ rw (e, without_tag) (IsPiece-refl t)
      | inr (x, e) ↦
          rw (e, without_tag)
            (IsPiece-trans
              (
                take 4 (lstrip is_space t),
                [],
                simp append-nil (sym (take-append-drop 4 (lstrip is_space t))),
              )
              (lstrip-IsPiece is_space t))
    ]

unfence-IsPiece :
    (t opened : Chars) → after_prefix fence t ≡ some opened → IsPiece (unfence t opened) t
unfolding unfence
unfence-IsPiece t opened h = elim (Option-cases (before fence opened)) [
  | inl e ↦ rw (e, unfence) (strip-IsPiece (λ c. c == b'`') t)
  | inr (body, e) ↦
      let (b, p) = before-IsPiece fence opened body e in
      rw (e, unfence) (fence, b, after_prefix-IsPiece fence t opened h ∙ ap (◌++◌ fence) p)
]

-- What is handed to the JSON parser is a contiguous piece of the model's answer, whatever the answer:
-- it begins with { and ends with }, or it is empty.
pub json_substring-IsPiece :
    (raw : Chars)
    → (json_substring raw ≡ []) ⊎ (IsPiece (json_substring raw) raw × IsBraced (json_substring raw))
unfolding json_substring
json_substring-IsPiece raw =
    let text = strip is_space raw in
    elim (Option-cases (after_prefix fence text)) [
      | inl e ↦
          rw (e, json_substring) (Good-IsPiece (braces-Good text) (strip-IsPiece is_space raw))
      | inr (opened, e) ↦
          rw (e, json_substring)
            (Good-IsPiece (braces-Good (without_tag (unfence text opened))) (
              IsPiece-trans (without_tag-IsPiece (unfence text opened))
                (IsPiece-trans (unfence-IsPiece text opened e) (strip-IsPiece is_space raw))))
    ]
