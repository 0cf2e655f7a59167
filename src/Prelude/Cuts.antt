-- ===== src/Prelude/Cuts.antt =====
-- Where texts are cut: at their ends and at the last occurrence of a character.
use agent_bakery.Prelude.{
  ℕ, Bool, true, false, not, ◌&&◌, ◌||◌, ◌≡◌, refl, none, some, [], ◌∷◌, ◌++◌, ◌==◌, Option-cases,
  inl, inr, arith,
}
use agent_bakery.Prelude.Chars.{Chars, is_space, strip, lstrip, rstrip, split_last}

-- No white space is in the text.
abbrev pub is_plain : Chars → Bool
is_plain [] = true
is_plain (c ∷ s) = not (is_space c) && is_plain s

rstrip-plain : (s : Chars) → is_plain s ≡ true → rstrip is_space s ≡ s
unfolding rstrip
rstrip-plain [] h = refl
rstrip-plain (c ∷ []) h = ground arith
rstrip-plain (c ∷ d ∷ s) h = rw (rstrip-plain (d ∷ s) (ground arith)) refl

pub strip-plain : (s : Chars) → is_plain s ≡ true → strip is_space s ≡ s
unfolding strip lstrip
strip-plain [] h = rstrip-plain [] refl
strip-plain (c ∷ s) h =
    let first : is_space c ≡ false = ground arith in rw first (rstrip-plain (c ∷ s) h)

abbrev pub has : ℕ → Chars → Bool
has c [] = false
has c (d ∷ s) = d == c || has c s

pub split_last-none : (c : ℕ) (s : Chars) → has c s ≡ false → split_last c s ≡ none
unfolding split_last
split_last-none c [] h = refl
split_last-none c (d ∷ s) h =
    let other : (d == c) ≡ false = ground arith in
    rw (split_last-none c s (ground arith)) (rw other refl)

pub split_last-append :
    (c : ℕ) (a b : Chars) → has c b ≡ false → split_last c (a ++ (c ∷ b)) ≡ some (a, b)
unfolding split_last
split_last-append c [] b h =
    let self : (c == c) ≡ true = ground arith in rw (split_last-none c b h) (rw self refl)
split_last-append c (d ∷ a) b h = rw (split_last-append c a b h) refl

pub split_last_parts : (c : ℕ) (s a b : Chars) → split_last c s ≡ some (a, b) → s ≡ a ++ (c ∷ b)
unfolding split_last
split_last_parts c [] a b h = cc
split_last_parts c (d ∷ s) a b h = elim (Option-cases (split_last c s)) [
  | inl e ↦ ground arith
  | inr ((a', b'), e) ↦ ground (arith, split_last_parts c s a' b' e)
]
