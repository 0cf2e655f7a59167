-- ===== src/Prelude/Chars.antt =====
-- Texts as lists of code points, for the code that looks into them: the string methods it uses.
use mathlib.Core.Path.{◌≡◌, refl}
use mathlib.Core.Logic.{◌↔◌}
use native.Mathlib.Omega.{arith}
use mathlib.Core.Bool.{true, false, Bool, ◌&&◌, ◌||◌}
use mathlib.Core.Option.{Option, none, some}
use mathlib.Core.List.{List, [], ◌∷◌}
use Prim.Native.Nat.{ℕ, zero, suc, ◌+◌, ◌-◌}
use agent_bakery.Prelude.Lists.{length}
use agent_bakery.Prelude.Tests.{leb, ◌==◌, if◌then◌else◌}

abbrev pub Chars : Type 0
Chars = List ℕ

-- `str.isspace` on one code point.
abbrev pub is_space : ℕ → Bool
is_space c =
    leb 9 c && leb c 13
    || leb 28 c && leb c 32
    || c == 133
    || c == 160
    || c == 5760
    || leb 8192 c && leb c 8202
    || c == 8232
    || c == 8233
    || c == 8239
    || c == 8287
    || c == 12288

-- `lstrip` of the characters that pass a test.
unfoldable pub lstrip : (ℕ → Bool) → Chars → Chars
lstrip p [] = []
lstrip p (c ∷ s) = if p c then lstrip p s else c ∷ s

-- `rstrip`
unfoldable pub rstrip : (ℕ → Bool) → Chars → Chars
rstrip p [] = []
rstrip p (c ∷ s) = elim (rstrip p s) [ [] ↦ if p c then [] else c ∷ [] | d ∷ r ↦ c ∷ d ∷ r ]

unfoldable pub strip : (ℕ → Bool) → Chars → Chars
unfolding lstrip rstrip
strip p s = rstrip p (lstrip p s)

-- What follows a prefix.
unfoldable pub after_prefix : Chars → Chars → Option Chars
after_prefix [] s = some s
after_prefix (p ∷ ps) [] = none
after_prefix (p ∷ ps) (c ∷ s) = let rest = after_prefix ps s in if p == c then rest else none

-- What stands before the first occurrence of a separator, if there is one.
unfoldable pub before : Chars → Chars → Option Chars
unfolding after_prefix
before sep [] = elim (after_prefix sep []) [ none ↦ none | some _ ↦ some [] ]
before sep (c ∷ s) = elim (after_prefix sep (c ∷ s)) [
  | some _ ↦ some []
  | none ↦ elim (before sep s) [ none ↦ none | some b ↦ some (c ∷ b) ]
]

-- The text from the first occurrence of a character on.
unfoldable pub from_first : ℕ → Chars → Option Chars
from_first c [] = none
from_first c (d ∷ s) = let rest = from_first c s in if d == c then some (d ∷ s) else rest

-- The text up to the last occurrence of a character, which it includes.
unfoldable pub up_to_last : ℕ → Chars → Option Chars
up_to_last c [] = none
up_to_last c (d ∷ s) = elim (up_to_last c s) [
  | some r ↦ some (d ∷ r)
  | none ↦ if d == c then some (d ∷ []) else none
]

-- `str.lower` on ASCII letters.
unfoldable pub lower : ℕ → ℕ
lower c = if leb b'A' c && leb c b'Z' then c + 32 else c

-- `needle in text`
unfoldable pub contains : Chars → Chars → Bool
unfolding after_prefix
contains needle [] = elim (after_prefix needle []) [ some r ↦ true | none ↦ false ]
contains needle (c ∷ s) =
    elim (after_prefix needle (c ∷ s)) [ some r ↦ true | none ↦ false ] || contains needle s

-- `rpartition`: what stands before and after the last occurrence.
unfoldable pub split_last : ℕ → Chars → Option (Chars × Chars)
split_last c [] = none
split_last c (d ∷ s) = elim (split_last c s) [
  | some (a, b) ↦ some (d ∷ a, b)
  | none ↦ if d == c then some ([], s) else none
]

-- What stands before the first occurrence of a character, or the whole.
unfoldable pub up_to : ℕ → Chars → Chars
up_to c [] = []
up_to c (d ∷ s) = if d == c then [] else d ∷ up_to c s

-- `s.replace(pattern, "")`, by how many characters of an occurrence are still to be left out.
unfoldable pub remove_from : Chars → ℕ → Chars → Chars
unfolding after_prefix
remove_from pattern k [] = []
remove_from pattern (suc k) (c ∷ s) = remove_from pattern k s
remove_from pattern zero (c ∷ s) = elim (after_prefix pattern (c ∷ s)) [
  | some rest ↦ remove_from pattern (length pattern - 1) s
  | none ↦ c ∷ remove_from pattern zero s
]

-- `==` on texts.
abbrev pub same_text : Chars → Chars → Bool
same_text [] [] = true
same_text [] (d ∷ t) = false
same_text (c ∷ s) [] = false
same_text (c ∷ s) (d ∷ t) = c == d && same_text s t

pub same_text_iff : (s t : Chars) → (same_text s t ≡ true) ↔ (s ≡ t)
same_text_iff [] [] = (λ h. refl, λ h. refl)
same_text_iff [] (d ∷ t) = (λ h. cc, λ h. ground arith)
same_text_iff (c ∷ s) [] = (λ h. cc, λ h. ground arith)
same_text_iff (c ∷ s) (d ∷ t) =
    (λ h. ground (arith, same_text_iff s t), λ h. ground (arith, same_text_iff s t))
