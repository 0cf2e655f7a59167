-- ===== src/Prelude/Text.antt =====
-- Text as Python prints it: f-strings and the numbers in them.
use Prim.Native.Char.{code}
use Prim.Native.String.{String, ◌++◌}
use mathlib.Core.Path.{◌≡◌, refl}
use mathlib.Core.Option.{Option, none, some}
use mathlib.Core.List.{List, [], ◌∷◌}
use Prim.Native.Nat.{ℕ, zero, suc, ◌/◌, ◌%◌}
use text.Mathlib.Text.{◌==◌ as str_eq}
use agent_bakery.Prelude.Tests.{ltb, ◌==◌, if◌then◌else◌}
use agent_bakery.Prelude.Int.{ℤ, pos, negsuc}

-- The pieces of an f-string, put together.
unfoldable pub f_string : List String → String
f_string [] = ""
f_string (s ∷ ss) = s ++ f_string ss

digit : ℕ → String
digit d =
    if d == 0
    then "0"
    else if d == 1
    then "1"
    else if d == 2
    then "2"
    else if d == 3
    then "3"
    else if d == 4
    then "4"
    else if d == 5
    then "5"
    else if d == 6
    then "6"
    else if d == 7
    then "7"
    else if d == 8
    then "8"
    else "9"

-- A number has fewer digits than its value, so this fuel is enough.
show_from : ℕ → ℕ → String
show_from zero n = digit n
show_from (suc fuel) n =
    let front = show_from fuel (n / 10) in if ltb n 10 then digit n else front ++ digit (n % 10)

unfoldable pub show : ℕ → String
unfolding show_from digit
show n = show_from n n

unfoldable pub show_int : ℤ → String
unfolding show
show_int (pos n) = show n
show_int (negsuc n) = "-" ++ show (suc n)

-- A float that was rounded to four places, given in ten-thousandths, without trailing zeros.
unfoldable pub show_real : ℕ → String
unfolding show digit
show_real n =
    let whole = show (n / 10000) ++ "." ++ digit (n / 1000 % 10) in
    if n % 1000 == 0
    then whole
    else if n % 100 == 0
    then whole ++ digit (n / 100 % 10)
    else if n % 10 == 0
    then whole ++ digit (n / 100 % 10) ++ digit (n / 10 % 10)
    else whole ++ digit (n / 100 % 10) ++ digit (n / 10 % 10) ++ digit (n % 10)

abbrev pub show_opt {ℓ} : {A : Type ℓ} → (A → String) → Option A → String
show_opt shown none = "None"
show_opt shown (some a) = shown a

abbrev pub same : String → String
same s = s

-- `a or b` on texts that may be None.
abbrev pub or_text : Option String → String → String
or_text none default = default
or_text (some s) default = if str_eq s "" then default else s

-- The code points of a text.
abbrev pub codes : String → List ℕ
codes String.[] = []
codes (String.◌∷◌ c s) = code c ∷ codes s

show_test : f_string ("n=" ∷ show 2048 ∷ "\n" ∷ show_real 12305 ∷ []) ≡ "n=2048\n1.2305"
unfolding f_string show show_real
show_test = refl
