-- ===== src/Monitoring/Triage/Prompt.antt =====
-- The size of the classification prompt in monitoring_agent/graph.py.
use Prim.Native.String.{count}
use package.text.Mathlib.TextLemmas.{length-append, length-cons}
use agent_bakery.Prelude.{ℕ, zero, suc, ◌+◌, ◌≤◌, ◌≡◌, refl, String, List, [], ◌∷◌, arith}
use agent_bakery.Prelude.Text.{f_string}
use agent_bakery.Monitoring.Signal.{Signal}
use agent_bakery.Monitoring.Triage.{prefix, user_prompt, max_title_chars, max_body_chars}

count-prefix-le : (n : ℕ) (s : String) → count (prefix n s) ≤ n
unfolding prefix
count-prefix-le zero s = omega arith
count-prefix-le (suc n) String.[] = omega arith
count-prefix-le (suc n) (String.◌∷◌ c s) =
    omega (arith, length-cons c (prefix n s), count-prefix-le n s)

total : List String → ℕ
total [] = 0
total (s ∷ ss) = count s + total ss

count-f_string : (pieces : List String) → count (f_string pieces) ≡ total pieces
unfolding f_string total
count-f_string [] = refl
count-f_string (s ∷ ss) = omega (arith, length-append s (f_string ss), count-f_string ss)

-- However long a signal's title and body are, the prompt that quotes them has at most 4560 characters
-- more than the source, the severity and the two delimiters.
pub prompt_bounded :
    (open_mark close_mark : String) (sig : Signal)
    → count (user_prompt open_mark close_mark sig)
      ≤ count sig.source + count sig.suggested_severity + count open_mark + count close_mark + 4560
unfolding user_prompt total
prompt_bounded open_mark close_mark sig = omega (
  arith,
  count-f_string (
      "source: "
      ∷ sig.source
      ∷ "\nsuggested_severity: "
      ∷ sig.suggested_severity
      ∷ "\n"
      ∷ open_mark
      ∷ "\ntitle: "
      ∷ prefix max_title_chars sig.title
      ∷ "\ndetails:\n"
      ∷ prefix max_body_chars sig.body
      ∷ "\n"
      ∷ close_mark
      ∷ []),
  count-prefix-le max_title_chars sig.title,
  count-prefix-le max_body_chars sig.body,
)
