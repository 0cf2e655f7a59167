-- ===== src/Llm/JsonText.antt =====
-- `_json_substring` of agentkit/llm.py, over the code points of a text.
pub mod Pieces
use agent_bakery.Prelude.{Option, none, some, [], ◌∷◌, map, ◌==◌, List, drop, ℕ, if◌then◌else◌}
use agent_bakery.Prelude.Chars.{
  Chars, is_space, lstrip, strip, after_prefix, before, from_first, up_to_last, lower,
}

abbrev pub fence : Chars
fence = b'`' ∷ b'`' ∷ b'`' ∷ []

abbrev pub json_tag : Chars
json_tag = b'j' ∷ b's' ∷ b'o' ∷ b'n' ∷ []

-- The text of the first fenced block, `text.split("```", 2)[1]`, where a second fence closes it; else
-- the text without the backticks at its ends.
unfoldable pub unfence : Chars → Chars → Chars
unfolding before strip
unfence text opened = elim (before fence opened) [
  | some body ↦ body
  | none ↦ strip (λ c. c == b'`') text
]

-- Without the language tag `json`, in any case, after white space.
unfoldable pub without_tag : Chars → Chars
unfolding lstrip lower after_prefix
without_tag text = elim (after_prefix json_tag (map lower (lstrip is_space text))) [
  | some _ ↦ drop 4 (lstrip is_space text)
  | none ↦ text
]

-- `text[text.find("{") : text.rfind("}") + 1]`, or the empty text where no } follows the first {.
unfoldable pub braces : Chars → Chars
unfolding from_first up_to_last
braces text = elim (from_first b'{' text) [
  | none ↦ []
  | some s ↦ elim (up_to_last b'}' s) [ none ↦ [] | some object ↦ object ]
]

unfoldable pub json_substring : Chars → Chars
unfolding unfence without_tag braces
json_substring raw =
    let text = strip is_space raw in
    elim (after_prefix fence text) [
      | some opened ↦ braces (without_tag (unfence text opened))
      | none ↦ braces text
    ]
