-- ===== src/Auth/Webhook.antt =====
-- `verify_webhook_signature` of agentkit/auth.py, over the code points of a header. The hexadecimal
-- HMAC is a parameter.
pub mod Signature
use agent_bakery.Prelude.{
  ℕ, ◌<◌, ◌≡◌, Bool, true, false, not, ◌&&◌, ◌||◌, Option, none, some, List, [], ◌∷◌, map, drop,
  length, ltb, leb, ◌==◌, if◌then◌else◌,
}
use agent_bakery.Prelude.Chars.{same_text, Chars, is_space, strip, after_prefix, lower}

abbrev pub is_empty : Chars → Bool
is_empty [] = true
is_empty (c ∷ s) = false

abbrev pub is_ascii : Chars → Bool
is_ascii [] = true
is_ascii (c ∷ s) = ltb c 128 && is_ascii s

-- `hmac.compare_digest` on two `str`: `none` for the `TypeError` that it raises where one of them is
-- not ASCII.
unfoldable pub compare_digest : Chars → Chars → Option Bool
compare_digest a b = if is_ascii a && is_ascii b then some (same_text a b) else none

-- "sha256="
abbrev pub scheme : Chars
scheme = b's' ∷ b'h' ∷ b'a' ∷ b'2' ∷ b'5' ∷ b'6' ∷ b'=' ∷ []

abbrev pub or_blank : Option Chars → Chars
or_blank none = []
or_blank (some header) = header

-- Without the scheme, in any case.
unfoldable pub without_scheme : Chars → Chars
unfolding after_prefix lower
without_scheme candidate = elim (after_prefix scheme (map lower candidate)) [
  | some rest ↦ drop 7 candidate
  | none ↦ candidate
]

-- Without the white space at the ends and the scheme.
unfoldable pub candidate_of : Chars → Chars
unfolding strip without_scheme
candidate_of header = without_scheme (strip is_space header)

-- `hexdigest secret raw` is `hmac.new(secret.encode(), raw, sha256).hexdigest()`.
unfoldable pub verify_webhook_signature :
    (Chars → List ℕ → Chars) → List ℕ → Option Chars → Chars → Option Bool
unfolding compare_digest candidate_of
verify_webhook_signature hexdigest raw header secret =
    if is_empty secret || is_empty (or_blank header)
    then some false
    else compare_digest (hexdigest secret raw) (candidate_of (or_blank header))
