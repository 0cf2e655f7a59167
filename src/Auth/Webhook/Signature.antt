-- ===== src/Auth/Webhook/Signature.antt =====
-- Which signatures agentkit/auth.py accepts.
use agent_bakery.Prelude.{
  ap, ◌∙◌, List, Option, none, some, map, sym, ◌++◌, ℕ, ◌≡◌, ◌↔◌, refl, Bool, true, false, ◌&&◌,
  ◌||◌, [], ◌∷◌, leb, arith,
}
use agent_bakery.Prelude.Cuts.{is_plain, strip-plain}
use agent_bakery.Prelude.Chars.{same_text_iff, after_prefix, lower, Chars}
use agent_bakery.Auth.Webhook.{
  without_scheme, is_empty, or_blank, scheme, candidate_of, compare_digest,
  verify_webhook_signature, is_ascii,
}

abbrev pub is_hex : ℕ → Bool
is_hex c = leb b'0' c && leb c b'9' || leb b'a' c && leb c b'f'

-- A text of hexadecimal digits, of which there is at least one.
abbrev pub all_hex : Chars → Bool
all_hex [] = true
all_hex (c ∷ s) = is_hex c && all_hex s

pub hex_ascii : (s : Chars) → all_hex s ≡ true → is_ascii s ≡ true
hex_ascii [] h = refl
hex_ascii (c ∷ s) h = ground (arith, hex_ascii s)

hex_plain : (s : Chars) → all_hex s ≡ true → is_plain s ≡ true
hex_plain [] h = refl
hex_plain (c ∷ s) h = ground (arith, hex_plain s)

no_scheme : (s : Chars) → all_hex s ≡ true → after_prefix scheme (map lower s) ≡ none
unfolding after_prefix lower
no_scheme [] h = refl
no_scheme (c ∷ s) h = ground arith

without_scheme-hex : (s : Chars) → all_hex s ≡ true → without_scheme s ≡ s
unfolding without_scheme
without_scheme-hex s h = rw (no_scheme s h, without_scheme) refl

without_scheme-scheme : (s : Chars) → without_scheme (scheme ++ s) ≡ s
unfolding without_scheme after_prefix lower
without_scheme-scheme s = refl

candidate_of-hex : (s : Chars) → all_hex s ≡ true → candidate_of s ≡ s
unfolding candidate_of
candidate_of-hex s h = ap without_scheme (strip-plain s (hex_plain s h)) ∙ without_scheme-hex s h

candidate_of-scheme : (s : Chars) → all_hex s ≡ true → candidate_of (scheme ++ s) ≡ s
unfolding candidate_of
candidate_of-scheme s h =
    ap without_scheme (strip-plain (scheme ++ s) (hex_plain s h)) ∙ without_scheme-scheme s

-- What `hexdigest` documents: it consists of hexadecimal digits, and there are some.
pub record IsHexdigest (hexdigest : Chars → List ℕ → Chars) : Type 0 where
  pub digits : (secret : Chars) (raw : List ℕ) → all_hex (hexdigest secret raw) ≡ true
  pub some_digits : (secret : Chars) (raw : List ℕ) → is_empty (hexdigest secret raw) ≡ false

module _ (hexdigest : Chars → List ℕ → Chars) (law : IsHexdigest hexdigest) where
  -- A signature is accepted exactly when the secret and the header are set and the header, without
  -- white space and scheme, is the digest of the body; and the check raises a `TypeError` exactly when
  -- they are set and what is left of the header is not ASCII.
  pub signature_outcomes :
      (raw : List ℕ) (header : Option Chars) (secret : Chars)
      → let outcome = verify_webhook_signature hexdigest raw header secret in
        let are_set = (is_empty secret ≡ false) × (is_empty (or_blank header) ≡ false) in
        ((outcome ≡ some true)
          ↔ (are_set × (hexdigest secret raw ≡ candidate_of (or_blank header))))
        × ((outcome ≡ none) ↔ (are_set × (is_ascii (candidate_of (or_blank header)) ≡ false)))
  unfolding verify_webhook_signature compare_digest
  signature_outcomes raw header secret =
      let ascii = hex_ascii (hexdigest secret raw) (law.digits secret raw) in
      let same = same_text_iff (hexdigest secret raw) (candidate_of (or_blank header)) in
      (
        (λ h. ground arith, λ h. ground (arith, rw h.1 at ascii)),
        (λ h. ground arith, λ h. ground arith),
      )

  -- A body signed with a secret that is set is accepted with that secret, with and without the scheme
  -- before the digest.
  pub signed_is_accepted :
      (raw : List ℕ) (secret : Chars)
      → is_empty secret ≡ false
      → (verify_webhook_signature hexdigest raw (some (hexdigest secret raw)) secret ≡ some true)
        × (verify_webhook_signature hexdigest raw (some (scheme ++ hexdigest secret raw)) secret
            ≡ some true)
  signed_is_accepted raw secret configured =
      let digits = law.digits secret raw in
      (
        (signature_outcomes raw (some (hexdigest secret raw)) secret).0.1
            ((configured, law.some_digits secret raw), sym (candidate_of-hex _ digits)),
        (signature_outcomes raw (some (scheme ++ hexdigest secret raw)) secret).0.1
            ((configured, refl), sym (candidate_of-scheme _ digits)),
      )
