-- ===== src/Dashboard/Csrf/Signed.antt =====
-- Which tokens the CSRF guard of dashboard/api.py takes for its own.
use agent_bakery.Prelude.{
  true, false, ◌≡◌, refl, Option, none, some, [], ◌∷◌, ◌++◌, Option-cases, inl, inr, arith, ap,
}
use agent_bakery.Prelude.Cuts.{has, split_last-append, split_last_parts}
use agent_bakery.Prelude.Chars.{split_last, Chars, same_text_iff}
use agent_bakery.Auth.Webhook.{compare_digest, is_empty}
use agent_bakery.Auth.Webhook.Signature.{all_hex, hex_ascii}
use agent_bakery.Dashboard.Csrf.{dot, or_none, valid_parts, issue_csrf_token, csrf_valid}

-- What a hex digest of HMAC is: hexadecimal digits, and there are some.
pub record IsSignature (sign : Chars → Chars) : Type 0 where
  pub digits : (nonce : Chars) → all_hex (sign nonce) ≡ true
  pub some_digits : (nonce : Chars) → is_empty (sign nonce) ≡ false

hex_no_dot : (s : Chars) → all_hex s ≡ true → has dot s ≡ false
hex_no_dot [] h = refl
hex_no_dot (c ∷ s) h = ground (arith, hex_no_dot s)

-- The token of a nonce.
abbrev pub IsIssued : (Chars → Chars) → Chars → Option Chars → Type 0
IsIssued sign nonce token = (is_empty nonce ≡ false) × (token ≡ some (issue_csrf_token sign nonce))

module _ (sign : Chars → Chars) (law : IsSignature sign) where
  split_issued :
      (nonce : Chars) → split_last dot (issue_csrf_token sign nonce) ≡ some (nonce, sign nonce)
  unfolding issue_csrf_token
  split_issued nonce =
      split_last-append dot nonce (sign nonce) (hex_no_dot (sign nonce) (law.digits nonce))

  compare_digest-same : (nonce : Chars) → compare_digest (sign nonce) (sign nonce) ≡ some true
  unfolding compare_digest
  compare_digest-same nonce =
      rw (hex_ascii (sign nonce) (law.digits nonce))
        (ap some ((same_text_iff (sign nonce) (sign nonce)).1 refl))

  parts-IsIssued :
      (nonce sig : Chars)
      → valid_parts sign (some (nonce, sig)) ≡ some true
      → (is_empty nonce ≡ false) × (sig ≡ sign nonce)
  unfolding compare_digest
  parts-IsIssued nonce sig h = ground (arith, same_text_iff sig (sign nonce))

  issued_of :
      (token : Option Chars) (nonce sig : Chars)
      → or_none token ≡ nonce ++ (dot ∷ sig)
      → sig ≡ sign nonce
      → token ≡ some (issue_csrf_token sign nonce)
  unfolding issue_csrf_token
  issued_of none [] sig e same = absurd (cc e)
  issued_of none (c ∷ nonce) sig e same = absurd (cc e)
  issued_of (some t) nonce sig e same = cc

  -- A token that was issued is valid.
  pub csrf_valid-issue :
      (nonce : Chars)
      → is_empty nonce ≡ false
      → csrf_valid sign (some (issue_csrf_token sign nonce)) ≡ some true
  unfolding csrf_valid
  csrf_valid-issue nonce h =
      rw (split_issued nonce) (rw (h, law.some_digits nonce) (compare_digest-same nonce))

  -- A valid token is one that was issued.
  pub valid-IsIssued :
      (token : Option Chars)
      → csrf_valid sign token ≡ some true
      → (nonce : Chars) × IsIssued sign nonce token
  unfolding csrf_valid
  valid-IsIssued token h = elim (Option-cases (split_last dot (or_none token))) [
    | inl e ↦ absurd (cc (rw e at h))
    | inr ((nonce, sig), e) ↦
        let (named, same) = parts-IsIssued nonce sig (rw e at h) in
        (
          nonce,
          (
            named,
            issued_of token nonce sig (split_last_parts dot (or_none token) nonce sig e) same,
          ),
        )
  ]
