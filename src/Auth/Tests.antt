-- ===== src/Auth/Tests.antt =====
-- Runs of the models of agentkit/auth.py, and its theorems at concrete inputs.
use agent_bakery.Prelude.{
  ℕ, ap, zero, suc, ◌+◌, String, ◌≡◌, ◌↔◌, refl, true, false, ◌&&◌, Option, none, some, List, [],
  ◌∷◌, ◌++◌, arith, ltb, str_eq, eq_iff, if◌then◌else◌,
}
use agent_bakery.Prelude.Chars.{Chars}
use agent_bakery.Prelude.Exec.{ok, raised}
use agent_bakery.Auth.Tokens.{
  Jwt, IsJwt, Identity, Claims, Decoded, valid, expired, malformed, token_expired,
  invalid_refresh_token, mint_token, verify_token, refresh_access, rotate_tokens, redeem, is_among,
  unless_blank, all_present, minted,
}
use agent_bakery.Auth.Tokens.Access.{verify-mint}
use agent_bakery.Auth.Tokens.Refresh.{Use, login, no_entries, after, HasLogin, refreshed_was_login}
use agent_bakery.Auth.Tokens.Once.{refresh_once, IsUndrawn}
use agent_bakery.Auth.Webhook.{
  verify_webhook_signature, is_empty, is_ascii, scheme, candidate_of, or_blank, without_scheme,
  compare_digest,
}
use agent_bakery.Auth.Webhook.Signature.{IsHexdigest, signature_outcomes}

-- A token that is its claims, its secret and its algorithm.
abbrev Plain : Type 0
Plain = Claims × String × String

abbrev expires : Option ℕ → ℕ → Claims → Decoded
expires none wall c = malformed
expires (some exp) wall c = if ltb wall exp then valid c else expired

abbrev plain_decode : ℕ → Plain → String → List String → Option String → List String → Decoded
plain_decode wall (c, secret, alg) given algs audience required =
    if str_eq secret given && (is_among alg algs && all_present c required)
    then expires c.exp wall c
    else malformed

abbrev plain_jwt : Jwt Plain
plain_jwt = record {
  supports = λ alg. true;
  encode = λ c secret alg. (c, secret, alg);
  decode = plain_decode;
}

plain-IsJwt : IsJwt plain_jwt
plain-IsJwt = record {
  decode-encode = λ c exp wall secret alg algs required known among present blank began dated.
      let same = (eq_iff secret secret).1 refl in
      rw (same, among, present) (ap (λ o. expires o wall c) dated);
}

abbrev anna : Identity
anna = record { sub = "anna"; tenant = "acme"; role = "admin"; audience = some "shop"; name = none }

verify-mint_example :
    verify_token plain_jwt 1500
      (mint_token plain_jwt anna "key" "HS256" 900 1000)
      "key"
      ("HS256" ∷ [])
      (unless_blank anna.audience)
    ≡ (if ltb 1500 (1000 + 900)
        then ok (record { sub = "anna"; tenant = "acme"; role = "admin"; name = none })
        else raised token_expired)
verify-mint_example =
    verify-mint plain_jwt plain-IsJwt anna "key" "HS256" ("HS256" ∷ []) 900 1000 1500
      (λ e. ground (arith, eq_iff "key" "")) (λ e. ground (arith, eq_iff "acme" ""))
      (λ e. ground (arith, eq_iff "admin" "")) refl refl (omega arith)

abbrev numbered : ℕ → String
numbered zero = "first"
numbered (suc n) = "later"

abbrev one_login : List Use
one_login = login anna "key" "HS256" 900 604800 1000 5 ∷ []

refreshed_was_login_example :
    (who : Identity) × HasLogin who "key" one_login
    × ((minted anna 900 1200, "key", "HS256") ≡ mint_token plain_jwt who "key" "HS256" 900 1200)
unfolding refresh_access after rotate_tokens redeem mint_token
refreshed_was_login_example =
    refreshed_was_login plain_jwt numbered one_login "first" "key" "HS256" 900 1200 6
      (minted anna 900 1200, "key", "HS256") "later" refl

refresh_once_example :
    let s =
      (refresh_access plain_jwt numbered "first" "key" "HS256" 900 1200 6
        (after plain_jwt numbered one_login no_entries)).1 in
    (refresh_access plain_jwt numbered "first" "key" "HS256" 900 1201 7
      (after plain_jwt numbered one_login s)).0
    ≡ raised invalid_refresh_token
unfolding after rotate_tokens
refresh_once_example =
    refresh_once plain_jwt numbered one_login one_login "first" "key" "HS256" 900 1200 6 "key"
      "HS256" 900 1201 7 not_again
  where
    not_again : IsUndrawn plain_jwt numbered "first" (after plain_jwt numbered one_login no_entries)
    not_again zero h e = omega (arith, h)
    not_again (suc n) h e = ground (arith, eq_iff "later" "first")

-- A digest that has one digit for any body.
abbrev digest : Chars → List ℕ → Chars
digest secret raw = b'a' ∷ b'7' ∷ []

digest-IsHexdigest : IsHexdigest digest
digest-IsHexdigest = record { digits = λ secret raw. refl; some_digits = λ secret raw. refl }

abbrev key : Chars
key = b'k' ∷ []

signature_outcomes_example :
    let header = some (b' ' ∷ scheme ++ b'a' ∷ b'7' ∷ []) in
    let outcome = verify_webhook_signature digest (1 ∷ []) header key in
    let are_set = (is_empty key ≡ false) × (is_empty (or_blank header) ≡ false) in
    ((outcome ≡ some true) ↔ (are_set × (digest key (1 ∷ []) ≡ candidate_of (or_blank header))))
    × ((outcome ≡ none) ↔ (are_set × (is_ascii (candidate_of (or_blank header)) ≡ false)))
signature_outcomes_example =
    signature_outcomes digest digest-IsHexdigest (1 ∷ []) (some (b' ' ∷ scheme ++ b'a' ∷ b'7' ∷ []))
      key

-- A header with a letter beyond ASCII makes the check raise.
umlaut_raises : verify_webhook_signature digest (1 ∷ []) (some (252 ∷ [])) key ≡ none
unfolding verify_webhook_signature candidate_of without_scheme compare_digest
umlaut_raises = refl
