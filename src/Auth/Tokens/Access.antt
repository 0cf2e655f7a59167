-- ===== src/Auth/Tokens/Access.antt =====
-- The round trip of an access token of agentkit/auth.py.
use agent_bakery.Prelude.{
  ℕ, ◌+◌, ◌≤◌, String, ◌≡◌, ◌≢◌, refl, true, Option, none, some, List, arith, ltb, eq_iff,
  if◌then◌else◌,
}
use agent_bakery.Prelude.Exec.{ok, raised}
use agent_bakery.Auth.Tokens.{
  Jwt, IsJwt, Identity, token_expired, unless_blank, is_among, required_claims, all_present, minted,
  mint_token, principal_of, verify_token,
}

unless_blank_twice : (o : Option String) → unless_blank (unless_blank o) ≡ unless_blank o
unless_blank_twice none = refl
unless_blank_twice (some text) = ground arith

required_present :
    (who : Identity) (ttl wall : ℕ)
    → all_present (minted who ttl wall) (required_claims (minted who ttl wall).aud) ≡ true
unfolding minted
required_present who ttl wall = of (unless_blank who.audience)
  where
    of :
        (o : Option String)
        → all_present (record (minted who ttl wall) { aud = o }) (required_claims o) ≡ true
    of none = refl
    of (some audience) = refl

-- A token minted for someone with a tenant and a role is verified, with the secret, the algorithm and
-- the audience that it was minted with, as that person, from the time it was minted until its time to
-- live is over, and is refused as expired from then on.
pub verify-mint :
    {Token : Type 0} (jwt : Jwt Token) (law : IsJwt jwt) (who : Identity) (secret alg : String)
    (algs : List String) (ttl wall later : ℕ)
    → secret ≢ ""
    → who.tenant ≢ ""
    → who.role ≢ ""
    → jwt.supports alg ≡ true
    → is_among alg algs ≡ true
    → wall ≤ later
    → verify_token jwt later
        (mint_token jwt who secret alg ttl wall)
        secret
        algs
        (unless_blank who.audience)
      ≡ (if ltb later (wall + ttl)
          then ok (record {
            sub = who.sub;
            tenant = who.tenant;
            role = who.role;
            name = unless_blank who.name;
          })
          else raised token_expired)
unfolding verify_token mint_token minted principal_of
verify-mint jwt law who secret alg algs ttl wall later configured tenant role known among began =
    let decoded =
      law.decode-encode (minted who ttl wall) (wall + ttl) later secret alg algs
        (required_claims (minted who ttl wall).aud) known among (required_present who ttl wall)
        (unless_blank_twice who.audience) began refl in
    rw decoded (ground (arith, eq_iff secret "", eq_iff who.tenant "", eq_iff who.role ""))
