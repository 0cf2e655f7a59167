-- ===== src/Auth/Tokens.antt =====
-- `mint_token`, `rotate_tokens`, `refresh_access` and `verify_token` of agentkit/auth.py. The JWT
-- library and the random source are parameters; `wall` is `int(time.time())` and `now` the monotonic
-- clock, both in seconds.
pub mod Refresh
pub mod Once
pub mod Access
use agent_bakery.Prelude.{
  ◌*◌, ℕ, ◌+◌, ◌<◌, ◌≤◌, ◌≡◌, String, Bool, true, false, not, ◌&&◌, ◌||◌, Option, none, some, List,
  [], ◌∷◌, ltb, str_eq, suc, if◌then◌else◌,
}
use agent_bakery.Prelude.Exec.{Result, ok, raised, Exec, pure, raise, raise_if, ◌>>=◌, ◌>>◌}
use agent_bakery.Prelude.Dict.{Dict, lookup, insert, remove}

pub record Principal : Type 0 where
  pub sub : String
  pub tenant : String
  pub role : String
  pub name : Option String

unfoldable pub is_admin : Principal → Bool
is_admin p = str_eq p.role "admin" || str_eq p.role "manager"

-- The claims of a token; a claim that is missing is `none`.
pub record Claims : Type 0 where
  pub sub : Option String
  pub tenant : Option String
  pub role : Option String
  pub iat : Option ℕ
  pub exp : Option ℕ
  pub aud : Option String
  pub name : Option String

-- What `jwt.decode` does: it returns the claims, or raises `ExpiredSignatureError`, or another
-- `PyJWTError`.
pub data Decoded : Type 0 where
  valid : Claims → Decoded
  expired : Decoded
  malformed : Decoded

-- The detail of an `AuthError`.
pub data AuthError : Type 0 where
  not_configured : AuthError
  token_expired : AuthError
  invalid_token : AuthError
  missing_scope : AuthError
  invalid_refresh_token : AuthError
  refresh_token_expired : AuthError
  invalid_claims : AuthError

-- `if text:`
abbrev pub is_blank : Option String → Bool
is_blank none = true
is_blank (some text) = str_eq text ""

abbrev pub unless_blank : Option String → Option String
unless_blank none = none
unless_blank (some text) = if str_eq text "" then none else some text

abbrev pub is_among : String → List String → Bool
is_among x [] = false
is_among x (y ∷ ys) = str_eq x y || is_among x ys

abbrev pub is_missing {ℓ} : {A : Type ℓ} → Option A → Bool
is_missing none = true
is_missing (some a) = false

-- Whether the claims hold one that `jwt.decode` is told to require.
abbrev pub is_present : Claims → String → Bool
is_present c name =
    str_eq name "exp" && not (is_missing c.exp)
    || (str_eq name "sub" && not (is_missing c.sub) || str_eq name "aud" && not (is_missing c.aud))

abbrev pub all_present : Claims → List String → Bool
all_present c [] = true
all_present c (name ∷ names) = is_present c name && all_present c names

-- The JWT library: the algorithms it knows, and `encode` and `decode`, the latter at a time.
pub record Jwt (Token : Type 0) : Type 0 where
  pub supports : String → Bool
  pub encode : Claims → String → String → Token
  pub decode : ℕ → Token → String → List String → Option String → List String → Decoded

-- A token is not of the future, if it says when it was made.
abbrev pub IsBegun : Option ℕ → ℕ → Type 0
IsBegun none wall = Unit
IsBegun (some iat) wall = iat ≤ wall

-- What the library documents of a token with some claims that is decoded with the secret and an algorithm
-- that it was encoded with, and that holds the required claims: past its expiry it is refused as expired,
-- and before it is accepted, given the audience that is expected.
abbrev pub Decodes : {Token : Type 0} → Jwt Token → Claims → Type 0
Decodes jwt c =
    (exp wall : ℕ) (secret alg : String) (algs required : List String)
    → jwt.supports alg ≡ true
    → is_among alg algs ≡ true
    → all_present c required ≡ true
    → unless_blank c.aud ≡ c.aud
    → IsBegun c.iat wall
    → c.exp ≡ some exp
    → jwt.decode wall (jwt.encode c secret alg) secret algs c.aud required
      ≡ (if ltb wall exp then valid c else expired)

-- The library keeps that promise for all claims.
pub record IsJwt {Token : Type 0} (jwt : Jwt Token) : Type 0 where
  pub decode-encode : (c : Claims) → Decodes jwt c

-- The arguments that say who a token is for.
pub record Identity : Type 0 where
  pub sub : String
  pub tenant : String
  pub role : String
  pub audience : Option String
  pub name : Option String

-- `_REFRESH_STORE`, and how many refresh tokens were drawn.
pub record Entry : Type 0 where
  pub secret : String
  pub claims : Identity
  pub expires_at : ℕ

pub record Store : Type 0 where
  pub entries : Dict Entry
  pub draws : ℕ

abbrev pub required_claims : Option String → List String
required_claims none = "exp" ∷ "sub" ∷ []
required_claims (some audience) = "exp" ∷ "sub" ∷ "aud" ∷ []

abbrev pub or_empty : Option String → String
or_empty none = ""
or_empty (some text) = text

-- `claims` of `mint_token`
unfoldable pub minted : Identity → ℕ → ℕ → Claims
minted who ttl wall = record {
  sub = some who.sub;
  tenant = some who.tenant;
  role = some who.role;
  iat = some wall;
  exp = some (wall + ttl);
  aud = unless_blank who.audience;
  name = unless_blank who.name;
}

abbrev pub week : ℕ
week = 86400 * 7

module _ {Token : Type 0} (jwt : Jwt Token) where
  unfoldable pub mint_token : Identity → String → String → ℕ → ℕ → Token
  unfolding minted
  mint_token who secret alg ttl wall = jwt.encode (minted who ttl wall) secret alg

-- `random` is the stream of `secrets.token_hex(32)`.
module _ {Token : Type 0} (jwt : Jwt Token) (random : ℕ → String) where
  unfoldable pub rotate_tokens :
      Identity → String → String → ℕ → ℕ → ℕ → ℕ → Exec Store AuthError (Token × String)
  unfolding mint_token
  rotate_tokens who secret alg access_ttl refresh_ttl wall now s =
      let access = mint_token jwt who secret alg access_ttl wall in
      let refresh = random s.draws in
      let entry : Entry = record {
        secret = secret;
        claims = who;
        expires_at = now + refresh_ttl * 1000000;
      } in
      (
        ok (access, refresh),
        record { entries = insert refresh entry s.entries; draws = suc s.draws },
      )

  -- What follows the `pop`, given the entry.
  unfoldable pub redeem :
      Option Entry → String → String → ℕ → ℕ → ℕ → Exec Store AuthError (Token × String)
  unfolding rotate_tokens
  redeem none secret alg access_ttl wall now = raise invalid_refresh_token
  redeem (some entry) secret alg access_ttl wall now = do
    raise_if (not (str_eq secret entry.secret)) invalid_refresh_token
    raise_if (ltb entry.expires_at now) refresh_token_expired
    raise_if
        (str_eq entry.claims.sub ""
          || (str_eq entry.claims.tenant "" || str_eq entry.claims.role ""))
        invalid_claims
    rotate_tokens entry.claims secret alg access_ttl week wall now

  unfoldable pub refresh_access :
      String → String → String → ℕ → ℕ → ℕ → Exec Store AuthError (Token × String)
  unfolding redeem
  refresh_access refresh_token secret alg access_ttl wall now s =
      redeem (lookup refresh_token s.entries) secret alg access_ttl wall now
        (record s { entries = remove refresh_token s.entries })

-- What `verify_token` makes of the decoded claims. The library has checked that `sub` is there.
unfoldable pub principal_of : Decoded → Result AuthError Principal
principal_of expired = raised token_expired
principal_of malformed = raised invalid_token
principal_of (valid c) =
    if is_blank c.tenant || is_blank c.role
    then raised missing_scope
    else ok (record {
      sub = or_empty c.sub;
      tenant = or_empty c.tenant;
      role = or_empty c.role;
      name = c.name;
    })

unfoldable pub verify_token :
    {Token : Type 0}
    → Jwt Token
    → ℕ
    → Token
    → String
    → List String
    → Option String
    → Result AuthError Principal
unfolding principal_of
verify_token jwt wall token secret algs audience =
    if str_eq secret ""
    then raised not_configured
    else principal_of (jwt.decode wall token secret algs audience (required_claims audience))
