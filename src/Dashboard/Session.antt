-- ===== src/Dashboard/Session.antt =====
-- dashboard/auth.py: the session of a user of the dashboard, and the token by which the dashboard itself
-- calls the agents. Times are whole seconds: the source compares the clock with whole seconds only.
mod Tests
pub mod Upstream
use agent_bakery.Prelude.{
  ℕ, ◌+◌, Bool, true, false, not, Option, none, some, String, List, [], ◌∷◌, ◌++◌, ltb, str_eq,
  if◌then◌else◌,
}
use agent_bakery.Prelude.Exec.{Result, ok, raised}
use agent_bakery.Prelude.Chars.{Chars}
use agent_bakery.Prelude.Text.{codes}
use agent_bakery.Auth.Tokens.{
  Jwt, Claims, Principal, AuthError, is_admin, unless_blank, verify_token,
}

pub record Settings : Type 0 where
  pub jwt_secret : String
  pub jwt_algorithms : List String
  pub jwt_audience : Option String
  pub upstream_token_ttl_s : ℕ
  pub upstream_token_sub : String

-- A principal, an `AuthError`, or the 403 of one who is no admin.
pub data Session : Type 0 where
  granted : Principal → Session
  no_session : Session
  auth_error : AuthError → Session
  admin_required : Session

abbrev pub admin_only : Result AuthError Principal → Session
admin_only (raised e) = auth_error e
admin_only (ok p) = if not (is_admin p) then admin_required else granted p

unfoldable pub verify_admin_token : Jwt Chars → Settings → ℕ → Chars → Session
verify_admin_token jwt s wall token =
    admin_only (verify_token jwt wall token s.jwt_secret s.jwt_algorithms s.jwt_audience)

-- `_dep`, by the cookie of the session.
unfoldable pub require_session : Jwt Chars → Settings → ℕ → Option Chars → Session
require_session jwt s wall none = no_session
require_session jwt s wall (some []) = no_session
require_session jwt s wall (some (c ∷ token)) = verify_admin_token jwt s wall (c ∷ token)

-- `UpstreamToken`: the token that is kept, and its expiry.
pub record UpstreamToken : Type 0 where
  pub token : Option Chars
  pub exp : ℕ

abbrev pub no_token : UpstreamToken
no_token = record { token = none; exp = 0 }

-- The claims, by the expiry.
abbrev pub upstream_claims : Settings → ℕ → Claims
upstream_claims s exp = record {
  sub = some s.upstream_token_sub;
  tenant = some "platform";
  role = some "admin";
  iat = none;
  exp = some exp;
  aud = unless_blank s.jwt_audience;
  name = none;
}

abbrev pub mint_upstream : Jwt Chars → Settings → ℕ → Chars × UpstreamToken
mint_upstream jwt s exp =
    let token = jwt.encode (upstream_claims s exp) s.jwt_secret "HS256" in
    (token, record { token = some token; exp = exp })

abbrev pub kept_or_minted : Jwt Chars → Settings → ℕ → Option Chars → ℕ → Chars × UpstreamToken
kept_or_minted jwt s now none exp = mint_upstream jwt s (now + s.upstream_token_ttl_s)
kept_or_minted jwt s now (some token) exp =
    if ltb (now + 60) exp
    then (token, record { token = some token; exp = exp })
    else mint_upstream jwt s (now + s.upstream_token_ttl_s)

unfoldable pub get : Jwt Chars → Settings → ℕ → UpstreamToken → Chars × UpstreamToken
get jwt s now u = kept_or_minted jwt s now u.token u.exp

-- The value of the header, if there is one.
unfoldable pub auth_header : Jwt Chars → Settings → ℕ → UpstreamToken → Option Chars × UpstreamToken
auth_header jwt s now u =
    if str_eq s.jwt_secret ""
    then (none, u)
    else (let (token, u') = get jwt s now u in (some (codes "Bearer " ++ token), u'))
