-- ===== src/Dashboard/Session/Tests.antt =====
-- Runs of the model of dashboard/auth.py, and its theorem at concrete inputs.
use agent_bakery.Prelude.{ℕ, ◌≡◌, refl, true, false, some, none, [], ◌∷◌, ltb, if◌then◌else◌, arith}
use agent_bakery.Prelude.Chars.{Chars}
use agent_bakery.Auth.Tokens.{Jwt, Claims, Decodes, Decoded, valid, expired, malformed}
use agent_bakery.Service.Boot
use agent_bakery.Service.Boot.{let_through, metrics_guard}
use agent_bakery.Dashboard.Session
use agent_bakery.Dashboard.Session.{
  upstream_claims, verify_admin_token, require_session, granted, no_session, admin_required, get,
  auth_header,
}
use agent_bakery.Dashboard.Session.Upstream.{after, own_token_admitted}

abbrev settings : Session.Settings
settings = record {
  jwt_secret = "key";
  jwt_algorithms = "HS256" ∷ [];
  jwt_audience = none;
  upstream_token_ttl_s = 3600;
  upstream_token_sub = "dashboard";
}

-- A stand-in for the library, which writes the expiry only.
abbrev written : Claims → Chars
written c = elim c.exp [ none ↦ 0 ∷ [] | some exp ↦ exp ∷ [] ]

abbrev read : ℕ → Chars → Decoded
read wall [] = malformed
read wall (exp ∷ s) = if ltb wall exp then valid (upstream_claims settings exp) else expired

abbrev own_jwt : Jwt Chars
own_jwt = record {
  supports = λ alg. true;
  encode = λ c secret alg. written c;
  decode = λ wall token secret algs aud required. read wall token;
}

own_jwt-Decodes : (exp : ℕ) → Decodes own_jwt (upstream_claims settings exp)
own_jwt-Decodes exp e wall secret alg algs required known among present named begun same =
    ground arith

abbrev agent : Boot.Settings
agent = record {
  agent_name = "qa";
  env = "prod";
  postgres_host = "db";
  postgres_port = 5432;
  postgres_user = "qa";
  postgres_password = "";
  postgres_db = none;
  redis_host = "redis";
  redis_port = 6379;
  redis_password = "";
  redis_db = 0;
  llm_base_url = "https://gateway.internal/v1";
  jwt_secret = "key";
  jwt_algorithms = "RS256" ∷ "HS256" ∷ [];
  jwt_audience = none;
  otel_exporter_otlp_endpoint = "";
  private_mode = false;
  egress_boot_gate = true;
}

own_token_admitted_example :
    (header : Chars) × ((auth_header own_jwt settings 4500 (after own_jwt settings (1000 ∷ []))).0
      ≡ some header)
    × (metrics_guard own_jwt agent false 4550 header ≡ let_through)
own_token_admitted_example =
    own_token_admitted own_jwt settings own_jwt-Decodes agent refl refl refl refl refl refl
      (λ exp. refl) false (1000 ∷ []) 4500 4550 (omega arith) (omega arith)

-- The token of an hour ago is still good for a minute and is kept; later another one is made.
kept_for_a_while :
    (auth_header own_jwt settings 4500 (after own_jwt settings (1000 ∷ []))).0
    ≡ some (b'B' ∷ b'e' ∷ b'a' ∷ b'r' ∷ b'e' ∷ b'r' ∷ b' ' ∷ 4600 ∷ [])
unfolding auth_header after get
kept_for_a_while = refl

made_anew :
    (auth_header own_jwt settings 4540 (after own_jwt settings (1000 ∷ []))).0
    ≡ some (b'B' ∷ b'e' ∷ b'a' ∷ b'r' ∷ b'e' ∷ b'r' ∷ b' ' ∷ 8140 ∷ [])
unfolding auth_header after get
made_anew = refl

no_cookie : require_session own_jwt settings 1000 none ≡ no_session
unfolding require_session
no_cookie = refl
