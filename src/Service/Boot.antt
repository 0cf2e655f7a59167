-- ===== src/Service/Boot.antt =====
-- What an agent checks before it starts and who may read its metrics: `BaseAgentSettings` of
-- agentkit/config.py, and `create_app` of agentkit/server.py with the guard of /metrics.json and the
-- readiness.
pub mod Guarded
use agent_bakery.Prelude.{
  ℕ, Bool, true, false, not, ◌&&◌, ◌||◌, Option, none, some, String, List, [], ◌∷◌, ◌++◌, map,
  str_eq, if◌then◌else◌,
}
use agent_bakery.Prelude.Exec.{Result, ok, raised}
use agent_bakery.Prelude.Dict.{Dict}
use agent_bakery.Prelude.Chars.{Chars, same_text, lower, contains, up_to, remove_from, from_first}
use agent_bakery.Prelude.Text.{codes, f_string, show, or_text}
use agent_bakery.Auth.Tokens.{Jwt, Principal, AuthError, is_admin, verify_token}

pub record Settings : Type 0 where
  pub agent_name : String
  pub env : String
  pub postgres_host : String
  pub postgres_port : ℕ
  pub postgres_user : String
  pub postgres_password : String
  pub postgres_db : Option String
  pub redis_host : String
  pub redis_port : ℕ
  pub redis_password : String
  pub redis_db : ℕ
  pub llm_base_url : String
  pub jwt_secret : String
  pub jwt_algorithms : List String
  pub jwt_audience : Option String
  pub otel_exporter_otlp_endpoint : String
  pub private_mode : Bool
  pub egress_boot_gate : Bool

abbrev pub effective_otel_enabled : Settings → Bool
effective_otel_enabled s = not (str_eq s.otel_exporter_otlp_endpoint "") && not s.private_mode

-- `self.postgres_db or self.agent_name`
abbrev pub database_name : Settings → String
database_name s = or_text s.postgres_db s.agent_name

abbrev pub password_part : String → String → String → String
password_part before password after =
    if str_eq password "" then "" else f_string (before ∷ password ∷ after ∷ [])

unfoldable pub database_url : Settings → String
unfolding f_string show
database_url s = f_string (
    "postgresql://"
    ∷ s.postgres_user
    ∷ password_part ":" s.postgres_password ""
    ∷ "@"
    ∷ s.postgres_host
    ∷ ":"
    ∷ show s.postgres_port
    ∷ "/"
    ∷ database_name s
    ∷ [])

unfoldable pub redis_url : Settings → String
unfolding f_string show
redis_url s = f_string (
    "redis://"
    ∷ password_part ":" s.redis_password "@"
    ∷ s.redis_host
    ∷ ":"
    ∷ show s.redis_port
    ∷ "/"
    ∷ show s.redis_db
    ∷ [])

-- The host of the gateway, as the boot gate cuts it out of the URL.
unfoldable pub gateway_host : String → Chars
unfolding remove_from up_to
gateway_host url =
    up_to b':'
      (up_to b'/' (remove_from (codes "http://") 0 (remove_from (codes "https://") 0 (codes url))))

abbrev pub placeholder_patterns : List String
placeholder_patterns = "example.com" ∷ "your-gateway" ∷ "localhost" ∷ "127.0.0.1" ∷ "0.0.0.0" ∷ []

abbrev pub contains_any : List String → Chars → Bool
contains_any [] host = false
contains_any (p ∷ ps) host = contains (codes p) host || contains_any ps host

abbrev pub is_placeholder : Chars → Bool
is_placeholder [] = true
is_placeholder (c ∷ s) = contains_any placeholder_patterns (c ∷ s)

-- Whether `validate_egress_boot_gate` returns; it raises a RuntimeError where it does not.
unfoldable pub egress_gate_passes : Settings → Bool
egress_gate_passes s =
    if not s.private_mode || not s.egress_boot_gate
    then true
    else if str_eq s.env "dev"
    then true
    else not (is_placeholder (gateway_host s.llm_base_url))

pub data BootError : Type 0 where
  jwt_secret_missing : BootError
  gateway_placeholder : BootError

-- The checks of `create_app`, by its argument `metrics_public`.
unfoldable pub boot : Settings → Bool → Result BootError (Unit {0})
boot s metrics_public =
    if not (str_eq s.env "dev") && (str_eq s.jwt_secret "" && not metrics_public)
    then raised jwt_secret_missing
    else if not (egress_gate_passes s)
    then raised gateway_placeholder
    else ok tt

-- What the guard of /metrics.json makes of a request: it lets it through, raises an `AuthError`, which
-- answers 401, or answers 403.
pub data Guard : Type 0 where
  let_through : Guard
  missing_bearer : Guard
  unauthorized : AuthError → Guard
  not_admin : Guard

-- "bearer"
abbrev pub bearer : Chars
bearer = codes "bearer"

-- What stands after the first space, if there is one.
abbrev pub after_space : Option Chars → Chars
after_space none = []
after_space (some []) = []
after_space (some (c ∷ s)) = s

abbrev pub guard_principal : Result AuthError Principal → Guard
guard_principal (raised e) = unauthorized e
guard_principal (ok p) = if is_admin p then let_through else not_admin

abbrev pub guard_token : Chars → Result AuthError Principal → Guard
guard_token [] verified = missing_bearer
guard_token (c ∷ token) verified = guard_principal verified

-- `jwt` reads tokens as they stand in the header.
unfoldable pub metrics_guard : Jwt Chars → Settings → Bool → ℕ → Chars → Guard
unfolding lower up_to from_first
metrics_guard jwt s metrics_public wall authorization =
    if metrics_public || str_eq s.jwt_secret ""
    then let_through
    else if not (same_text (map lower (up_to b' ' authorization)) bearer)
    then missing_bearer
    else (let token = after_space (from_first b' ' authorization) in
        guard_token token
          (verify_token jwt wall token s.jwt_secret s.jwt_algorithms s.jwt_audience))

abbrev pub all_true : Dict Bool → Bool
all_true [] = true
all_true ((name, up) ∷ checks) = up && all_true checks

pub record Readyz : Type 0 where
  pub status_code : ℕ
  pub ready : Bool
  pub checks : Dict Bool
  pub draining : Bool

-- `readyz`, by whether the agent still accepts requests and by what `db.ping` returns.
unfoldable pub readyz : Bool → Dict Bool → Readyz
readyz false checks = record { status_code = 503; ready = false; checks = []; draining = true }
readyz true checks = record {
  status_code = if all_true checks then 200 else 503;
  ready = all_true checks;
  checks = checks;
  draining = false;
}
