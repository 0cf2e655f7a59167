-- ===== src/Service/Tests.antt =====
-- Runs of the models of the service parts of agentkit, and their theorems at concrete inputs.
use agent_bakery.Prelude.{
  ℕ, String, false, Option, none, some, ◌&&◌, ◌↔◌, ◌+◌, ◌-◌, ◌*◌, ◌≤◌, ◌≡◌, refl, true, List, [],
  ◌∷◌, arith, if◌then◌else◌,
}
use agent_bakery.Service.Metrics.{
  count, error_rate_5m, responded, unhandled, dispatch_begin, dispatch_end, incr,
}
use agent_bakery.Service.Metrics.Window.{Use, events, reading, recent, count-recent}
use agent_bakery.Service.Metrics.Window
use agent_bakery.Service.Metrics.Rate.{Event, came, ended}
use agent_bakery.Service.Metrics.Rate
use agent_bakery.Service.RateLimit.{one_token, allow_local, allow}
use agent_bakery.Service.RateLimit.Bursts.{Requests, after, granted, granted_bounded}
use agent_bakery.Prelude.Chars.{Chars, contains, same_text, lower, up_to, from_first}
use agent_bakery.Prelude.Text.{codes}
use agent_bakery.Auth.Tokens.{Jwt, Claims, valid, verify_token, is_admin}
use agent_bakery.Service.RedisBucket.Agreement.{redis_answers, local_answers, redis_answers-local}
use agent_bakery.Service.Boot.{
  Settings, gateway_host, egress_gate_passes, is_placeholder, boot, let_through, metrics_guard,
}
use agent_bakery.Service.Boot.Guarded.{IsAdminBearer, booted_is_guarded}
use agent_bakery.Service.Limits.{
  Limiters, client_ip, last_hop, limited, llm_dispatch, dispatch, is_llm,
}
use agent_bakery.Service.Limits.Address.{Arrival, proxied}
use agent_bakery.Service.Limits.Floods.{got_past, serve, floods_bounded}

abbrev uses : List Use
uses = events 2 700 ∷ reading 650 ∷ events 1 400 ∷ events 3 100 ∷ []

count-recent_example : (count 720 (Window.after 300 uses)).0 ≡ recent 300 720 uses
count-recent_example =
    count-recent 300 720 uses (omega arith, (omega arith, (omega arith, (omega arith, tt))))

counts_two : (count 720 (Window.after 300 uses)).0 ≡ 2
unfolding count Window.after incr
counts_two = refl

abbrev traffic_so_far : List Event
traffic_so_far = came "/jobs" 110 ∷ ended "/jobs" (responded 500) 90 ∷ came "/jobs" 80 ∷ []

abbrev traffic : List Event
traffic =
    ended "/jobs" unhandled 420
    ∷ ended "/healthz" (responded 503) 411
    ∷ came "/healthz" 410
    ∷ traffic_so_far

-- A failure of a request that came in longer ago than the window is not seen in the rate.
slow_failure_unseen : (error_rate_5m 430 430 (Rate.after 300 traffic)).0 ≡ (0, 1)
unfolding error_rate_5m Rate.after dispatch_begin dispatch_end
slow_failure_unseen = refl

abbrev busy : Requests
busy = ("a", 5000000) ∷ ("b", 4000000) ∷ ("a", 2000000) ∷ ("a", 1000000) ∷ ("a", 1000000) ∷ []

granted_bounded_example :
    granted 2 [] "a" busy * one_token ≤ 2 * one_token + (6000000 - 1000000) * 2
granted_bounded_example =
    granted_bounded 2 [] 1000000 6000000 "a" busy
      (omega arith, (omega arith, (omega arith, (omega arith, (omega arith, omega arith)))))

third_refused : granted 2 [] "a" busy ≡ 2
unfolding granted after allow_local
third_refused = refl

abbrev spread : List (String × ℕ)
spread = ("a", 1000000) ∷ ("a", 1000000) ∷ ("b", 4000000) ∷ ("a", 200000000) ∷ []

redis_answers-local_example : redis_answers 1 7000000 spread [] ≡ local_answers 1 spread []
redis_answers-local_example =
    redis_answers-local 1 7000000 spread
      (omega arith, (omega arith, (omega arith, (omega arith, tt))))

abbrev settings : Settings
settings = record {
  agent_name = "qa";
  env = "prod";
  postgres_host = "db";
  postgres_port = 5432;
  postgres_user = "qa";
  postgres_password = "";
  postgres_db = none;
  redis_host = "redis";
  redis_port = 6379;
  redis_password = "";
  redis_db = 0;
  llm_base_url = "https://gateway.internal:8443/v1";
  jwt_secret = "key";
  jwt_algorithms = "HS256" ∷ [];
  jwt_audience = none;
  otel_exporter_otlp_endpoint = "";
  private_mode = true;
  egress_boot_gate = true;
}

abbrev admin_claims : Claims
admin_claims = record {
  sub = some "ann";
  tenant = some "ops";
  role = some "admin";
  iat = some 1;
  exp = some 9;
  aud = none;
  name = none;
}

-- A library to which every token is an admin's.
abbrev open_jwt : Jwt Chars
open_jwt = record {
  supports = λ alg. true;
  encode = λ claims secret alg. [];
  decode = λ wall token secret algorithms audience required. valid admin_claims;
}

booted_is_guarded_example :
    ((metrics_guard open_jwt settings false 5 (codes "Bearer abc") ≡ let_through)
      ↔ IsAdminBearer open_jwt settings 5 (codes "Bearer abc"))
    × ((settings.private_mode
          && settings.egress_boot_gate
          && is_placeholder (gateway_host settings.llm_base_url))
        ≡ false)
unfolding boot egress_gate_passes gateway_host contains
booted_is_guarded_example = booted_is_guarded open_jwt settings 5 (codes "Bearer abc") refl refl

bearer_let_through : metrics_guard open_jwt settings false 5 (codes "Bearer abc") ≡ let_through
unfolding metrics_guard lower up_to from_first verify_token is_admin
bearer_let_through = refl

-- A stand-in for the parser of addresses, which knows one.
abbrev ip_address : Chars → Option String
ip_address s = if same_text s (codes "10.0.0.9") then some "10.0.0.9" else none

-- A client that claims another address each time.
abbrev arrival : String → ℕ → Arrival
arrival claim time = record {
  ip = "10.0.0.9";
  who = codes "10.0.0.9";
  own = some (codes claim);
  path = "/webhook/alert";
  time = time;
  proxy = some "172.17.0.2";
}

abbrev flood : List Arrival
flood = arrival "9.9.9.9" 3000000 ∷ arrival "8.8.8.8" 2000000 ∷ arrival "" 1000000 ∷ []

own_address : client_ip ip_address true (proxied (arrival "9.9.9.9" 3000000)) ≡ "10.0.0.9"
unfolding client_ip last_hop
own_address = refl

abbrev no_buckets : Limiters
no_buckets = record { llm = []; general = [] }

floods_bounded_example :
    got_past ip_address 2 no_buckets "10.0.0.9" flood * one_token
    ≤ 2 * one_token + (3000000 - 1000000) * 2
floods_bounded_example =
    floods_bounded ip_address 2 refl "10.0.0.9" no_buckets 1000000 3000000 flood (
      (refl, refl, refl, refl),
      omega arith,
      ((refl, refl, refl, refl), omega arith, ((refl, refl, refl, refl), omega arith, omega arith)),
    )

third_turned_away : got_past ip_address 2 no_buckets "10.0.0.9" flood ≡ 2
unfolding got_past serve limited llm_dispatch dispatch allow allow_local is_llm client_ip last_hop
third_turned_away = refl
