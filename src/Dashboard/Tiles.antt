-- ===== src/Dashboard/Tiles.antt =====
-- `HealthDTO` and `Aggregator.health` of dashboard/aggregator.py. Rates and costs are in millionths,
-- to which the agents round them.
pub mod Status
use agent_bakery.Prelude.{
  ℕ, String, Bool, true, false, not, ◌&&◌, ◌||◌, Option, none, some, List, [], ◌∷◌, ltb, str_eq,
  if◌then◌else◌,
}
use agent_bakery.Prelude.Dict.{Dict}
use agent_bakery.Dashboard.Upstream.{Http, Answer, payload, unavailable, get}

-- The part of an agent's registry entry that the tile shows.
pub record AgentSpec : Type 0 where
  pub slug : String
  pub title : String
  pub port : ℕ
  pub kind : String
  pub has_incidents : Bool
  pub has_findings : Bool
  pub has_runs : Bool
  pub has_pm : Bool

-- The payload of /metrics.json; a field that is missing or null is `none`.
pub record Metrics : Type 0 where
  pub uptime : Option ℕ
  pub error_rate_5m : Option ℕ
  pub requests_5m : Option ℕ
  pub llm_cost_usd_today : Option ℕ
  pub cost_by_model_today : Option (Dict ℕ)
  pub last_run : Option (Dict String)

abbrev pub no_metrics : Metrics
no_metrics = record {
  uptime = none;
  error_rate_5m = none;
  requests_5m = none;
  llm_cost_usd_today = none;
  cost_by_model_today = none;
  last_run = none;
}

-- The payload of /readyz: the truth value of `ready`, and the checks.
pub record Readiness : Type 0 where
  pub ready : Bool
  pub checks : Dict Bool

pub record HealthDto : Type 0 where
  pub spec : AgentSpec
  pub live : Bool
  pub ready : Option Bool
  pub checks : Dict Bool
  pub metrics : Metrics
  pub error : Option String

abbrev pub is_not_ready : Option Bool → Bool
is_not_ready none = false
is_not_ready (some ready) = not ready

-- `(error_rate_5m or 0.0) > 0.1`
abbrev pub is_failing : Option ℕ → Bool
is_failing none = false
is_failing (some rate) = ltb 100000 rate

unfoldable pub status : HealthDto → String
status dto =
    if str_eq dto.spec.kind "batch"
    then "grey"
    else if not dto.live
    then "red"
    else if is_not_ready dto.ready || is_failing dto.metrics.error_rate_5m
    then "amber"
    else "green"

abbrev pub blank : AgentSpec → HealthDto
blank spec = record {
  spec = spec;
  live = false;
  ready = none;
  checks = [];
  metrics = no_metrics;
  error = none;
}

-- `_apply_metrics`, where there are some.
abbrev pub apply_metrics : Answer Metrics → HealthDto → HealthDto
apply_metrics (payload metrics) dto = record dto { metrics = metrics }
apply_metrics (unavailable reason) dto = dto

abbrev pub apply_readiness : Answer Readiness → HealthDto → HealthDto
apply_readiness (payload readiness) dto = record dto {
  ready = some readiness.ready;
  checks = readiness.checks;
}
apply_readiness (unavailable reason) dto = record dto {
  ready = if str_eq reason "http 503" then some false else none;
}

-- An agent that is not a batch, given the answer to /healthz.
abbrev pub compose :
    {B : Type 0} → Answer B → Answer Readiness → Answer Metrics → HealthDto → HealthDto
compose (unavailable reason) readyz metrics dto = record dto { live = false; error = some reason }
compose (payload b) readyz metrics dto =
    apply_metrics metrics (apply_readiness readyz (record dto { live = true }))

-- `health`, given what the three requests return. A batch agent is asked for its metrics only.
unfoldable pub health :
    {B : Type 0} → AgentSpec → Http B → Http Readiness → Http Metrics → HealthDto
unfolding get
health spec healthz readyz metrics =
    if str_eq spec.kind "batch"
    then apply_metrics (get metrics) (blank spec)
    else compose (get healthz) (get readyz) (get metrics) (blank spec)
