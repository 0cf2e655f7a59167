-- ===== src/Monitoring/Agents/Endpoint.antt =====
-- `endpoint_to_signals` of monitoring_agent/collectors.py.
use agent_bakery.Prelude.{
  ℕ, String, Bool, true, false, Option, none, some, List, [], ◌∷◌, map, leb, if◌then◌else◌,
}
use agent_bakery.Prelude.Text.{f_string, show, show_real, show_opt, same}
use agent_bakery.Monitoring.Signal.{Signal, null, num, real, str}
use agent_bakery.Monitoring.Probe.{exceeds}

abbrev pub agent_health : String
agent_health = "agent_health"

pub record AgentEndpointResult : Type 0 where
  pub agent : String
  pub base_url : String
  pub healthz_ok : Bool
  pub ready : Option Bool
  pub failed_checks : List String
  pub latency : Option ℕ
  pub error : Option String

unfoldable pub down_signal : AgentEndpointResult → ℕ → Signal
down_signal r fail_streak = record {
  source = agent_health;
  fingerprint = f_string ("agent-down:" ∷ r.agent ∷ []);
  title = f_string ("agent " ∷ r.agent ∷ " is DOWN" ∷ []);
  body = f_string (
      "agent: "
      ∷ r.agent
      ∷ "\nurl: "
      ∷ r.base_url
      ∷ "\nerror: "
      ∷ show_opt same r.error
      ∷ "\nfail_streak: "
      ∷ show fail_streak
      ∷ []);
  suggested_severity = "critical";
  url = some r.base_url;
  meta =
      ("kind", str "agent-down") ∷ ("agent", str r.agent) ∷ ("fail_streak", num fail_streak) ∷ [];
}

unfoldable pub notready_signal : AgentEndpointResult → ℕ → String → Signal
notready_signal r fail_streak check = record {
  source = agent_health;
  fingerprint = f_string ("agent-notready:" ∷ r.agent ∷ ":" ∷ check ∷ []);
  title = f_string ("agent " ∷ r.agent ∷ " not ready (" ∷ check ∷ ")" ∷ []);
  body = f_string (
      "agent: "
      ∷ r.agent
      ∷ "\nurl: "
      ∷ r.base_url
      ∷ "\nfailed_check: "
      ∷ check
      ∷ "\nfail_streak: "
      ∷ show fail_streak
      ∷ []);
  suggested_severity = "warning";
  url = some r.base_url;
  meta =
      ("kind", str "agent-notready")
      ∷ ("agent", str r.agent)
      ∷ ("failed_check", str check)
      ∷ ("fail_streak", num fail_streak)
      ∷ [];
}

unfoldable pub slow_signal : AgentEndpointResult → ℕ → Signal
slow_signal r threshold = record {
  source = agent_health;
  fingerprint = f_string ("agent-slow:" ∷ r.agent ∷ []);
  title = f_string ("agent " ∷ r.agent ∷ " is SLOW" ∷ []);
  body = f_string (
      "agent: "
      ∷ r.agent
      ∷ "\nurl: "
      ∷ r.base_url
      ∷ "\nlatency: "
      ∷ show_opt show_real r.latency
      ∷ "s (threshold "
      ∷ show_real threshold
      ∷ "s)"
      ∷ []);
  suggested_severity = "warning";
  url = some r.base_url;
  meta =
      ("kind", str "agent-slow")
      ∷ ("agent", str r.agent)
      ∷ ("latency_seconds", elim r.latency [ none ↦ null | some t ↦ real t ])
      ∷ [];
}

-- `r.failed_checks or ["unknown"]`
abbrev pub or_unknown : List String → List String
or_unknown [] = "unknown" ∷ []
or_unknown (c ∷ cs) = c ∷ cs

-- `r.ready is False`
abbrev pub is_false : Option Bool → Bool
is_false (some false) = true
is_false _ = false

unfoldable pub endpoint_to_signals : AgentEndpointResult → ℕ → ℕ → ℕ → List Signal
unfolding down_signal notready_signal slow_signal
endpoint_to_signals r slow_threshold fail_streak fail_streak_to_alert =
    if r.healthz_ok
    then if is_false r.ready
      then map (notready_signal r fail_streak) (or_unknown r.failed_checks)
      else if exceeds r.latency slow_threshold
      then slow_signal r slow_threshold ∷ []
      else []
    else if leb fail_streak_to_alert fail_streak
    then down_signal r fail_streak ∷ []
    else []
