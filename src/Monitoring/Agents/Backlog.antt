-- ===== src/Monitoring/Agents/Backlog.antt =====
-- `queue_to_signal` of monitoring_agent/collectors.py.
use agent_bakery.Prelude.{ℕ, String, Bool, true, Option, none, some, [], ◌∷◌, leb, if◌then◌else◌}
use agent_bakery.Prelude.Text.{f_string, show, show_opt}
use agent_bakery.Monitoring.Signal.{Signal, num, str}
use agent_bakery.Monitoring.Probe.{num_or_null}
use agent_bakery.Monitoring.Agents.Endpoint.{agent_health}

backlog_signal : String → ℕ → Option ℕ → ℕ → Signal
backlog_signal name depth prev_depth threshold = record {
  source = agent_health;
  fingerprint = f_string ("queue-backlog:" ∷ name ∷ []);
  title = f_string ("alert queue " ∷ name ∷ " backing up" ∷ []);
  body = f_string (
      "queue: "
      ∷ name
      ∷ "\nmessages_ready: "
      ∷ show depth
      ∷ " (threshold "
      ∷ show threshold
      ∷ ")\nprev_depth: "
      ∷ show_opt show prev_depth
      ∷ "\nlikely cause: alert consumer (bridge) down"
      ∷ []);
  suggested_severity = "critical";
  url = none;
  meta =
      ("kind", str "queue-backlog")
      ∷ ("queue", str name)
      ∷ ("depth", num depth)
      ∷ ("prev_depth", num_or_null prev_depth)
      ∷ [];
}

abbrev pub is_rising : Option ℕ → ℕ → Bool
is_rising none depth = true
is_rising (some prev) depth = leb prev depth

unfoldable pub queue_to_signal : String → ℕ → Option ℕ → ℕ → Option Signal
unfolding backlog_signal
queue_to_signal name depth prev_depth threshold =
    if leb depth threshold
    then none
    else if is_rising prev_depth depth
    then some (backlog_signal name depth prev_depth threshold)
    else none
