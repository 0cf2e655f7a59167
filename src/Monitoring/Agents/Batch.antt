-- ===== src/Monitoring/Agents/Batch.antt =====
-- `heartbeat_to_signal` of monitoring_agent/collectors.py.
pub mod Freshness
use agent_bakery.Prelude.{
  str_eq, ℕ, ◌+◌, ◌-◌, ◌*◌, String, Bool, true, false, ◌||◌, ◌&&◌, Option, none, some, [], ◌∷◌, ltb,
  if◌then◌else◌,
}
use agent_bakery.Prelude.Text.{f_string, show, or_text}
use agent_bakery.Monitoring.Signal.{Signal, num, str}
use agent_bakery.Monitoring.Agents.Endpoint.{agent_health}

pub record HeartbeatState : Type 0 where
  pub agent : String
  pub last_finished : Option ℕ
  pub last_status : Option String
  pub expected_interval : ℕ

-- `lower` is `str.lower`, `isoformat` the time's text; the grace of a float is a fraction.
pub record Formats : Type 0 where
  pub lower : String → String
  pub isoformat : ℕ → String
  pub grace : String
  pub grace_num : ℕ
  pub grace_den : ℕ

never_signal : HeartbeatState → Signal
never_signal h = record {
  source = agent_health;
  fingerprint = f_string ("batch-overdue:" ∷ h.agent ∷ []);
  title = f_string ("batch " ∷ h.agent ∷ " has never reported a run" ∷ []);
  body = f_string (
      "agent: "
      ∷ h.agent
      ∷ "\nexpected_interval_s: "
      ∷ show h.expected_interval
      ∷ "\nlast_finished: never"
      ∷ []);
  suggested_severity = "warning";
  url = none;
  meta = ("kind", str "batch-overdue") ∷ ("agent", str h.agent) ∷ [];
}

failed_signal : Formats → HeartbeatState → ℕ → String → Signal
failed_signal formats h finished status = record {
  source = agent_health;
  fingerprint = f_string ("batch-failed:" ∷ h.agent ∷ []);
  title = f_string ("batch " ∷ h.agent ∷ " last run " ∷ status ∷ []);
  body = f_string (
      "agent: "
      ∷ h.agent
      ∷ "\nlast_status: "
      ∷ status
      ∷ "\nlast_finished: "
      ∷ formats.isoformat finished
      ∷ []);
  suggested_severity = if str_eq status "failed" then "critical" else "warning";
  url = none;
  meta = ("kind", str "batch-failed") ∷ ("agent", str h.agent) ∷ ("status", str status) ∷ [];
}

overdue_signal : Formats → HeartbeatState → ℕ → ℕ → Signal
overdue_signal formats h finished age = record {
  source = agent_health;
  fingerprint = f_string ("batch-overdue:" ∷ h.agent ∷ []);
  title = f_string ("batch " ∷ h.agent ∷ " run overdue" ∷ []);
  body = f_string (
      "agent: "
      ∷ h.agent
      ∷ "\nlast_finished: "
      ∷ formats.isoformat finished
      ∷ "\nage_s: "
      ∷ show age
      ∷ " (interval "
      ∷ show h.expected_interval
      ∷ "s x "
      ∷ formats.grace
      ∷ ")"
      ∷ []);
  suggested_severity = if ltb (h.expected_interval * 3) age then "critical" else "warning";
  url = none;
  meta = ("kind", str "batch-overdue") ∷ ("agent", str h.agent) ∷ ("age_s", num age) ∷ [];
}

abbrev pub is_bad : String → Bool
is_bad status = str_eq status "failed" || str_eq status "partial"

-- A run that finished, at a time in seconds.
finished_to_signal : Formats → HeartbeatState → ℕ → ℕ → Option Signal
unfolding failed_signal overdue_signal
finished_to_signal formats h finished now =
    let status = formats.lower (or_text h.last_status "") in
    if is_bad status
    then some (failed_signal formats h finished status)
    else if ltb 0 h.expected_interval
        && ltb (h.expected_interval * formats.grace_num) ((now - finished) * formats.grace_den)
    then some (overdue_signal formats h finished (now - finished))
    else none

unfoldable pub heartbeat_to_signal : Formats → HeartbeatState → ℕ → Option Signal
unfolding never_signal finished_to_signal
heartbeat_to_signal formats h now = elim h.last_finished [
  | none ↦ if ltb 0 h.expected_interval then some (never_signal h) else none
  | some finished ↦ finished_to_signal formats h finished now
]
