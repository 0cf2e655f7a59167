-- ===== src/Monitoring/Agents/Container.antt =====
-- `container_to_signals` of monitoring_agent/collectors.py.
pub mod Conditions
use agent_bakery.Prelude.{
  str_eq, ℕ, ◌+◌, ◌-◌, String, Bool, true, false, ◌||◌, Option, none, some, List, [], ◌∷◌, ◌++◌,
  leb, if◌then◌else◌,
}
use agent_bakery.Prelude.Text.{f_string, show, show_opt}
use agent_bakery.Monitoring.Signal.{Signal, num, str}
use agent_bakery.Monitoring.Agents.Endpoint.{agent_health}

pub record ContainerState : Type 0 where
  pub name : String
  pub status : String
  pub oom_killed : Bool
  pub restart_count : ℕ
  pub health : Option String
  pub exit_code : Option ℕ

oom_signal : ContainerState → Signal
oom_signal cur = record {
  source = agent_health;
  fingerprint = f_string ("container-oom:" ∷ cur.name ∷ []);
  title = f_string ("container " ∷ cur.name ∷ " OOMKilled" ∷ []);
  body =
      f_string ("container: " ∷ cur.name ∷ "\nstatus: " ∷ cur.status ∷ "\noom_killed: true" ∷ []);
  suggested_severity = "critical";
  url = none;
  meta = ("kind", str "container-oom") ∷ ("container", str cur.name) ∷ [];
}

crashloop_signal : ContainerState → ℕ → ℕ → Signal
crashloop_signal cur delta threshold = record {
  source = agent_health;
  fingerprint = f_string ("container-crashloop:" ∷ cur.name ∷ []);
  title = f_string ("container " ∷ cur.name ∷ " crash-looping" ∷ []);
  body = f_string (
      "container: "
      ∷ cur.name
      ∷ "\nrestart_count: "
      ∷ show cur.restart_count
      ∷ "\ndelta_since_last_sweep: "
      ∷ show delta
      ∷ " (threshold "
      ∷ show threshold
      ∷ ")"
      ∷ []);
  suggested_severity = "critical";
  url = none;
  meta =
      ("kind", str "container-crashloop")
      ∷ ("container", str cur.name)
      ∷ ("restart_delta", num delta)
      ∷ [];
}

down_signal : ContainerState → Signal
down_signal cur = record {
  source = agent_health;
  fingerprint = f_string ("container-down:" ∷ cur.name ∷ []);
  title = f_string ("container " ∷ cur.name ∷ " is " ∷ cur.status ∷ []);
  body = f_string (
      "container: "
      ∷ cur.name
      ∷ "\nstatus: "
      ∷ cur.status
      ∷ "\nexit_code: "
      ∷ show_opt show cur.exit_code
      ∷ []);
  suggested_severity = "critical";
  url = none;
  meta =
      ("kind", str "container-down")
      ∷ ("container", str cur.name)
      ∷ ("status", str cur.status)
      ∷ [];
}

unhealthy_signal : ContainerState → Signal
unhealthy_signal cur = record {
  source = agent_health;
  fingerprint = f_string ("container-unhealthy:" ∷ cur.name ∷ []);
  title = f_string ("container " ∷ cur.name ∷ " unhealthy" ∷ []);
  body =
      f_string ("container: " ∷ cur.name ∷ "\nstatus: " ∷ cur.status ∷ "\nhealth: unhealthy" ∷ []);
  suggested_severity = "warning";
  url = none;
  meta = ("kind", str "container-unhealthy") ∷ ("container", str cur.name) ∷ [];
}

abbrev pub is_gone : String → Bool
is_gone status = str_eq status "exited" || (str_eq status "dead" || str_eq status "missing")

abbrev pub is_unhealthy : Option String → Bool
is_unhealthy none = false
is_unhealthy (some health) = str_eq health "unhealthy"

-- `cur.restart_count - prev >= threshold`, for a threshold that is not negative.
abbrev pub is_looping : Option ℕ → ℕ → ℕ → Bool
is_looping none count threshold = false
is_looping (some prev) count threshold = leb (prev + threshold) count

abbrev pub delta_from : Option ℕ → ℕ → ℕ
delta_from none count = 0
delta_from (some prev) count = count - prev

unfoldable pub container_to_signals : Option ℕ → ContainerState → ℕ → List Signal
unfolding oom_signal crashloop_signal down_signal unhealthy_signal
container_to_signals prev_restart cur threshold =
    (if cur.oom_killed then oom_signal cur ∷ [] else [])
    ++ ((if is_looping prev_restart cur.restart_count threshold
          then crashloop_signal cur (delta_from prev_restart cur.restart_count) threshold ∷ []
          else [])
        ++ (if is_gone cur.status
            then down_signal cur ∷ []
            else if is_unhealthy cur.health
            then unhealthy_signal cur ∷ []
            else []))
