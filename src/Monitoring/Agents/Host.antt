-- ===== src/Monitoring/Agents/Host.antt =====
-- `host_vitals_to_signals` of monitoring_agent/collectors.py. `meminfo` is in kB.
pub mod Pressure
use agent_bakery.Prelude.{
  ℕ, ◌-◌, ◌/◌, String, Bool, true, false, Option, none, some, List, [], ◌∷◌, ◌++◌, ltb, ◌==◌,
  if◌then◌else◌,
}
use agent_bakery.Prelude.Dict.{Dict, lookup}
use agent_bakery.Prelude.Text.{f_string, show}
use agent_bakery.Monitoring.Signal.{Signal, num, str}
use agent_bakery.Monitoring.Agents.Endpoint.{agent_health}

mem_signal : ℕ → ℕ → Signal
mem_signal avail_mb warn = record {
  source = agent_health;
  fingerprint = "host-mem-low";
  title = f_string ("host RAM low: " ∷ show avail_mb ∷ " MiB available" ∷ []);
  body = f_string ("MemAvailable: " ∷ show avail_mb ∷ " MiB (warn < " ∷ show warn ∷ " MiB)" ∷ []);
  suggested_severity = if ltb avail_mb (warn / 2) then "critical" else "warning";
  url = none;
  meta = ("kind", str "host-mem-low") ∷ ("available_mb", num avail_mb) ∷ [];
}

swap_signal : ℕ → ℕ → Signal
swap_signal used_mb warn = record {
  source = agent_health;
  fingerprint = "host-swap-pressure";
  title = f_string ("host swapping: " ∷ show used_mb ∷ " MiB in use" ∷ []);
  body = f_string ("swap_used: " ∷ show used_mb ∷ " MiB (warn > " ∷ show warn ∷ " MiB)" ∷ []);
  suggested_severity = "warning";
  url = none;
  meta = ("kind", str "host-swap-pressure") ∷ ("swap_used_mb", num used_mb) ∷ [];
}

mem_signals : Option ℕ → ℕ → List Signal
unfolding mem_signal
mem_signals none warn = []
mem_signals (some avail_kb) warn =
    if ltb (avail_kb / 1024) warn then mem_signal (avail_kb / 1024) warn ∷ [] else []

abbrev pub or_nothing : Option ℕ → ℕ
or_nothing none = 0
or_nothing (some n) = n

-- A total below the free figure gives 0 here and a negative number in the source, and no signal in
-- both.
abbrev pub swap_used : Dict ℕ → ℕ
swap_used meminfo =
    let total = or_nothing (lookup "SwapTotal" meminfo) in
    if total == 0 then 0 else (total - or_nothing (lookup "SwapFree" meminfo)) / 1024

unfoldable pub host_vitals_to_signals : Dict ℕ → ℕ → ℕ → List Signal
unfolding mem_signals swap_signal
host_vitals_to_signals meminfo mem_avail_warn swap_used_warn =
    mem_signals (lookup "MemAvailable" meminfo) mem_avail_warn
    ++ (if ltb swap_used_warn (swap_used meminfo)
        then swap_signal (swap_used meminfo) swap_used_warn ∷ []
        else [])
