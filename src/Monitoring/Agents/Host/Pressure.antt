-- ===== src/Monitoring/Agents/Host/Pressure.antt =====
-- When `host_vitals_to_signals` of monitoring_agent/collectors.py reports the host.
use agent_bakery.Prelude.{leb, ltb, if◌then◌else◌, ℕ, ◌*◌, ◌/◌, ◌≤◌, ◌≡◌, some, [], ◌∷◌, arith}
use agent_bakery.Prelude.Dict.{Dict, lookup}
use agent_bakery.Monitoring.Agents.Container.Conditions.{labels}
use agent_bakery.Monitoring.Agents.Host.{host_vitals_to_signals, swap_used}

-- Low memory, read from MemAvailable in kB against a limit in MiB, while the swap in use is within its
-- limit: nothing from the limit on, critical below half of it, both as whole MiB, and a warning in
-- between.
pub memory_pressure :
    (meminfo : Dict ℕ) (avail warn swap_warn : ℕ)
    → lookup "MemAvailable" meminfo ≡ some avail
    → swap_used meminfo ≤ swap_warn
    → labels (host_vitals_to_signals meminfo warn swap_warn) ≡ (
        if leb (warn * 1024) avail
        then []
        else ("host-mem-low", if ltb avail (warn / 2 * 1024) then "critical" else "warning") ∷ [])
unfolding host_vitals_to_signals
memory_pressure meminfo avail warn swap_warn e s = rw (e, host_vitals_to_signals) (ground arith)
