-- ===== src/Monitoring/Sweep.antt =====
-- The sweeps of monitoring_agent/scheduler.py and `sweep` of monitoring_agent/collectors.py, from what
-- the probes returned. `none` is a collector that raised.
pub mod Sources
use agent_bakery.Prelude.{
  ℕ, suc, ◌+◌, String, Bool, true, false, Option, none, some, List, [], ◌∷◌, ◌++◌, length,
  if◌then◌else◌,
}
use mathlib.Core.Option
use agent_bakery.Prelude.Int.{ℤ}
use agent_bakery.Prelude.Dict.{Dict}
use agent_bakery.Prelude.Text.{f_string}
use agent_bakery.Monitoring.Signal.{Signal}
use agent_bakery.Monitoring.Probe.{ProbeResult, probe_to_signal}
use agent_bakery.Monitoring.Agents.Endpoint.{AgentEndpointResult, endpoint_to_signals}
use agent_bakery.Monitoring.Agents.Container.{ContainerState, container_to_signals}
use agent_bakery.Monitoring.Agents.Batch.{HeartbeatState, Formats, heartbeat_to_signal}
use agent_bakery.Monitoring.Agents.Backlog.{queue_to_signal}
use agent_bakery.Monitoring.Agents.Host.{host_vitals_to_signals}
use agent_bakery.Monitoring.ProbeState.{Table, record_endpoint, record_restart, record_depth}
use agent_bakery.Monitoring.Incidents.{Incidents}
use agent_bakery.Monitoring.Triage.{Deps, triage}

-- `if sig is not None: signals.append(sig)`
abbrev pub append_some : Option Signal → List Signal → List Signal
append_some none rest = rest
append_some (some sig) rest = sig ∷ rest

-- The signals of a public sweep, in the order of the targets.
unfoldable pub sweep : (String → Option String) → ℕ → ℤ → List ProbeResult → List Signal
sweep hostname slow warn [] = []
sweep hostname slow warn (res ∷ rest) =
    append_some (probe_to_signal hostname res slow warn) (sweep hostname slow warn rest)

pub record MetaSettings : Type 0 where
  pub slow_threshold : ℕ
  pub fail_streak_to_alert : ℕ
  pub restart_loop_threshold : ℕ
  pub queue_depth_threshold : ℕ
  pub host_mem_avail_warn : ℕ
  pub host_swap_used_warn : ℕ
  pub formats : Formats

-- What the collectors of one meta sweep returned. The batch runs are an empty list where they are off.
pub record Collected : Type 0 where
  pub endpoints : List (String × Option AgentEndpointResult)
  pub containers : Option (List ContainerState)
  pub depths : Option (List (String × ℕ))
  pub heartbeats : Option (List HeartbeatState)
  pub meminfo : Option (Dict ℕ)

-- Each collector returns its signals and the probe state after it.
abbrev pub Collector : Type 0
Collector = Table → List Signal × Table

unfoldable pub collect_endpoints :
    MetaSettings → ℕ → List (String × Option AgentEndpointResult) → Collector
collect_endpoints settings now [] table = ([], table)
collect_endpoints settings now ((agent, none) ∷ rest) table =
    collect_endpoints settings now rest table
collect_endpoints settings now ((agent, some res) ∷ rest) table =
    let (streak, table') =
      record_endpoint (f_string ("endpoint:" ∷ agent ∷ [])) res.healthz_ok now table in
    let (signals, table'') = collect_endpoints settings now rest table' in
    (
      endpoint_to_signals res settings.slow_threshold streak settings.fail_streak_to_alert
          ++ signals,
      table'',
    )

unfoldable pub collect_containers : MetaSettings → ℕ → List ContainerState → Collector
collect_containers settings now [] table = ([], table)
collect_containers settings now (st ∷ rest) table =
    let (prev, table') =
      record_restart (f_string ("container:" ∷ st.name ∷ [])) st.restart_count now table in
    let (signals, table'') = collect_containers settings now rest table' in
    (container_to_signals prev st settings.restart_loop_threshold ++ signals, table'')

unfoldable pub collect_queues : MetaSettings → ℕ → List (String × ℕ) → Collector
collect_queues settings now [] table = ([], table)
collect_queues settings now ((name, depth) ∷ rest) table =
    let (prev, table') = record_depth (f_string ("queue:" ∷ name ∷ [])) depth now table in
    let (signals, table'') = collect_queues settings now rest table' in
    (append_some (queue_to_signal name depth prev settings.queue_depth_threshold) signals, table'')

unfoldable pub collect_batches : MetaSettings → ℕ → List HeartbeatState → List Signal
collect_batches settings now [] = []
collect_batches settings now (hb ∷ rest) =
    append_some (heartbeat_to_signal settings.formats hb now) (collect_batches settings now rest)

abbrev or_nothing {ℓ} : {A : Type ℓ} → Option (List A) → List A
or_nothing none = []
or_nothing (some l) = l

abbrev vitals : MetaSettings → Option (Dict ℕ) → List Signal
vitals settings none = []
vitals settings (some []) = []
vitals settings (some (entry ∷ rest)) =
    host_vitals_to_signals (entry ∷ rest) settings.host_mem_avail_warn settings.host_swap_used_warn

-- `_collect_meta_signals`: a source that raised contributes nothing. `now` is in microseconds for the
-- table and `now_s` in seconds for the ages.
unfoldable pub collect_meta_signals : MetaSettings → ℕ → ℕ → Collected → Collector
collect_meta_signals settings now now_s found table =
    let (down, after_endpoints) = collect_endpoints settings now found.endpoints table in
    let (boxes, after_containers) =
      collect_containers settings now (or_nothing found.containers) after_endpoints in
    let (queues, after_queues) =
      collect_queues settings now (or_nothing found.depths) after_containers in
    (
      down
          ++ (boxes
              ++ (queues
                  ++ (collect_batches settings now_s (or_nothing found.heartbeats)
                      ++ vitals settings found.meminfo))),
      after_queues,
    )

-- The loop of `run_sweep` and `run_meta_sweep`: each signal through the graph, at its time; the pages
-- that were delivered are counted. An error of the graph, `none`, leaves the loop.
unfoldable pub run_signals :
    Deps → String → String → (ℕ → ℕ) → ℕ → List Signal → Incidents → Option ℕ × Incidents
run_signals deps open_mark close_mark clock i [] t = (some 0, t)
run_signals deps open_mark close_mark clock i (sig ∷ rest) t =
    let (outcome, t') = triage deps open_mark close_mark sig (clock i) t in
    let (alerted, t'') = run_signals deps open_mark close_mark clock (suc i) rest t' in
    if outcome.raised
    then (none, t')
    else (Option.map (λ n. if outcome.alerted then suc n else n) alerted, t'')
