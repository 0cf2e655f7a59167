-- ===== src/Monitoring/Tests.antt =====
-- Runs of the models of the monitoring agent, and its theorems at concrete inputs.
use agent_bakery.Prelude.{
  ℕ, suc, ◌+◌, ◌≤◌, ◌<◌, String, ◌≡◌, ◌≢◌, ◌↔◌, ◌⊎◌, refl, Bool, true, false, Option, none, some,
  List, [], ◌∷◌, arith, ◌==◌, eq_iff, inl,
}
use agent_bakery.Prelude.Int.{negsuc}
use agent_bakery.Prelude.Dict.{Dict, lookup}
use agent_bakery.Prelude.Text.{f_string}
use agent_bakery.Monitoring.Signal.{Signal}
use agent_bakery.Monitoring.Probe.{ProbeResult}
use agent_bakery.Monitoring.Agents.Endpoint.{AgentEndpointResult, down_signal}
use agent_bakery.Monitoring.Agents.Container.{ContainerState, container_to_signals}
use agent_bakery.Monitoring.Agents.Container.Conditions.{labels}
use agent_bakery.Monitoring.Agents.Batch.{HeartbeatState, Formats}
use agent_bakery.Monitoring.ProbeState.{Table, get}
use agent_bakery.Monitoring.ProbeState.Streak.{
  Write, endpoint, restart, depth, streak, Remembers, get-Remembers, failed_probe,
  failed_probe_pages,
}
use agent_bakery.Monitoring.ProbeState.Streak
use agent_bakery.Monitoring.Incidents
use agent_bakery.Monitoring.Incidents.{Incidents, Report, Row, no_incidents}
use agent_bakery.Monitoring.Incidents.History
use agent_bakery.Monitoring.Incidents.History.{
  report, mark, Counts, reports, last_report, after-Counts,
}
use agent_bakery.Monitoring.Incidents.Race.{
  selects, inserts, inserted, Statement, Session, insert_after, run, overlapping_upserts,
}
use agent_bakery.Monitoring.Triage.Answer.{null, text, container}
use agent_bakery.Monitoring.Triage.{
  Deps, Classified, classify, publish_loop, decide, notify, make_dedup_key, triage,
}
use agent_bakery.Monitoring.Triage.Decision.{key_of, Suppresses, HasBadSeverity, triage_pages_iff}
use agent_bakery.Monitoring.Triage.Delivery.{
  AllFail, publish_loop_exact, status_at, settled_status, triage_all, failed_page_retried,
}
use agent_bakery.Monitoring.Sweep.{MetaSettings, Collected}

abbrev slow_target : ProbeResult
slow_target = record {
  target = "https://shop";
  ok = true;
  status_code = some 200;
  latency = some 52000;
  tls_expiry_days = some (negsuc 1);
  error = none;
}

abbrev no_host : String → Option String
no_host url = none

abbrev killed : ContainerState
killed = record {
  name = "web";
  status = "exited";
  oom_killed = true;
  restart_count = 9;
  health = some "unhealthy";
  exit_code = some 137;
}

container_killed :
    labels (container_to_signals (some 5) killed 3)
    ≡ ("container-oom:web", "critical")
      ∷ ("container-crashloop:web", "critical")
      ∷ ("container-down:web", "critical")
      ∷ []
unfolding container_to_signals f_string
container_killed = refl

abbrev formats : Formats
formats = record {
  lower = λ s. s;
  isoformat = λ t. "2026-01-01";
  grace = "1.5";
  grace_num = 3;
  grace_den = 2;
}

abbrev nightly : HeartbeatState
nightly = record {
  agent = "scan";
  last_finished = some 1000;
  last_status = some "ok";
  expected_interval = 100;
}

abbrev memory : Dict ℕ
memory = ("MemTotal", 16000000) ∷ ("MemAvailable", 900000) ∷ []

abbrev writes : List Write
writes =
    endpoint "endpoint:pm" false 30
    ∷ restart "container:pm" 4 25
    ∷ endpoint "endpoint:qa" true 20
    ∷ endpoint "endpoint:pm" false 10
    ∷ []

get-Remembers_example : Remembers (get "endpoint:pm" (Streak.after writes)) "endpoint:pm" writes
get-Remembers_example = get-Remembers "endpoint:pm" writes

abbrev unreachable : AgentEndpointResult
unreachable = record {
  agent = "pm";
  base_url = "http://pm:8000";
  healthz_ok = false;
  ready = none;
  failed_checks = [];
  latency = none;
  error = some "ConnectError";
}

failed_probe_pages_example :
    let streak' = suc (streak "endpoint:pm" writes) in
    (3 ≤ streak'
      → failed_probe unreachable "endpoint:pm" 20000 3 40 (Streak.after writes)
        ≡ down_signal unreachable streak' ∷ [])
    × (streak' < 3 → failed_probe unreachable "endpoint:pm" 20000 3 40 (Streak.after writes) ≡ [])
failed_probe_pages_example = failed_probe_pages unreachable "endpoint:pm" 20000 3 40 writes refl

abbrev table : Table
table =
    ("a", record { fail_streak = 1; last_restart = none; last_depth = none; updated_at = 0 })
    ∷ (
      "b",
      record { fail_streak = 0; last_restart = none; last_depth = none; updated_at = 86400000005 },
    )
    ∷ []

abbrev down_report : Report
down_report = record { source = "alert"; severity = "warning"; title = "x"; body = "y" }

abbrev incident_writes : List History.Write
incident_writes =
    report "k" down_report 90
    ∷ mark "k"
    ∷ report "j" down_report 50
    ∷ report "k" down_report 10
    ∷ []

after-Counts_example :
    Counts
      (lookup "k" (History.after incident_writes).rows)
      (reports "k" incident_writes)
      (last_report "k" incident_writes)
after-Counts_example = after-Counts "k" incident_writes

abbrev deps : Deps
deps = record {
  ask = λ prompt. none;
  publish = λ alert n. false;
  digest = λ s. s;
  agent_name = "monitoring";
  dedup_window_minutes = 30;
  notify_max_attempts = 3;
}

abbrev outage : Signal
outage = record {
  source = "alert";
  fingerprint = "db";
  title = "db is slow";
  body = "p99";
  suggested_severity = "warning";
  url = none;
  meta = [];
}

-- A model that answers with a list as the severity.
abbrev parrot : Deps
parrot = record deps {
  ask = λ prompt. some (record {
    severity = container true "['critical']";
    category = null;
    hypothesis = text "disk";
  });
}

odd_severity : triage parrot "<<" ">>" outage 77 no_incidents ≡ (
  record { raised = true; alert = false; alerted = false; alert_failed = false; published = 0 },
  no_incidents,
)
unfolding triage classify
odd_severity = refl

triage_pages_iff_example :
    let (outcome, t') = triage deps "<<" ">>" outage 77 no_incidents in
    ((outcome.raised ≡ true) ↔ HasBadSeverity deps "<<" ">>" outage)
    × (outcome.raised ≡ true → (outcome.alert ≡ false) × (t' ≡ no_incidents))
    × ((c : Classified)
        → classify deps "<<" ">>" outage ≡ some c
        → (outcome.alert ≡ false) ↔ Suppresses deps c 77 (lookup (key_of deps outage) []))
triage_pages_iff_example = triage_pages_iff deps "<<" ">>" outage 77 no_incidents

abbrev third_time : ℕ → Bool
third_time n = n == 3

publish_loop_exact_example :
    let (done, made) = publish_loop third_time 5 1 in
    (made ≤ 5)
    × (((done ≡ true)
          × ((k : ℕ) × (made ≡ suc k) × AllFail third_time 1 k × (third_time (1 + k) ≡ true)))
        ⊎ ((done ≡ false) × (made ≡ 5) × AllFail third_time 1 5))
publish_loop_exact_example = publish_loop_exact third_time 5 1

settled_status_example :
    let (outcome, t') = triage deps "<<" ">>" outage 77 no_incidents in
    (outcome.alert_failed ≡ true → status_at (key_of deps outage) t' ≡ some "alert_failed")
    × (outcome.alerted ≡ true → status_at (key_of deps outage) t' ≢ some "alert_failed")
settled_status_example = settled_status deps "<<" ">>" outage 77 no_incidents

abbrev other : Signal
other = record outage { fingerprint = "cache" }

other_key : key_of deps other ≢ key_of deps outage
unfolding make_dedup_key f_string
other_key = λ e. ground (arith, eq_iff (key_of deps other) (key_of deps outage))

failed_page_retried_example :
    let t' =
      triage_all deps "<<" ">>"
        ((other, 78) ∷ [])
        (triage deps "<<" ">>" outage 77 no_incidents).1 in
    let (outcome, t'') = triage deps "<<" ">>" outage 79 t' in
    (¬ HasBadSeverity deps "<<" ">>" outage → outcome.alert ≡ true)
    × (HasBadSeverity deps "<<" ">>" outage
        → status_at (key_of deps outage) t'' ≡ some "alert_failed")
unfolding triage classify publish_loop decide Incidents.upsert notify
failed_page_retried_example =
    failed_page_retried deps "<<" ">>" outage outage 77 79 ((other, 78) ∷ []) no_incidents refl
      (inl other_key, tt) refl

abbrev settings : MetaSettings
settings = record {
  slow_threshold = 20000;
  fail_streak_to_alert = 1;
  restart_loop_threshold = 3;
  queue_depth_threshold = 10;
  host_mem_avail_warn = 1536;
  host_swap_used_warn = 512;
  formats = formats;
}

abbrev found : Collected
found = record {
  endpoints = ("qa", none) ∷ ("pm", some unreachable) ∷ [];
  containers = some (killed ∷ []);
  depths = none;
  heartbeats = some (nightly ∷ []);
  meminfo = some memory;
}

-- Two upserts whose SELECTs both come before the first INSERT.
abbrev race : List Statement
race = selects 1 ∷ selects 2 ∷ inserts 1 down_report 5 ∷ []

abbrev at_first : Session
at_first = record { table = no_incidents; reads = [] }

overlapping_upserts_example :
    let incident = (insert_after "k" 2 down_report 6 (run "k" race at_first)).0 in
    (incident.row.count ≡ 2)
    × ((incident.is_new ≡ true)
        ↔ ((lookup "k" no_incidents.rows ≡ none) × (inserted (selects 1 ∷ []) ≡ 0)))
overlapping_upserts_example =
    overlapping_upserts "k" 2 down_report 6 (selects 1 ∷ []) (inserts 1 down_report 5 ∷ []) at_first
      tt

both_told_new :
    ((insert_after "k" 1 down_report 5 (run "k" (selects 1 ∷ selects 2 ∷ []) at_first)).0.is_new
      ≡ true)
    × ((insert_after "k" 2 down_report 6 (run "k" race at_first)).0.is_new ≡ true)
unfolding insert_after run Incidents.insert_or_bump Incidents.to_incident
both_told_new = (refl, refl)
