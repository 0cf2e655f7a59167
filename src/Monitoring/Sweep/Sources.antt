-- ===== src/Monitoring/Sweep/Sources.antt =====
-- What the signals of a meta sweep have in common (monitoring_agent/scheduler.py).
use agent_bakery.Prelude.{
  ℕ, String, ◌≡◌, ◌⊎◌, inl, inr, refl, Option-cases, Option, none, some, List, [], ◌∷◌, ◌++◌, map,
  arith,
}
use agent_bakery.Prelude.Dict.{Dict, lookup}
use agent_bakery.Monitoring.Signal.{Signal}
use agent_bakery.Monitoring.Agents.Endpoint.{
  AgentEndpointResult, endpoint_to_signals, notready_signal, or_unknown,
}
use agent_bakery.Monitoring.Agents.Container.{ContainerState, container_to_signals}
use agent_bakery.Monitoring.Agents.Batch.{HeartbeatState, Formats, heartbeat_to_signal}
use agent_bakery.Monitoring.Agents.Backlog.{queue_to_signal}
use agent_bakery.Monitoring.Agents.Host.{host_vitals_to_signals}
use agent_bakery.Monitoring.ProbeState.{Table}
use agent_bakery.Monitoring.Sweep.{
  append_some, MetaSettings, Collected, collect_endpoints, collect_containers, collect_queues,
  collect_batches, collect_meta_signals, vitals,
}

-- A signal of the meta sweep: its source is `agent_health`, its severity a warning or critical.
abbrev pub IsHealth : Signal → Type 0
IsHealth s =
    (s.source ≡ "agent_health")
    × ((s.suggested_severity ≡ "warning") ⊎ (s.suggested_severity ≡ "critical"))

abbrev pub AllHealth : List Signal → Type 0
AllHealth [] = Unit
AllHealth (s ∷ ss) = IsHealth s × AllHealth ss

AllHealth-append : (xs ys : List Signal) → AllHealth xs → AllHealth ys → AllHealth (xs ++ ys)
AllHealth-append [] ys h k = k
AllHealth-append (x ∷ xs) ys h k = (h.0, AllHealth-append xs ys h.1 k)

abbrev SomeHealth : Option Signal → Type 0
SomeHealth none = Unit
SomeHealth (some s) = IsHealth s

append_some-AllHealth :
    (o : Option Signal) (rest : List Signal)
    → SomeHealth o
    → AllHealth rest
    → AllHealth (append_some o rest)
append_some-AllHealth none rest h k = k
append_some-AllHealth (some s) rest h k = (h, k)

notready-AllHealth :
    (r : AgentEndpointResult) (streak : ℕ) (checks : List String)
    → AllHealth (map (notready_signal r streak) checks)
unfolding notready_signal
notready-AllHealth r streak [] = tt
notready-AllHealth r streak (c ∷ cs) = ((refl, inl refl), notready-AllHealth r streak cs)

endpoint-AllHealth :
    (r : AgentEndpointResult) (slow streak to_alert : ℕ)
    → AllHealth (endpoint_to_signals r slow streak to_alert)
unfolding endpoint_to_signals
endpoint-AllHealth r slow streak to_alert =
    ground (arith, notready-AllHealth r streak (or_unknown r.failed_checks))

container-AllHealth :
    (prev : Option ℕ) (cur : ContainerState) (threshold : ℕ)
    → AllHealth (container_to_signals prev cur threshold)
unfolding container_to_signals
container-AllHealth prev cur threshold = ground arith

batch-SomeHealth :
    (formats : Formats) (h : HeartbeatState) (now : ℕ)
    → SomeHealth (heartbeat_to_signal formats h now)
unfolding heartbeat_to_signal
batch-SomeHealth formats h now = ground arith

queue-SomeHealth :
    (name : String) (depth : ℕ) (prev : Option ℕ) (threshold : ℕ)
    → SomeHealth (queue_to_signal name depth prev threshold)
unfolding queue_to_signal
queue-SomeHealth name depth prev threshold = ground arith

host-AllHealth :
    (meminfo : Dict ℕ) (mem swap : ℕ) → AllHealth (host_vitals_to_signals meminfo mem swap)
unfolding host_vitals_to_signals
host-AllHealth meminfo mem swap = elim (Option-cases (lookup "MemAvailable" meminfo)) [
  | inl e ↦ rw (e, host_vitals_to_signals) (ground arith)
  | inr (kb, e) ↦ rw (e, host_vitals_to_signals) (ground arith)
]

endpoints-AllHealth :
    (settings : MetaSettings) (now : ℕ) (found : List (String × Option AgentEndpointResult))
    (table : Table)
    → AllHealth (collect_endpoints settings now found table).0
unfolding collect_endpoints
endpoints-AllHealth settings now [] table = tt
endpoints-AllHealth settings now ((agent, none) ∷ rest) table =
    endpoints-AllHealth settings now rest table
endpoints-AllHealth settings now ((agent, some res) ∷ rest) table =
    AllHealth-append _ _ (endpoint-AllHealth res _ _ _) (endpoints-AllHealth settings now rest _)

containers-AllHealth :
    (settings : MetaSettings) (now : ℕ) (found : List ContainerState) (table : Table)
    → AllHealth (collect_containers settings now found table).0
unfolding collect_containers
containers-AllHealth settings now [] table = tt
containers-AllHealth settings now (st ∷ rest) table =
    AllHealth-append _ _ (container-AllHealth _ st _) (containers-AllHealth settings now rest _)

queues-AllHealth :
    (settings : MetaSettings) (now : ℕ) (found : List (String × ℕ)) (table : Table)
    → AllHealth (collect_queues settings now found table).0
unfolding collect_queues
queues-AllHealth settings now [] table = tt
queues-AllHealth settings now ((name, depth) ∷ rest) table =
    append_some-AllHealth _ _ (queue-SomeHealth name depth _ _)
      (queues-AllHealth settings now rest _)

batches-AllHealth :
    (settings : MetaSettings) (now : ℕ) (found : List HeartbeatState)
    → AllHealth (collect_batches settings now found)
unfolding collect_batches
batches-AllHealth settings now [] = tt
batches-AllHealth settings now (hb ∷ rest) =
    append_some-AllHealth _ _ (batch-SomeHealth settings.formats hb now)
      (batches-AllHealth settings now rest)

vitals-AllHealth :
    (settings : MetaSettings) (found : Option (Dict ℕ)) → AllHealth (vitals settings found)
vitals-AllHealth settings none = tt
vitals-AllHealth settings (some []) = tt
vitals-AllHealth settings (some (entry ∷ rest)) = host-AllHealth (entry ∷ rest) _ _

-- Whatever the collectors find, and whichever of them raise, every signal of a meta sweep has the
-- source `agent_health`, by which its incidents are counted, and is a warning or critical.
pub meta_signals-AllHealth :
    (settings : MetaSettings) (now now_s : ℕ) (found : Collected) (table : Table)
    → AllHealth (collect_meta_signals settings now now_s found table).0
unfolding collect_meta_signals
meta_signals-AllHealth settings now now_s found table =
    AllHealth-append _ _ (endpoints-AllHealth settings now found.endpoints table) (
      AllHealth-append _ _ (containers-AllHealth settings now _ _) (
        AllHealth-append _ _ (queues-AllHealth settings now _ _) (
          AllHealth-append _ _ (batches-AllHealth settings now_s _)
            (vitals-AllHealth settings found.meminfo))))
