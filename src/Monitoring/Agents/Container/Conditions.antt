-- ===== src/Monitoring/Agents/Container/Conditions.antt =====
-- Which signals `container_to_signals` of monitoring_agent/collectors.py makes, and how severe.
use agent_bakery.Prelude.{ℕ, String, ◌≡◌, Bool, Option, List, [], ◌∷◌, arith, if◌then◌else◌}
use agent_bakery.Prelude.Text.{f_string}
use agent_bakery.Monitoring.Signal.{Signal}
use agent_bakery.Monitoring.Agents.Container.{
  ContainerState, container_to_signals, is_gone, is_unhealthy, is_looping,
}

abbrev pub labels : List Signal → List (String × String)
labels [] = []
labels (s ∷ ss) = (s.fingerprint, s.suggested_severity) ∷ labels ss

abbrev pub present :
    Bool → String → String → String → List (String × String) → List (String × String)
present b kind name severity rest =
    if b then (f_string (kind ∷ name ∷ []), severity) ∷ rest else rest

-- Every condition of a container that holds makes one signal, in the order oom, crash loop, down,
-- unhealthy; a container that is gone is not reported as unhealthy too; all but the last are critical.
pub container_conditions :
    (prev : Option ℕ) (cur : ContainerState) (threshold : ℕ)
    → labels (container_to_signals prev cur threshold)
      ≡ present cur.oom_killed "container-oom:" cur.name "critical" (
          present
            (is_looping prev cur.restart_count threshold)
            "container-crashloop:"
            cur.name
            "critical"
            (present (is_gone cur.status) "container-down:" cur.name "critical" (
              if is_gone cur.status
              then []
              else present (is_unhealthy cur.health) "container-unhealthy:" cur.name "warning" [])))
unfolding container_to_signals
container_conditions prev cur threshold = ground arith
