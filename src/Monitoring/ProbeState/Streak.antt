-- ===== src/Monitoring/ProbeState/Streak.antt =====
-- The memory across sweeps of monitoring_agent/store.py: what a row says of the probes so far.
use agent_bakery.Prelude.{
  ℕ, suc, ◌≤◌, ◌<◌, String, ◌≡◌, refl, Bool, false, Option, none, some, List, [], ◌∷◌, arith,
  str_eq, eq_iff, if◌then◌else◌,
}
use agent_bakery.Prelude.Dict.{lookup-insert}
use agent_bakery.Monitoring.Signal.{Signal}
use agent_bakery.Monitoring.Agents.Endpoint.{AgentEndpointResult, endpoint_to_signals, down_signal}
use agent_bakery.Monitoring.ProbeState.{
  ProbeState, Table, get, record_endpoint, record_restart, record_depth,
}

-- The writes of the sweeps, the latest first.
pub data Write : Type 0 where
  endpoint : String → Bool → ℕ → Write
  restart : String → ℕ → ℕ → Write
  depth : String → ℕ → ℕ → Write

unfoldable pub after : List Write → Table
after [] = []
after (endpoint target ok now ∷ ws) = (record_endpoint target ok now (after ws)).1
after (restart target count now ∷ ws) = (record_restart target count now (after ws)).1
after (depth target d now ∷ ws) = (record_depth target d now (after ws)).1

-- The specification: the run of failures of one target that ends the history, and the last values.
unfoldable pub streak : String → List Write → ℕ
streak t [] = 0
streak t (endpoint target ok now ∷ ws) =
    if str_eq target t then (if ok then 0 else suc (streak t ws)) else streak t ws
streak t (restart target count now ∷ ws) = streak t ws
streak t (depth target d now ∷ ws) = streak t ws

unfoldable pub last_restart : String → List Write → Option ℕ
last_restart t [] = none
last_restart t (endpoint target ok now ∷ ws) = last_restart t ws
last_restart t (restart target count now ∷ ws) =
    if str_eq target t then some count else last_restart t ws
last_restart t (depth target d now ∷ ws) = last_restart t ws

unfoldable pub last_depth : String → List Write → Option ℕ
last_depth t [] = none
last_depth t (endpoint target ok now ∷ ws) = last_depth t ws
last_depth t (restart target count now ∷ ws) = last_depth t ws
last_depth t (depth target d now ∷ ws) = if str_eq target t then some d else last_depth t ws

pub record Remembers (row : ProbeState) (t : String) (ws : List Write) : Type 0 where
  pub same_streak : row.fail_streak ≡ streak t ws
  pub same_restart : row.last_restart ≡ last_restart t ws
  pub same_depth : row.last_depth ≡ last_depth t ws

-- After any interleaving of writes about any targets, a target's row holds the length of the run of
-- failed probes that ends its own history, and the restart count and queue depth last seen for it.
pub get-Remembers : (t : String) (ws : List Write) → Remembers (get t (after ws)) t ws
unfolding get after streak last_restart last_depth record_endpoint record_restart record_depth
get-Remembers t [] = record { same_streak = refl; same_restart = refl; same_depth = refl }
get-Remembers t (endpoint target ok now ∷ ws) =
    rw lookup-insert (ground (arith, eq_iff target t, get-Remembers t ws))
get-Remembers t (restart target count now ∷ ws) =
    rw lookup-insert (ground (arith, eq_iff target t, get-Remembers t ws))
get-Remembers t (depth target d now ∷ ws) =
    rw lookup-insert (ground (arith, eq_iff target t, get-Remembers t ws))

-- What one failed probe of an agent leads to: the streak is written, then the signals are built.
unfoldable pub failed_probe : AgentEndpointResult → String → ℕ → ℕ → ℕ → Table → List Signal
failed_probe r target slow to_alert now table =
    endpoint_to_signals r slow (record_endpoint target false now table).0 to_alert

-- An agent that is down pages once its last N probes have all failed, and never before: a failed
-- probe makes the one critical `agent-down` signal if it ends a run of at least
-- `fail_streak_to_alert` failures of that agent, and no signal else, whatever was written about other
-- targets in between.
pub failed_probe_pages :
    (r : AgentEndpointResult) (target : String) (slow to_alert now : ℕ) (ws : List Write)
    → r.healthz_ok ≡ false
    → let streak' = suc (streak target ws) in
      (to_alert ≤ streak'
        → failed_probe r target slow to_alert now (after ws) ≡ down_signal r streak' ∷ [])
      × (streak' < to_alert → failed_probe r target slow to_alert now (after ws) ≡ [])
unfolding failed_probe endpoint_to_signals record_endpoint get
failed_probe_pages r target slow to_alert now ws h =
    (λ p. ground (arith, get-Remembers target ws), λ p. ground (arith, get-Remembers target ws))

-- The crash-loop and queue rules compare against the value of the same target's last sweep.
pub previous_values :
    (t : String) (count d now : ℕ) (ws : List Write)
    → ((record_restart t count now (after ws)).0 ≡ last_restart t ws)
      × ((record_depth t d now (after ws)).0 ≡ last_depth t ws)
unfolding record_restart record_depth get
previous_values t count d now ws =
    (ground (arith, get-Remembers t ws), ground (arith, get-Remembers t ws))
