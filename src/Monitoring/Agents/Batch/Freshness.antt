-- ===== src/Monitoring/Agents/Batch/Freshness.antt =====
-- When `heartbeat_to_signal` of monitoring_agent/collectors.py reports a batch run.
use agent_bakery.Prelude.{ℕ, ◌-◌, ◌*◌, ◌≤◌, ◌<◌, ◌≡◌, ◌↔◌, ◌⊎◌, false, none, some, [], ◌∷◌, arith}
use agent_bakery.Prelude.Text.{f_string, or_text}
use agent_bakery.Monitoring.Probe.Verdict.{IsSignal}
use agent_bakery.Monitoring.Agents.Batch.{HeartbeatState, Formats, is_bad, heartbeat_to_signal}

-- A run that finished and whose status is not bad is reported exactly when a cadence is declared and
-- its age is over the interval times the grace; the report is critical exactly when the age is over
-- three intervals.
pub finished_freshness :
    (formats : Formats) (h : HeartbeatState) (finished now : ℕ)
    → h.last_finished ≡ some finished
    → is_bad (formats.lower (or_text h.last_status "")) ≡ false
    → let verdict = heartbeat_to_signal formats h now in
      let age = now - finished in
      ((verdict ≡ none) ↔ (
        (h.expected_interval ≡ 0)
        ⊎ (age * formats.grace_den ≤ h.expected_interval * formats.grace_num)))
      × (0 < h.expected_interval
          → h.expected_interval * formats.grace_num < age * formats.grace_den
          → (h.expected_interval * 3 < age
              → IsSignal verdict (f_string ("batch-overdue:" ∷ h.agent ∷ [])) "critical")
            × (age ≤ h.expected_interval * 3
                → IsSignal verdict (f_string ("batch-overdue:" ∷ h.agent ∷ [])) "warning"))
unfolding heartbeat_to_signal
finished_freshness formats h finished now f ok =
    rw f ((λ e. ground arith, λ e. ground arith), λ p q. (λ r. ground arith, λ r. ground arith))
