-- ===== src/Monitoring/Probe/Verdict.antt =====
-- What `probe_to_signal` of monitoring_agent/collectors.py makes of a probe.
use agent_bakery.Prelude.{ℕ, ◌<◌, String, ◌≡◌, ◌↔◌, true, false, Option, none, some, [], ◌∷◌, arith}
use agent_bakery.Prelude.Int.{ℤ, pos, ◌≤ℤ◌}
use agent_bakery.Prelude.Text.{f_string}
use agent_bakery.Monitoring.Signal.{Signal}
use agent_bakery.Monitoring.Probe.{ProbeResult, probe_to_signal}

abbrev pub IsAbove : Option ℕ → ℕ → Type 0
IsAbove none limit = ⊥
IsAbove (some x) limit = limit < x

abbrev pub IsWithin : Option ℤ → ℤ → Type 0
IsWithin none limit = ⊥
IsWithin (some x) limit = x ≤ℤ limit

abbrev pub described : Option Signal → Option (String × String)
described none = none
described (some s) = some (s.fingerprint, s.suggested_severity)

abbrev pub IsSignal : Option Signal → String → String → Type 0
IsSignal o fingerprint severity = described o ≡ some (fingerprint, severity)

-- A probe makes no signal exactly when it answered, in time, with a certificate that lasts. Else the
-- first of down, slow and expiring names the signal: a target that is down is critical, a slow one a
-- warning, and an expiring certificate is critical within three days and else a warning.
pub probe_to_signal_verdict :
    (hostname : String → Option String) (res : ProbeResult) (slow : ℕ) (warn : ℤ)
    → let verdict = probe_to_signal hostname res slow warn in
      ((verdict ≡ none)
        ↔ ((res.ok ≡ true) × (¬ IsAbove res.latency slow) × (¬ IsWithin res.tls_expiry_days warn)))
      × (res.ok ≡ false → IsSignal verdict (f_string ("down:" ∷ res.target ∷ [])) "critical")
      × (res.ok ≡ true
          → IsAbove res.latency slow
          → IsSignal verdict (f_string ("slow:" ∷ res.target ∷ [])) "warning")
      × (res.ok ≡ true
          → ¬ IsAbove res.latency slow
          → IsWithin res.tls_expiry_days warn
          → (IsWithin res.tls_expiry_days (pos 3)
              → IsSignal verdict (f_string ("cert:" ∷ res.target ∷ [])) "critical")
            × (¬ IsWithin res.tls_expiry_days (pos 3)
                → IsSignal verdict (f_string ("cert:" ∷ res.target ∷ [])) "warning"))
unfolding probe_to_signal
probe_to_signal_verdict hostname res slow warn = (
  (λ h. ground arith, λ h. ground arith),
  λ h. ground arith,
  λ h k. ground arith,
  λ h k l. (λ m. ground arith, λ m. ground arith),
)

-- The order of the three is not the order of severity: a target that is slow and whose certificate
-- expires within three days is reported as a warning only, although its certificate alone is critical.
pub slow_hides_expiry :
    (hostname : String → Option String) (res : ProbeResult) (slow : ℕ) (warn : ℤ)
    → res.ok ≡ true
    → IsAbove res.latency slow
    → IsWithin res.tls_expiry_days (pos 3)
    → pos 3 ≤ℤ warn
    → IsSignal
        (probe_to_signal hostname res slow warn)
        (f_string ("slow:" ∷ res.target ∷ []))
        "warning"
      × IsSignal
          (probe_to_signal hostname (record res { latency = none }) slow warn)
          (f_string ("cert:" ∷ res.target ∷ []))
          "critical"
unfolding probe_to_signal
slow_hides_expiry hostname res slow warn h k l m = (ground arith, ground arith)
