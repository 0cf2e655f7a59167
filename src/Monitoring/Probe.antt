-- ===== src/Monitoring/Probe.antt =====
-- `probe_to_signal` of monitoring_agent/collectors.py. A latency and its threshold are numbers of
-- ten-thousandths of a second, as the probe rounds them.
pub mod Verdict
use agent_bakery.Prelude.{
  ℕ, ◌+◌, String, Bool, true, false, Option, none, some, [], ◌∷◌, ltb, if◌then◌else◌,
}
use agent_bakery.Prelude.Int.{ℤ, pos, leb_ℤ}
use agent_bakery.Prelude.Text.{f_string, show, show_int, show_real, show_opt, same, or_text}
use agent_bakery.Monitoring.Signal.{Signal, Value, null, num, int, real, str}

pub record ProbeResult : Type 0 where
  pub target : String
  pub ok : Bool
  pub status_code : Option ℕ
  pub latency : Option ℕ
  pub tls_expiry_days : Option ℤ
  pub error : Option String

abbrev pub num_or_null : Option ℕ → Value
num_or_null none = null
num_or_null (some n) = num n

abbrev pub text_or_null : Option String → Value
text_or_null none = null
text_or_null (some s) = str s

-- `x is not None and x > threshold`
abbrev pub exceeds : Option ℕ → ℕ → Bool
exceeds none threshold = false
exceeds (some x) threshold = ltb threshold x

-- `days is not None and days <= limit`
abbrev pub expires_within : Option ℤ → ℤ → Bool
expires_within none limit = false
expires_within (some days) limit = leb_ℤ days limit

-- The three signals; `host` is the target's host name, or the target where it has none.
down_signal : String → ProbeResult → Signal
down_signal host res = record {
  source = "healthcheck";
  fingerprint = f_string ("down:" ∷ res.target ∷ []);
  title = f_string (host ∷ " is DOWN" ∷ []);
  body = f_string (
      "target: "
      ∷ res.target
      ∷ "\nstatus: "
      ∷ show_opt show res.status_code
      ∷ "\nerror: "
      ∷ or_text res.error (f_string ("HTTP " ∷ show_opt show res.status_code ∷ []))
      ∷ []);
  suggested_severity = "critical";
  url = some res.target;
  meta =
      ("kind", str "down")
      ∷ ("status_code", num_or_null res.status_code)
      ∷ ("error", text_or_null res.error)
      ∷ [];
}

slow_signal : String → ℕ → ProbeResult → Signal
slow_signal host threshold res = record {
  source = "healthcheck";
  fingerprint = f_string ("slow:" ∷ res.target ∷ []);
  title = f_string (host ∷ " is SLOW" ∷ []);
  body = f_string (
      "target: "
      ∷ res.target
      ∷ "\nlatency: "
      ∷ show_opt show_real res.latency
      ∷ "s (threshold "
      ∷ show_real threshold
      ∷ "s)\nstatus: "
      ∷ show_opt show res.status_code
      ∷ []);
  suggested_severity = "warning";
  url = some res.target;
  meta =
      ("kind", str "slow")
      ∷ ("latency_seconds", elim res.latency [ none ↦ null | some t ↦ real t ])
      ∷ [];
}

cert_signal : String → ProbeResult → Signal
cert_signal host res = record {
  source = "healthcheck";
  fingerprint = f_string ("cert:" ∷ res.target ∷ []);
  title =
      f_string (host ∷ " TLS cert expiring in " ∷ show_opt show_int res.tls_expiry_days ∷ "d" ∷ []);
  body = f_string (
      "target: " ∷ res.target ∷ "\ntls_expiry_days: " ∷ show_opt show_int res.tls_expiry_days ∷ []);
  suggested_severity = if expires_within res.tls_expiry_days (pos 3) then "critical" else "warning";
  url = some res.target;
  meta =
      ("kind", str "cert")
      ∷ ("tls_expiry_days", elim res.tls_expiry_days [ none ↦ null | some d ↦ int d ])
      ∷ [];
}

-- `hostname` is `urlparse(·).hostname`.
unfoldable pub probe_to_signal : (String → Option String) → ProbeResult → ℕ → ℤ → Option Signal
unfolding down_signal slow_signal cert_signal
probe_to_signal hostname res slow_threshold cert_warn_days =
    let host = or_text (hostname res.target) res.target in
    if res.ok
    then if exceeds res.latency slow_threshold
      then some (slow_signal host slow_threshold res)
      else if expires_within res.tls_expiry_days cert_warn_days
      then some (cert_signal host res)
      else none
    else some (down_signal host res)
