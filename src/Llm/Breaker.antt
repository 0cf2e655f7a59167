-- ===== src/Llm/Breaker.antt =====
-- `_CircuitBreaker` and `_is_breaker_failure` of agentkit/llm.py. Times are `time.monotonic()` in
-- any fixed unit; `threshold <= 0` is the number 0.
pub mod Trips
use agent_bakery.Prelude.{
  ℕ, ◌+◌, Bool, true, false, Option, none, some, leb, ltb, ◌==◌, ◌||◌, if◌then◌else◌,
}

-- The exceptions that a gateway call can end with, as `_is_breaker_failure` tells them apart.
pub data CallError : Type 0 where
  cost_limit_exceeded : CallError
  api_connection_error : CallError
  api_timeout_error : CallError
  -- an exception whose `status_code` is an int
  with_status : ℕ → CallError
  -- an `APIStatusError` whose `status_code` is not an int
  api_status_error : CallError
  unknown_error : CallError

unfoldable pub is_breaker_failure : CallError → Bool
is_breaker_failure cost_limit_exceeded = false
is_breaker_failure api_connection_error = true
is_breaker_failure api_timeout_error = true
is_breaker_failure (with_status code) = leb 500 code
is_breaker_failure api_status_error = true
is_breaker_failure unknown_error = true

pub record CircuitBreaker : Type 0 where
  pub threshold : ℕ
  pub cooldown : ℕ
  pub failures : ℕ
  pub opened_at : Option ℕ

unfoldable pub closed : ℕ → ℕ → CircuitBreaker
closed threshold cooldown = record {
  threshold = threshold;
  cooldown = cooldown;
  failures = 0;
  opened_at = none;
}

-- Whether the cooldown of a breaker that opened at this time is still running.
abbrev cooling : Option ℕ → ℕ → ℕ → Bool
cooling none cooldown now = false
cooling (some at) cooldown now = ltb now (at + cooldown)

-- `check`: true if the call may go on, false for a raised `CircuitOpenError`.
unfoldable pub check : CircuitBreaker → ℕ → Bool
check b now =
    if b.threshold == 0 then true else if cooling b.opened_at b.cooldown now then false else true

unfoldable pub record_success : CircuitBreaker → CircuitBreaker
record_success b = if b.threshold == 0 then b else record b { failures = 0; opened_at = none }

unfoldable pub record_failure : CircuitBreaker → ℕ → CircuitBreaker
record_failure b now =
    if b.threshold == 0
    then b
    else if leb b.threshold (b.failures + 1)
    then record b { failures = b.failures + 1; opened_at = some now }
    else record b { failures = b.failures + 1 }
