-- ===== src/Llm/Breaker/Trips.antt =====
-- When the circuit breaker of agentkit/llm.py trips, refuses and closes.
use mathlib.Core.Logic.{◌↔◌}
use agent_bakery.Prelude.{
  ℕ, suc, ◌+◌, ◌≤◌, ◌<◌, ◌≡◌, true, false, Option, none, some, List, [], ◌∷◌, arith, leb,
  if◌then◌else◌,
}
use agent_bakery.Llm.Breaker.{CircuitBreaker, check, closed, record_success, record_failure}

-- What one call reports to the breaker: success, a failure at a time, or (a client fault, or a call
-- that never reached the gateway) nothing.
pub data Report : Type 0 where
  success : Report
  failure : ℕ → Report
  silent : Report

unfoldable pub apply : CircuitBreaker → Report → CircuitBreaker
apply b success = record_success b
apply b (failure now) = record_failure b now
apply b silent = b

-- The reports, the latest first.
unfoldable pub after : CircuitBreaker → List Report → CircuitBreaker
unfolding apply
after b [] = b
after b (r ∷ rs) = apply (after b rs) r

-- The specification: the length of the run of failures that ends the history, and the time of the
-- last failure in that run.
unfoldable pub trailing : List Report → ℕ
trailing [] = 0
trailing (success ∷ rs) = 0
trailing (failure now ∷ rs) = suc (trailing rs)
trailing (silent ∷ rs) = trailing rs

unfoldable pub last_failure : List Report → Option ℕ
last_failure [] = none
last_failure (success ∷ rs) = none
last_failure (failure now ∷ rs) = some now
last_failure (silent ∷ rs) = last_failure rs

pub record Tracks (b : CircuitBreaker) (t c : ℕ) (rs : List Report) : Type 0 where
  pub same_threshold : b.threshold ≡ t
  pub same_cooldown : b.cooldown ≡ c
  pub same_failures : b.failures ≡ trailing rs
  pub same_opened : b.opened_at ≡ (if leb t (trailing rs) then last_failure rs else none)

-- After any history of reports, an enabled breaker holds exactly the number of consecutive failures
-- since the last success, and it is open, since the last failure, exactly when that number has
-- reached the threshold.
pub after-Tracks : (t c : ℕ) (rs : List Report) → 0 < t → Tracks (after (closed t c) rs) t c rs
unfolding after closed trailing last_failure record_success record_failure
after-Tracks t c [] h = ground arith
after-Tracks t c (success ∷ rs) h = ground (arith, after-Tracks t c rs h)
after-Tracks t c (failure now ∷ rs) h = ground (arith, after-Tracks t c rs h)
after-Tracks t c (silent ∷ rs) h = ground (arith, after-Tracks t c rs h)

abbrev pub IsCooling : Option ℕ → ℕ → ℕ → Type 0
IsCooling none c now = ⊥
IsCooling (some at) c now = now < at + c

-- After any history, an enabled breaker refuses a call exactly when the calls since the last success
-- hold at least the threshold of failures and the cooldown since the last of them is running; so a
-- success, or an elapsed cooldown, lets the next call through.
pub check-after :
    (t c now : ℕ) (rs : List Report)
    → 0 < t
    → (check (after (closed t c) rs) now ≡ false)
      ↔ ((t ≤ trailing rs) × IsCooling (last_failure rs) c now)
unfolding check
check-after t c now rs h =
    (λ e. ground (arith, after-Tracks t c rs h), λ e. ground (arith, after-Tracks t c rs h))

-- A breaker that is disabled refuses nothing and never changes.
pub disabled_is_inert :
    (c now : ℕ) (rs : List Report)
    → (check (after (closed 0 c) rs) now ≡ true) × (after (closed 0 c) rs ≡ closed 0 c)
unfolding check after closed record_success record_failure
disabled_is_inert c now [] = ground arith
disabled_is_inert c now (success ∷ rs) = ground (arith, disabled_is_inert c now rs)
disabled_is_inert c now (failure at ∷ rs) = ground (arith, disabled_is_inert c now rs)
disabled_is_inert c now (silent ∷ rs) = ground (arith, disabled_is_inert c now rs)
