-- ===== src/Llm/Client/Gate.antt =====
-- The gate before the gateway in agentkit/llm.py: when a request is sent, and what its outcome does
-- to the circuit breaker.
use agent_bakery.Prelude.{ltb, if◌then◌else◌, ℕ, ◌+◌, ◌≡◌, true, false, arith}
use agent_bakery.Prelude.Exec.{raised}
use agent_bakery.Llm.Breaker.{is_breaker_failure, check, record_failure, with_status}
use agent_bakery.Llm.Client.{
  Config, Gateway, Request, Client, gateway_failed, failed, note, cap_spent, call_gateway,
}

-- A client fault (a status below 500) reaches the caller and leaves the shared breaker as it was,
-- while a status from 500 up is recorded as a failure at the time of the answer.
pub status_and_breaker :
    (cfg : Config) (gateway : Gateway) (request : Request) (s : Client) (took code : ℕ)
    → check s.breaker s.clock ≡ true
    → cap_spent cfg.job_cost_cap s.usage.cost ≡ false
    → gateway s.sent request ≡ (took, failed (with_status code))
    → let outcome = call_gateway cfg gateway request s in
      (outcome.0 ≡ raised (gateway_failed (with_status code)))
      × (outcome.1.breaker
          ≡ (if ltb code 500 then s.breaker else record_failure s.breaker (s.clock + took)))
unfolding call_gateway note is_breaker_failure
status_and_breaker cfg gateway request s took code admits unspent reply =
    rw (admits, unspent, reply) (ground arith, ground arith)
