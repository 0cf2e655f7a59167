-- ===== src/Llm/Client/Budget.antt =====
-- The cost ceilings of agentkit/llm.py: one call's, and a job's.
use agent_bakery.Prelude.{
  ℕ, suc, ◌+◌, ◌≤◌, ◌<◌, ◌≡◌, ap, true, false, String, Option, List, [], ◌∷◌, arith,
}
use agent_bakery.Prelude.Exec.{Result, ok, raised}
use agent_bakery.Llm.Cost.{Usage, Message, add, estimate_max_cost, estimate_prompt_tokens}
use agent_bakery.Llm.Cost.Metering.{IsSplit, add-IsSplit}
use agent_bakery.Llm.Breaker.{check, record_success}
use agent_bakery.Llm.Client.{
  Config, Gateway, Response, Client, LlmError, answered, note, no_choices, cost_limit_preflight,
  cost_limit_actual, or_model, or_tokens, cap_spent, metered, call_gateway, guarded_call, complete,
  complete_with_tools,
}
use agent_bakery.Llm.Client.Calls.{
  IsMetered, Metered, Answers, request_of, tail_call-Metered, tail_call-Answers,
  guarded_call-Called,
}

module _ (cfg : Config) (gateway : Gateway) (messages : List Message) (model : Option String) where
  -- A chat completion, plain or with tools, that returns a usage or finds no choice in the answer has
  -- sent one request while the job cap was not spent. It has added one usage to the meter, the one
  -- returned if there is one: the tokens that the gateway's answer to the request reports, at the price
  -- of the request's model, at a cost of at most the ceiling, with costs per model that add up to it. A
  -- completion that raises any other error has sent at most one request and left the meter as it was,
  -- and the error is not `json_invalid`.
  pub complete-Metered :
      (max_tokens : Option ℕ) (s : Client)
      → let request = request_of cfg messages model max_tokens in
        Metered cfg gateway request s (complete cfg gateway messages model max_tokens s)
        × Metered cfg gateway request s
            (complete_with_tools cfg gateway messages model max_tokens s)
  unfolding complete complete_with_tools
  complete-Metered max_tokens s =
      let m = guarded_call-Called cfg gateway messages model max_tokens s in
      let request = request_of cfg messages model max_tokens in
      (
        tail_call-Metered cfg gateway request _ s
            (guarded_call cfg gateway messages model max_tokens s) m,
        tail_call-Metered cfg gateway request _ s
            (guarded_call cfg gateway messages model max_tokens s) m,
      )

  -- The text of a completion is that of the request it has sent.
  pub complete_answers :
      (max_tokens : Option ℕ) (s s' : Client) (text : String) (u : Usage)
      → complete cfg gateway messages model max_tokens s ≡ (ok (text, u), s')
      → Answers gateway s.sent text
  unfolding complete
  complete_answers max_tokens s s' text u e =
      tail_call-Answers cfg gateway (request_of cfg messages model max_tokens) s s' text u
        (guarded_call cfg gateway messages model max_tokens s)
        (guarded_call-Called cfg gateway messages model max_tokens s) e

  -- The hole in the meter: a request that the pre-flight guard, the breaker and the job cap let through,
  -- and whose answer costs more than the ceiling, is sent and noted as a success by the breaker, yet both
  -- kinds of completion raise, and the usage that the job cap reads stays as it was.
  pub over_ceiling_unmetered :
      (max_tokens : Option ℕ) (s : Client) (took : ℕ) (response : Response)
      → let mdl = or_model model cfg.model in
        let out_cap = or_tokens max_tokens cfg.max_tokens in
        let s' : Client = record s {
          breaker = record_success s.breaker;
          sent = suc s.sent;
          clock = s.clock + took;
        } in
        estimate_max_cost cfg.prices mdl
            (estimate_prompt_tokens messages)
            out_cap
            cfg.allow_unpriced
          ≤ cfg.max_cost
        → check s.breaker s.clock ≡ true
        → cap_spent cfg.job_cost_cap s.usage.cost ≡ false
        → gateway s.sent (request_of cfg messages model max_tokens) ≡ (took, answered response)
        → cfg.max_cost < (metered cfg mdl response).cost
        → (complete cfg gateway messages model max_tokens s ≡ (raised cost_limit_actual, s'))
          × (complete_with_tools cfg gateway messages model max_tokens s
              ≡ (raised cost_limit_actual, s'))
  unfolding complete complete_with_tools guarded_call call_gateway note
  over_ceiling_unmetered max_tokens s took response fits admits unspent reply dear =
      (ground arith, ground arith)

  -- A prompt whose worst case is over the ceiling is refused before anything is sent.
  pub preflight_refuses :
      (max_tokens : Option ℕ) (s : Client)
      → cfg.max_cost
        < estimate_max_cost cfg.prices
            (or_model model cfg.model)
            (estimate_prompt_tokens messages)
            (or_tokens max_tokens cfg.max_tokens)
            cfg.allow_unpriced
      → complete cfg gateway messages model max_tokens s ≡ (raised cost_limit_preflight, s)
  unfolding complete guarded_call
  preflight_refuses max_tokens s h = ground arith

-- A job: completions one after the other, whatever each of them ends with.
pub record Turn : Type 0 where
  pub messages : List Message
  pub model : Option String
  pub max_tokens : Option ℕ

unfoldable pub run_job : Config → Gateway → List Turn → Client → Client
run_job cfg gateway [] s = s
run_job cfg gateway (t ∷ ts) s =
    run_job cfg gateway ts (complete cfg gateway t.messages t.model t.max_tokens s).1

pub record IsWithinBudget (cfg : Config) (u : Usage) : Type 0 where
  pub below : u.cost < cfg.job_cost_cap + cfg.max_cost
  pub splits : IsSplit u

under_cap : (cap spent : ℕ) → 0 < cap → cap_spent cap spent ≡ false → spent < cap
under_cap cap spent h e = ground arith

metered-IsWithinBudget :
    (cfg : Config) (s s' : Client) (u : Usage)
    → 0 < cfg.job_cost_cap
    → IsWithinBudget cfg s.usage
    → IsMetered cfg s s' u
    → IsWithinBudget cfg s'.usage
unfolding add
metered-IsWithinBudget cfg s s' u capped h m = record {
  below = omega (
    arith,
    ap (λ (v : Usage). v.cost) m.moved,
    m,
    h,
    under_cap cfg.job_cost_cap s.usage.cost capped m.allowed,
  );
  splits = rw m.moved (add-IsSplit s.usage u h.splits m.splits);
}

step :
    (cfg : Config) (gateway : Gateway) (t : Turn) (s : Client)
    → 0 < cfg.job_cost_cap
    → IsWithinBudget cfg s.usage
    → IsWithinBudget cfg (complete cfg gateway t.messages t.model t.max_tokens s).1.usage
step cfg gateway t s capped h =
    of (complete cfg gateway t.messages t.model t.max_tokens s)
      (complete-Metered cfg gateway t.messages t.model t.max_tokens s).0
  where
    of :
        (o : Result LlmError (String × Usage) × Client)
        → Metered cfg gateway (request_of cfg t.messages t.model t.max_tokens) s o
        → IsWithinBudget cfg o.1.usage
    of (ok (text, u), s') m = metered-IsWithinBudget cfg s s' u capped h m.0
    of (raised no_choices, s') m = metered-IsWithinBudget cfg s s' m.0 capped h m.1
    of (raised e, s') m = rw m.0 h

-- With a job cap set, a job of any length and with any answers from the gateway meters less than the
-- cap and one more call's ceiling, and its spend per model adds up to its spend.
pub run_job-IsWithinBudget :
    (cfg : Config) (gateway : Gateway) (ts : List Turn) (s : Client)
    → 0 < cfg.job_cost_cap
    → IsWithinBudget cfg s.usage
    → IsWithinBudget cfg (run_job cfg gateway ts s).usage
unfolding run_job
run_job-IsWithinBudget cfg gateway [] s capped h = h
run_job-IsWithinBudget cfg gateway (t ∷ ts) s capped h =
    run_job-IsWithinBudget cfg gateway ts (complete cfg gateway t.messages t.model t.max_tokens s).1
      capped (step cfg gateway t s capped h)
