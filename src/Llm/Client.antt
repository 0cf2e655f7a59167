-- ===== src/Llm/Client.antt =====
-- `LLMClient` of agentkit/llm.py: `_call_gateway`, `complete` and `complete_with_tools`.
-- The gateway and the clock are the environment: `Gateway` answers the n-th request and says how long
-- it took, and the state counts the requests that were sent and the time that has passed.
pub mod Gate
pub mod Budget
pub mod Calls
use agent_bakery.Prelude.{
  str_eq, ℕ, zero, suc, ◌+◌, ◌<◌, String, Bool, true, false, not, ◌&&◌, Option, none, some, List,
  [], ◌∷◌, map, ltb, leb, if◌then◌else◌,
}
use agent_bakery.Prelude.Exec.{
  Result, ok, raised, Exec, pure, raise, raise_if, gets, modify, ◌>>=◌, ◌>>◌,
}
use agent_bakery.Prelude.Dict.{Dict}
use agent_bakery.Llm.Breaker.{
  CallError, CircuitBreaker, is_breaker_failure, check, record_success, record_failure,
}
use agent_bakery.Llm.Cost.{
  Price, Usage, Message, add, no_usage, estimate_cost, estimate_max_cost, estimate_prompt_tokens,
}

pub record ToolCall : Type 0 where
  pub id : String
  pub name : String
  pub arguments : Option String

-- A choice of a chat completion, with the fields of its message; the content may be None.
pub record Choice : Type 0 where
  pub content : Option String
  pub tool_calls : List ToolCall
  pub finish_reason : Option String

-- A chat completion, as far as it is read: its usage may be missing, and its choices may be none.
pub record Response : Type 0 where
  pub usage : Option (ℕ × ℕ)
  pub choices : List Choice

pub data Reply : Type 0 where
  answered : Response → Reply
  failed : CallError → Reply

pub record Request : Type 0 where
  pub model : String
  pub messages : List Message
  pub max_tokens : ℕ

abbrev pub Gateway : Type 0
Gateway = ℕ → Request → ℕ × Reply

-- `no_choices` is the IndexError of `resp.choices[0]`.
pub data LlmError : Type 0 where
  circuit_open : LlmError
  job_cost_cap_exceeded : LlmError
  cost_limit_preflight : LlmError
  cost_limit_actual : LlmError
  gateway_failed : CallError → LlmError
  no_choices : LlmError
  json_invalid : LlmError

-- The settings of a client.
pub record Config : Type 0 where
  pub model : String
  pub max_tokens : ℕ
  pub max_cost : ℕ
  pub job_cost_cap : ℕ
  pub allow_unpriced : Bool
  pub prices : Dict Price

pub record Client : Type 0 where
  pub usage : Usage
  pub breaker : CircuitBreaker
  pub sent : ℕ
  pub clock : ℕ

abbrev pub Call : Type 0 → Type 0
Call A = Exec Client LlmError A

-- The `except` and `else` of the call: what a reply does to the breaker.
unfoldable pub note : Reply → ℕ → CircuitBreaker → CircuitBreaker
note (answered response) now b = record_success b
note (failed e) now b = if is_breaker_failure e then record_failure b now else b

abbrev settle : Reply → Call Response
settle (answered response) = pure response
settle (failed e) = raise (gateway_failed e)

unfoldable pub send : Gateway → Request → Call Response
send gateway request s =
    let (took, reply) = gateway s.sent request in
    settle reply (record s {
      breaker = note reply (s.clock + took) s.breaker;
      sent = suc s.sent;
      clock = s.clock + took;
    })

-- Whether the job's cost cap is set and spent.
abbrev pub cap_spent : ℕ → ℕ → Bool
cap_spent cap spent = ltb 0 cap && leb cap spent

-- `_call_gateway`
unfoldable pub call_gateway : Config → Gateway → Request → Call Response
unfolding send
call_gateway cfg gateway request = do
  raise_if (not (check (← gets (λ s. s.breaker)) (← gets (λ s. s.clock)))) circuit_open
  raise_if (cap_spent cfg.job_cost_cap (← gets (λ s. s.usage.cost))) job_cost_cap_exceeded
  send gateway request

-- `model or self.model`
abbrev pub or_model : Option String → String → String
or_model none default = default
or_model (some model) default = if str_eq model "" then default else model

-- `max_tokens or self.max_tokens`
abbrev pub or_tokens : Option ℕ → ℕ → ℕ
or_tokens none default = default
or_tokens (some zero) default = default
or_tokens (some (suc n)) default = suc n

abbrev pub or_zero : Option (ℕ × ℕ) → ℕ × ℕ
or_zero none = (0, 0)
or_zero (some counts) = counts

-- The usage of one answer, attributed to its model.
unfoldable pub metered : Config → String → Response → Usage
metered cfg model response =
    let (prompt, completion) = or_zero response.usage in
    let cost = estimate_cost cfg.prices model prompt completion cfg.allow_unpriced in
    record {
      prompt_tokens = prompt;
      completion_tokens = completion;
      cost = cost;
      by_model = (model, cost) ∷ [];
    }

-- The part that `complete` and `complete_with_tools` share word for word: the pre-flight guard, the
-- call, the check of the actual cost, and the meter.
unfoldable pub guarded_call :
    Config → Gateway → List Message → Option String → Option ℕ → Call (Response × Usage)
guarded_call cfg gateway messages model max_tokens =
    let mdl = or_model model cfg.model in
    let out_cap = or_tokens max_tokens cfg.max_tokens in
    do
      raise_if
          (ltb cfg.max_cost (
            estimate_max_cost cfg.prices mdl (estimate_prompt_tokens messages) out_cap
              cfg.allow_unpriced))
          cost_limit_preflight
      response ←
          call_gateway cfg gateway
            (record { model = mdl; messages = messages; max_tokens = out_cap })
      raise_if (ltb cfg.max_cost (metered cfg mdl response).cost) cost_limit_actual
      modify (λ s. record s { usage = add s.usage (metered cfg mdl response) })
      pure (response, metered cfg mdl response)

-- `resp.choices[0]`
abbrev pub first_choice : List Choice → Call Choice
first_choice [] = raise no_choices
first_choice (choice ∷ rest) = pure choice

abbrev pub or_empty : Option String → String
or_empty none = ""
or_empty (some text) = text

unfoldable pub complete :
    Config → Gateway → List Message → Option String → Option ℕ → Call (String × Usage)
complete cfg gateway messages model max_tokens = do
  (response, usage) ← guarded_call cfg gateway messages model max_tokens
  choice ← first_choice response.choices
  pure (or_empty choice.content, usage)

pub record ToolTurn : Type 0 where
  pub content : Option String
  pub tool_calls : List ToolCall
  pub finish_reason : String

abbrev pub with_arguments : ToolCall → ToolCall
with_arguments tc = record tc { arguments = some (or_empty tc.arguments) }

unfoldable pub complete_with_tools :
    Config → Gateway → List Message → Option String → Option ℕ → Call (ToolTurn × Usage)
complete_with_tools cfg gateway messages model max_tokens = do
  (response, usage) ← guarded_call cfg gateway messages model max_tokens
  choice ← first_choice response.choices
  pure (
    record {
      content = choice.content;
      tool_calls = map with_arguments choice.tool_calls;
      finish_reason = or_empty choice.finish_reason;
    },
    usage,
  )
