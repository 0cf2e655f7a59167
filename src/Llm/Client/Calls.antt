-- ===== src/Llm/Client/Calls.antt =====
-- What one call of agentkit/llm.py does to the meter, by how it ends, and which answer its text is of.
use agent_bakery.Prelude.{ℕ, suc, ◌≤◌, ◌≡◌, ◌≢◌, refl, false, String, Option, List, [], ◌∷◌, arith}
use agent_bakery.Prelude.Exec.{Result, ok, raised, continue, pure, ◌>>=◌}
use agent_bakery.Llm.Cost.{Usage, Message, add}
use agent_bakery.Llm.Cost.Metering.{IsSplit}
use agent_bakery.Llm.Client.{
  Config, Gateway, Request, Response, Choice, Call, first_choice, Client, LlmError, answered,
  no_choices, or_empty, json_invalid, or_model, or_tokens, cap_spent, metered, call_gateway,
  guarded_call,
}

-- A usage that the meter of `s` was moved by, to that of `s'`, for one request that the job cap still
-- allowed: it is within the ceiling and splits by model.
pub record IsMetered (cfg : Config) (s s' : Client) (u : Usage) : Type 0 where
  pub within : u.cost ≤ cfg.max_cost
  pub allowed : cap_spent cfg.job_cost_cap s.usage.cost ≡ false
  pub sent : s'.sent ≡ suc s.sent
  pub moved : s'.usage ≡ add s.usage u
  pub splits : IsSplit u

-- The usage is that of the gateway's answer to the request, at the price of the request's model.
abbrev pub Charges : Config → Gateway → Request → Client → Usage → Type 0
Charges cfg gateway request s u =
    (response : Response) × ((gateway s.sent request).1 ≡ answered response)
    × (u ≡ metered cfg request.model response)

-- What a completion did with its request, by how it ended: a result, and an answer without choices, are
-- metered; any other error leaves the meter where it was, after at most one request.
abbrev pub Metered :
    {A : Type 0}
    → Config
    → Gateway
    → Request
    → Client
    → Result LlmError (A × Usage) × Client
    → Type 0
Metered cfg gateway request s (ok (_, u), s') =
    IsMetered cfg s s' u × Charges cfg gateway request s u
Metered cfg gateway request s (raised no_choices, s') =
    (u : Usage) × IsMetered cfg s s' u × Charges cfg gateway request s u
Metered cfg gateway request s (raised e, s') =
    (s'.usage ≡ s.usage) × (s'.sent ≤ suc s.sent) × (e ≢ json_invalid)

-- The k-th request was answered, and this is the text of the answer's first choice.
abbrev pub Answers : Gateway → ℕ → String → Type 0
Answers gateway k text =
    (request : Request) × (response : Response) × (choice : Choice) × (others : List Choice)
    × ((gateway k request).1 ≡ answered response)
    × (response.choices ≡ choice ∷ others)
    × (text ≡ or_empty choice.content)

-- What the call that both share did: its own errors are not that of the missing choice.
abbrev pub Called :
    Config → Gateway → Request → Client → Result LlmError (Response × Usage) × Client → Type 0
Called cfg gateway request s (ok (response, u), s') =
    IsMetered cfg s s' u
    × ((gateway s.sent request).1 ≡ answered response)
    × (u ≡ metered cfg request.model response)
Called cfg gateway request s (raised e, s') =
    (s'.usage ≡ s.usage) × (s'.sent ≤ suc s.sent) × (e ≢ json_invalid) × (e ≢ no_choices)

-- What a completion sends.
abbrev pub request_of : Config → List Message → Option String → Option ℕ → Request
request_of cfg messages model max_tokens = record {
  model = or_model model cfg.model;
  messages = messages;
  max_tokens = or_tokens max_tokens cfg.max_tokens;
}

-- What either completion makes of the call.
abbrev pub tail : {A : Type 0} → (Choice → A) → Response × Usage → Call (A × Usage)
tail f (response, u) = do choice ← first_choice response.choices; pure (f choice, u)

tail-Metered :
    {A : Type 0} (cfg : Config) (gateway : Gateway) (request : Request) (f : Choice → A) (u : Usage)
    (s s' : Client) (choices : List Choice)
    → IsMetered cfg s s' u × Charges cfg gateway request s u
    → Metered cfg gateway request s
        (continue (first_choice choices s') λ choice. pure (f choice, u))
tail-Metered cfg gateway request f u s s' [] m = (u, m.0, m.1)
tail-Metered cfg gateway request f u s s' (choice ∷ others) m = m

pub tail_call-Metered :
    {A : Type 0} (cfg : Config) (gateway : Gateway) (request : Request) (f : Choice → A)
    (s : Client) (o : Result LlmError (Response × Usage) × Client)
    → Called cfg gateway request s o
    → Metered cfg gateway request s (continue o (tail f))
tail_call-Metered cfg gateway request f s (ok (response, u), s') m =
    tail-Metered cfg gateway request f u s s' response.choices (m.0, (response, m.1, m.2))
tail_call-Metered cfg gateway request f s (raised no_choices, s') m = absurd (m.3 refl)
tail_call-Metered cfg gateway request f s (raised _, s') m = (m.0, m.1, m.2)

pub tail_call-Answers :
    (cfg : Config) (gateway : Gateway) (request : Request) (s s' : Client) (text : String)
    (u : Usage) (o : Result LlmError (Response × Usage) × Client)
    → Called cfg gateway request s o
    → continue o (tail λ choice. or_empty choice.content) ≡ (ok (text, u), s')
    → Answers gateway s.sent text
tail_call-Answers cfg gateway request s s' text u (ok (response, v), t) m e =
    go response.choices refl e
  where
    go :
        (choices : List Choice)
        → response.choices ≡ choices
        → continue {B = String × Usage}
            (first_choice choices t)
            (λ choice. pure (or_empty choice.content, v))
          ≡ (ok (text, u), s')
        → Answers gateway s.sent text
    go [] p q = cc
    go (choice ∷ others) p q = (request, response, choice, others, m.1, p, cc)
tail_call-Answers cfg gateway request s s' text u (raised err, t) m e = cc

module _ (cfg : Config) (gateway : Gateway) (messages : List Message) (model : Option String) where
  pub guarded_call-Called :
      (max_tokens : Option ℕ) (s : Client)
      → Called cfg gateway
          (request_of cfg messages model max_tokens)
          s
          (guarded_call cfg gateway messages model max_tokens s)
  unfolding guarded_call call_gateway metered
  guarded_call-Called max_tokens s = ground arith
