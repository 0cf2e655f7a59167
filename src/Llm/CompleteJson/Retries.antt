-- ===== src/Llm/CompleteJson/Retries.antt =====
-- The retries of `complete_json` in agentkit/llm.py are bounded, metered and validated.
use agent_bakery.Prelude.{
  ℕ, zero, suc, ◌+◌, ◌≤◌, ◌<◌, ◌≡◌, refl, ap, String, Option, none, some, List, arith,
}
use agent_bakery.Prelude.Exec.{Result, ok, raised, pure, continue}
use agent_bakery.Llm.Cost.{Usage, Message, add, no_usage}
use agent_bakery.Llm.Client.{
  Config, Gateway, Client, Call, LlmError, json_invalid, no_choices, complete, or_model,
}
use agent_bakery.Llm.Client.Calls.{Metered, Answers, request_of}
use agent_bakery.Llm.Client.Budget.{complete-Metered, complete_answers}
use agent_bakery.Llm.JsonText.{json_substring}
use agent_bakery.Llm.CompleteJson.{codes, corrected, attempts, complete_json}

-- What the loop did from the state `s`, with `left` attempts and the usage `total` so far. A result
-- validates the JSON in the gateway's answer to the last request, took between one and `left`
-- requests, and its usage accounts for all that the client's meter has grown by; `json_invalid` means that all attempts were sent; any
-- other error comes after at most `left` requests, and with a meter that has not shrunk.
abbrev pub Retried :
    {M : Type 0}
    → (List ℕ → Option M)
    → Gateway
    → ℕ
    → Usage
    → Client
    → Result LlmError (M × Usage) × Client
    → Type 0
Retried validated gateway left total s (ok (obj, u), s') =
    ((last : ℕ) × (text : String) × (s'.sent ≡ suc last)
      × Answers gateway last text
      × (validated (json_substring (codes text)) ≡ some obj))
    × (s.sent < s'.sent)
    × (s'.sent ≤ s.sent + left)
    × (u.cost + s.usage.cost ≡ total.cost + s'.usage.cost)
Retried validated gateway left total s (raised json_invalid, s') = s'.sent ≡ s.sent + left
Retried validated gateway left total s (raised e, s') =
    (s'.sent ≤ s.sent + left) × (s.usage.cost ≤ s'.usage.cost)

-- What was done after one sent request whose answer was bad, seen from before that request.
earlier :
    {M : Type 0} (validated : List ℕ → Option M) (gateway : Gateway) (left : ℕ) (total u : Usage)
    (s s' : Client) (o : Result LlmError (M × Usage) × Client)
    → s'.sent ≡ suc s.sent
    → s'.usage ≡ add s.usage u
    → Retried validated gateway left (add total u) s' o
    → Retried validated gateway (suc left) total s o
unfolding add
earlier validated gateway left total u s s' (ok (obj, v), t) p q h =
    let cost = ap (λ (v : Usage). v.cost) q in
    (h.0, omega (arith, h, p), omega (arith, h, p), omega (arith, h, cost))
earlier validated gateway left total u s s' (raised json_invalid, t) p q h = omega arith
earlier validated gateway left total u s s' (raised _, t) p q h =
    let cost = ap (λ (v : Usage). v.cost) q in omega (arith, h, cost)

module _ {M : Type 0} (validated : List ℕ → Option M) (corrective : String) (cfg : Config)
    (gateway : Gateway) (model : String) (max_tokens : Option ℕ) where
  -- One attempt, from what its completion did, with the loop that follows a bad answer.
  follow :
      (left : ℕ) (convo : List Message) (total : Usage) (s : Client)
      (o : Result LlmError (String × Usage) × Client)
      → complete cfg gateway convo (some model) max_tokens s ≡ o
      → Metered cfg gateway (request_of cfg convo (some model) max_tokens) s o
      → ((convo' : List Message) (total' : Usage) (s' : Client)
          → Retried validated gateway left total' s'
              (attempts validated corrective cfg gateway model max_tokens left convo' total' s'))
      → Retried validated gateway
          (suc left)
          total
          s
          (attempts validated corrective cfg gateway model max_tokens (suc left) convo total s)
  unfolding attempts add
  follow left convo total s (raised json_invalid, s') eq m ih = absurd (m.2 refl)
  follow left convo total s (raised no_choices, s') eq m ih =
      rw (eq, Retried, continue) (omega (arith, m.1, ap (λ (v : Usage). v.cost) m.1.moved))
  follow left convo total s (raised _, s') eq m ih =
      rw (eq, Retried, continue) (omega (arith, m, ap (λ (v : Usage). v.cost) m.0))
  follow left convo total s (ok (text, u), s') eq m ih =
      rw (eq, Retried, continue) (go (validated (json_substring (codes text))) refl)
    where
      go :
          (v : Option M)
          → validated (json_substring (codes text)) ≡ v
          → Retried validated gateway (suc left) total s (
              (elim v as (λ _. Call (M × Usage)) [
                | some obj ↦ pure (obj, add total u)
                | none ↦
                    attempts validated corrective cfg gateway model max_tokens left
                      (corrected corrective convo text)
                      (add total u)
              ])
                s')
      go none e =
          earlier validated gateway left total u s s' _ m.0.sent m.0.moved
            (ih (corrected corrective convo text) (add total u) s')
      go (some obj) e =
          let cost = ap (λ (v : Usage). v.cost) m.0.moved in
          let answers = complete_answers cfg gateway convo (some model) max_tokens s s' text u eq in
          (
            (s.sent, text, m.0.sent, answers, e),
            omega (arith, m),
            omega (arith, m),
            omega (arith, m, cost),
          )

  attempts-Retried :
      (left : ℕ) (convo : List Message) (total : Usage) (s : Client)
      → Retried validated gateway left total s
          (attempts validated corrective cfg gateway model max_tokens left convo total s)
  unfolding attempts
  attempts-Retried zero convo total s = omega arith
  attempts-Retried (suc left) convo total s =
      follow left convo total s (complete cfg gateway convo (some model) max_tokens s) refl
        (complete-Metered cfg gateway convo (some model) max_tokens s).0 (attempts-Retried left)

-- `complete_json` with `n` retries ends after at most n + 1 requests: with an object that validates
-- the JSON in the text of the gateway's answer to the last of them and with a usage that costs what
-- the meter grew by; with `json_invalid` after n + 1 requests; or with another error, and a meter that
-- costs at least what it did.
pub complete_json-Retried :
    {M : Type 0} (validated : List ℕ → Option M) (corrective : String) (cfg : Config)
    (gateway : Gateway) (messages : List Message) (model : Option String) (max_tokens : Option ℕ)
    (max_retries : ℕ) (s : Client)
    → Retried validated gateway
        (suc max_retries)
        no_usage
        s
        (complete_json validated corrective cfg gateway messages model max_tokens max_retries s)
unfolding complete_json
complete_json-Retried validated corrective cfg gateway messages model max_tokens max_retries s =
    attempts-Retried validated corrective cfg gateway (or_model model cfg.model) max_tokens
      (suc max_retries) messages no_usage s
