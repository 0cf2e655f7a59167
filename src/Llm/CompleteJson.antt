-- ===== src/Llm/CompleteJson.antt =====
-- `LLMClient.complete_json` of agentkit/llm.py: a chat completion validated into a schema, with
-- corrective retries. The schema is a parameter: `validated` is `schema.model_validate(json.loads(t))`
-- (`none` where either raises), `corrective` the message that quotes the schema.
pub mod Retries
use agent_bakery.Prelude.Chars.{Chars}
use agent_bakery.Prelude.Text.{codes}
use agent_bakery.Prelude.{ℕ, zero, suc, String, Option, none, some, List, [], ◌∷◌, ◌++◌}
use agent_bakery.Prelude.Exec.{Exec, pure, raise, ◌>>=◌}
use agent_bakery.Llm.Cost.{Usage, Message, add, no_usage}
use agent_bakery.Llm.Client.{Config, Gateway, Call, json_invalid, or_model, complete}
use agent_bakery.Llm.JsonText.{json_substring}

-- The failed answer and the corrective message, appended to the conversation.
abbrev pub corrected : String → List Message → String → List Message
corrected corrective convo text =
    convo
    ++ (record { role = "assistant"; content = some text }
        ∷ record { role = "user"; content = some corrective }
        ∷ [])

module _ {M : Type 0} (validated : List ℕ → Option M) (corrective : String) (cfg : Config)
    (gateway : Gateway) (model : String) (max_tokens : Option ℕ) where
  -- The `for` loop, with the attempts that are left.
  unfoldable pub attempts : ℕ → List Message → Usage → Call (M × Usage)
  attempts zero convo total = raise json_invalid
  attempts (suc left) convo total = do
    (text, usage) ← complete cfg gateway convo (some model) max_tokens
    elim (validated (json_substring (codes text))) [
      | some obj ↦ pure (obj, add total usage)
      | none ↦ attempts left (corrected corrective convo text) (add total usage)
    ]

unfoldable pub complete_json :
    {M : Type 0}
    → (List ℕ → Option M)
    → String
    → Config
    → Gateway
    → List Message
    → Option String
    → Option ℕ
    → ℕ
    → Call (M × Usage)
unfolding attempts
complete_json validated corrective cfg gateway messages model max_tokens max_retries =
    attempts validated corrective cfg gateway (or_model model cfg.model) max_tokens
      (suc max_retries) messages no_usage
