-- ===== src/Llm/Cost.antt =====
-- The price table, the usage meter and the cost estimates of agentkit/llm.py.
-- Money is exact: a price is in US cents per million tokens, a cost in units of 10⁻⁸ USD, so that
-- tokens times price is the cost and the division by 1_000_000 falls away.
pub mod Overrides
pub mod Metering
use Prim.Native.String.{count}
use agent_bakery.Prelude.{
  ℕ, ◌+◌, ◌*◌, ◌/◌, String, Bool, Option, none, some, List, [], ◌∷◌, length, if◌then◌else◌,
}
use agent_bakery.Prelude.Dict.{Dict, lookup, insert}

abbrev pub Price : Type 0
Price = ℕ × ℕ

abbrev pub default_prices : Dict Price
default_prices =
    ("claude-sonnet", (300, 1500))
    ∷ ("gpt-5", (125, 1000))
    ∷ ("gemini-pro", (125, 500))
    ∷ ("deepseek-chat", (30, 110))
    ∷ ("deepseek-reasoner", (55, 220))
    ∷ ("qwen3.5-flash", (10, 40))
    ∷ ("qwen3.5-plus", (40, 120))
    ∷ ("glm-5.1", (60, 220))
    ∷ ("kimi-k2.6", (60, 250))
    ∷ ("minimax-m3", (30, 120))
    ∷ ("grok-4.3", (300, 1500))
    ∷ []

abbrev pub zero_price : Price
zero_price = (0, 0)

abbrev pub unpriced_sentinel : Price
unpriced_sentinel = (100000, 100000)

-- What `json.loads(raw).items()` gives of the variable AGENTKIT_PRICES: it is unset or empty, it is
-- not a JSON object, or it has entries, each a pair of numbers or (`none`) a value that does not
-- unpack into two numbers and so raises.
pub data PricesVariable : Type 0 where
  unset : PricesVariable
  not_an_object : PricesVariable
  entries : List (String × Option Price) → PricesVariable

-- The loop of `_load_prices`: it writes as it goes, and the first bad entry ends it.
unfoldable pub merge : List (String × Option Price) → Dict Price → Dict Price
merge [] prices = prices
merge ((model, none) ∷ rest) prices = prices
merge ((model, some price) ∷ rest) prices = merge rest (insert model price prices)

unfoldable pub load_prices : PricesVariable → Dict Price
unfolding merge
load_prices unset = default_prices
load_prices not_an_object = default_prices
load_prices (entries override) = merge override default_prices

pub record Usage : Type 0 where
  pub prompt_tokens : ℕ
  pub completion_tokens : ℕ
  pub cost : ℕ
  pub by_model : Dict ℕ

abbrev pub no_usage : Usage
no_usage = record { prompt_tokens = 0; completion_tokens = 0; cost = 0; by_model = [] }

-- `d.get(model, 0.0)`
abbrev pub spent_on : String → Dict ℕ → ℕ
spent_on model d = elim (lookup model d) [ none ↦ 0 | some usd ↦ usd ]

unfoldable pub add_models : Dict ℕ → Dict ℕ → Dict ℕ
add_models [] mine = mine
add_models ((model, usd) ∷ rest) mine =
    add_models rest (insert model (spent_on model mine + usd) mine)

-- `Usage.add`
unfoldable pub add : Usage → Usage → Usage
unfolding add_models
add mine other = record {
  prompt_tokens = mine.prompt_tokens + other.prompt_tokens;
  completion_tokens = mine.completion_tokens + other.completion_tokens;
  cost = mine.cost + other.cost;
  by_model = add_models other.by_model mine.by_model;
}

abbrev pub cost_at : Price → ℕ → ℕ → ℕ
cost_at (in_price, out_price) prompt_tokens completion_tokens =
    prompt_tokens * in_price + completion_tokens * out_price

abbrev pub price_of : Option Price → Bool → Price
price_of (some price) allow_unpriced = price
price_of none allow_unpriced = if allow_unpriced then zero_price else unpriced_sentinel

unfoldable pub estimate_cost : Dict Price → String → ℕ → ℕ → Bool → ℕ
estimate_cost prices model prompt_tokens completion_tokens allow_unpriced =
    cost_at (price_of (lookup model prices) allow_unpriced) prompt_tokens completion_tokens

unfoldable pub estimate_max_cost : Dict Price → String → ℕ → ℕ → Bool → ℕ
unfolding estimate_cost
estimate_max_cost prices model prompt_tokens max_tokens allow_unpriced =
    estimate_cost prices model prompt_tokens max_tokens allow_unpriced

-- A chat message: the role, and the content, which is None on an assistant's tool-call turn.
pub record Message : Type 0 where
  pub role : String
  pub content : Option String

abbrev pub chars : Option String → ℕ
chars none = 0
chars (some text) = count text

unfoldable pub message_chars : List Message → ℕ
message_chars [] = 0
message_chars (m ∷ ms) = count m.role + chars m.content + message_chars ms

-- `estimate_prompt_tokens`, and `_estimate_tokens_loose`, which agrees with it wherever no content
-- is None (the first raises there).
unfoldable pub estimate_prompt_tokens : List Message → ℕ
unfolding message_chars
estimate_prompt_tokens messages = message_chars messages / 4 + 4 * length messages
