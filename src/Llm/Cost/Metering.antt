-- ===== src/Llm/Cost/Metering.antt =====
-- The usage meter of agentkit/llm.py: totals per model, and the fail-closed price.
use agent_bakery.Prelude.{ℕ, ◌+◌, ◌*◌, String, ◌≡◌, true, false, none, [], ◌∷◌, arith}
use agent_bakery.Prelude.Dict.{Dict, lookup, insert}
use agent_bakery.Llm.Cost.{Price, Usage, add, add_models, spent_on, estimate_cost}

-- The sum of the spend per model.
abbrev pub total : Dict ℕ → ℕ
total [] = 0
total ((model, usd) ∷ d) = usd + total d

total-insert :
    (model : String) (usd : ℕ) (d : Dict ℕ)
    → total (insert model (spent_on model d + usd) d) ≡ total d + usd
total-insert model usd [] = ground arith
total-insert model usd ((m, v) ∷ d) = ground (arith, total-insert model usd d)

total-add_models : (other mine : Dict ℕ) → total (add_models other mine) ≡ total mine + total other
unfolding add_models
total-add_models [] mine = ground arith
total-add_models ((m, usd) ∷ other) mine =
    ground (
      arith,
      total-add_models other (insert m (spent_on m mine + usd) mine),
      total-insert m usd mine,
    )

-- The spend per model adds up to the spend.
abbrev pub IsSplit : Usage → Type 0
IsSplit u = total u.by_model ≡ u.cost

-- Adding two usages whose split by model adds up to their cost gives one whose split does so too.
pub add-IsSplit : (mine other : Usage) → IsSplit mine → IsSplit other → IsSplit (add mine other)
unfolding add
add-IsSplit mine other h k = omega (arith, total-add_models other.by_model mine.by_model)

-- Failing closed: a model with no price costs at least 1000 USD per million tokens of any kind,
-- unless `allow_unpriced` is set.
pub unpriced_cost :
    (prices : Dict Price) (model : String) (p c : ℕ)
    → lookup model prices ≡ none
    → (estimate_cost prices model p c false ≡ (p + c) * 100000)
      × (estimate_cost prices model p c true ≡ 0)
unfolding estimate_cost
unpriced_cost prices model p c h = ground arith
