-- ===== src/Dashboard/Costs.antt =====
-- `cost_rollup` of dashboard/aggregator.py, without its cache, in millionths of a dollar.
pub mod Balance
use agent_bakery.Prelude.{
  ℕ, ◌+◌, String, Bool, Option, none, some, List, [], ◌∷◌, ◌++◌, str_eq, if◌then◌else◌,
}
use agent_bakery.Prelude.Dict.{Dict, lookup, insert}
use agent_bakery.Dashboard.Upstream.{Http, Answer, payload, unavailable, get}
use agent_bakery.Dashboard.Tiles.{AgentSpec, Metrics}

pub record Rollup : Type 0 where
  pub per_agent : Dict ℕ
  pub unavailable_agents : List String
  pub total : ℕ

-- `res.get("llm_cost_usd_today") or 0.0`
abbrev pub spent : Metrics → ℕ
spent metrics = elim metrics.llm_cost_usd_today [ none ↦ 0 | some usd ↦ usd ]

abbrev pub add_answer : String → Answer Metrics → Rollup → Rollup
add_answer slug (unavailable reason) r = record r {
  unavailable_agents = r.unavailable_agents ++ slug ∷ [];
}
add_answer slug (payload metrics) r = record r {
  per_agent = insert slug (spent metrics) r.per_agent;
  total = r.total + spent metrics;
}

-- The loop over the agents and their answers, on top of what it has so far.
unfoldable pub roll_up : List (AgentSpec × Http Metrics) → Rollup → Rollup
unfolding get
roll_up [] r = r
roll_up ((spec, answer) ∷ rest) r =
    roll_up rest (if str_eq spec.kind "self" then r else add_answer spec.slug (get answer) r)

unfoldable pub cost_rollup : List (AgentSpec × Http Metrics) → Rollup
unfolding roll_up
cost_rollup agents = roll_up agents (record { per_agent = []; unavailable_agents = []; total = 0 })
