-- ===== src/Dashboard/Tests.antt =====
-- Runs of the models of dashboard/aggregator.py, and its theorems at concrete inputs.
use agent_bakery.Prelude.{ℕ, ◌≡◌, refl, true, false, none, some, [], ◌∷◌}
use agent_bakery.Prelude.Text.{f_string, show}
use agent_bakery.Dashboard.Upstream.{Http, timeout, response, get}
use agent_bakery.Dashboard.Tiles.{AgentSpec, Metrics, no_metrics, Readiness, status, health}
use agent_bakery.Dashboard.Costs.{cost_rollup}
use agent_bakery.Dashboard.Costs.Balance.{Agents}

abbrev qa : AgentSpec
qa = record {
  slug = "qa";
  title = "QA";
  port = 8101;
  kind = "service";
  has_incidents = false;
  has_findings = true;
  has_runs = false;
  has_pm = false;
}

abbrev healthy : Http ℕ
healthy = response 200 (some 1)

abbrev unready : Http Readiness
unready = response 503 none

abbrev metrics : Http Metrics
metrics = response 200 (some (record no_metrics { llm_cost_usd_today = some 1250000 }))

unready_is_amber : status (health qa healthy unready metrics) ≡ "amber"
unfolding status health get f_string show
unready_is_amber = refl

abbrev agents : Agents
agents =
    (qa, metrics)
    ∷ (record qa { slug = "pm" }, timeout)
    ∷ (record qa { slug = "dash"; kind = "self" }, metrics)
    ∷ []

total_of_one : (cost_rollup agents).total ≡ 1250000
unfolding cost_rollup get
total_of_one = refl
