-- ===== src/Dashboard/Snapshot/Tests.antt =====
-- Runs of the loops of dashboard/api.py, and their theorem at concrete inputs.
use agent_bakery.Prelude.{ℕ, ◌*◌, ◌≡◌, refl, true, false, some, none, String, List, [], ◌∷◌}
use agent_bakery.Prelude.Text.{codes}
use agent_bakery.Dashboard.Tiles.{AgentSpec, no_metrics}
use agent_bakery.Dashboard.Store.{day_us}
use agent_bakery.Dashboard.Store.Costs.{
  record_heartbeat, record_cost, record_cost_by_model, prune_old_data, rollup_cost_daily,
  model_label,
}
use agent_bakery.Dashboard.Store.Rollup.{spent_on, peak}
use agent_bakery.Dashboard.Store.Rollup.History.{no_tables}
use agent_bakery.Dashboard.Store.Rollup.Totals.{total_key}
use agent_bakery.Dashboard.Snapshot.{
  Tile, record_tile, snapshot, prune_turn, Turn, snapshotted, pruned, take_turns,
}
use agent_bakery.Dashboard.Snapshot.Spend.{shown_in, spend_is_kept}

abbrev spec : String → AgentSpec
spec kind = record {
  slug = "qa";
  title = "QA";
  port = 8101;
  kind = kind;
  has_incidents = false;
  has_findings = true;
  has_runs = false;
  has_pm = false;
}

abbrev tile : String → ℕ → ℕ → Tile
tile kind usd at = record {
  health = record {
    spec = spec kind;
    live = true;
    ready = some true;
    checks = [];
    metrics = record no_metrics {
      llm_cost_usd_today = some usd;
      cost_by_model_today = some (("", 900) ∷ []);
    };
    error = none;
  };
  beat_at = at;
  cost_at = at;
  models_at = at;
}

abbrev turns : List Turn
turns =
    snapshotted (tile "service" 500 100 ∷ tile "self" 700 100 ∷ [])
    ∷ pruned (100 * day_us) 90
    ∷ snapshotted (tile "service" 300 200 ∷ [])
    ∷ []

spend_is_kept_example :
    spent_on (total_key (codes "qa") 0) (take_turns turns no_tables).cost_daily
    ≡ peak (total_key (codes "qa") 0) (shown_in turns)
spend_is_kept_example = spend_is_kept turns (codes "qa") 0

greatest_kept :
    spent_on (total_key (codes "qa") 0) (take_turns turns no_tables).cost_daily ≡ some 500
unfolding snapshot record_tile prune_turn record_heartbeat record_cost record_cost_by_model
    prune_old_data rollup_cost_daily model_label
greatest_kept = refl
