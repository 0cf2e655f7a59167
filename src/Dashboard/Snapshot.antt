-- ===== src/Dashboard/Snapshot.antt =====
-- The two background loops of dashboard/api.py, which write what the agents report into the store and
-- prune it: `_snapshot_loop` and `_prune_loop`. A statement that the database refuses ends a turn of a
-- loop early, and is not modelled.
mod Tests
pub mod Spend
use agent_bakery.Prelude.{ℕ, String, Option, none, some, List, [], ◌∷◌, str_eq, if◌then◌else◌}
use agent_bakery.Prelude.Dict.{Dict}
use agent_bakery.Prelude.Chars.{Chars}
use agent_bakery.Prelude.Text.{codes}
use agent_bakery.Dashboard.Tiles.{HealthDto}
use agent_bakery.Dashboard.Store.{Heartbeat, Tables}
use agent_bakery.Dashboard.Store.Costs.{
  record_heartbeat, record_cost, record_cost_by_model, rollup_cost_daily, prune_old_data,
}

-- A tile, and the times at which its three writes are made.
pub record Tile : Type 0 where
  pub health : HealthDto
  pub beat_at : ℕ
  pub cost_at : ℕ
  pub models_at : ℕ

abbrev pub agent_of : Tile → Chars
agent_of h = codes h.health.spec.slug

abbrev pub heartbeat_of : Tile → Heartbeat
heartbeat_of h = record {
  agent = agent_of h;
  ts = h.beat_at;
  up = h.health.live;
  ready = h.health.ready;
  uptime_s = h.health.metrics.uptime;
  error_rate_5m = h.health.metrics.error_rate_5m;
  requests_5m = h.health.metrics.requests_5m;
}

-- `by_model.items()`
abbrev pub items_of : Dict ℕ → List (Chars × Option ℕ)
items_of [] = []
items_of ((model, usd) ∷ by_model) = (codes model, some usd) ∷ items_of by_model

-- The costs, where the tile has some.
abbrev pub record_total : Tile → Option ℕ → Tables → Tables
record_total h none t = t
record_total h (some usd) t = record_cost h.cost_at (agent_of h) (some usd) none t

abbrev pub record_split : Tile → Option (Dict ℕ) → Tables → Tables
record_split h none t = t
record_split h (some []) t = t
record_split h (some (item ∷ by_model)) t =
    record_cost_by_model h.models_at (agent_of h) (items_of (item ∷ by_model)) none t

unfoldable pub record_tile : Tile → Tables → Tables
record_tile h t =
    if str_eq h.health.spec.kind "self"
    then t
    else record_split h h.health.metrics.cost_by_model_today (
        record_total h h.health.metrics.llm_cost_usd_today
          (record_heartbeat h.beat_at none (heartbeat_of h) t))

-- One turn of `_snapshot_loop`.
unfoldable pub snapshot : List Tile → Tables → Tables
snapshot [] t = t
snapshot (h ∷ tiles) t = snapshot tiles (record_tile h t)

-- One turn of `_prune_loop`.
unfoldable pub prune_turn : ℕ → ℕ → Tables → Tables
prune_turn now days t = (prune_old_data now days (rollup_cost_daily t)).0

-- The turns of the two loops, in the order in which they come.
pub data Turn : Type 0 where
  snapshotted : List Tile → Turn
  pruned : ℕ → ℕ → Turn

abbrev pub take_turn : Turn → Tables → Tables
take_turn (snapshotted tiles) t = snapshot tiles t
take_turn (pruned now days) t = prune_turn now days t

abbrev pub take_turns : List Turn → Tables → Tables
take_turns [] t = t
take_turns (turn ∷ turns) t = take_turns turns (take_turn turn t)
