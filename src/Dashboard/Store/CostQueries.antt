-- ===== src/Dashboard/Store/CostQueries.antt =====
-- What the screens read from the daily roll-up: `cost_series`, `cost_windows`, `cost_model_daily` and
-- `cost_agent_daily` of dashboard/store.py. The collation by which the database orders texts is a
-- parameter.
pub mod Windows
use Prim.Native.Nat.{max}
use agent_bakery.Prelude.{
  ℕ, ◌+◌, ◌/◌, Bool, not, ◌&&◌, ◌||◌, List, [], ◌∷◌, map, ltb, ◌==◌, if◌then◌else◌,
}
use agent_bakery.Prelude.Chars.{Chars, same_text}
use agent_bakery.Prelude.Rows.{select, sort_by}
use agent_bakery.Prelude.Groups.{add_to}
use agent_bakery.Dashboard.Store.{day_us, DailyKey}
use agent_bakery.Dashboard.Store.Costs.{agent_total_model}

-- `day > (now() - make_interval(days => days))::date`
abbrev pub within : ℕ → ℕ → ℕ → Bool
within now days day = ltb (now / day_us) (day + days)

abbrev pub is_total : DailyKey → Bool
is_total key = same_text key.model agent_total_model

-- What the charts are built of: an amount of a day and a model.
pub record CostRow : Type 0 where
  pub day : ℕ
  pub model : Chars
  pub usd : ℕ

-- A cell of a `GROUP BY day, …`.
abbrev pub same_cell : ℕ × Chars → ℕ × Chars → Bool
same_cell (d, m) (e, n) = d == e && same_text m n

abbrev pub cost_row : (ℕ × Chars) × ℕ → CostRow
cost_row ((day, model), usd) = record { day = day; model = model; usd = usd }

abbrev pub sum_cells : (DailyKey → Chars) → List (DailyKey × ℕ) → List ((ℕ × Chars) × ℕ)
sum_cells dimension [] = []
sum_cells dimension ((key, usd) ∷ rows) =
    add_to same_cell (key.day, dimension key) usd (sum_cells dimension rows)

pub record AgentCost : Type 0 where
  pub agent : Chars
  pub day : ℕ
  pub usd : ℕ

abbrev pub agent_cost : DailyKey × ℕ → AgentCost
agent_cost (key, usd) = record { agent = key.agent; day = key.day; usd = usd }

pub record Window : Type 0 where
  pub agent : Chars
  pub week : ℕ
  pub month : ℕ
  pub all_time : ℕ
  pub last_active : ℕ

-- `sum(usd) FILTER (WHERE …)`, one row's part.
abbrev pub counted : Bool → ℕ → ℕ
counted within_window usd = if within_window then usd else 0

module _ (now week_days month_days : ℕ) where
  abbrev pub first_window : DailyKey → ℕ → Window
  first_window key usd = record {
    agent = key.agent;
    week = counted (within now week_days key.day) usd;
    month = counted (within now month_days key.day) usd;
    all_time = usd;
    last_active = key.day;
  }

  -- A row of the table, added to its agent's group.
  unfoldable pub add_window : DailyKey → ℕ → List Window → List Window
  add_window key usd [] = first_window key usd ∷ []
  add_window key usd (w ∷ ws) =
      if same_text w.agent key.agent
      then (record w {
        week = w.week + counted (within now week_days key.day) usd;
        month = w.month + counted (within now month_days key.day) usd;
        all_time = w.all_time + usd;
        last_active = max w.last_active key.day;
      })
        ∷ ws
      else w ∷ add_window key usd ws

  unfoldable pub group_windows : List (DailyKey × ℕ) → List Window
  unfolding add_window
  group_windows [] = []
  group_windows ((key, usd) ∷ rows) = add_window key usd (group_windows rows)

module _ (collate : Chars → Chars → Bool) where
  -- `ORDER BY day DESC, agent`
  abbrev pub latest_day_first : AgentCost → AgentCost → Bool
  latest_day_first r s = ltb s.day r.day || r.day == s.day && collate r.agent s.agent

  unfoldable pub cost_series : ℕ → ℕ → List (DailyKey × ℕ) → List AgentCost
  unfolding sort_by
  cost_series now days rows =
      sort_by latest_day_first
        (map agent_cost (select (λ r. is_total r.0 && within now days r.0.day) rows))

  -- `ORDER BY 4 DESC NULLS LAST, agent`
  abbrev pub most_spent_first : Window → Window → Bool
  most_spent_first v w =
      ltb w.all_time v.all_time || v.all_time == w.all_time && collate v.agent w.agent

  unfoldable pub cost_windows : ℕ → ℕ → ℕ → List (DailyKey × ℕ) → List Window
  unfolding group_windows sort_by
  cost_windows now week_days month_days rows =
      sort_by most_spent_first
        (group_windows now week_days month_days (select (λ r. is_total r.0) rows))

  -- `ORDER BY day, model`
  abbrev pub earliest_day_first : CostRow → CostRow → Bool
  earliest_day_first r s = ltb r.day s.day || r.day == s.day && collate r.model s.model

  unfoldable pub cost_model_daily : ℕ → ℕ → List (DailyKey × ℕ) → List CostRow
  unfolding sort_by add_to
  cost_model_daily now days rows = sort_by earliest_day_first (
      map cost_row (
        sum_cells DailyKey.model
          (select (λ r. not (is_total r.0) && within now days r.0.day) rows)))

  -- The agent is both the dimension of the series and its legacy alias `model`.
  unfoldable pub cost_agent_daily : ℕ → ℕ → List (DailyKey × ℕ) → List CostRow
  unfolding sort_by add_to
  cost_agent_daily now days rows = sort_by earliest_day_first (
      map cost_row
        (sum_cells DailyKey.agent (select (λ r. is_total r.0 && within now days r.0.day) rows)))
