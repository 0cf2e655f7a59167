-- ===== src/Dashboard/Store/Tests.antt =====
-- Runs of the models of dashboard/store.py, and their theorems at concrete inputs.
use agent_bakery.Prelude.{ℕ, ◌*◌, ◌≡◌, refl, true, some, none, List, [], ◌∷◌, arith}
use agent_bakery.Prelude.Chars.{Chars}
use agent_bakery.Prelude.Text.{codes}
use agent_bakery.Prelude.Rows.{select, sum_of, AllOf, IsSorted}
use agent_bakery.Prelude.Groups.{value_of, text_le, text_le-IsOrder}
use agent_bakery.Dashboard.Store.{hour_us, day_us, Heartbeat, DailyKey, Tables}
use agent_bakery.Dashboard.Store.Costs.{
  daily_key, model_label, rollup_cost_daily, record_cost, record_cost_by_model, prune_old_data,
}
use agent_bakery.Dashboard.Store.Rollup.{spent_on, peak}
use agent_bakery.Dashboard.Store.Rollup.History.{
  Op, cost, cost_by_model, rollup, prune, after, history, no_tables, daily_row-IsPeak,
}
use agent_bakery.Dashboard.Store.Rollup.Totals.{total_key, totals}
use agent_bakery.Dashboard.Store.Heartbeats.{beat_of, recent_heartbeats}
use agent_bakery.Dashboard.Store.CostQueries.{is_total, Window, most_spent_first, cost_windows}
use agent_bakery.Dashboard.Store.CostQueries.Windows.{IsNested, cost_windows_consistent}

abbrev qa : Chars
qa = codes "qa"

abbrev opus : Chars
opus = codes "opus"

abbrev writes : List (ℕ × Op)
writes =
    (100, cost qa (some 500) none)
    ∷ (200, cost_by_model qa ((opus, some 400) ∷ ([], some 90) ∷ []) none)
    ∷ (300, cost qa (some 200) (some 250))
    ∷ (40 * day_us, prune 30)
    ∷ (40 * day_us, rollup)
    ∷ (40 * day_us, cost qa (some 70) none)
    ∷ []

abbrev opus_key : DailyKey
opus_key = daily_key qa opus 200

daily_row-IsPeak_example :
    spent_on opus_key (after writes no_tables).cost_daily ≡ peak opus_key (history writes)
daily_row-IsPeak_example = daily_row-IsPeak writes opus_key

opus_spent : spent_on opus_key (after writes no_tables).cost_daily ≡ some 400
unfolding after record_cost record_cost_by_model prune_old_data rollup_cost_daily model_label
opus_spent = refl

total_spent : peak (total_key qa 0) (totals writes) ≡ some 500
total_spent = refl

-- A table whose daily row lacks the greatest event.
abbrev lagging : Tables
lagging = record no_tables {
  cost_events = record { agent = qa; ts = 100; usd_today = 500 } ∷ [];
  cost_daily = (total_key qa 0, 300) ∷ [];
}

repaired : spent_on (total_key qa 0) (rollup_cost_daily lagging).cost_daily ≡ some 500
unfolding rollup_cost_daily
repaired = refl

abbrev beat_at : ℕ → Heartbeat
beat_at ts = record {
  agent = qa;
  ts = ts;
  up = true;
  ready = none;
  uptime_s = none;
  error_rate_5m = none;
  requests_5m = none;
}

abbrev beats : List Heartbeat
beats = beat_at (2 * hour_us) ∷ beat_at 5 ∷ beat_at (3 * hour_us) ∷ []

newest_shown : recent_heartbeats (3 * hour_us) qa 2 1 beats ≡ beat_of (beat_at (3 * hour_us)) ∷ []
unfolding recent_heartbeats
newest_shown = refl

abbrev daily_rows : List (DailyKey × ℕ)
daily_rows =
    (record { agent = qa; model = []; day = 1 }, 30)
    ∷ (record { agent = qa; model = opus; day = 9 }, 25)
    ∷ (record { agent = qa; model = []; day = 9 }, 40)
    ∷ (record { agent = opus; model = []; day = 9 }, 90)
    ∷ []

cost_windows_consistent_example :
    let windows = cost_windows text_le (10 * day_us) 7 30 daily_rows in
    AllOf IsNested windows
    × (sum_of Window.all_time windows ≡ sum_of value_of (select (λ r. is_total r.0) daily_rows))
    × IsSorted (most_spent_first text_le) windows
cost_windows_consistent_example =
    cost_windows_consistent text_le (10 * day_us) 7 30 daily_rows text_le-IsOrder (omega arith)

windows_seen :
    cost_windows text_le (10 * day_us) 7 30 daily_rows
    ≡ record { agent = opus; week = 90; month = 90; all_time = 90; last_active = 9 }
      ∷ record { agent = qa; week = 40; month = 70; all_time = 70; last_active = 9 }
      ∷ []
unfolding cost_windows
windows_seen = refl
