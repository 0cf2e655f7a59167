-- ===== src/Dashboard/Store/Rollup/History.antt =====
-- The daily roll-up over any sequence of writes, repairs and prunes of dashboard/store.py.
use mathlib.Core.List.{map-append, append-nil, append_assoc}
use agent_bakery.Prelude.{ℕ, ◌≡◌, refl, Option, List, [], ◌∷◌, ◌++◌, map, arith}
use agent_bakery.Prelude.Chars.{Chars}
use agent_bakery.Dashboard.Store.{
  moment, amount, Heartbeat, CostEvent, CostModelEvent, DailyKey, Tables,
}
use agent_bakery.Dashboard.Store.Costs.{
  agent_total_model, daily_key, record_heartbeat, record_cost, model_label, record_models,
  record_model, record_cost_by_model, event_of_agent, event_of_model, rollup_cost_daily,
  prune_old_data, rollup_upsert,
}
use agent_bakery.Dashboard.Store.Rollup.{Amounts, spent_on, peak, spent_on-upsert, peak-append}
use agent_bakery.Dashboard.Store.Rollup.Covers.{Covers, Covers-more, Covers-append, Covers-delete}
use agent_bakery.Dashboard.Store.Rollup.Repair.{spent_on-rollup}

-- What the dashboard does to the tables, at a time.
pub data Op : Type 0 where
  beat : Heartbeat → Option ℕ → Op
  cost : Chars → Option ℕ → Option ℕ → Op
  cost_by_model : Chars → List (Chars × Option ℕ) → Option ℕ → Op
  rollup : Op
  prune : ℕ → Op

unfoldable pub step : ℕ → Op → Tables → Tables
step now (beat b ts) t = record_heartbeat now ts b t
step now (cost agent usd ts) t = record_cost now agent usd ts t
step now (cost_by_model agent items ts) t = record_cost_by_model now agent items ts t
step now rollup t = rollup_cost_daily t
step now (prune days) t = (prune_old_data now days t).0

unfoldable pub after : List (ℕ × Op) → Tables → Tables
unfolding step
after [] t = t
after ((now, op) ∷ ops) t = after ops (step now op t)

abbrev pub model_reports : Chars → ℕ → List (Chars × Option ℕ) → Amounts
model_reports agent when [] = []
model_reports agent when ((model, usd) ∷ items) =
    (daily_key agent (model_label model) when, amount usd) ∷ model_reports agent when items

-- The amounts that an operation reports: the total of an agent has the empty model, and no report by
-- model has.
abbrev pub reports : ℕ → Op → Amounts
reports now (beat b ts) = []
reports now (cost agent usd ts) =
    (daily_key agent agent_total_model (moment ts now), amount usd) ∷ []
reports now (cost_by_model agent items ts) = model_reports agent (moment ts now) items
reports now rollup = []
reports now (prune days) = []

abbrev pub history : List (ℕ × Op) → Amounts
history [] = []
history ((now, op) ∷ ops) = reports now op ++ history ops

record Tracks (t : Tables) (h : Amounts) : Type 0 where
  daily : (k : DailyKey) → spent_on k t.cost_daily ≡ peak k h
  agents : Covers h (map event_of_agent t.cost_events)
  models : Covers h (map event_of_model t.cost_model_events)

daily-append :
    (key : DailyKey) (usd : ℕ) (rows h : Amounts)
    → ((k : DailyKey) → spent_on k rows ≡ peak k h)
    → (k : DailyKey) → spent_on k (rollup_upsert key usd rows) ≡ peak k (h ++ (key, usd) ∷ [])
daily-append key usd rows h d k =
    ground (arith, d k, spent_on-upsert k key usd rows, peak-append k h ((key, usd) ∷ []))

record_cost-Tracks :
    (now : ℕ) (agent : Chars) (usd ts : Option ℕ) (t : Tables) (h : Amounts)
    → Tracks t h
    → Tracks (record_cost now agent usd ts t) (h ++ reports now (cost agent usd ts))
unfolding record_cost
record_cost-Tracks now agent usd ts t h tr =
    let when = moment ts now in
    let g : Amounts = (daily_key agent agent_total_model when, amount usd) ∷ [] in
    record {
      daily =
          daily-append (daily_key agent agent_total_model when) (amount usd) t.cost_daily h
            tr.daily;
      agents =
          rw
            (map-append event_of_agent t.cost_events
              (record { agent = agent; ts = when; usd_today = amount usd } ∷ []))
            (Covers-append h g (map event_of_agent t.cost_events) tr.agents);
      models = Covers-more h g (map event_of_model t.cost_model_events) tr.models;
    }

record_model-Tracks :
    (agent : Chars) (when : ℕ) (model : Chars) (usd : Option ℕ) (t : Tables) (h : Amounts)
    → Tracks t h
    → Tracks
        (record_model agent when model usd t)
        (h ++ (daily_key agent (model_label model) when, amount usd) ∷ [])
record_model-Tracks agent when model usd t h tr =
    let label = model_label model in
    let g : Amounts = (daily_key agent label when, amount usd) ∷ [] in
    record {
      daily = daily-append (daily_key agent label when) (amount usd) t.cost_daily h tr.daily;
      agents = Covers-more h g (map event_of_agent t.cost_events) tr.agents;
      models =
          rw
            (map-append event_of_model t.cost_model_events
              (record { agent = agent; model = label; ts = when; usd_today = amount usd } ∷ []))
            (Covers-append h g (map event_of_model t.cost_model_events) tr.models);
    }

record_models-Tracks :
    (agent : Chars) (when : ℕ) (items : List (Chars × Option ℕ)) (t : Tables) (h : Amounts)
    → Tracks t h
    → Tracks (record_models agent when items t) (h ++ model_reports agent when items)
record_models-Tracks agent when [] t h tr = rw (append-nil h) tr
record_models-Tracks agent when ((model, usd) ∷ items) t h tr =
    let g : Amounts = (daily_key agent (model_label model) when, amount usd) ∷ [] in
    rw (← append_assoc h g (model_reports agent when items)) (
      record_models-Tracks agent when items (record_model agent when model usd t) (h ++ g)
        (record_model-Tracks agent when model usd t h tr))

rollup-Tracks : (t : Tables) (h : Amounts) → Tracks t h → Tracks (rollup_cost_daily t) h
unfolding rollup_cost_daily
rollup-Tracks t h tr = record {
  daily = λ k. cc (spent_on-rollup k t, tr.daily k, tr.agents k, tr.models k);
  agents = tr.agents;
  models = tr.models;
}

prune-Tracks :
    (now days : ℕ) (t : Tables) (h : Amounts) → Tracks t h → Tracks (prune_old_data now days t).0 h
unfolding prune_old_data
prune-Tracks now days t h tr = record {
  daily = tr.daily;
  agents = Covers-delete CostEvent.ts event_of_agent now days t.cost_events h tr.agents;
  models = Covers-delete CostModelEvent.ts event_of_model now days t.cost_model_events h tr.models;
}

step-Tracks :
    (now : ℕ) (op : Op) (t : Tables) (h : Amounts)
    → Tracks t h
    → Tracks (step now op t) (h ++ reports now op)
unfolding step record_cost_by_model record_heartbeat
step-Tracks now (beat b ts) t h tr =
    rw (append-nil h) (record { daily = tr.daily; agents = tr.agents; models = tr.models })
step-Tracks now (cost agent usd ts) t h tr = record_cost-Tracks now agent usd ts t h tr
step-Tracks now (cost_by_model agent items ts) t h tr =
    record_models-Tracks agent (moment ts now) items t h tr
step-Tracks now rollup t h tr = rw (append-nil h) (rollup-Tracks t h tr)
step-Tracks now (prune days) t h tr = rw (append-nil h) (prune-Tracks now days t h tr)

after-Tracks-history :
    (ops : List (ℕ × Op)) (t : Tables) (h : Amounts)
    → Tracks t h
    → Tracks (after ops t) (h ++ history ops)
unfolding after
after-Tracks-history [] t h tr = rw (append-nil h) tr
after-Tracks-history ((now, op) ∷ ops) t h tr =
    rw (← append_assoc h (reports now op) (history ops))
      (after-Tracks-history ops (step now op t) (h ++ reports now op) (step-Tracks now op t h tr))

abbrev pub no_tables : Tables
no_tables = record { heartbeats = []; cost_events = []; cost_model_events = []; cost_daily = [] }

-- From empty tables, after any sequence of heartbeats, cost reports, reports by model, repairs and
-- prunes, the daily row of any agent, model and day holds the greatest amount that was reported for
-- them, and there is no such row where nothing was reported.
pub daily_row-IsPeak :
    (ops : List (ℕ × Op)) (k : DailyKey)
    → spent_on k (after ops no_tables).cost_daily ≡ peak k (history ops)
daily_row-IsPeak ops k =
    (after-Tracks-history ops no_tables []
        (record { daily = λ k. refl; agents = λ k. refl; models = λ k. refl })).daily
      k
