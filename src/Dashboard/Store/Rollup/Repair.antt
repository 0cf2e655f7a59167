-- ===== src/Dashboard/Store/Rollup/Repair.antt =====
-- The repair of the daily roll-up from the kept events: `rollup_cost_daily` of dashboard/store.py.
use agent_bakery.Prelude.{ℕ, ◌≡◌, Option, map, arith, sym, ap, ◌∙◌}
use agent_bakery.Dashboard.Store.{DailyKey, Tables}
use agent_bakery.Dashboard.Store.Costs.{
  event_of_agent, event_of_model, upsert_all, grouped, rollup_cost_daily,
}
use agent_bakery.Dashboard.Store.Rollup.{spent_on, greater, peak, spent_on-upsert_all, peak-grouped}

-- The greatest of a key's row, of the agents' kept events, and of the models'.
abbrev pub known : DailyKey → Tables → Option ℕ
known k t =
    greater (greater (spent_on k t.cost_daily) (peak k (map event_of_agent t.cost_events)))
      (peak k (map event_of_model t.cost_model_events))

known_again :
    (row agents models : Option ℕ)
    → greater (greater (greater (greater row agents) models) agents) models
      ≡ greater (greater row agents) models
known_again row agents models = ground arith

-- What a repair of the roll-up leaves under a key: the greatest of the row and of the kept events.
pub spent_on-rollup :
    (k : DailyKey) (t : Tables) → spent_on k (rollup_cost_daily t).cost_daily ≡ known k t
unfolding rollup_cost_daily
spent_on-rollup k t =
    let agents = map event_of_agent t.cost_events in
    let models = map event_of_model t.cost_model_events in
    cc (
      spent_on-upsert_all k (grouped models) (upsert_all (grouped agents) t.cost_daily),
      spent_on-upsert_all k (grouped agents) t.cost_daily,
      peak-grouped k agents,
      peak-grouped k models,
    )

-- Whatever the tables hold, with events that the roll-up lacks, say, a repair leaves under each key the
-- greatest of its row, of the agents' kept events and of the models', and a second repair changes no
-- row.
pub rollup_repairs :
    (t : Tables) (k : DailyKey)
    → (spent_on k (rollup_cost_daily t).cost_daily ≡ known k t)
      × (spent_on k (rollup_cost_daily (rollup_cost_daily t)).cost_daily
          ≡ spent_on k (rollup_cost_daily t).cost_daily)
rollup_repairs t k = (
  spent_on-rollup k t,
  unfold rollup_cost_daily in
      (spent_on-rollup k (rollup_cost_daily t)
        ∙ ap
            (λ row.
              greater (greater row (peak k (map event_of_agent t.cost_events)))
                (peak k (map event_of_model t.cost_model_events)))
            (spent_on-rollup k t)
        ∙ known_again (spent_on k t.cost_daily) (peak k (map event_of_agent t.cost_events))
            (peak k (map event_of_model t.cost_model_events))
        ∙ sym (spent_on-rollup k t)),
)
