-- ===== src/Dashboard/Store/Costs.antt =====
-- The writes to the cost tables: `record_heartbeat`, `record_cost`, `record_cost_by_model`,
-- `rollup_cost_daily` and `prune_old_data` of dashboard/store.py.
use Prim.Native.Nat.{max}
use agent_bakery.Prelude.{
  ℕ, ◌+◌, ◌*◌, ◌/◌, Bool, ◌&&◌, Option, List, [], ◌∷◌, ◌++◌, map, ltb, ◌==◌, length, ◌-◌,
  if◌then◌else◌,
}
use agent_bakery.Prelude.Chars.{Chars, strip, is_space, same_text}
use agent_bakery.Dashboard.Store.{
  day_us, moment, amount, Heartbeat, CostEvent, CostModelEvent, DailyKey, Tables,
}

abbrev pub same_key : DailyKey → DailyKey → Bool
same_key j k = same_text j.agent k.agent && same_text j.model k.model && j.day == k.day

abbrev pub agent_total_model : Chars
agent_total_model = []

-- "unknown"
abbrev pub unknown_model : Chars
unknown_model = b'u' ∷ b'n' ∷ b'k' ∷ b'n' ∷ b'o' ∷ b'w' ∷ b'n' ∷ []

-- `ON CONFLICT … DO UPDATE SET usd = GREATEST(cost_daily.usd, EXCLUDED.usd)`
unfoldable pub rollup_upsert : DailyKey → ℕ → List (DailyKey × ℕ) → List (DailyKey × ℕ)
rollup_upsert key usd [] = (key, usd) ∷ []
rollup_upsert key usd ((j, old) ∷ rows) =
    if same_key j key then (j, max old usd) ∷ rows else (j, old) ∷ rollup_upsert key usd rows

abbrev pub daily_key : Chars → Chars → ℕ → DailyKey
daily_key agent model ts = record { agent = agent; model = model; day = ts / day_us }

unfoldable pub record_heartbeat : ℕ → Option ℕ → Heartbeat → Tables → Tables
record_heartbeat now ts beat t = record t {
  heartbeats = t.heartbeats ++ (record beat { ts = moment ts now }) ∷ [];
}

unfoldable pub record_cost : ℕ → Chars → Option ℕ → Option ℕ → Tables → Tables
record_cost now agent usd_today ts t =
    let when = moment ts now in
    let usd = amount usd_today in
    let event : CostEvent = record { agent = agent; ts = when; usd_today = usd } in
    record t {
      cost_events = t.cost_events ++ event ∷ [];
      cost_daily = rollup_upsert (daily_key agent agent_total_model when) usd t.cost_daily;
    }

abbrev pub or_unknown : Chars → Chars
or_unknown [] = unknown_model
or_unknown (c ∷ s) = c ∷ s

-- `str(model).strip() or _UNKNOWN_MODEL`
unfoldable pub model_label : Chars → Chars
unfolding strip
model_label model = or_unknown (strip is_space model)

abbrev pub record_model : Chars → ℕ → Chars → Option ℕ → Tables → Tables
record_model agent when model usd t =
    let label = model_label model in
    let event : CostModelEvent = record {
      agent = agent;
      model = label;
      ts = when;
      usd_today = amount usd;
    } in
    record t {
      cost_model_events = t.cost_model_events ++ event ∷ [];
      cost_daily = rollup_upsert (daily_key agent label when) (amount usd) t.cost_daily;
    }

-- The loop over the items of the mapping.
abbrev pub record_models : Chars → ℕ → List (Chars × Option ℕ) → Tables → Tables
record_models agent when [] t = t
record_models agent when ((model, usd) ∷ items) t =
    record_models agent when items (record_model agent when model usd t)

unfoldable pub record_cost_by_model :
    ℕ → Chars → List (Chars × Option ℕ) → Option ℕ → Tables → Tables
record_cost_by_model now agent by_model ts t = record_models agent (moment ts now) by_model t

abbrev pub event_of_agent : CostEvent → DailyKey × ℕ
event_of_agent e = (daily_key e.agent agent_total_model e.ts, e.usd_today)

abbrev pub event_of_model : CostModelEvent → DailyKey × ℕ
event_of_model e = (daily_key e.agent e.model e.ts, e.usd_today)

-- Rows folded into a table one by one.
unfoldable pub upsert_all : List (DailyKey × ℕ) → List (DailyKey × ℕ) → List (DailyKey × ℕ)
unfolding rollup_upsert
upsert_all [] rows = rows
upsert_all ((key, usd) ∷ news) rows = upsert_all news (rollup_upsert key usd rows)

-- `SELECT …, max(usd_today) … GROUP BY …`: a row for each key, with the greatest amount.
unfoldable pub grouped : List (DailyKey × ℕ) → List (DailyKey × ℕ)
unfolding upsert_all
grouped events = upsert_all events []

unfoldable pub rollup_cost_daily : Tables → Tables
unfolding grouped
rollup_cost_daily t =
    let totals = upsert_all (grouped (map event_of_agent t.cost_events)) t.cost_daily in
    record t { cost_daily = upsert_all (grouped (map event_of_model t.cost_model_events)) totals }

-- `DELETE … WHERE ts < now() - make_interval(days => days)`: what is left of a table.
unfoldable pub delete_older : {A : Type 0} → (A → ℕ) → ℕ → ℕ → List A → List A
delete_older ts now days [] = []
delete_older ts now days (row ∷ rows) =
    let rest = delete_older ts now days rows in
    if ltb (ts row + days * day_us) now then rest else row ∷ rest

pub record PruneCounts : Type 0 where
  pub heartbeats : ℕ
  pub cost_events : ℕ
  pub cost_model_events : ℕ

-- With the number of rows that go from each table.
unfoldable pub prune_old_data : ℕ → ℕ → Tables → Tables × PruneCounts
unfolding delete_older
prune_old_data now days t =
    let beats = delete_older Heartbeat.ts now days t.heartbeats in
    let events = delete_older CostEvent.ts now days t.cost_events in
    let model_events = delete_older CostModelEvent.ts now days t.cost_model_events in
    (
      record t { heartbeats = beats; cost_events = events; cost_model_events = model_events },
      record {
        heartbeats = length t.heartbeats - length beats;
        cost_events = length t.cost_events - length events;
        cost_model_events = length t.cost_model_events - length model_events;
      },
    )
